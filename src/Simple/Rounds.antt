-- ===== src/Simple/Rounds.antt =====
-- `__schedule_io_units` ends, and when it says that the command is done.
use nvmevirt_learned_ftl.Prelude.{
  ℕ, zero, suc, ◌+◌, ◌-◌, ◌*◌, ◌/◌, ◌%◌, ◌^◌, ◌≤◌, ◌<◌, ◌≡◌, refl, ◌∙◌, arith, subst, min, max,
  some, true, false, u32, inl, inr, eq-cases, ◌==◌, add64, ne→==,
}
use native.Mathlib.Nat.{add-div_right, one-le-pow, le-div_iff_mul-le, div-lt_iff_lt-mul}
use native.Mathlib.Decide.{dec_le}
use nvmevirt_learned_ftl.Simple.{
  UnitConfig, UnitOpcode, Costs, costs, Units, unit_round, unit_rounds, schedule_io_units,
  has_units, cmd_io_size, simple_proc_nvme_io_cmd,
}

-- The rounds of the loop: the units that the length covers, and at least one
unfoldable pub rounds : ℕ → ℕ → ℕ
rounds size length = max 1 ((length + size - 1) / size)

more_rounds : (n size : ℕ) → 0 < size → size < n → rounds size n ≡ 1 + rounds size (n - size)
unfolding rounds
more_rounds n size p l =
    let m = n - size in
    let e : n + size - 1 ≡ (m + size - 1) + size = omega arith in
    let d = add-div_right (m + size - 1) p in
    let some_left : 1 ≤ (m + size - 1) / size = (le-div_iff_mul-le p).1 (omega arith) in
    rw (e, d) (omega arith)

one_round : (n size : ℕ) → 0 < size → n ≤ size → rounds size n ≡ 1
unfolding rounds
one_round n size p l =
    let d : (n + size - 1) / size < 2 = (div-lt_iff_lt-mul p).1 (omega arith) in omega arith

-- What one round leaves
unit_round_lem :
    (c : UnitConfig) (k : Costs) (s : Units)
    → s.latest + k.latency < 2 ^ 64
    → ((unit_round c k s).latest ≡ s.latest + k.latency)
      × ((unit_round c k s).length ≡ s.length - min s.length (2 ^ c.io_unit_shift))
unfolding unit_round
unit_round_lem c k s w = (omega arith, refl)

unit_rounds_last :
    (fuel : ℕ) (c : UnitConfig) (k : Costs) (s : Units)
    → (unit_round c k s).length ≡ 0
    → unit_rounds fuel c k s ≡ some (unit_round c k s)
unfolding unit_rounds
unit_rounds_last zero c k s e = rw e refl
unit_rounds_last (suc n) c k s e = rw e refl

unit_rounds_next :
    (n : ℕ) (c : UnitConfig) (k : Costs) (s : Units)
    → ((unit_round c k s).length == 0) ≡ false
    → unit_rounds (suc n) c k s ≡ unit_rounds n c k (unit_round c k s)
unfolding unit_rounds
unit_rounds_next n c k s e = rw e refl

-- The loop returns after the rounds of its length.
Ends : ℕ → UnitConfig → Costs → Units → Type 0
Ends fuel c k s =
    (t : Units) × (unit_rounds fuel c k s ≡ some t)
    × (t.latest ≡ s.latest + rounds (2 ^ c.io_unit_shift) s.length * k.latency)

now-Ends :
    (fuel : ℕ) (c : UnitConfig) (k : Costs) (s : Units)
    → 0 < 2 ^ c.io_unit_shift
    → s.length ≤ 2 ^ c.io_unit_shift
    → s.latest + rounds (2 ^ c.io_unit_shift) s.length * k.latency < 2 ^ 64
    → Ends fuel c k s
unfolding Ends
now-Ends fuel c k s p last w =
    let one = one_round s.length (2 ^ c.io_unit_shift) p last in
    let w1 : s.latest + 1 * k.latency < 2 ^ 64 =
      subst (λ r. s.latest + r * k.latency < 2 ^ 64) one w in
    let (l, n) = unit_round_lem c k s (omega arith) in
    (unit_round c k s, unit_rounds_last fuel c k s (n ∙ omega arith), l ∙ rw one (omega arith))

-- With a round for each byte, the loop ends.
unit_rounds_lem :
    (fuel : ℕ) (c : UnitConfig) (k : Costs) (s : Units)
    → 0 < 2 ^ c.io_unit_shift
    → s.length ≤ fuel
    → s.latest + rounds (2 ^ c.io_unit_shift) s.length * k.latency < 2 ^ 64
    → Ends fuel c k s
unfolding Ends
unit_rounds_lem zero c k s p enough w = now-Ends zero c k s p (omega arith) w
unit_rounds_lem (suc fuel) c k s p enough w =
    let size = 2 ^ c.io_unit_shift in
    elim (dec_le s.length size) [
      | yes last ↦ now-Ends (suc fuel) c k s p last w
      | no longer ↦
          let more = more_rounds s.length size p (omega arith) in
          let r = rounds size (s.length - size) in
          let w1 : s.latest + (1 + r) * k.latency < 2 ^ 64 =
            subst (λ r. s.latest + r * k.latency < 2 ^ 64) more w in
          let (l, n) = unit_round_lem c k s (omega arith) in
          let n1 : (unit_round c k s).length ≡ s.length - size = n ∙ omega arith in
          let w2 : (unit_round c k s).latest + rounds size (unit_round c k s).length * k.latency
              < 2 ^ 64 =
            rw (l, n1) (omega arith) in
          let (t, e, q) = unit_rounds_lem fuel c k (unit_round c k s) p (omega arith) w2 in
          let going : ((unit_round c k s).length == 0) ≡ false = ne→== _ 0 (λ z. omega arith) in
          (t, unit_rounds_next fuel c k s going ∙ e, q ∙ rw (l, n1, more) (omega arith))
    ]

-- It ends as well where the times wrap.
unit_rounds-returns :
    (fuel : ℕ) (c : UnitConfig) (k : Costs) (s : Units)
    → 0 < 2 ^ c.io_unit_shift
    → s.length ≤ fuel
    → (t : Units) × (unit_rounds fuel c k s ≡ some t)
unfolding unit_rounds unit_round
unit_rounds-returns zero c k s p enough =
    let e : (unit_round c k s).length ≡ 0 = omega arith in
    (unit_round c k s, unit_rounds_last zero c k s e)
unit_rounds-returns (suc fuel) c k s p enough = elim (eq-cases (unit_round c k s).length 0) [
  | inl e ↦ (unit_round c k s, unit_rounds_last (suc fuel) c k s e)
  | inr ne ↦
      let (t, e) = unit_rounds-returns fuel c k (unit_round c k s) p (omega arith) in
      (t, unit_rounds_next fuel c k s (ne→== _ 0 ne) ∙ e)
]

-- With some I/O units and shifts that are defined, the layer returns on every command.
pub simple_proc_nvme_io_cmd-returns :
    (lba_bits : ℕ) (c : UnitConfig) (stat : ℕ → ℕ) (opcode : UnitOpcode)
    (slba length wallclock nsecs_start : ℕ)
    → has_units lba_bits c ≡ true
    → (r : ℕ × (ℕ → ℕ)) × (simple_proc_nvme_io_cmd lba_bits c stat opcode slba length wallclock
          nsecs_start
        ≡ some r)
unfolding simple_proc_nvme_io_cmd schedule_io_units
simple_proc_nvme_io_cmd-returns lba_bits c stat opcode slba length wallclock nsecs_start defined =
    go opcode
  where
    size : ℕ
    size = u32 (cmd_io_size lba_bits length)

    first : ℕ
    first = slba / 2 ^ (c.io_unit_shift - lba_bits) % c.nr_io_units

    start : UnitOpcode → Units
    start op = record {
      io_unit_stat = stat;
      io_unit = first;
      nr_io_units = min c.nr_io_units ((size + 2 ^ c.io_unit_shift - 1) / 2 ^ c.io_unit_shift);
      latest = add64 (max wallclock (stat first)) (costs c op).delay;
      length = size;
    }

    units :
        (op : UnitOpcode)
        → (r : ℕ × (ℕ → ℕ)) × (schedule_io_units lba_bits c stat op slba size wallclock ≡ some r)
    units op =
        let (t, e) =
          unit_rounds-returns size c (costs c op) (start op)
            (one-le-pow c.io_unit_shift 2 (omega arith)) (omega arith) in
        ((t.latest, t.io_unit_stat), rw (defined, e) refl)

    go :
        (op : UnitOpcode)
        → (r : ℕ × (ℕ → ℕ)) × (simple_proc_nvme_io_cmd lba_bits c stat op slba length wallclock
              nsecs_start
            ≡ some r)
    go UnitOpcode.write = units UnitOpcode.write
    go UnitOpcode.read = units UnitOpcode.read
    go UnitOpcode.flush = (_, refl)
    go UnitOpcode.other = (_, refl)

-- With some I/O units, `io_unit_shift` from `LBA_BITS` to 31, and the sum of the times below 2^64:
-- `__schedule_io_units` returns, and the command is done after the delay and one latency for each
-- I/O unit's worth of its length, at least one, from the start time or from when its first unit is
-- free, whichever is later.
pub schedule_io_units_lem :
    (lba_bits : ℕ) (c : UnitConfig) (stat : ℕ → ℕ) (opcode : UnitOpcode)
    (lba length nsecs_start : ℕ)
    → 0 < c.nr_io_units
    → lba_bits ≤ c.io_unit_shift
    → c.io_unit_shift < 32
    → max nsecs_start (stat (lba / 2 ^ (c.io_unit_shift - lba_bits) % c.nr_io_units))
        + (costs c opcode).delay
        + rounds (2 ^ c.io_unit_shift) length * (costs c opcode).latency
      < 2 ^ 64
    → (r : ℕ × (ℕ → ℕ)) × (schedule_io_units lba_bits c stat opcode lba length nsecs_start ≡ some r)
      × (r.0
          ≡ max nsecs_start (stat (lba / 2 ^ (c.io_unit_shift - lba_bits) % c.nr_io_units))
            + (costs c opcode).delay
            + rounds (2 ^ c.io_unit_shift) length * (costs c opcode).latency)
unfolding schedule_io_units Ends
schedule_io_units_lem lba_bits c stat opcode lba length nsecs_start units wide narrow w =
    let k = costs c opcode in
    let size = 2 ^ c.io_unit_shift in
    let first = lba / 2 ^ (c.io_unit_shift - lba_bits) % c.nr_io_units in
    let s : Units = record {
      io_unit_stat = stat;
      io_unit = first;
      nr_io_units = min c.nr_io_units ((length + size - 1) / size);
      latest = add64 (max nsecs_start (stat first)) k.delay;
      length = length;
    } in
    let defined : has_units lba_bits c ≡ true = ground arith in
    let whole : s.latest ≡ max nsecs_start (stat first) + k.delay = omega arith in
    let (t, e, q) =
      unit_rounds_lem length c k s (one-le-pow c.io_unit_shift 2 (omega arith)) (omega arith)
        (rw whole w) in
    ((t.latest, t.io_unit_stat), rw (defined, e) refl, q ∙ rw whole refl)
