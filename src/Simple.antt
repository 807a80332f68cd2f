-- ===== src/Simple.antt =====
-- The simple layer, simple_ftl.c: a device of I/O units that share the work of each command.
pub mod Rounds
pub mod Idle
mod Tests
use nvmevirt_learned_ftl.Prelude.{
  ℕ, zero, suc, ◌+◌, ◌-◌, ◌*◌, ◌/◌, ◌%◌, ◌^◌, min, max, Bool, Option, some, none, ltb, leb, ◌==◌,
  if◌then◌else◌, ◌>>=◌, ◌>>◌, ◌&&◌, ensure, update, u32, add32, add64,
}

-- The fields of `struct nvmev_config` that the layer reads
pub record UnitConfig : Type 0 where
  pub nr_io_units : ℕ
  pub io_unit_shift : ℕ
  pub write_delay : ℕ
  pub write_time : ℕ
  pub write_trailing : ℕ
  pub read_delay : ℕ
  pub read_time : ℕ
  pub read_trailing : ℕ

-- `nvme_cmd_write`, `nvme_cmd_read`, `nvme_cmd_flush`, and the opcodes that are not implemented
pub data UnitOpcode : Type 0 where
  write read flush other : UnitOpcode

-- What `__schedule_io_units` takes from the configuration for an opcode
pub record Costs : Type 0 where
  pub delay : ℕ
  pub latency : ℕ
  pub trailing : ℕ

unfoldable pub costs : UnitConfig → UnitOpcode → Costs
costs c write = record {
  delay = c.write_delay;
  latency = c.write_time;
  trailing = c.write_trailing;
}
costs c read = record { delay = c.read_delay; latency = c.read_time; trailing = c.read_trailing }
costs c _ = record { delay = 0; latency = 0; trailing = 0 }

-- The variables of the loop, with `nvmev_vdev->io_unit_stat`
pub record Units : Type 0 where
  pub io_unit_stat : ℕ → ℕ
  pub io_unit : ℕ
  pub nr_io_units : ℕ
  pub latest : ℕ
  pub length : ℕ

-- The body of the `do` loop. `nr_io_units` goes on below 0 in C, where it is not tested but for its
-- sign.
unfoldable pub unit_round : UnitConfig → Costs → Units → Units
unit_round c k s =
    let latest = add64 s.latest k.latency in
    let stat = if ltb 0 s.nr_io_units then add64 latest k.trailing else latest in
    record {
      io_unit_stat = update s.io_unit_stat s.io_unit stat;
      io_unit = if leb c.nr_io_units (s.io_unit + 1) then 0 else s.io_unit + 1;
      nr_io_units = s.nr_io_units - 1;
      latest = latest;
      length = s.length - min s.length (2 ^ c.io_unit_shift);
    }

-- `do { … } while (length > 0)`; the fuel is the number of bytes, of which each round takes some.
unfoldable pub unit_rounds : ℕ → UnitConfig → Costs → Units → Option Units
unfolding unit_round
unit_rounds zero c k s = let s' = unit_round c k s in if s'.length == 0 then some s' else none
unit_rounds (suc n) c k s =
    let s' = unit_round c k s in
    let rest = unit_rounds n c k s' in if s'.length == 0 then some s' else rest

-- Whether the three expressions at the top of `__schedule_io_units` are defined: a remainder by
-- `nr_io_units`, which the host can set to 0, and shifts of 32 bits by `io_unit_shift` and by its
-- excess over `LBA_BITS`
abbrev pub has_units : ℕ → UnitConfig → Bool
has_units lba_bits c = ltb 0 c.nr_io_units && leb lba_bits c.io_unit_shift && ltb c.io_unit_shift 32

-- `__schedule_io_units`: the time of completion, and `io_unit_stat` after it; `none` is a fault.
unfoldable pub schedule_io_units :
    ℕ → UnitConfig → (ℕ → ℕ) → UnitOpcode → ℕ → ℕ → ℕ → Option (ℕ × (ℕ → ℕ))
unfolding unit_rounds costs
schedule_io_units lba_bits c stat opcode lba length nsecs_start =
    let k = costs c opcode in
    let size = 2 ^ c.io_unit_shift in
    let first = lba / 2 ^ (c.io_unit_shift - lba_bits) % c.nr_io_units in
    ensure (has_units lba_bits c)
    >> unit_rounds length c k (record {
      io_unit_stat = stat;
      io_unit = first;
      nr_io_units = min c.nr_io_units ((length + size - 1) / size);
      latest = add64 (max nsecs_start (stat first)) k.delay;
      length = length;
    })
    >>= λ s. some (s.latest, s.io_unit_stat)

-- The loop of `__schedule_flush`, with `n` rounds left
unfoldable pub latest_unit : (ℕ → ℕ) → ℕ → ℕ → ℕ → ℕ
latest_unit stat zero i latest = latest
latest_unit stat (suc n) i latest = latest_unit stat n (i + 1) (max latest (stat i))

-- `__schedule_flush`
unfoldable pub schedule_flush : UnitConfig → (ℕ → ℕ) → ℕ
unfolding latest_unit
schedule_flush c stat = latest_unit stat c.nr_io_units 0 0

-- `__cmd_io_size`: `length` has 16 bits, so its shift is that of an `int`.
unfoldable pub cmd_io_size : ℕ → ℕ → ℕ
cmd_io_size lba_bits length = (length + 1) * 2 ^ lba_bits

-- `simple_proc_nvme_io_cmd`, with the reading of `__get_wallclock` and the start time of the command:
-- an opcode that is not implemented keeps that time.
unfoldable pub simple_proc_nvme_io_cmd :
    ℕ → UnitConfig → (ℕ → ℕ) → UnitOpcode → ℕ → ℕ → ℕ → ℕ → Option (ℕ × (ℕ → ℕ))
unfolding schedule_io_units schedule_flush cmd_io_size
simple_proc_nvme_io_cmd lba_bits c stat write slba length wallclock nsecs_start =
    schedule_io_units lba_bits c stat write slba (u32 (cmd_io_size lba_bits length)) wallclock
simple_proc_nvme_io_cmd lba_bits c stat read slba length wallclock nsecs_start =
    schedule_io_units lba_bits c stat read slba (u32 (cmd_io_size lba_bits length)) wallclock
simple_proc_nvme_io_cmd lba_bits c stat flush slba length wallclock nsecs_start =
    some (schedule_flush c stat, stat)
simple_proc_nvme_io_cmd lba_bits c stat other slba length wallclock nsecs_start =
    some (nsecs_start, stat)
