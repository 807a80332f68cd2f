-- ===== src/Zns/Write/Effect.antt =====
-- What a write at the write pointer does when it succeeds, and what is left when it does not.
use nvmevirt_learned_ftl.Prelude.{
  ℕ, ◌+◌, ◌*◌, ◌^◌, ◌≤◌, ◌<◌, true, false, ◌≡◌, ◌≢◌, refl, sym, ◌∙◌, ap, arith, update, some, ◌==◌,
  if◌then◌else◌, inl, inr, subst, Bool-cases, ltb, >>=-eq-some, ensure-eq-some, some-eq, add64,
  ltb→lt,
}
use nvmevirt_learned_ftl.Ssd.Nand.{BufferId, ssd_buffer, zone_buffer, advance_write_buffer}
use nvmevirt_learned_ftl.Zns.State.{
  full, ZnsFtl, Status, success, lba_to_zone, release_zone_resource, change_zone_state,
  zone_to_slba,
}
use nvmevirt_learned_ftl.Zns.Place.{RwCommand, Outcome, replied, refused, nr_lbas, allocate_at}
use nvmevirt_learned_ftl.Zns.Write.{
  take_zone, increase_write_ptr, is_success, advance_zone, write_runs, write_timing, buffered_write,
  write_zone,
}
use nvmevirt_learned_ftl.Zns.Write.Steps.{take_zone-Moves, take_zone-open, take_zone-refused}
use nvmevirt_learned_ftl.Zns.Write.Kept.{IsRange, advance_zone-cases, settle-cases}
use nvmevirt_learned_ftl.Zns.Write.Timed.{allocate_at-SameZones}
use nvmevirt_learned_ftl.Zns.Onward.{SameZones-IsZoned}
use nvmevirt_learned_ftl.Zns.Layout.{zone_to_slba_lem, zone_end}
use nvmevirt_learned_ftl.Zns.Accounts.{IsZoned, open_state}
use nvmevirt_learned_ftl.Zns.Accounts.Kept.{Moves, Moves-IsZoned}

-- A write of `nr_lba` sectors from `slba` on to zone `zid`, as the host sees it: it starts at the write
-- pointer, moves it by what it writes, and leaves the zone full at its end and open before.
pub record IsAppend (zid slba nr_lba : ℕ) (f g : ZnsFtl) : Type 0 where
  pub at_wp : slba ≡ (f.zone_descs zid).wp
  pub moved : (g.zone_descs zid).wp ≡ slba + nr_lba
  pub filled :
      slba + nr_lba ≡ (f.zone_descs zid).zslba + (f.zone_descs zid).zone_capacity
      → (g.zone_descs zid).state ≡ full
  pub stays_open :
      slba + nr_lba ≢ (f.zone_descs zid).zslba + (f.zone_descs zid).zone_capacity
      → open_state (g.zone_descs zid).state ≡ true

increase_write_ptr_lem :
    (f : ZnsFtl) (zid nr_lba e : ℕ)
    → open_state (f.zone_descs zid).state ≡ true
    → add64 (zone_to_slba f zid) (f.zone_descs zid).zone_capacity ≡ e
    → (f.zone_descs zid).wp + nr_lba < 2 ^ 64
    → (((increase_write_ptr f zid nr_lba).zone_descs zid).wp ≡ (f.zone_descs zid).wp + nr_lba)
      × ((f.zone_descs zid).wp + nr_lba ≡ e
          → ((increase_write_ptr f zid nr_lba).zone_descs zid).state ≡ full)
      × ((f.zone_descs zid).wp + nr_lba ≢ e
          → open_state ((increase_write_ptr f zid nr_lba).zone_descs zid).state ≡ true)
unfolding increase_write_ptr release_zone_resource change_zone_state update
increase_write_ptr_lem f zid nr_lba e o q w = ground arith

module _ {leaked : ℕ} (f : ZnsFtl) (h : IsZoned leaked f) (zid nr_lba : ℕ)
    (k : IsRange f zid nr_lba) where
  taken-IsAppend :
      (slba : ℕ) (t : ZnsFtl)
      → take_zone (f.zone_descs zid).state f zid slba ≡ (success, t)
      → slba ≡ (f.zone_descs zid).wp
      → IsAppend zid slba nr_lba f (increase_write_ptr t zid nr_lba)
  taken-IsAppend slba t e at =
      let s = (f.zone_descs zid).state in
      let l = k.in_range in
      let few = k.few_lbas in
      let m : Moves 0 zid f t =
        subst (λ r. Moves 0 zid f r.1) e (take_zone-Moves f h zid l s slba refl) in
      let z = Moves-IsZoned f h zid l t m in
      let lt : zid < t.zp.nr_zones = subst (λ p. zid < p.nr_zones) (sym m.zp_same) l in
      let (o, w, _) = take_zone-open f h zid l s slba t refl e in
      let b = zone_to_slba_lem t z.layout zid lt in
      let st = z.layout.start zid lt in
      let c = z.layout.capacity zid lt in
      let en = zone_end t z.layout zid lt in
      let up = (z.zones zid lt).to_end in
      let end_same : add64 (zone_to_slba t zid) (t.zone_descs zid).zone_capacity
          ≡ (f.zone_descs zid).zslba + (f.zone_descs zid).zone_capacity =
        rw (b, sym m.start_same, sym m.capacity_same) (omega arith) in
      let i = increase_write_ptr_lem t zid nr_lba _ o end_same (omega arith) in
      record {
        at_wp = at;
        moved = i.0 ∙ rw (at, w) refl;
        filled = λ q. i.1 (rw (w, sym at) q);
        stays_open = λ q. i.2 (rw (w, sym at) q);
      }

  -- On a zoned state in order, and for a range of 1 to 2^16 sectors and a zone of the namespace:
  -- where the checks and the switch of `__zns_write` give success, the range starts at the write
  -- pointer, which moves by its length, and the zone is full if the range ends at the end of the
  -- zone and open if not; where they give another status, nothing has changed.
  pub advance_zone_lem :
      (lba_bits slba : ℕ) {st : Status} {g : ZnsFtl}
      → advance_zone lba_bits f zid slba nr_lba ≡ (st, g)
      → (st ≡ success → IsAppend zid slba nr_lba f g) × (st ≢ success → g ≡ f)
  advance_zone_lem lba_bits slba {st} {g} e =
      elim (advance_zone-cases lba_bits f zid slba nr_lba e) [
        | inl (same, ne) ↦ (λ q. absurd (ne q), λ _. same)
        | inr (at, _, q) ↦
            let s = (f.zone_descs zid).state in
            let r = take_zone s f zid slba in
            elim (settle-cases zid nr_lba r) [
              | inl (ok, p) ↦ (
                λ _.
                    subst (IsAppend zid slba nr_lba f) (sym (ap (λ x. x.1) (q ∙ p)))
                      (taken-IsAppend slba r.1 (ap (λ x. (x, r.1)) ok) at),
                λ ne. absurd (ne (ap (λ x. x.0) (q ∙ p))),
              )
              | inr (no_success, p) ↦ (
                λ ok. absurd (no_success (ap (λ x. x.0) (sym (q ∙ p)) ∙ ok)),
                λ _. ap (λ x. x.1) (q ∙ p) ∙ take_zone-refused f h zid k.in_range s slba no_success,
              )
            ]
      ]

-- The buffer that `__zns_write` takes from
abbrev pub buffer_of : ZnsFtl → ℕ → BufferId
buffer_of f zid = if f.zp.zone_wb_size == 0 then ssd_buffer else zone_buffer zid

module _ (clock : ℕ → ℕ) (lba_bits : ℕ) where
  write_timing-success :
      (f : ZnsFtl) (b : BufferId) (zid : ℕ) (cmd : RwCommand) {o : Outcome}
      → write_timing clock lba_bits f b zid cmd ≡ some o
      → (t : ℕ) × (o.reply ≡ replied success t)
  unfolding write_timing
  write_timing-success f b zid cmd q =
      let (w, _, e1) =
        >>=-eq-some (advance_write_buffer clock f.device.ssd.sp f.device.bus cmd.nsecs_start _) _
          q in
      let (r, _, e2) = >>=-eq-some (write_runs clock _ f b cmd.sq_id w.0 _ _ _ _) _ e1 in
      (_, ap (λ x. x.reply) (sym (some-eq e2)))

  buffered_write-error :
      {leaked : ℕ} (f : ZnsFtl) (b : BufferId) (zid : ℕ) (cmd : RwCommand) (st : Status) (t : ℕ)
      {o : Outcome}
      → IsZoned leaked f
      → IsRange f zid (nr_lbas cmd)
      → buffered_write clock lba_bits f b zid cmd ≡ some o
      → o.reply ≡ replied st t
      → st ≢ success
      → o.ftl ≡ f
  unfolding buffered_write
  buffered_write-error f b zid cmd st t {o} h k q0 reply ne =
      let (_, q) = ensure-eq-some (ltb 0 f.device.ssd.sp.write_unit_size) _ q0 in
      let r = advance_zone lba_bits f zid cmd.slba (nr_lbas cmd) in
      elim (Bool-cases (is_success r.0)) [
        | inl ok ↦
            let w : write_timing clock lba_bits r.1 b zid cmd ≡ some o = sym (rw ok refl) ∙ q in
            let (_, s) = write_timing-success r.1 b zid cmd w in
            absurd (ne (replied-eq (sym reply ∙ s)))
        | inr no_success ↦
            let stopped : Outcome = record {
              reply = replied r.0 cmd.nsecs_start;
              cmd = cmd;
              ftl = r.1;
            } in
            let w : some stopped ≡ some o = sym (rw no_success refl) ∙ q in
            ap (λ x. x.ftl) (sym (some-eq w))
            ∙ (advance_zone_lem f h zid (nr_lbas cmd) k lba_bits cmd.slba refl).1
                (λ s. success_not r.0 s no_success)
      ]
    where
      replied-eq : {x y : Status} {m n : ℕ} → replied x m ≡ replied y n → x ≡ y
      replied-eq e = cc

      success_not : (x : Status) → x ≡ success → is_success x ≡ false → ⊥
      success_not x e q = ground arith

  -- On a zoned state in order and with a length of 16 bits, a write or an append that `__zns_write`
  -- answers with an error status leaves the state as the allocation from the write buffer left it:
  -- no less than the size of the command was taken from the buffer and is not given back, and
  -- nothing else has changed.
  pub write_zone-error :
      {leaked : ℕ} (f : ZnsFtl) (cmd : RwCommand) (st : Status) (t : ℕ) {o : Outcome}
      → IsZoned leaked f
      → cmd.length < 2 ^ 16
      → write_zone clock lba_bits f cmd ≡ some o
      → o.reply ≡ replied st t
      → st ≢ success
      → (n : ℕ) × (allocate_at f (buffer_of f (lba_to_zone f cmd.slba)) (nr_lbas cmd * 2 ^ lba_bits)
          ≡ some (n, o.ftl))
        × (nr_lbas cmd * 2 ^ lba_bits ≤ n)
  unfolding write_zone
  write_zone-error {leaked} f cmd st t {o} h short q reply ne =
      let zid = lba_to_zone f cmd.slba in
      let size = nr_lbas cmd * 2 ^ lba_bits in
      let b = buffer_of f zid in
      let cmd' = if cmd.append then record cmd { slba = (f.zone_descs zid).wp } else cmd in
      let same_length : cmd'.length ≡ cmd.length = ground arith in
      let (l, e1) = ensure-eq-some (ltb zid f.zp.nr_zones) _ q in
      let (a, e2, e3) = >>=-eq-some (allocate_at f b size) _ e1 in
      let s = allocate_at-SameZones f b size e2 in
      let k : IsRange a.1 zid (nr_lbas cmd') = record {
        in_range = subst (λ z. zid < z.nr_zones) (sym s.zp_same) (ltb→lt zid f.zp.nr_zones l);
        some_lba = omega arith;
        few_lbas = omega arith;
      } in
      elim (Bool-cases (ltb a.0 size)) [
        | inl few ↦
            let stopped : Outcome = record { reply = refused; cmd = cmd'; ftl = a.1 } in
            let w : some stopped ≡ some o = sym (rw few refl) ∙ e3 in
            absurd (no_reply (ap (λ x. x.reply) (some-eq w) ∙ reply))
        | inr all ↦
            let w : buffered_write clock lba_bits a.1 b zid cmd' ≡ some o =
              sym (rw all refl) ∙ e3 in
            let same =
              buffered_write-error a.1 b zid cmd' st t (SameZones-IsZoned f a.1 h s) k w reply ne in
            (a.0, e2 ∙ ap (λ x. some (a.0, x)) (sym same), ground arith)
      ]
    where
      no_reply : {x : Status} {n : ℕ} → refused ≡ replied x n → ⊥
      no_reply e = cc
