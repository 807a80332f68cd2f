-- ===== src/Zns/Write/Whole.antt =====
-- `__zns_write` as a whole.
use nvmevirt_learned_ftl.Prelude.{
  ℕ, ◌*◌, ◌^◌, ◌<◌, ◌≡◌, refl, sym, ◌∙◌, arith, some, ◌==◌, if◌then◌else◌, inl, inr, subst,
  Bool-cases, ltb, ltb→lt, >>=-eq-some, ensure-eq-some, some-eq,
}
use nvmevirt_learned_ftl.Ssd.Nand.{BufferId, ssd_buffer, zone_buffer}
use nvmevirt_learned_ftl.Zns.State.{ZnsFtl, lba_to_zone}
use nvmevirt_learned_ftl.Zns.Place.{RwCommand, Outcome, replied, refused, nr_lbas, allocate_at}
use nvmevirt_learned_ftl.Zns.Write.{
  is_success, advance_zone, write_timing, buffered_write, write_zone,
}
use nvmevirt_learned_ftl.Zns.Write.Kept.{IsRange, advance_zone-Onward}
use nvmevirt_learned_ftl.Zns.Write.Timed.{write_timing-SameZones, allocate_at-SameZones}
use nvmevirt_learned_ftl.Zns.Accounts.{IsZoned}
use nvmevirt_learned_ftl.Zns.Onward.{Onward, Onward-trans, SameZones-Onward}

module _ (clock : ℕ → ℕ) where
  buffered_write-Onward :
      {leaked : ℕ} (lba_bits : ℕ) (f : ZnsFtl) (b : BufferId) (zid : ℕ) (cmd : RwCommand)
      {o : Outcome}
      → IsZoned leaked f
      → IsRange f zid (nr_lbas cmd)
      → buffered_write clock lba_bits f b zid cmd ≡ some o
      → Onward leaked f o.ftl
  unfolding buffered_write
  buffered_write-Onward {leaked} lba_bits f b zid cmd {o} h k q0 =
      let (_, q) = ensure-eq-some (ltb 0 f.device.ssd.sp.write_unit_size) _ q0 in
      let r = advance_zone lba_bits f zid cmd.slba (nr_lbas cmd) in
      let on : Onward leaked f r.1 =
        advance_zone-Onward f h zid (nr_lbas cmd) k lba_bits cmd.slba refl in
      elim (Bool-cases (is_success r.0)) [
        | inl ok ↦
            let t : write_timing clock lba_bits r.1 b zid cmd ≡ some o = sym (rw ok refl) ∙ q in
            Onward-trans on
              (SameZones-Onward on.zoned (write_timing-SameZones clock lba_bits r.1 b zid cmd t))
        | inr ne ↦
            let stopped : Outcome = record {
              reply = replied r.0 cmd.nsecs_start;
              cmd = cmd;
              ftl = r.1;
            } in
            let t : some stopped ≡ some o = sym (rw ne refl) ∙ q in
            subst (λ x. Onward leaked f x.ftl) (some-eq t) on
      ]

  admitted-Onward :
      {leaked : ℕ} (lba_bits : ℕ) (f : ZnsFtl) (b : BufferId) (zid size : ℕ) (cmd : RwCommand)
      (a : ℕ × ZnsFtl) {o : Outcome}
      → IsZoned leaked f
      → IsRange f zid (nr_lbas cmd)
      → allocate_at f b size ≡ some a
      → (if ltb a.0 size
          then some (record { reply = refused; cmd = cmd; ftl = a.1 })
          else buffered_write clock lba_bits a.1 b zid cmd)
        ≡ some o
      → Onward leaked f o.ftl
  admitted-Onward {leaked} lba_bits f b zid size cmd a {o} h k e q =
      let on = SameZones-Onward h (allocate_at-SameZones f b size e) in
      let k' : IsRange a.1 zid (nr_lbas cmd) = record {
        in_range = subst (λ z. zid < z.nr_zones) (sym on.zp_same) k.in_range;
        some_lba = k.some_lba;
        few_lbas = k.few_lbas;
      } in
      elim (Bool-cases (ltb a.0 size)) [
        | inl few ↦
            let stopped : Outcome = record { reply = refused; cmd = cmd; ftl = a.1 } in
            let t : some stopped ≡ some o = sym (rw few refl) ∙ q in
            subst (λ x. Onward leaked f x.ftl) (some-eq t) on
        | inr all ↦
            let t : buffered_write clock lba_bits a.1 b zid cmd ≡ some o = sym (rw all refl) ∙ q in
            Onward-trans on (buffered_write-Onward lba_bits a.1 b zid cmd on.zoned k' t)
      ]

  pub write_zone-Onward :
      {leaked : ℕ} (lba_bits : ℕ) (f : ZnsFtl) (cmd : RwCommand) {o : Outcome}
      → IsZoned leaked f
      → cmd.length < 2 ^ 16
      → write_zone clock lba_bits f cmd ≡ some o
      → Onward leaked f o.ftl
  unfolding write_zone
  write_zone-Onward lba_bits f cmd {o} h short q =
      let zid = lba_to_zone f cmd.slba in
      let size = nr_lbas cmd * 2 ^ lba_bits in
      let b = if f.zp.zone_wb_size == 0 then ssd_buffer else zone_buffer zid in
      let cmd' = if cmd.append then record cmd { slba = (f.zone_descs zid).wp } else cmd in
      let same_length : cmd'.length ≡ cmd.length = ground arith in
      let (l, e1) = ensure-eq-some (ltb zid f.zp.nr_zones) _ q in
      let (a, e2, e3) = >>=-eq-some (allocate_at f b size) _ e1 in
      let k : IsRange f zid (nr_lbas cmd') = record {
        in_range = ltb→lt zid f.zp.nr_zones l;
        some_lba = omega arith;
        few_lbas = omega arith;
      } in
      admitted-Onward lba_bits f b zid size cmd' a h k e2 e3
