-- ===== src/Zns/Zrwa/Whole.antt =====
-- `__zns_write_zrwa` as a whole: what it flushes lies in the zone.
use nvmevirt_learned_ftl.Prelude.{
  ℕ, ◌+◌, ◌-◌, ◌*◌, ◌%◌, ◌^◌, ◌≤◌, ◌<◌, ◌≡◌, refl, sym, ◌∙◌, arith, some, true, false, Bool, ◌==◌,
  if◌then◌else◌, inl, inr, ◌⊎◌, subst, Bool-cases, ltb, ltb→lt, ◌>>=◌, >>=-eq-some, ensure-eq-some,
  some-eq, add64, sub64, mul64, mul32, div_round_up, u32,
}
use native.Mathlib.Nat.{div-mul-le_self}
use nvmevirt_learned_ftl.Ssd.Nand.{zrwa_buffer}
use nvmevirt_learned_ftl.Zns.State.{ZnsFtl, Status, lba_to_zone, zone_lbas}
use nvmevirt_learned_ftl.Zns.Place.{
  RwCommand, Outcome, replied, refused, nr_lbas, last_lba, allocate_at, check_boundary_error,
}
use nvmevirt_learned_ftl.Zns.Write.{is_success, increase_write_ptr}
use nvmevirt_learned_ftl.Zns.Write.Steps.{increase_write_ptr-Moves, increase_write_ptr-⟶}
use nvmevirt_learned_ftl.Zns.Write.Timed.{area_timing-SameZones, allocate_at-SameZones}
use nvmevirt_learned_ftl.Zns.Zrwa.{
  take_area, admit_area, nr_lbas_flush, flush_area, area_timing, write_area, write_zrwa,
}
use nvmevirt_learned_ftl.Zns.Zrwa.Kept.{Opened, take_area-Taken}
use nvmevirt_learned_ftl.Zns.Layout.{
  zone_end, zone_to_elba_lem, lba_to_zone-home, check_boundary_error_lem,
}
use nvmevirt_learned_ftl.Zns.Accounts.{IsZoned, open_state}
use nvmevirt_learned_ftl.Zns.Onward.{
  Onward, Onward-refl, Onward-trans, Moves-Onward, SameZones, SameZones-Onward,
}

-- A flush takes no more than the area, and twice the area fits in 32 bits. With no area at all both
-- sizes are 0.
pub record IsArea (f : ZnsFtl) : Type 0 where
  pub granules : f.zp.lbas_per_zrwafg ≤ f.zp.lbas_per_zrwa
  pub area_word : f.zp.lbas_per_zrwa < 2 ^ 31

-- Refused by a check, or taken to the switch with a range at or after the write pointer.
admit_area-cases :
    (lba_bits : ℕ) (f : ZnsFtl) (zid : ℕ) (cmd : RwCommand) {r : Status × ZnsFtl}
    → admit_area lba_bits f zid cmd ≡ some r
    → ((r.1 ≡ f) × (is_success r.0 ≡ false))
      ⊎ ((check_boundary_error f cmd.slba (nr_lbas cmd) ≡ true)
          × ((f.zone_descs zid).wp ≤ cmd.slba)
          × (last_lba cmd.slba (nr_lbas cmd)
              ≤ sub64 (add64 (f.zone_descs zid).wp (mul32 2 f.zp.lbas_per_zrwa)) 1)
          × (take_area (f.zone_descs zid).state f zid ≡ some r))
unfolding admit_area
admit_area-cases lba_bits f zid cmd e = ground arith

pushed-le : (m fg : ℕ) → mul64 (div_round_up m fg) fg ≤ m + fg - 1
pushed-le m fg = let b = div-mul-le_self ((m + fg - 1) % 2 ^ 64) fg in omega arith

module _ {leaked : ℕ} (f : ZnsFtl) (h : IsZoned leaked f) (zid : ℕ) (l : zid < f.zp.nr_zones)
    (area : IsArea f) where
  -- A range that the checks let through ends in the zone, where there is anything to flush.
  range_end :
      (slba nr_lba : ℕ)
      → lba_to_zone f slba ≡ zid
      → slba < 2 ^ 63
      → 0 < nr_lba
      → nr_lba ≤ 2 ^ 16
      → check_boundary_error f slba nr_lba ≡ true
      → (f.zone_descs zid).wp ≤ slba
      → last_lba slba nr_lba ≤ sub64 (add64 (f.zone_descs zid).wp (mul32 2 f.zp.lbas_per_zrwa)) 1
      → 0 < f.zp.lbas_per_zrwafg
      → last_lba slba nr_lba < zid * zone_lbas f + zone_lbas f
  range_end slba nr_lba home short pos small b from to fg =
      let z = h.zones zid l in
      let s = h.layout.start zid l in
      let c = h.layout.capacity zid l in
      let e = zone_end f h.layout zid l in
      let up = z.to_end in
      let down = z.from_start in
      let g = area.granules in
      let w = area.area_word in
      let within = lba_to_zone-home f h.layout zid slba l (omega arith) home in
      let last =
        check_boundary_error_lem f h.layout zid slba nr_lba l (omega arith) within pos small b in
      omega arith

  nr_lbas_flush-le :
      (elba n : ℕ)
      → (f.zone_descs zid).wp ≤ elba
      → elba < 2 ^ 64
      → (0 < f.zp.lbas_per_zrwafg → elba < zid * zone_lbas f + zone_lbas f)
      → nr_lbas_flush f zid (f.zone_descs zid).wp elba ≡ some n
      → (f.zone_descs zid).wp + n ≤ (f.zone_descs zid).zslba + (f.zone_descs zid).zone_capacity
  unfolding nr_lbas_flush
  nr_lbas_flush-le elba n from word to e =
      let z = h.zones zid l in
      let s = h.layout.start zid l in
      let c = h.layout.capacity zid l in
      let en = zone_end f h.layout zid l in
      let last = zone_to_elba_lem f h.layout zid l in
      let up = z.to_end in
      let down = z.from_start in
      let g = area.granules in
      let w = area.area_word in
      let p =
        pushed-le (add64 (sub64 elba (add64 (f.zone_descs zid).wp f.zp.lbas_per_zrwa)) 1)
          f.zp.lbas_per_zrwafg in
      ground arith

  increased-Onward :
      (k : ZnsFtl) (n : ℕ)
      → SameZones f k
      → open_state (f.zone_descs zid).state ≡ true
      → (f.zone_descs zid).wp + n ≤ (f.zone_descs zid).zslba + (f.zone_descs zid).zone_capacity
      → Onward leaked f (increase_write_ptr k zid n)
  increased-Onward k n s o fits =
      let on = SameZones-Onward h s in
      let lk : zid < k.zp.nr_zones = subst (λ z. zid < z.nr_zones) (sym s.zp_same) l in
      let ok : open_state (k.zone_descs zid).state ≡ true = rw (s.descs_same) o in
      Onward-trans on (
        Moves-Onward on.zoned zid lk
          (increase_write_ptr-Moves k on.zoned zid lk n ok (rw (s.descs_same) fits))
          (increase_write_ptr-⟶ k on.zoned zid lk n ok))

  flush_area-Onward :
      (lba_bits flush : ℕ) {r : Bool × ZnsFtl}
      → open_state (f.zone_descs zid).state ≡ true
      → (f.zone_descs zid).wp + flush ≤ (f.zone_descs zid).zslba + (f.zone_descs zid).zone_capacity
      → flush_area lba_bits f zid flush ≡ some r
      → Onward leaked f r.1
  unfolding flush_area
  flush_area-Onward lba_bits flush {r} o fits e =
      let size = mul64 flush (2 ^ lba_bits) in
      let en = zone_end f h.layout zid l in
      let s = h.layout.start zid l in
      let c = h.layout.capacity zid l in
      elim (Bool-cases (flush == 0)) [
        | inl none_left ↦
            let t : some (true, f) ≡ some r = sym (rw none_left refl) ∙ e in
            subst (λ x. Onward leaked f x.1) (some-eq t) (Onward-refl h)
        | inr some_left ↦
            let t : (allocate_at f (zrwa_buffer zid) size >>= λ a.
            some
              (if a.0 == 0 then (false, a.1) else (true, increase_write_ptr (a.1) zid (u32 flush))))
                ≡ some r =
              sym (rw some_left refl) ∙ e in
            let (a, e1, e2) = >>=-eq-some (allocate_at f (zrwa_buffer zid) size) _ t in
            let same = allocate_at-SameZones f (zrwa_buffer zid) size e1 in
            let word : u32 flush ≡ flush = omega arith in
            taken (a.0 == 0) (a.1) (u32 flush) (some-eq e2) same (rw word fits)
      ]
    where
      taken :
          (b : Bool) (k : ZnsFtl) (n : ℕ) {r : Bool × ZnsFtl}
          → (if b then (false, k) else (true, increase_write_ptr k zid n)) ≡ r
          → SameZones f k
          → (f.zone_descs zid).wp + n ≤ (f.zone_descs zid).zslba + (f.zone_descs zid).zone_capacity
          → Onward leaked f r.1
      taken true k n e same fits = subst (λ x. Onward leaked f x.1) e (SameZones-Onward h same)
      taken false k n e same fits =
          subst (λ x. Onward leaked f x.1) e (increased-Onward k n same o fits)

  write_area-Onward :
      (clock : ℕ → ℕ) (lba_bits : ℕ) (cmd : RwCommand) {o : Outcome}
      → open_state (f.zone_descs zid).state ≡ true
      → (f.zone_descs zid).wp ≤ last_lba cmd.slba (nr_lbas cmd)
      → (0 < f.zp.lbas_per_zrwafg
          → last_lba cmd.slba (nr_lbas cmd) < zid * zone_lbas f + zone_lbas f)
      → write_area clock lba_bits f zid (f.zone_descs zid).wp cmd ≡ some o
      → Onward leaked f o.ftl
  unfolding write_area
  write_area-Onward clock lba_bits cmd {o} opened from to q =
      let prev_wp = (f.zone_descs zid).wp in
      let elba = last_lba cmd.slba (nr_lbas cmd) in
      let (n, e1, q1) = >>=-eq-some (nr_lbas_flush f zid prev_wp elba) _ q in
      let (a, e2, q2) = >>=-eq-some (flush_area lba_bits f zid n) _ q1 in
      let fits = nr_lbas_flush-le elba n from (omega arith) to e1 in
      let on = flush_area-Onward lba_bits n opened fits e2 in
      elim (Bool-cases a.0) [
        | inl ok ↦
            let t : area_timing clock lba_bits (a.1) zid prev_wp n cmd ≡ some o =
              sym (rw ok refl) ∙ q2 in
            Onward-trans on (
              SameZones-Onward on.zoned
                (area_timing-SameZones clock lba_bits (a.1) zid prev_wp n cmd t))
        | inr ne ↦
            let stopped : Outcome = record { reply = refused; cmd = cmd; ftl = a.1 } in
            let t : some stopped ≡ some o = sym (rw ne refl) ∙ q2 in
            subst (λ x. Onward leaked f x.ftl) (some-eq t) on
      ]

module _ (clock : ℕ → ℕ) (lba_bits : ℕ) where
  admitted-Onward :
      {leaked : ℕ} (f : ZnsFtl) (zid : ℕ) (cmd : RwCommand) (r : Status × ZnsFtl) {o : Outcome}
      → IsZoned leaked f
      → zid < f.zp.nr_zones
      → IsArea f
      → (f.zone_descs zid).wp ≤ last_lba cmd.slba (nr_lbas cmd)
      → (0 < f.zp.lbas_per_zrwafg
          → last_lba cmd.slba (nr_lbas cmd) < zid * zone_lbas f + zone_lbas f)
      → (k : Onward leaked f r.1) → Opened zid f r.1
      → write_area clock lba_bits r.1 zid (f.zone_descs zid).wp cmd ≡ some o
      → Onward leaked f o.ftl
  admitted-Onward {leaked} f zid cmd r {o} h l area from to k opened q =
      let g = r.1 in
      let lg : zid < g.zp.nr_zones = subst (λ z. zid < z.nr_zones) (sym k.zp_same) l in
      let ag : IsArea g = record {
        granules = rw (k.zp_same) area.granules;
        area_word = rw (k.zp_same) area.area_word;
      } in
      let w : write_area clock lba_bits g zid (g.zone_descs zid).wp cmd ≡ some o =
        rw (opened.wp_same) q in
      Onward-trans k (
        write_area-Onward g k.zoned zid lg ag clock lba_bits cmd opened.opened
          (rw (opened.wp_same) from) (rw (k.zp_same, k.sp_same) to) w)

  pub write_zrwa-Onward :
      {leaked : ℕ} (f : ZnsFtl) (cmd : RwCommand) {o : Outcome}
      → IsZoned leaked f
      → IsArea f
      → cmd.length < 2 ^ 16
      → cmd.slba < 2 ^ 63
      → (f.zone_descs (lba_to_zone f cmd.slba)).zrwav ≡ true
      → write_zrwa clock lba_bits f cmd ≡ some o
      → Onward leaked f o.ftl
  unfolding write_zrwa
  write_zrwa-Onward {leaked} f cmd {o} h area short low v q =
      let zid = lba_to_zone f cmd.slba in
      let (b, q1) = ensure-eq-some (ltb zid f.zp.nr_zones) _ q in
      let l = ltb→lt zid f.zp.nr_zones b in
      let (r, e, q2) = >>=-eq-some (admit_area lba_bits f zid cmd) _ q1 in
      let stopped : Outcome = record {
        reply = replied r.0 cmd.nsecs_start;
        cmd = cmd;
        ftl = r.1;
      } in
      let not_taken : Onward leaked f r.1 → is_success r.0 ≡ false → Onward leaked f o.ftl = λ k ne.
        let t : some stopped ≡ some o = sym (rw ne refl) ∙ q2 in
        subst (λ x. Onward leaked f x.ftl) (some-eq t) k in
      elim (admit_area-cases lba_bits f zid cmd e) [
        | inl (same, ne) ↦ not_taken (subst (Onward leaked f) (sym same) (Onward-refl h)) ne
        | inr (bound, from, to, e1) ↦
            let t = take_area-Taken f h zid l _ refl v e1 in
            elim (Bool-cases (is_success r.0)) [
              | inr ne ↦ not_taken t.on ne
              | inl ok ↦
                  let w : write_area clock lba_bits r.1 zid (f.zone_descs zid).wp cmd ≡ some o =
                    sym (rw ok refl) ∙ q2 in
                  admitted-Onward f zid cmd r h l area (omega arith)
                    (range_end f h zid l area cmd.slba (nr_lbas cmd) refl low (omega arith)
                      (omega arith) bound from to)
                    t.on (t.taken ok) w
            ]
      ]
