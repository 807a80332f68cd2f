-- ===== src/Zns/Write/Timed.antt =====
-- The timing part of the zoned writes and reads leaves zones, counters and parameters as they were.
use nvmevirt_learned_ftl.Prelude.{
  ℕ, zero, suc, ◌+◌, ◌-◌, ◌*◌, ◌%◌, min, max, ◌≡◌, refl, sym, ◌∙◌, ap, arith, some, ◌==◌, inl, inr,
  subst, Bool-cases, leb, ◌>>=◌, >>=-eq-some, some-eq, ◌||◌, ◌>>◌, ensure, ensure-eq-some,
}
use nvmevirt_learned_ftl.Ssd.Nand.{
  Device, BufferId, ssd_buffer, zone_buffer, zrwa_buffer, advance_nand, advance_write_buffer,
  NandCmd,
}
use nvmevirt_learned_ftl.Ssd.Nand.Same.{advance_nand-sp}
use nvmevirt_learned_ftl.Zns.State.{ZnsFtl}
use nvmevirt_learned_ftl.Zns.Place.{
  RwCommand, Outcome, allocate_at, has_places, lpn_to_ppa, program_cmd, program_run,
}
use nvmevirt_learned_ftl.Zns.Write.{bufs_to_release, write_run, write_runs, write_timing}
use nvmevirt_learned_ftl.Zns.Zrwa.{area_run, area_runs, area_timing}
use nvmevirt_learned_ftl.Zns.Read.{read_size, read_cmd, read_runs}
use nvmevirt_learned_ftl.Zns.Onward.{SameZones}

module _ (clock : ℕ → ℕ) where
  program_run-sp :
      (f : ZnsFtl) (b : BufferId) (size sq t lpn : ℕ) (s : Device × ℕ) {r : Device × ℕ}
      → program_run clock f b size sq t lpn s ≡ some r
      → r.0.ssd.sp ≡ s.0.ssd.sp
  unfolding program_run
  program_run-sp f b size sq t lpn s q =
      let c : NandCmd = program_cmd f.device.ssd.sp t (lpn_to_ppa f lpn) in
      let (x, e1, e2) = >>=-eq-some (advance_nand clock s.0 c) _ q in
      ap (λ z. z.0.ssd.sp) (sym (some-eq e2)) ∙ advance_nand-sp clock s.0 c e1

  write_run-sp :
      (f : ZnsFtl) (b : BufferId) (sq t e lpn pgs : ℕ) (s : Device × ℕ) {r : Device × ℕ}
      → write_run clock f b sq t e lpn pgs s ≡ some r
      → r.0.ssd.sp ≡ s.0.ssd.sp
  unfolding write_run
  write_run-sp f b sq t e lpn pgs s {r} q =
      let n = f.device.ssd.sp.pgs_per_oneshotpg in
      let at_zone_end = lpn + pgs - 1 == e in
      elim (Bool-cases ((lpn_to_ppa f lpn).pg % n + pgs == n || at_zone_end)) [
        | inl p ↦
            program_run-sp f b (bufs_to_release f at_zone_end) sq t lpn s (sym (rw p refl) ∙ q)
        | inr p ↦ ground arith
      ]

  write_runs-sp :
      (n : ℕ) (f : ZnsFtl) (b : BufferId) (sq t e lpn elpn : ℕ) (s : Device × ℕ) {r : Device × ℕ}
      → write_runs clock n f b sq t e lpn elpn s ≡ some r
      → r.0.ssd.sp ≡ s.0.ssd.sp
  unfolding write_runs
  write_runs-sp zero f b sq t e lpn elpn s q = ground arith
  write_runs-sp (suc n) f b sq t e lpn elpn s {r} q =
      let spp = f.device.ssd.sp in
      let pg_off = (lpn_to_ppa f lpn).pg % spp.pgs_per_oneshotpg in
      let pgs = min (elpn - lpn + 1) (spp.pgs_per_oneshotpg - pg_off) in
      elim (Bool-cases (leb lpn elpn)) [
        | inl p ↦
            let rest =
              write_run clock f b sq t e lpn pgs s
              >>= write_runs clock n f b sq t e (lpn + pgs) elpn in
            let whole : (ensure (has_places f) >> rest) ≡ some r = sym (rw p refl) ∙ q in
            let (_, round) = ensure-eq-some (has_places f) rest whole in
            let (x, e1, e2) = >>=-eq-some (write_run clock f b sq t e lpn pgs s) _ round in
            write_runs-sp n f b sq t e (lpn + pgs) elpn x e2 ∙ write_run-sp f b sq t e lpn pgs s e1
        | inr p ↦ ground arith
      ]

  area_run-sp :
      (f : ZnsFtl) (zid sq t lpn pgs : ℕ) (s : Device × ℕ) {r : Device × ℕ}
      → area_run clock f zid sq t lpn pgs s ≡ some r
      → r.0.ssd.sp ≡ s.0.ssd.sp
  unfolding area_run
  area_run-sp f zid sq t lpn pgs s {r} q =
      let n = f.device.ssd.sp.pgs_per_oneshotpg in
      elim (Bool-cases ((lpn_to_ppa f lpn).pg % n + pgs == n)) [
        | inl p ↦
            program_run-sp f (zrwa_buffer zid) (n * f.device.ssd.sp.pgsz) sq t lpn s
              (sym (rw p refl) ∙ q)
        | inr p ↦ ground arith
      ]

  area_runs-sp :
      (n : ℕ) (f : ZnsFtl) (zid sq t lpn remaining : ℕ) (s : Device × ℕ) {r : Device × ℕ}
      → area_runs clock n f zid sq t lpn remaining s ≡ some r
      → r.0.ssd.sp ≡ s.0.ssd.sp
  unfolding area_runs
  area_runs-sp zero f zid sq t lpn remaining s q = ground arith
  area_runs-sp (suc n) f zid sq t lpn remaining s {r} q =
      let spp = f.device.ssd.sp in
      let pg_off = (lpn_to_ppa f lpn).pg % spp.pgs_per_oneshotpg in
      let pgs = min remaining (spp.pgs_per_oneshotpg - pg_off) in
      elim (Bool-cases (remaining == 0)) [
        | inl p ↦ ground arith
        | inr p ↦
            let rest =
              area_run clock f zid sq t lpn pgs s
              >>= area_runs clock n f zid sq t (lpn + pgs) (remaining - pgs) in
            let whole : (ensure (has_places f) >> rest) ≡ some r = sym (rw p refl) ∙ q in
            let (_, round) = ensure-eq-some (has_places f) rest whole in
            let (x, e1, e2) = >>=-eq-some (area_run clock f zid sq t lpn pgs s) _ round in
            area_runs-sp n f zid sq t (lpn + pgs) (remaining - pgs) x e2
            ∙ area_run-sp f zid sq t lpn pgs s e1
      ]

  pub read_runs-sp :
      (n : ℕ) (f : ZnsFtl) (t lpn elpn : ℕ) (s : Device × ℕ) {r : Device × ℕ}
      → read_runs clock n f t lpn elpn s ≡ some r
      → r.0.ssd.sp ≡ s.0.ssd.sp
  unfolding read_runs
  read_runs-sp zero f t lpn elpn s q = ground arith
  read_runs-sp (suc n) f t lpn elpn s {r} q =
      let pgs = read_size f lpn elpn in
      let c = read_cmd f t lpn pgs in
      elim (Bool-cases (leb lpn elpn)) [
        | inl p ↦
            let rest = advance_nand clock s.0 c >>= λ x.
            read_runs clock n f t (lpn + pgs) elpn (x.1, max x.0 s.1) in
            let whole : (ensure (has_places f) >> rest) ≡ some r = sym (rw p refl) ∙ q in
            let (_, round) = ensure-eq-some (has_places f) rest whole in
            let (x, e1, e2) = >>=-eq-some (advance_nand clock s.0 c) _ round in
            read_runs-sp n f t (lpn + pgs) elpn _ e2 ∙ advance_nand-sp clock s.0 c e1
        | inr p ↦ ground arith
      ]

  timed :
      (f : ZnsFtl) (d : Device) → d.ssd.sp ≡ f.device.ssd.sp → SameZones f (record f { device = d })
  timed f d e = record { zp_same = refl; sp_same = e; descs_same = refl; infos_same = refl }

  pub write_timing-SameZones :
      (lba_bits : ℕ) (f : ZnsFtl) (b : BufferId) (zid : ℕ) (cmd : RwCommand) {o : Outcome}
      → write_timing clock lba_bits f b zid cmd ≡ some o
      → SameZones f o.ftl
  unfolding write_timing
  write_timing-SameZones lba_bits f b zid cmd q =
      let (w, _, e1) =
        >>=-eq-some (advance_write_buffer clock f.device.ssd.sp f.device.bus cmd.nsecs_start _) _
          q in
      let (r, e2, e3) = >>=-eq-some (write_runs clock _ f b cmd.sq_id w.0 _ _ _ _) _ e1 in
      subst (λ o. SameZones f o.ftl) (some-eq e3)
        (timed f r.0 (write_runs-sp _ f b cmd.sq_id w.0 _ _ _ _ e2))

  pub area_timing-SameZones :
      (lba_bits : ℕ) (f : ZnsFtl) (zid prev_wp flush : ℕ) (cmd : RwCommand) {o : Outcome}
      → area_timing clock lba_bits f zid prev_wp flush cmd ≡ some o
      → SameZones f o.ftl
  unfolding area_timing
  area_timing-SameZones lba_bits f zid prev_wp flush cmd q =
      let (w, _, e1) =
        >>=-eq-some (advance_write_buffer clock f.device.ssd.sp f.device.bus cmd.nsecs_start _) _
          q in
      let (r, e2, e3) = >>=-eq-some (area_runs clock _ f zid cmd.sq_id w.0 _ _ _) _ e1 in
      subst (λ o. SameZones f o.ftl) (some-eq e3)
        (timed f r.0 (area_runs-sp _ f zid cmd.sq_id w.0 _ _ _ e2))

-- Taking from a buffer leaves zones and counters as they were.
pub allocate_at-SameZones :
    (f : ZnsFtl) (b : BufferId) (n : ℕ) {r : ℕ × ZnsFtl}
    → allocate_at f b n ≡ some r
    → SameZones f r.1
unfolding allocate_at
allocate_at-SameZones f ssd_buffer n q = ground arith
allocate_at-SameZones f (zone_buffer zid) n q = ground arith
allocate_at-SameZones f (zrwa_buffer zid) n q = ground arith
