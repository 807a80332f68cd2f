-- ===== src/Zns/Write/Runs.antt =====
-- The loop of `__zns_write` over the pages of its range ends within its fuel.
use nvmevirt_learned_ftl.Prelude.{
  ℕ, zero, suc, ◌+◌, ◌-◌, ◌*◌, ◌%◌, ◌^◌, ◌≤◌, ◌<◌, ◌≡◌, refl, arith, min, max, some, true, false,
  ◌==◌, ◌||◌, leb, Bool-cases, inl, inr, subst,
}
use native.Mathlib.Nat.{mod-lt}
use nvmevirt_learned_ftl.Ssd.Nand.{Device, BufferId, Release, in_array}
use nvmevirt_learned_ftl.Ssd.Nand.Programs.{IsFreeBy, advance_nand-Ran}
use nvmevirt_learned_ftl.Ssd.Params.{SsdParams}
use nvmevirt_learned_ftl.Zns.State.{ZnsFtl}
use nvmevirt_learned_ftl.Zns.Place.{has_places, lpn_to_ppa, program_run, schedule}
use nvmevirt_learned_ftl.Zns.Write.{bufs_to_release, write_run, write_runs}

-- The state of the loop: `limit` bounds the times so far.
pub record IsPacedBy (sp : SsdParams) (limit stime : ℕ) (s : Device × ℕ) : Type 0 where
  pub device_free : IsFreeBy sp limit s.0
  pub from_start : stime ≤ s.1
  pub soon : s.1 ≤ limit

module _ (clock : ℕ → ℕ) (f : ZnsFtl) (b : BufferId) (sq stime : ℕ) (pos : 0 < stime)
    (lat : f.device.ssd.sp.pg_wr_lat < 2 ^ 32)
    (inside : (lpn : ℕ) → in_array f.device.ssd.sp (lpn_to_ppa f lpn) ≡ true) where
  program_run-IsPacedBy :
      (limit size lpn : ℕ) (s : Device × ℕ)
      → IsPacedBy f.device.ssd.sp limit stime s
      → limit < 2 ^ 62
      → (r : Device × ℕ) × (program_run clock f b size sq stime lpn s ≡ some r)
        × IsPacedBy f.device.ssd.sp (limit + 2 ^ 34) stime r
  unfolding program_run
  program_run-IsPacedBy limit size lpn s h lt =
      let spp = f.device.ssd.sp in
      let from = h.from_start in
      let soon = h.soon in
      let (x, e, q) =
        advance_nand-Ran clock s.0 (spp.pgs_per_oneshotpg * spp.pgsz) stime (lpn_to_ppa f lpn) pos
          h.device_free lt (omega arith) lat (inside lpn) in
      let plan : Release = record {
        sqid = sq;
        write_buffer = b;
        nsecs_target = x.0;
        buffs_to_release = size;
      } in
      (
        (schedule (x.1) plan, max x.0 s.1),
        rw e refl,
        record {
          device_free = record {
            in_order = record {
              channels_ok = q.device_after.in_order.channels_ok;
              link_ok = q.device_after.in_order.link_ok;
            };
            sp_same = q.device_after.sp_same;
            free_by = q.device_after.free_by;
          };
          from_start = omega arith;
          soon = let k = q.soon in omega arith;
        },
      )

  write_run-IsPacedBy :
      (limit zone_elpn lpn pgs : ℕ) (s : Device × ℕ)
      → IsPacedBy f.device.ssd.sp limit stime s
      → limit < 2 ^ 62
      → (r : Device × ℕ) × (write_run clock f b sq stime zone_elpn lpn pgs s ≡ some r)
        × IsPacedBy f.device.ssd.sp (limit + 2 ^ 34) stime r
  unfolding write_run
  write_run-IsPacedBy limit zone_elpn lpn pgs s h lt =
      let n = f.device.ssd.sp.pgs_per_oneshotpg in
      let at_zone_end = lpn + pgs - 1 == zone_elpn in
      let soon = h.soon in
      elim (Bool-cases ((lpn_to_ppa f lpn).pg % n + pgs == n || at_zone_end)) [
        | inl p ↦
            let (r, e, q) =
              program_run-IsPacedBy limit (bufs_to_release f at_zone_end) lpn s h lt in
            (r, rw p e, q)
        | inr p ↦ (
          s,
          rw p refl,
          record {
            device_free = record {
              in_order = h.device_free.in_order;
              sp_same = h.device_free.sp_same;
              free_by = λ ch lun. let g = h.device_free.free_by ch lun in omega arith;
            };
            from_start = h.from_start;
            soon = omega arith;
          },
        )
      ]

  -- Some pages of the range are done in each round.
  pub write_runs-IsPacedBy :
      (fuel limit zone_elpn lpn elpn : ℕ) (s : Device × ℕ)
      → has_places f ≡ true
      → elpn + 1 - lpn ≤ fuel
      → IsPacedBy f.device.ssd.sp limit stime s
      → limit + fuel * 2 ^ 34 < 2 ^ 62
      → (r : Device × ℕ) × (write_runs clock fuel f b sq stime zone_elpn lpn elpn s ≡ some r)
        × IsPacedBy f.device.ssd.sp (limit + fuel * 2 ^ 34) stime r
  unfolding write_runs
  write_runs-IsPacedBy zero limit zone_elpn lpn elpn s n enough h lt =
      let past : leb lpn elpn ≡ false = ground arith in
      (s, rw past refl, subst (λ k. IsPacedBy f.device.ssd.sp k stime s) (omega arith) h)
  write_runs-IsPacedBy (suc fuel) limit zone_elpn lpn elpn s n enough h lt =
      let spp = f.device.ssd.sp in
      let pg_off = (lpn_to_ppa f lpn).pg % spp.pgs_per_oneshotpg in
      let pgs = min (elpn - lpn + 1) (spp.pgs_per_oneshotpg - pg_off) in
      let within = mod-lt (lpn_to_ppa f lpn).pg (some_pages n) in
      elim (Bool-cases (leb lpn elpn)) [
        | inr past ↦ (s, rw past refl, later (limit + suc fuel * 2 ^ 34) limit s (omega arith) h)
        | inl more ↦
            let (x, e, q) = write_run-IsPacedBy limit zone_elpn lpn pgs s h (omega arith) in
            let (r, e2, q2) =
              write_runs-IsPacedBy fuel (limit + 2 ^ 34) zone_elpn (lpn + pgs) elpn x n
                (omega arith) q (omega arith) in
            (
              r,
              rw (more, n, e) e2,
              later (limit + suc fuel * 2 ^ 34) (limit + 2 ^ 34 + fuel * 2 ^ 34) r (omega arith) q2,
            )
      ]
    where
      some_pages : has_places f ≡ true → 0 < f.device.ssd.sp.pgs_per_oneshotpg
      some_pages h = ground arith

      later :
          (k m : ℕ) (s : Device × ℕ)
          → m ≤ k
          → IsPacedBy f.device.ssd.sp m stime s
          → IsPacedBy f.device.ssd.sp k stime s
      later k m s l h = record {
        device_free = record {
          in_order = h.device_free.in_order;
          sp_same = h.device_free.sp_same;
          free_by = λ ch lun. let g = h.device_free.free_by ch lun in omega arith;
        };
        from_start = h.from_start;
        soon = let g = h.soon in omega arith;
      }
