-- ===== src/Zns/Layout.antt =====
-- Where zones lie: the addresses of zns_ftl.h do not wrap while all sectors fit in 32 bits.
use nvmevirt_learned_ftl.Prelude.{
  ℕ, ◌+◌, ◌-◌, ◌*◌, ◌/◌, ◌%◌, ◌^◌, ◌≤◌, ◌<◌, ◌≡◌, ◌⊎◌, inl, inr, true, sym, ◌∙◌, ==→eq, subst,
  arith, u32, ap,
}
use native.Mathlib.Nat.{
  div-eq_of_lt-le, div-mul-le_self, mul-le-mul_right, lt-div-mul-add, div-div-eq-div-mul,
}
use nvmevirt_learned_ftl.Zns.State.{
  ZnsFtl, zone_lbas, zone_to_slba, lba_to_zone, zone_to_elba, lba_to_lpn, lpn_to_zone, zone_pgs,
}
use nvmevirt_learned_ftl.Zns.Place.{check_boundary_error, last_lba}
use nvmevirt_learned_ftl.Zns.Accounts.{IsLayout}

next-mul-le : (x y n : ℕ) → x < y → x * n + n ≤ y * n
next-mul-le x y n lt = grind arith

count-le-mul : (n k : ℕ) → 0 < k → n ≤ n * k
count-le-mul n k h = grind arith

quotient : (a n b : ℕ) → b < n → (a * n + b) / n ≡ a
quotient a n b h = div-eq_of_lt-le {k = a} n (omega arith) (omega arith)

module _ (f : ZnsFtl) (h : IsLayout f) where
  pub zone_count_word : f.zp.nr_zones < 2 ^ 32
  zone_count_word =
      let b = count-le-mul f.zp.nr_zones (zone_lbas f) h.some_lbas in let w = h.fits in omega arith

  module _ (zid : ℕ) (l : zid < f.zp.nr_zones) where
    pub zone_end : zid * zone_lbas f + zone_lbas f < 2 ^ 32
    zone_end =
        let b = next-mul-le zid f.zp.nr_zones (zone_lbas f) l in let w = h.fits in omega arith

    pub zone_to_slba_lem : zone_to_slba f zid ≡ zid * zone_lbas f
    unfolding zone_to_slba
    zone_to_slba_lem =
        let w = zone_count_word in
        let e = zone_end in let u : u32 zid ≡ zid = omega arith in rw u (omega arith)

    -- In a layout that fits in 32 bits, each sector of a zone, counted from the start that
    -- `zone_to_slba` gives, is in that zone by `lba_to_zone`.
    pub lba_to_zone-zone_to_slba :
        (k : ℕ) → k < zone_lbas f → lba_to_zone f (zone_to_slba f zid + k) ≡ zid
    unfolding lba_to_zone
    lba_to_zone-zone_to_slba k lk =
        let w = zone_count_word in
        rw (zone_to_slba_lem, quotient zid (zone_lbas f) k lk) (omega arith)

  -- The last sector of a zone is the one before its end.
  pub zone_to_elba_lem :
      (zid : ℕ) → zid < f.zp.nr_zones → zone_to_elba f zid + 1 ≡ zid * zone_lbas f + zone_lbas f
  unfolding zone_to_elba zone_to_slba
  zone_to_elba_lem zid l =
      let w = zone_count_word in
      let e = zone_end zid l in
      let p = h.some_lbas in
      let u : u32 ((zid + 1) % 2 ^ 32) ≡ zid + 1 = omega arith in rw u (omega arith)

  -- The zone of a sector is that of its page.
  pub page_zone : (slba : ℕ) → lpn_to_zone f (lba_to_lpn f slba) ≡ lba_to_zone f slba
  unfolding lpn_to_zone lba_to_lpn lba_to_zone
  page_zone slba = ap u32 (
      div-div-eq-div-mul slba f.device.ssd.sp.secs_per_pg (zone_pgs f)
      ∙ ap (λ k. slba / k) (sym h.whole_pages))

  near : (zid q : ℕ) → zid < 2 ^ 32 → u32 q ≡ zid → q ≡ zid ⊎ zid + 2 ^ 32 ≤ q
  near zid q l e = ground arith

  far : (zid q n : ℕ) → 0 < n → zid + 2 ^ 32 ≤ q → zid * n + 2 ^ 32 * n ≤ q * n
  far zid q n p l = let m = mul-le-mul_right n l in omega arith

  -- In a layout that fits in 32 bits, a range of 1 to 2^16 sectors that starts in a zone and that
  -- `__check_boundary_error` accepts ends in that zone.
  pub check_boundary_error_lem :
      (zid slba nr_lba : ℕ)
      → zid < f.zp.nr_zones
      → zid * zone_lbas f ≤ slba
      → slba < zid * zone_lbas f + zone_lbas f
      → 0 < nr_lba
      → nr_lba ≤ 2 ^ 16
      → check_boundary_error f slba nr_lba ≡ true
      → slba + nr_lba ≤ zid * zone_lbas f + zone_lbas f
  unfolding check_boundary_error lba_to_zone
  check_boundary_error_lem zid slba nr_lba l from to pos small e =
      let n = zone_lbas f in
      let last = slba + nr_lba - 1 in
      let w = zone_count_word in
      let en = zone_end zid l in
      let p = h.some_lbas in
      let same : last_lba slba nr_lba ≡ last = omega arith in
      let home : slba / n ≡ zid = div-eq_of_lt-le {k = zid} n from (omega arith) in
      let q : u32 (last / n) ≡ zid =
        sym (
          subst (λ k. u32 zid ≡ u32 (k / n)) same
            (subst (λ k. u32 k ≡ u32 (last_lba slba nr_lba / n)) home (==→eq _ _ e)))
        ∙ (omega arith) in
      elim (near zid (last / n) (omega arith) q) [
        | inl here ↦
            let b = lt-div-mul-add {a = last} p in
            let c : last / n * n ≡ zid * n = ap (λ k. k * n) here in omega arith
        | inr wrapped ↦
            let b = div-mul-le_self last n in let c = far zid (last / n) n p wrapped in omega arith
      ]

  -- A sector not before a zone's start and less than 2^32 sectors after its end, which
  -- `lba_to_zone` puts in that zone, is in it.
  pub lba_to_zone-home :
      (zid slba : ℕ)
      → zid < f.zp.nr_zones
      → slba + 2 < zid * zone_lbas f + zone_lbas f + 2 ^ 32
      → lba_to_zone f slba ≡ zid
      → slba < zid * zone_lbas f + zone_lbas f
  unfolding lba_to_zone
  lba_to_zone-home zid slba l to e =
      let n = zone_lbas f in
      let w = zone_count_word in
      let p = h.some_lbas in
      elim (near zid (slba / n) (omega arith) e) [
        | inl here ↦
            let b = lt-div-mul-add {a = slba} p in
            let c : slba / n * n ≡ zid * n = ap (λ k. k * n) here in omega arith
        | inr wrapped ↦
            let b = div-mul-le_self slba n in let c = far zid (slba / n) n p wrapped in omega arith
      ]
