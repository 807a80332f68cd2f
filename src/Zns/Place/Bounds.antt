-- ===== src/Zns/Place/Bounds.antt =====
-- The addresses of the pages of zones lie within the array.
use nvmevirt_learned_ftl.Prelude.{
  ℕ, ◌+◌, ◌-◌, ◌*◌, ◌/◌, ◌%◌, ◌^◌, ◌≤◌, ◌<◌, ◌≡◌, ◌∙◌, ap, arith, u32, mul64, sub64,
}
use native.Mathlib.Nat.{
  mod-lt, mul-pos, le_of_mul-le-mul_right, lt_of_mul-lt-mul_right, mul-le-mul_right,
  div-lt_iff_lt-mul, div-add-mod,
}
use nvmevirt_learned_ftl.Zns.State.{ZnsFtl, lpn_to_zone, zone_to_slpn, die_to_channel, die_to_lun}
use nvmevirt_learned_ftl.Zns.Place.{lpn_to_ppa}
use nvmevirt_learned_ftl.Conv.State.Index.{InRange, digit-lt}

-- The dies of the array are whole groups of `dies_per_zone`, and coordinates fit in an address.
pub record IsStriped (f : ZnsFtl) : Type 0 where
  pub groups : ℕ
  pub some_groups : 0 < groups
  pub grouped : f.device.ssd.sp.tt_luns ≡ groups * f.zp.dies_per_zone
  pub some_dies : 0 < f.zp.dies_per_zone
  pub some_pages : 0 < f.device.ssd.sp.pgs_per_oneshotpg
  pub pages_fit : f.device.ssd.sp.pgs_per_oneshotpg ≤ f.device.ssd.sp.pgs_per_blk
  pub pg_bits : f.device.ssd.sp.pgs_per_oneshotpg ≤ 2 ^ 16
  pub lun_bits : f.device.ssd.sp.luns_per_ch ≤ 2 ^ 8
  pub ch_bits : f.device.ssd.sp.nchs ≤ 2 ^ 8
  pub some_channels : 0 < f.device.ssd.sp.nchs
  pub some_planes : 0 < f.device.ssd.sp.pls_per_lun
  pub some_blks : 0 < f.device.ssd.sp.blks_per_pl
  pub luns : f.device.ssd.sp.tt_luns ≡ f.device.ssd.sp.luns_per_ch * f.device.ssd.sp.nchs

-- A multiple of `d` below a multiple of `d` leaves room for `d`.
multiple : (a k d : ℕ) → 0 < d → 0 < k → (q : ℕ) × ((a * d) % (k * d) ≡ q * d) × (q < k)
multiple a k d p pk =
    let b = k * (a * d / (k * d)) in
    let q = a - b in
    let r = a * d % (k * d) in
    let split = div-add-mod (a * d) (k * d) in
    let less : r < k * d = mod-lt (a * d) (mul-pos pk p) in
    let le : b ≤ a = le_of_mul-le-mul_right {k = d} (omega arith) p in
    let whole : q + b ≡ a = omega arith in
    let exact : r ≡ q * d = rest q b (a * d) r d (ap (λ n. n * d) whole) (omega arith) in
    (q, exact, lt_of_mul-lt-mul_right d (omega arith))
  where
    rest : (q b n r d : ℕ) → (q + b) * d ≡ n → b * d + r ≡ n → r ≡ q * d
    rest q b n r d e s = omega arith

die_in :
    (f : ZnsFtl) (zone off : ℕ)
    → IsStriped f
    → zone < 2 ^ 32
    → f.zp.dies_per_zone < 2 ^ 16
    → u32 (mul64 zone f.zp.dies_per_zone % f.device.ssd.sp.tt_luns) + off % f.zp.dies_per_zone
      < f.device.ssd.sp.tt_luns
die_in f zone off h zs ds =
    let d = f.zp.dies_per_zone in
    let (q, e, lt) = multiple zone h.groups d h.some_dies h.some_groups in
    let w : zone * d < 2 ^ 64 = word zone d zs ds in
    let r = mod-lt off h.some_dies in
    let room = digit-lt q h.groups (off % d) d lt r in
    let m : mul64 zone d % f.device.ssd.sp.tt_luns ≡ q * d =
      ap (λ n. n % f.device.ssd.sp.tt_luns) (omega arith) ∙ ap (λ n. zone * d % n) h.grouped ∙ e in
    let g = h.grouped in let c : u32 (q * d) ≤ q * d = cut (q * d) in rw m (omega arith)
  where
    word : (a b : ℕ) → a < 2 ^ 32 → b < 2 ^ 16 → a * b < 2 ^ 64
    word a b la lb = let m = mul-le-mul_right b (lt_le a la) in omega arith
      where
        lt_le : (x : ℕ) → x < 2 ^ 32 → x ≤ 2 ^ 32 - 1
        lt_le x l = omega arith

    cut : (n : ℕ) → u32 n ≤ n
    cut n = omega arith

-- Where the dies of the array are whole groups of `dies_per_zone`, which is below 2^16, a wordline
-- has some pages and no more than a block, there are planes and blocks, and channels, dies and
-- pages fit in the fields of an address: `__lpn_to_ppa` gives every logical page a page of the
-- array.
pub lpn_to_ppa-InRange :
    (f : ZnsFtl) (lpn : ℕ)
    → IsStriped f
    → f.zp.dies_per_zone < 2 ^ 16
    → InRange f.device.ssd.sp (lpn_to_ppa f lpn)
unfolding lpn_to_ppa lpn_to_zone die_to_channel die_to_lun
lpn_to_ppa-InRange f lpn h small =
    let spp = f.device.ssd.sp in
    let zone = lpn_to_zone f lpn in
    let off = sub64 lpn (zone_to_slpn f zone) in
    let raw =
      u32 (mul64 zone f.zp.dies_per_zone % spp.tt_luns)
      + off / spp.pgs_per_oneshotpg % f.zp.dies_per_zone in
    let in_array = die_in f zone (off / spp.pgs_per_oneshotpg) h (omega arith) small in
    let die = u32 raw in
    let die_lt : die < spp.luns_per_ch * spp.nchs = let g = h.luns in omega arith in
    let c = mod-lt die h.some_channels in
    let l : die / spp.nchs < spp.luns_per_ch = (div-lt_iff_lt-mul h.some_channels).1 die_lt in
    let p = mod-lt off h.some_pages in
    let cb = h.ch_bits in
    let lb = h.lun_bits in
    let pb = h.pages_fit in
    record {
      ch_in = omega arith;
      lun_in = omega arith;
      pl_in = h.some_planes;
      blk_in = h.some_blks;
      pg_in = omega arith;
    }
