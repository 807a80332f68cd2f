-- ===== src/Conv/State/Index.antt =====
-- `ppa2pgidx` numbers the pages: a number below `tt_pgs` for each address that `valid_ppa` accepts,
-- and different numbers for different pages.
use nvmevirt_learned_ftl.Prelude.{ℕ, ◌+◌, ◌*◌, ◌≤◌, ◌<◌, ◌≡◌, true, arith, ◌∙◌, sym}
use native.Mathlib.Decide.{dec_le}
use nvmevirt_learned_ftl.Ssd.Params.{SsdParams}
use nvmevirt_learned_ftl.Ssd.Params.Geometry.{IsGeometry}
use nvmevirt_learned_ftl.Ssd.Ppa.{Ppa, same_pg}
use nvmevirt_learned_ftl.Conv.State.{pgidx, valid_ppa}

pub digit-lt : (a n b m : ℕ) → a < n → b < m → a * m + b < n * m
digit-lt a n b m ha hb = grind arith

digit-le : (a c b d m : ℕ) → d < m → a * m + b ≡ c * m + d → a ≤ c
digit-le a c b d m hd e = elim (dec_le a c) [
  | yes h ↦ h
  | no h ↦ absurd (omega (arith, next-mul-le c a m (omega arith)))
]
  where
    next-mul-le : (x y n : ℕ) → x < y → x * n + n ≤ y * n
    next-mul-le x y n lt = grind arith

pub digit-injective : (a b c d m : ℕ) → b < m → d < m → a * m + b ≡ c * m + d → (a ≡ c) × (b ≡ d)
digit-injective a b c d m hb hd e = ground (arith, digit-le a c b d m, digit-le c a d b m)

-- The number in mixed radix, the channel first.
pgidx-digits :
    (s : SsdParams) (p : Ppa)
    → IsGeometry s
    → pgidx s p
      ≡ (((p.ch * s.luns_per_ch + p.lun) * s.pls_per_lun + p.pl) * s.blks_per_pl + p.blk)
          * s.pgs_per_blk
        + p.pg
unfolding pgidx
pgidx-digits s p g = rw (g.ch_pgs, g.lun_pgs, g.pl_pgs) (omega arith)

-- The fields of an address lie within the array.
pub record InRange (s : SsdParams) (p : Ppa) : Type 0 where
  pub ch_in : p.ch < s.nchs
  pub lun_in : p.lun < s.luns_per_ch
  pub pl_in : p.pl < s.pls_per_lun
  pub blk_in : p.blk < s.blks_per_pl
  pub pg_in : p.pg < s.pgs_per_blk

pub valid_ppa-InRange : (s : SsdParams) (p : Ppa) → valid_ppa s p ≡ true → InRange s p
unfolding valid_ppa
valid_ppa-InRange s p h = ground arith

pub InRange-valid_ppa : (s : SsdParams) (p : Ppa) → InRange s p → valid_ppa s p ≡ true
unfolding valid_ppa
InRange-valid_ppa s p h = ground arith

-- On a well-formed geometry, the index of an address in range is below the count of pages: the
-- assertion of `ppa2pgidx` holds there.
pub pgidx-lt-tt_pgs : (s : SsdParams) (p : Ppa) → IsGeometry s → InRange s p → pgidx s p < s.tt_pgs
pgidx-lt-tt_pgs s p g h =
    let l1 = digit-lt p.ch s.nchs p.lun s.luns_per_ch h.ch_in h.lun_in in
    let l2 =
      digit-lt (p.ch * s.luns_per_ch + p.lun) (s.nchs * s.luns_per_ch) p.pl s.pls_per_lun l1
        h.pl_in in
    let l3 =
      digit-lt ((p.ch * s.luns_per_ch + p.lun) * s.pls_per_lun + p.pl)
        (s.nchs * s.luns_per_ch * s.pls_per_lun) p.blk s.blks_per_pl l2 h.blk_in in
    let l4 =
      digit-lt (((p.ch * s.luns_per_ch + p.lun) * s.pls_per_lun + p.pl) * s.blks_per_pl + p.blk)
        (s.nchs * s.luns_per_ch * s.pls_per_lun * s.blks_per_pl) p.pg s.pgs_per_blk l3 h.pg_in in
    rw (pgidx-digits s p g, g.all_pgs, g.ch_pgs, g.lun_pgs, g.pl_pgs) (omega (arith, l4))

-- On a well-formed geometry, two addresses in range with the same index name the same page.
pub pgidx-injective :
    (s : SsdParams) (p q : Ppa)
    → IsGeometry s
    → InRange s p
    → InRange s q
    → pgidx s p ≡ pgidx s q
    → same_pg p q ≡ true
unfolding same_pg
pgidx-injective s p q g hp hq e =
    let d1 =
      digit-injective _ _ _ _ s.pgs_per_blk hp.pg_in hq.pg_in
        (sym (pgidx-digits s p g) ∙ e ∙ pgidx-digits s q g) in
    let d2 = digit-injective _ _ _ _ s.blks_per_pl hp.blk_in hq.blk_in d1.0 in
    let d3 = digit-injective _ _ _ _ s.pls_per_lun hp.pl_in hq.pl_in d2.0 in
    let d4 = digit-injective _ _ _ _ s.luns_per_ch hp.lun_in hq.lun_in d3.0 in
    ground (arith, d1.1, d2.1, d3.1, d4.0, d4.1)
