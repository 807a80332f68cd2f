-- ===== src/Ssd/Ppa/Packing.antt =====
-- The view `blk_in_ssd` of `struct ppa` names blocks, and an unmapped address is told by its word.
use nvmevirt_learned_ftl.Prelude.{◌^◌, ◌<◌, ◌≡◌, refl, true, false, ◌↔◌, arith}
use nvmevirt_learned_ftl.Ssd.Ppa.{Ppa, blk_in_ssd, unmapped, mapped_ppa, same_blk, same_pg}

-- Each field fits in its bits.
pub record IsPpa (p : Ppa) : Type 0 where
  pub pg_fits : p.pg < 2 ^ 16
  pub blk_fits : p.blk < 2 ^ 16
  pub pl_fits : p.pl < 2 ^ 8
  pub lun_fits : p.lun < 2 ^ 8
  pub ch_fits : p.ch < 2 ^ 8
  pub rsv_fits : p.rsv < 2 ^ 8

-- Two addresses whose fields fit in their bits have the same `blk_in_ssd` exactly when they name
-- the same block.
pub blk_in_ssd_iff :
    (p q : Ppa) → IsPpa p → IsPpa q → (blk_in_ssd p ≡ blk_in_ssd q) ↔ (same_blk p q ≡ true)
unfolding blk_in_ssd same_blk
blk_in_ssd_iff p q hp hq = (λ e. ground arith, λ e. ground arith)

pub same_pg_refl : (p : Ppa) → same_pg p p ≡ true
unfolding same_pg
same_pg_refl p = ground arith

pub mapped-unmapped : mapped_ppa unmapped ≡ false
unfolding mapped_ppa unmapped
mapped-unmapped = refl

-- An address with a clear `rsv` byte is mapped.
pub mapped_of_rsv : (p : Ppa) → IsPpa p → p.rsv ≡ 0 → mapped_ppa p ≡ true
unfolding mapped_ppa
mapped_of_rsv p h e = ground arith
