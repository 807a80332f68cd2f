-- ===== src/Conv/Mapping.antt =====
-- The contract of the mapping tables of conv_ftl.c: `maptbl` and `rmap` are inverse to one another on
-- the valid pages. `gone` marks the pages that the collector has copied and not yet erased.
pub mod Steps
pub mod Takes
pub mod Ready
pub mod Remap
pub mod Start
pub mod Erase
pub mod Moves
pub mod Runs
use nvmevirt_learned_ftl.Prelude.{ℕ, ◌<◌, ◌≤◌, ◌≡◌, ◌^◌, true, false, Bool, arith}
use nvmevirt_learned_ftl.Ssd.Params.{SsdParams}
use nvmevirt_learned_ftl.Ssd.Ppa.{Ppa, mapped_ppa, same_pg}
use nvmevirt_learned_ftl.Ssd.Ppa.Packing.{IsPpa, mapped_of_rsv}
use nvmevirt_learned_ftl.Ssd.Params.Geometry.{IsGeometry}
use nvmevirt_learned_ftl.Ssd.Nand.{PgStatus}
use nvmevirt_learned_ftl.Conv.State.{ConvFtl, pgidx}
use nvmevirt_learned_ftl.Conv.State.Pointer.{Fits}
use nvmevirt_learned_ftl.Conv.State.Index.{InRange, pgidx-injective}

-- The address of a page of the array, as the code makes them.
pub record IsAddr (s : SsdParams) (p : Ppa) : Type 0 where
  pub range : InRange s p
  pub plain : p.rsv ≡ 0

pub IsAddr-mapped : (s : SsdParams) (p : Ppa) → Fits s → IsAddr s p → mapped_ppa p ≡ true
IsAddr-mapped s p fits a = mapped_of_rsv p (omega arith) a.plain

pub same_pg-eq : (s : SsdParams) (p q : Ppa) → IsAddr s p → IsAddr s q → same_pg p q ≡ true → p ≡ q
unfolding same_pg
same_pg-eq s p q hp hq e = ground arith

pub pgidx-eq :
    (s : SsdParams) (p q : Ppa)
    → IsGeometry s
    → IsAddr s p
    → IsAddr s q
    → pgidx s p ≡ pgidx s q
    → p ≡ q
pgidx-eq s p q g hp hq e = same_pg-eq s p q hp hq (pgidx-injective s p q g hp.range hq.range e)

-- A mapped logical page lies on a valid page that maps back to it.
pub record MapsTo {Q : Type 0} (f : ConvFtl Q) (lpn : ℕ) : Type 0 where
  pub addr : IsAddr f.ssd.sp (f.maptbl lpn)
  pub is_valid : f.ssd.status (f.maptbl lpn) ≡ PgStatus.valid
  pub back : f.rmap (pgidx f.ssd.sp (f.maptbl lpn)) ≡ lpn

-- A valid page is that of a logical page in range.
pub record Owned {Q : Type 0} (f : ConvFtl Q) (p : Ppa) : Type 0 where
  pub in_range : f.rmap (pgidx f.ssd.sp p) < f.ssd.sp.tt_pgs
  pub forth : f.maptbl (f.rmap (pgidx f.ssd.sp p)) ≡ p

pub record IsConsistent {Q : Type 0} (gone : Ppa → Bool) (f : ConvFtl Q) : Type 0 where
  pub maps : (lpn : ℕ) → lpn < f.ssd.sp.tt_pgs → mapped_ppa (f.maptbl lpn) ≡ true → MapsTo f lpn
  pub owned :
      (p : Ppa) → IsAddr f.ssd.sp p → f.ssd.status p ≡ PgStatus.valid → gone p ≡ false → Owned f p

-- No page has been copied and not erased.
abbrev pub none_gone : Ppa → Bool
none_gone p = false
