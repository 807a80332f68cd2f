-- ===== src/Conv/Mapping/Steps.antt =====
-- The two moves of which every change of the mapping in conv_ftl.c is made: a page is given up, and
-- a logical page takes a free page.
use nvmevirt_learned_ftl.Prelude.{
  ℕ, ◌<◌, ◌≡◌, ◌≢◌, true, false, Bool, update, Bool-cases, inl, inr, sym, ◌∙◌, ap,
}
use nvmevirt_learned_ftl.Ssd.Params.Geometry.{IsGeometry}
use nvmevirt_learned_ftl.Ssd.Ppa.{Ppa, mapped_ppa, invalid_lpn, same_pg}
use nvmevirt_learned_ftl.Ssd.Ppa.Packing.{same_pg_refl}
use nvmevirt_learned_ftl.Ssd.Nand.{PgStatus, set_status}
use nvmevirt_learned_ftl.Conv.State.{ConvFtl, pgidx}
use nvmevirt_learned_ftl.Conv.Mapping.{IsAddr, same_pg-eq, pgidx-eq, MapsTo, Owned}

pub record GivesUp {Q : Type 0} (old : Ppa) (f g : ConvFtl Q) : Type 0 where
  pub sp_same : g.ssd.sp ≡ f.ssd.sp
  pub maptbl_same : g.maptbl ≡ f.maptbl
  pub rmap_clear : g.rmap ≡ update f.rmap (pgidx f.ssd.sp old) invalid_lpn
  pub status_set : g.ssd.status ≡ set_status f.ssd.status old PgStatus.invalid

pub record Takes {Q : Type 0} (lpn : ℕ) (new : Ppa) (f g : ConvFtl Q) : Type 0 where
  pub in_range : lpn < f.ssd.sp.tt_pgs
  pub was_free : f.ssd.status new ≡ PgStatus.free
  pub sp_same : g.ssd.sp ≡ f.ssd.sp
  pub maptbl_set : g.maptbl ≡ update f.maptbl lpn new
  pub rmap_set : g.rmap ≡ update f.rmap (pgidx f.ssd.sp new) lpn
  pub status_set : g.ssd.status ≡ set_status f.ssd.status new PgStatus.valid

pub set_status_self : (f : Ppa → PgStatus) (p : Ppa) (s : PgStatus) → set_status f p s p ≡ s
unfolding set_status
set_status_self f p s = rw (same_pg_refl p)

pub set_status_ne :
    (f : Ppa → PgStatus) (p q : Ppa) (s : PgStatus) → same_pg p q ≡ false → set_status f p s q ≡ f q
unfolding set_status
set_status_ne f p q s h = rw h

-- Before a logical page takes a new page: all others are in order, and no valid page claims it.
pub record IsReady {Q : Type 0} (gone : Ppa → Bool) (lpn : ℕ) (f : ConvFtl Q) : Type 0 where
  pub others : (l : ℕ) → l < f.ssd.sp.tt_pgs → l ≢ lpn → mapped_ppa (f.maptbl l) ≡ true → MapsTo f l
  pub owners :
      (p : Ppa)
      → IsAddr f.ssd.sp p
      → f.ssd.status p ≡ PgStatus.valid
      → gone p ≡ false
      → Owned f p × (f.rmap (pgidx f.ssd.sp p) ≢ lpn)

module _ {Q : Type 0} (f : ConvFtl Q) (lpn : ℕ) (new : Ppa) (geo : IsGeometry f.ssd.sp)
    (addr : IsAddr f.ssd.sp new) where
  pub differs :
      (p : Ppa) → IsAddr f.ssd.sp p → same_pg new p ≡ false → pgidx f.ssd.sp new ≢ pgidx f.ssd.sp p
  differs p a h e =
      cc (sym h ∙ ap (same_pg new) (sym (pgidx-eq f.ssd.sp new p geo addr a e)) ∙ same_pg_refl new)

  pub free-ne :
      (p : Ppa)
      → IsAddr f.ssd.sp p
      → f.ssd.status new ≡ PgStatus.free
      → f.ssd.status p ≡ PgStatus.valid
      → same_pg new p ≡ false
  free-ne p a hf hv = elim (Bool-cases (same_pg new p)) [
    | inl e ↦ absurd (clash (ap f.ssd.status (same_pg-eq f.ssd.sp new p addr a e)))
    | inr e ↦ e
  ]
    where
      clash : f.ssd.status new ≡ f.ssd.status p → ⊥
      clash e = cc
