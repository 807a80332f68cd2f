-- ===== src/Conv/Mapping/Ready.antt =====
-- When a logical page may take a new page: after its old page was given up, when it had none, and
-- when the collector moves it.
use nvmevirt_learned_ftl.Prelude.{
  ℕ, ◌≡◌, ◌≢◌, true, false, Bool, arith, ◌||◌, update_ne, Bool-cases, inl, inr, sym, ◌∙◌, subst, ap,
}
use nvmevirt_learned_ftl.Ssd.Params.Geometry.{IsGeometry}
use nvmevirt_learned_ftl.Ssd.Ppa.{Ppa, mapped_ppa, invalid_lpn, same_pg}
use nvmevirt_learned_ftl.Ssd.Ppa.Packing.{same_pg_refl}
use nvmevirt_learned_ftl.Ssd.Nand.{PgStatus, set_status}
use nvmevirt_learned_ftl.Conv.State.{ConvFtl, pgidx}
use nvmevirt_learned_ftl.Conv.State.Pointer.{Fits}
use nvmevirt_learned_ftl.Conv.Mapping.{IsAddr, IsAddr-mapped, same_pg-eq, MapsTo, IsConsistent}
use nvmevirt_learned_ftl.Conv.Mapping.Steps.{
  GivesUp, set_status_self, set_status_ne, IsReady, differs,
}

module _ {Q : Type 0} {f : ConvFtl Q} (gone : Ppa → Bool) (lpn : ℕ) (geo : IsGeometry f.ssd.sp)
    (c : IsConsistent gone f) where
  -- The owner of a valid page maps to that page.
  page_of_owner :
      (p : Ppa)
      → IsAddr f.ssd.sp p
      → f.ssd.status p ≡ PgStatus.valid
      → gone p ≡ false
      → f.rmap (pgidx f.ssd.sp p) ≡ lpn
      → f.maptbl lpn ≡ p
  page_of_owner p a hv hg e = ap f.maptbl (sym e) ∙ (c.owned p a hv hg).forth

  pub unmapped-IsReady : Fits f.ssd.sp → mapped_ppa (f.maptbl lpn) ≡ false → IsReady gone lpn f
  unmapped-IsReady fits h = record {
    others = λ l hl ne hm. c.maps l hl hm;
    owners = λ p a hv hg. (
      c.owned p a hv hg,
      λ e. cc (IsAddr-mapped f.ssd.sp p fits a, ap mapped_ppa (page_of_owner p a hv hg e), h),
    );
  }

  -- The collector's case: the old page stays valid, and is gone.
  pub moved-IsReady :
      (old : Ppa)
      → IsAddr f.ssd.sp old
      → f.ssd.status old ≡ PgStatus.valid
      → gone old ≡ false
      → f.rmap (pgidx f.ssd.sp old) ≡ lpn
      → IsReady (λ p. gone p || same_pg old p) lpn f
  moved-IsReady old a_old v_old g_old e_old = record {
    others = λ l hl ne hm. c.maps l hl hm;
    owners = λ p a hv hg. (
      c.owned p a hv (ground arith),
      λ e. cc (
        subst (λ q. same_pg q p ≡ true)
            (sym (page_of_owner p a hv (ground arith) e)
              ∙ page_of_owner old a_old v_old g_old e_old)
            (same_pg_refl p),
        or-right (gone p) (same_pg old p) hg,
      ),
    );
  }
    where
      or-right : (x y : Bool) → (x || y) ≡ false → y ≡ false
      or-right x y h = ground arith

module _ {Q : Type 0} {f g : ConvFtl Q} (gone : Ppa → Bool) (lpn : ℕ) (geo : IsGeometry f.ssd.sp)
    (c : IsConsistent gone f) (m : MapsTo f lpn) (u : GivesUp (f.maptbl lpn) f g) where
  apart :
      (p : Ppa)
      → IsAddr f.ssd.sp p
      → f.rmap (pgidx f.ssd.sp p) ≢ lpn
      → same_pg (f.maptbl lpn) p ≡ false
  apart p a ne = elim (Bool-cases (same_pg (f.maptbl lpn) p)) [
    | inl e ↦ absurd (
        ne (
          ap (λ q. f.rmap (pgidx f.ssd.sp q))
            (sym (same_pg-eq f.ssd.sp (f.maptbl lpn) p m.addr a e))
          ∙ m.back))
    | inr d ↦ d
  ]

  -- What is said of a page other than the old one holds on.
  kept :
      (p : Ppa)
      → IsAddr f.ssd.sp p
      → same_pg (f.maptbl lpn) p ≡ false
      → (g.ssd.status p ≡ f.ssd.status p) × (g.rmap (pgidx g.ssd.sp p) ≡ f.rmap (pgidx f.ssd.sp p))
  kept p a d = (
    rw (u.status_set) (set_status_ne f.ssd.status (f.maptbl lpn) p PgStatus.invalid d),
    rw (u.rmap_clear, u.sp_same)
        (update_ne f.rmap (pgidx f.ssd.sp (f.maptbl lpn)) (pgidx f.ssd.sp p) invalid_lpn
          (differs f lpn (f.maptbl lpn) geo m.addr p a d)),
  )

  kept-MapsTo : (l : ℕ) → l ≢ lpn → MapsTo f l → MapsTo g l
  kept-MapsTo l ne n =
      let d = apart (f.maptbl l) n.addr (λ e. ne (sym n.back ∙ e)) in
      record {
        addr = rw (u.sp_same, u.maptbl_same) n.addr;
        is_valid = rw u.maptbl_same ((kept (f.maptbl l) n.addr d).0 ∙ n.is_valid);
        back = rw u.maptbl_same ((kept (f.maptbl l) n.addr d).1 ∙ n.back);
      }

  -- A page that is valid afterwards is not the old one.
  still_valid :
      (p : Ppa)
      → IsAddr f.ssd.sp p
      → g.ssd.status p ≡ PgStatus.valid
      → same_pg (f.maptbl lpn) p ≡ false
  still_valid p a hv = elim (Bool-cases (same_pg (f.maptbl lpn) p)) [
    | inl e ↦ absurd (clash (same_pg-eq f.ssd.sp (f.maptbl lpn) p m.addr a e))
    | inr d ↦ d
  ]
    where
      clash : f.maptbl lpn ≡ p → ⊥
      clash q = cc (
        set_status_self f.ssd.status (f.maptbl lpn) PgStatus.invalid,
        ap (λ h. h p) u.status_set,
        ap (set_status f.ssd.status (f.maptbl lpn) PgStatus.invalid) q,
      )

  pub GivesUp-IsReady : IsReady gone lpn g
  GivesUp-IsReady = record {
    others =
        λ l hl ne hm. kept-MapsTo l ne (c.maps l (rw u.sp_same at hl) (rw u.maptbl_same at hm));
    owners = λ p a hv hg.
        let a' : IsAddr f.ssd.sp p = rw u.sp_same at a in
        let d = still_valid p a' hv in
        let hv' : f.ssd.status p ≡ PgStatus.valid = sym (kept p a' d).0 ∙ hv in
        let o = c.owned p a' hv' hg in
        (
          record {
            in_range = rw ((kept p a' d).1, u.sp_same) o.in_range;
            forth = rw ((kept p a' d).1, u.maptbl_same) o.forth;
          },
          λ e. cc (
            d,
            same_pg_refl p,
            ap (λ q. same_pg q p)
                (page_of_owner {f = f} gone lpn geo c p a' hv' hg (sym (kept p a' d).1 ∙ e)),
          ),
        );
  }
