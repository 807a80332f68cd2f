-- ===== src/Conv/Mapping/Takes.antt =====
-- A logical page takes a free page, and gives up its old one: the tables stay inverse.
use nvmevirt_learned_ftl.Prelude.{
  ℕ, ◌≡◌, ◌≢◌, false, Bool, update_self, update_ne, Bool-cases, inl, inr, sym, ◌∙◌, subst,
}
use native.Mathlib.Decide.{ℕ_discrete}
use nvmevirt_learned_ftl.Ssd.Params.Geometry.{IsGeometry}
use nvmevirt_learned_ftl.Ssd.Ppa.{Ppa, same_pg}
use nvmevirt_learned_ftl.Ssd.Nand.{PgStatus}
use nvmevirt_learned_ftl.Conv.State.{ConvFtl, pgidx}
use nvmevirt_learned_ftl.Conv.Mapping.{IsAddr, same_pg-eq, MapsTo, Owned, IsConsistent}
use nvmevirt_learned_ftl.Conv.Mapping.Steps.{
  Takes, set_status_self, set_status_ne, IsReady, differs, free-ne,
}

module _ {Q : Type 0} {f g : ConvFtl Q} (lpn : ℕ) (new : Ppa) (geo : IsGeometry f.ssd.sp)
    (addr : IsAddr f.ssd.sp new) (t : Takes lpn new f g) where
  takes_self : MapsTo g lpn
  takes_self = record {
    addr = rw (t.sp_same, t.maptbl_set, update_self f.maptbl lpn new) addr;
    is_valid =
        rw (t.maptbl_set, update_self f.maptbl lpn new, t.status_set)
          (set_status_self f.ssd.status new PgStatus.valid);
    back =
        rw (t.maptbl_set, update_self f.maptbl lpn new, t.rmap_set, t.sp_same)
          (update_self f.rmap (pgidx f.ssd.sp new) lpn);
  }

  takes-other : (l : ℕ) → l ≢ lpn → MapsTo f l → MapsTo g l
  takes-other l ne m =
      let e : g.maptbl l ≡ f.maptbl l =
        rw t.maptbl_set (update_ne f.maptbl lpn l new (λ q. ne (sym q))) in
      let d = free-ne f lpn new geo addr (f.maptbl l) m.addr t.was_free m.is_valid in
      record {
        addr = rw (t.sp_same, e) m.addr;
        is_valid =
            rw (e, t.status_set, set_status_ne f.ssd.status new (f.maptbl l) PgStatus.valid d)
              m.is_valid;
        back =
            rw (e, t.rmap_set, t.sp_same)
              (update_ne f.rmap (pgidx f.ssd.sp new) (pgidx f.ssd.sp (f.maptbl l)) lpn
                  (differs f lpn new geo addr (f.maptbl l) m.addr d)
                ∙ m.back);
      }

  Owned-new : Owned g new
  Owned-new =
      let e : g.rmap (pgidx g.ssd.sp new) ≡ lpn =
        rw (t.rmap_set, t.sp_same) (update_self f.rmap (pgidx f.ssd.sp new) lpn) in
      record {
        in_range = rw (e, t.sp_same) t.in_range;
        forth = rw (e, t.maptbl_set) (update_self f.maptbl lpn new);
      }

  Owned-old :
      (p : Ppa)
      → IsAddr f.ssd.sp p
      → same_pg new p ≡ false
      → f.rmap (pgidx f.ssd.sp p) ≢ lpn
      → Owned f p
      → Owned g p
  Owned-old p a d ne o =
      let e : g.rmap (pgidx g.ssd.sp p) ≡ f.rmap (pgidx f.ssd.sp p) =
        rw (t.rmap_set, t.sp_same)
          (update_ne f.rmap (pgidx f.ssd.sp new) (pgidx f.ssd.sp p) lpn
            (differs f lpn new geo addr p a d)) in
      record {
        in_range = rw (e, t.sp_same) o.in_range;
        forth =
            rw (e, t.maptbl_set)
              (update_ne f.maptbl lpn (f.rmap (pgidx f.ssd.sp p)) new (λ q. ne (sym q)) ∙ o.forth);
      }

  pub Takes-IsConsistent : (gone : Ppa → Bool) → IsReady gone lpn f → IsConsistent gone g
  Takes-IsConsistent gone r = record {
    maps = λ l hl hm. elim (ℕ_discrete l lpn) [
      | yes e ↦ subst (MapsTo g) (sym e) takes_self
      | no ne ↦ takes-other l ne (
          r.others l (rw t.sp_same at hl) ne
            (rw (t.maptbl_set, update_ne f.maptbl lpn l new (λ q. ne (sym q))) at hm))
    ];
    owned = λ p a hv hg. elim (Bool-cases (same_pg new p)) [
      | inl e ↦ subst (Owned g) (same_pg-eq f.ssd.sp new p addr (rw t.sp_same at a) e) Owned-new
      | inr d ↦
          let a' : IsAddr f.ssd.sp p = rw t.sp_same at a in
          let hv' : f.ssd.status p ≡ PgStatus.valid =
            rw (t.status_set, set_status_ne f.ssd.status new p PgStatus.valid d) at hv in
          Owned-old p a' d (r.owners p a' hv' hg).1 (r.owners p a' hv' hg).0
    ];
  }
