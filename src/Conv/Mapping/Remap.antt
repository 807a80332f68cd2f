-- ===== src/Conv/Mapping/Remap.antt =====
-- The mapping part of a host write (`conv_write`) and of a collector's copy (`gc_write_page`).
use nvmevirt_learned_ftl.Prelude.{
  ℕ, ◌<◌, ◌≡◌, ◌≢◌, refl, true, false, Bool, arith, some, ◌||◌, update_self, update_ne, Bool-cases,
  inl, inr, sym, ◌∙◌, subst, ap, >>=-eq-some, some-eq, ensure,
}
use nvmevirt_learned_ftl.Ssd.Params.{SsdParams}
use nvmevirt_learned_ftl.Ssd.Params.Geometry.{IsGeometry}
use nvmevirt_learned_ftl.Ssd.Ppa.{Ppa, mapped_ppa, same_pg}
use nvmevirt_learned_ftl.Ssd.Nand.{PgStatus}
use nvmevirt_learned_ftl.Conv.State.{
  ppa2pgidx, valid_lpn, ConvFtl, WritePointer, IoType, user_io, gc_io, get_wp, pgidx, set_rmap_ent,
  set_maptbl_ent, get_rmap_ent,
}
use nvmevirt_learned_ftl.Conv.State.Queue.{QueueOps}
use nvmevirt_learned_ftl.Conv.State.Pointer.{Fits, IsPointer, page_at}
use nvmevirt_learned_ftl.Conv.Lines.{get_new_page}
use nvmevirt_learned_ftl.Conv.Pages.{
  mark_page_valid, mark_page_invalid, take_page, invalidate_page, validate_page,
}
use nvmevirt_learned_ftl.Conv.Write.{give_up, write_remap}
use nvmevirt_learned_ftl.Conv.Gc.{gc_remap}
use nvmevirt_learned_ftl.Conv.Mapping.{IsAddr, IsConsistent}
use nvmevirt_learned_ftl.Conv.Mapping.Steps.{GivesUp, Takes, IsReady}
use nvmevirt_learned_ftl.Conv.Mapping.Takes.{Takes-IsConsistent}
use nvmevirt_learned_ftl.Conv.Mapping.Ready.{unmapped-IsReady, GivesUp-IsReady, moved-IsReady}

pub page_at-IsAddr : (s : SsdParams) (w : WritePointer) → IsPointer s w → IsAddr s (page_at w)
page_at-IsAddr s w h = record {
  range = record {
    ch_in = h.ch_in;
    lun_in = h.lun_in;
    pl_in = omega arith;
    blk_in = h.blk_in;
    pg_in = h.pg_in;
  };
  plain = refl;
}

-- No field of a new page is cut by its bits.
pub get_new_page_lem :
    {Q : Type 0} (f : ConvFtl Q) (io : IoType)
    → Fits f.ssd.sp
    → IsPointer f.ssd.sp (get_wp f io)
    → get_new_page f io ≡ some (page_at (get_wp f io))
unfolding get_new_page
get_new_page_lem f io fits h = ground arith

take_page-Takes :
    {Q : Type 0} (f : ConvFtl Q) (lpn : ℕ) (new : Ppa) (g : ConvFtl Q)
    → take_page f lpn new ≡ some g
    → Takes lpn new f g × (g.wp ≡ f.wp) × (g.gc_wp ≡ f.gc_wp)
unfolding take_page set_maptbl_ent set_rmap_ent mark_page_valid validate_page
take_page-Takes f lpn new g e = ground arith

module _ {Q : Type 0} ⦃ops : QueueOps Q⦄ where
  give_up-mapped :
      (f : ConvFtl Q) (lpn : ℕ) (g : ConvFtl Q)
      → mapped_ppa (f.maptbl lpn) ≡ true
      → give_up f lpn ≡ some g
      → GivesUp (f.maptbl lpn) f g × (g.wp ≡ f.wp) × (g.gc_wp ≡ f.gc_wp)
  unfolding give_up set_rmap_ent mark_page_invalid invalidate_page
  give_up-mapped f lpn g h e = ground arith

  give_up-unmapped :
      (f : ConvFtl Q) (lpn : ℕ) → mapped_ppa (f.maptbl lpn) ≡ false → give_up f lpn ≡ some f
  unfolding give_up
  give_up-unmapped f lpn h = rw h

  write_remap_parts :
      (f : ConvFtl Q) (lpn : ℕ) {r : Ppa × ConvFtl Q}
      → write_remap f lpn ≡ some r
      → (h : ConvFtl Q) × (give_up f lpn ≡ some h)
        × (get_new_page h user_io ≡ some r.0)
        × (take_page h lpn r.0 ≡ some r.1)
  unfolding write_remap
  write_remap_parts f lpn e =
      let (h, e1, e') = >>=-eq-some (give_up f lpn) _ e in
      let (p, e2, e'') = >>=-eq-some (get_new_page h user_io) _ e' in
      let (g, e3, e4) = >>=-eq-some (take_page h lpn p) _ e'' in (h, e1, ground arith, ground arith)

-- What a change of the mapping of one logical page leaves: consistent tables, in which that page
-- lies on the new one and every other page lies where it did.
pub record Remapped {Q : Type 0} (gone : Ppa → Bool) (lpn : ℕ) (new : Ppa) (f g : ConvFtl Q)
    : Type 0 where
  pub consistent : IsConsistent gone g
  pub moved : g.maptbl lpn ≡ new
  pub others : (l : ℕ) → l ≢ lpn → g.maptbl l ≡ f.maptbl l
  pub same_sp : g.ssd.sp ≡ f.ssd.sp
  pub same_wp : (g.wp ≡ f.wp) × (g.gc_wp ≡ f.gc_wp)

Takes-Remapped :
    {Q : Type 0} (gone : Ppa → Bool) (lpn : ℕ) (new : Ppa) (f h g : ConvFtl Q)
    → IsGeometry h.ssd.sp
    → IsAddr h.ssd.sp new
    → IsReady gone lpn h
    → (h.maptbl ≡ f.maptbl) × (h.ssd.sp ≡ f.ssd.sp) × (h.wp ≡ f.wp) × (h.gc_wp ≡ f.gc_wp)
    → take_page h lpn new ≡ some g
    → Remapped gone lpn new f g
Takes-Remapped gone lpn new f h g geo addr ready same e =
    let (t, w, gw) = take_page-Takes h lpn new g e in
    record {
      consistent = Takes-IsConsistent {f = h} {g = g} lpn new geo addr t gone ready;
      moved = rw t.maptbl_set (update_self h.maptbl lpn new);
      others =
          λ l ne. rw (t.maptbl_set, update_ne h.maptbl lpn l new (λ q. ne (sym q)), same.0) refl;
      same_sp = t.sp_same ∙ same.1;
      same_wp = (w ∙ same.2, gw ∙ same.3);
    }

module _ {Q : Type 0} ⦃ops : QueueOps Q⦄ where
  -- Giving up the old page, if there is one, leaves the logical page ready for a new one.
  give_up-IsReady :
      (gone : Ppa → Bool) (f : ConvFtl Q) (lpn : ℕ) (h : ConvFtl Q)
      → IsGeometry f.ssd.sp
      → Fits f.ssd.sp
      → IsConsistent gone f
      → lpn < f.ssd.sp.tt_pgs
      → give_up f lpn ≡ some h
      → IsReady gone lpn h
        × (h.maptbl ≡ f.maptbl)
        × (h.ssd.sp ≡ f.ssd.sp)
        × (h.wp ≡ f.wp)
        × (h.gc_wp ≡ f.gc_wp)
  give_up-IsReady gone f lpn h geo fits c hl e = elim (Bool-cases (mapped_ppa (f.maptbl lpn))) [
    | inl mapped ↦
        let (u, w, gw) = give_up-mapped f lpn h mapped e in
        (
          GivesUp-IsReady {f = f} {g = h} gone lpn geo c (c.maps lpn hl mapped) u,
          u.maptbl_same,
          u.sp_same,
          w,
          gw,
        )
    | inr fresh ↦
        let q : f ≡ h = some-eq (sym (give_up-unmapped f lpn fresh) ∙ e) in
        (
          subst (IsReady gone lpn) q (unmapped-IsReady {f = f} gone lpn geo c fits fresh),
          ap (λ x. x.maptbl) (sym q),
          ap (λ x. x.ssd.sp) (sym q),
          ap (λ x. x.wp) (sym q),
          ap (λ x. x.gc_wp) (sym q),
        )
  ]

  -- On a well-formed geometry whose coordinates fit in an address, with the host's write pointer on
  -- a page of the array, consistent tables and a logical page in range: whenever `write_remap` (the
  -- mapping part of a host write) returns, the logical page lies on the page at the write pointer,
  -- every other logical page lies where it did, and the mapping table and the reverse table are
  -- inverse to one another on the valid pages that are not gone.
  pub write_remap-Remapped :
      (gone : Ppa → Bool) (f : ConvFtl Q) (lpn : ℕ) {r : Ppa × ConvFtl Q}
      → IsGeometry f.ssd.sp
      → Fits f.ssd.sp
      → IsPointer f.ssd.sp f.wp
      → IsConsistent gone f
      → lpn < f.ssd.sp.tt_pgs
      → write_remap f lpn ≡ some r
      → Remapped gone lpn (page_at f.wp) f r.1
  unfolding get_wp
  write_remap-Remapped gone f lpn {r} geo fits w c hl e =
      let (h, e1, e2, e3) = write_remap_parts f lpn e in
      let (ready, tbl, sp, wp, gwp) = give_up-IsReady gone f lpn h geo fits c hl e1 in
      let page : page_at f.wp ≡ r.0 = some-eq (
        sym (ap (λ x. some (page_at x)) wp)
        ∙ sym (get_new_page_lem h user_io (rw sp fits) (rw (sp, wp) w))
        ∙ e2) in
      subst (λ p. Remapped gone lpn p f r.1) (sym page)
        (Takes-Remapped gone lpn r.0 f h r.1 (rw sp geo)
          (subst (IsAddr h.ssd.sp) page (rw sp (page_at-IsAddr f.ssd.sp f.wp w))) ready
          (tbl, sp, wp, gwp) e3)

  gc_remap_parts :
      (f : ConvFtl Q) (old : Ppa) {r : Ppa × ConvFtl Q}
      → gc_remap f old ≡ some r
      → (get_new_page f gc_io ≡ some r.0)
        × (take_page f (f.rmap (pgidx f.ssd.sp old)) r.0 ≡ some r.1)
  unfolding gc_remap get_rmap_ent ppa2pgidx
  gc_remap_parts f old {r} e =
      let (lpn, e1, e') = >>=-eq-some (get_rmap_ent f old) _ e in
      let (u, e2, e'') = >>=-eq-some (ensure (valid_lpn f lpn)) _ e' in
      let (p, e3, e''') = >>=-eq-some (get_new_page f gc_io) _ e'' in
      let (g, e4, e5) = >>=-eq-some (take_page f lpn p) _ e''' in
      let q : lpn ≡ f.rmap (pgidx f.ssd.sp old) = ground arith in
      (ground arith, rw (← q) (ground arith))

  -- On a well-formed geometry whose coordinates fit in an address, with the collector's write
  -- pointer on a page of the array, consistent tables, and an old page of the array that is valid
  -- and not gone: whenever `gc_remap` (the collector's copy of a page) returns, the logical page of
  -- the old one lies on the page at the collector's pointer, every other logical page lies where it
  -- did, and the tables are inverse on the valid pages that are not gone, of which the old page is
  -- no longer one.
  pub gc_remap-Remapped :
      (gone : Ppa → Bool) (f : ConvFtl Q) (old : Ppa) {r : Ppa × ConvFtl Q}
      → IsGeometry f.ssd.sp
      → Fits f.ssd.sp
      → IsPointer f.ssd.sp f.gc_wp
      → IsConsistent gone f
      → IsAddr f.ssd.sp old
      → f.ssd.status old ≡ PgStatus.valid
      → gone old ≡ false
      → gc_remap f old ≡ some r
      → Remapped
          (λ p. gone p || same_pg old p)
          (f.rmap (pgidx f.ssd.sp old))
          (page_at f.gc_wp)
          f
          r.1
  unfolding get_wp
  gc_remap-Remapped gone f old {r} geo fits w c a hv hg e =
      let (e2, e3) = gc_remap_parts f old e in
      let page : page_at f.gc_wp ≡ r.0 = some-eq (sym (get_new_page_lem f gc_io fits w) ∙ e2) in
      let lpn : ℕ = f.rmap (pgidx f.ssd.sp old) in
      subst (λ p. Remapped (λ q. gone q || same_pg old q) lpn p f r.1) (sym page)
        (Takes-Remapped (λ q. gone q || same_pg old q) lpn r.0 f f r.1 geo
          (subst (IsAddr f.ssd.sp) page (page_at-IsAddr f.ssd.sp f.gc_wp w))
          (moved-IsReady {f = f} gone lpn geo c old a hv hg refl) (refl, refl, refl, refl) e3)
