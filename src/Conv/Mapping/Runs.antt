-- ===== src/Conv/Mapping/Runs.antt =====
-- When no assertion of a host write of one page fails.
use nvmevirt_learned_ftl.Prelude.{
  ℕ, eq→==, eq-cases, ==→eq, lt→ltb, le→leb, ◌+◌, ◌-◌, ◌<◌, ◌≤◌, ◌≡◌, ◌≢◌, refl, true, false, Bool,
  arith, some, update, Bool-cases, inl, inr, ◌∙◌, ap, ◌==◌,
}
use nvmevirt_learned_ftl.Ssd.Params.{SsdParams}
use nvmevirt_learned_ftl.Ssd.Ppa.{Ppa, mapped_ppa, invalid_lpn, same_pg, same_blk}
use nvmevirt_learned_ftl.Ssd.Nand.{PgStatus, Ssd, set_status, set_block}
use nvmevirt_learned_ftl.Conv.State.{ConvFtl, Line, LineMgmt, pgidx, ppa2pgidx, set_rmap_ent}
use nvmevirt_learned_ftl.Conv.State.Queue.{QueueOps}
use nvmevirt_learned_ftl.Conv.Pages.{
  invalidate_page, invalidate_line, lower_vpc, full_to_victim, mark_page_invalid,
}
use nvmevirt_learned_ftl.Conv.Pages.{take_page, mark_page_valid, validate_page}
use nvmevirt_learned_ftl.Conv.Lines.{get_new_page}
use nvmevirt_learned_ftl.Conv.State.{user_io, get_wp, set_maptbl_ent}
use nvmevirt_learned_ftl.Conv.State.Pointer.{Fits, IsPointer, page_at}
use nvmevirt_learned_ftl.Conv.State.Index.{pgidx-lt-tt_pgs}
use nvmevirt_learned_ftl.Ssd.Params.Geometry.{IsGeometry}
use nvmevirt_learned_ftl.Conv.Mapping.{IsAddr, IsConsistent}
use nvmevirt_learned_ftl.Conv.Mapping.Steps.{set_status_ne, free-ne}
use nvmevirt_learned_ftl.Conv.Mapping.Remap.{
  Remapped, page_at-IsAddr, get_new_page_lem, write_remap-Remapped,
}
use nvmevirt_learned_ftl.Conv.Write.{give_up, write_remap}

-- What the queue keeps of its lines: only the line whose priority changes gets another `vpc`.
pub record QueueLaws {Q : Type 0} (ops : QueueOps Q) : Type 0 where
  pub insert_keeps :
      (q : Q) (lines : ℕ → Line) (i j : ℕ) → ((ops.insert q lines i).1 j).vpc ≡ (lines j).vpc
  pub change_sets :
      (q : Q) (lines : ℕ → Line) (v i : ℕ) → ((ops.change_priority q lines v i).1 i).vpc ≡ v
  pub change_keeps :
      (q : Q) (lines : ℕ → Line) (v i j : ℕ)
      → j ≢ i
      → ((ops.change_priority q lines v i).1 j).vpc ≡ (lines j).vpc

-- The counters of the block and of the line of a page that is valid.
pub record IsCounted {Q : Type 0} (f : ConvFtl Q) (p : Ppa) : Type 0 where
  pub blk_ipc : (f.ssd.blocks p).ipc < f.ssd.sp.pgs_per_blk
  pub blk_vpc : 0 < (f.ssd.blocks p).vpc
  pub blk_vpc_le : (f.ssd.blocks p).vpc ≤ f.ssd.sp.pgs_per_blk
  pub line_ipc : (f.lm.lines p.blk).ipc < f.ssd.sp.pgs_per_line
  pub line_vpc : 0 < (f.lm.lines p.blk).vpc
  pub line_vpc_le : (f.lm.lines p.blk).vpc ≤ f.ssd.sp.pgs_per_line
  pub full_clean : (f.lm.lines p.blk).vpc ≡ f.ssd.sp.pgs_per_line → (f.lm.lines p.blk).ipc ≡ 0

-- The page at a write pointer can take data.
pub record HasRoom {Q : Type 0} (f : ConvFtl Q) (p : Ppa) : Type 0 where
  pub is_free : f.ssd.status p ≡ PgStatus.free
  pub blk_vpc : (f.ssd.blocks p).vpc < f.ssd.sp.pgs_per_blk
  pub line_vpc : (f.lm.lines p.blk).vpc < f.ssd.sp.pgs_per_line

same_pg_comm : (p q : Ppa) → same_pg q p ≡ false → same_pg p q ≡ false
unfolding same_pg
same_pg_comm p q h = ground arith

abbrev taken : {Q : Type 0} → ConvFtl Q → ℕ → Ppa → ConvFtl Q
taken h lpn new = record h {
  maptbl = update h.maptbl lpn new;
  rmap = update h.rmap (pgidx h.ssd.sp new) lpn;
  ssd = record (h.ssd) {
    status = set_status h.ssd.status new PgStatus.valid;
    blocks =
        set_block h.ssd.blocks new (record (h.ssd.blocks new) { vpc = (h.ssd.blocks new).vpc + 1 });
  };
  lm = record (h.lm) {
    lines =
        update h.lm.lines new.blk
          (record (h.lm.lines new.blk) { vpc = (h.lm.lines new.blk).vpc + 1 });
  };
}

take_page_runs :
    {Q : Type 0} (h : ConvFtl Q) (lpn : ℕ) (new : Ppa)
    → lpn < h.ssd.sp.tt_pgs
    → pgidx h.ssd.sp new < h.ssd.sp.tt_pgs
    → h.ssd.status new ≡ PgStatus.free
    → (h.ssd.blocks new).vpc < h.ssd.sp.pgs_per_blk
    → (h.lm.lines new.blk).vpc < h.ssd.sp.pgs_per_line
    → (g : ConvFtl Q) × (take_page h lpn new ≡ some g)
unfolding take_page set_maptbl_ent set_rmap_ent ppa2pgidx mark_page_valid validate_page
take_page_runs h lpn new h1 h2 h3 h4 h5 =
    (taken h lpn new, rw (lt→ltb _ _ h1, lt→ltb _ _ h2, h3, lt→ltb _ _ h4, lt→ltb _ _ h5) refl)

-- The counters of a block are the same at all its pages.
abbrev pub IsBlockwise : Ssd → Type 0
IsBlockwise s = (p q : Ppa) → same_blk p q ≡ true → s.blocks p ≡ s.blocks q

abbrev invalidated : Ssd → Ppa → Ssd
invalidated s p = record s {
  status = set_status s.status p PgStatus.invalid;
  blocks =
      set_block s.blocks p
        (record (s.blocks p) { ipc = (s.blocks p).ipc + 1; vpc = (s.blocks p).vpc - 1 });
}

invalidate_page_runs :
    (s : Ssd) (p : Ppa)
    → s.status p ≡ PgStatus.valid
    → (s.blocks p).ipc < s.sp.pgs_per_blk
    → 0 < (s.blocks p).vpc
    → (s.blocks p).vpc ≤ s.sp.pgs_per_blk
    → invalidate_page s p ≡ some (invalidated s p)
unfolding invalidate_page
invalidate_page_runs s p hv h1 h2 h3 = rw (hv, lt→ltb _ _ h1, lt→ltb _ _ h2, le→leb _ _ h3) refl

invalidated-le :
    (s : Ssd) (p q : Ppa) → IsBlockwise s → ((invalidated s p).blocks q).vpc ≤ (s.blocks q).vpc
unfolding set_block
invalidated-le s p q h = elim (Bool-cases (same_blk p q)) [
  | inl e ↦ rw (e, ← (h p q e)) (omega arith)
  | inr e ↦ rw e (omega arith)
]

module _ {Q : Type 0} ⦃ops : QueueOps Q⦄ (laws : QueueLaws ops) where
  lowered-le :
      (lm : LineMgmt Q) (i j : ℕ)
      → ((ops.change_priority lm.victim_line_pq lm.lines ((lm.lines i).vpc - 1) i).1 j).vpc
        ≤ (lm.lines j).vpc
  lowered-le lm i j = elim (eq-cases j i) [
    | inl e ↦
        rw (e, laws.change_sets lm.victim_line_pq lm.lines ((lm.lines i).vpc - 1) i) (omega arith)
    | inr ne ↦
        rw (laws.change_keeps lm.victim_line_pq lm.lines ((lm.lines i).vpc - 1) i j ne)
          (omega arith)
  ]

  lower_vpc-le : (lm : LineMgmt Q) (i j : ℕ) → ((lower_vpc lm i).lines j).vpc ≤ (lm.lines j).vpc
  unfolding lower_vpc update
  lower_vpc-le lm i j = elim (Bool-cases ((lm.lines i).pos == 0)) [
    | inl e ↦ rw e (elim (Bool-cases (i == j)) [
      | inl e' ↦ rw (e', ==→eq i j e') (omega arith)
      | inr e' ↦ rw e' (omega arith)
    ])
    | inr e ↦ rw e (lowered-le lm i j)
  ]

  full_to_victim-le :
      (lm : LineMgmt Q) (i j : ℕ) → ((full_to_victim lm i).lines j).vpc ≤ (lm.lines j).vpc
  unfolding full_to_victim
  full_to_victim-le lm i j = rw (laws.insert_keeps lm.victim_line_pq lm.lines i j) (omega arith)

  abbrev bumped : LineMgmt Q → ℕ → LineMgmt Q
  bumped lm i = record lm {
    lines = update lm.lines i (record (lm.lines i) { ipc = (lm.lines i).ipc + 1 });
  }

  bumped_vpc : (lm : LineMgmt Q) (i j : ℕ) → ((bumped lm i).lines j).vpc ≡ (lm.lines j).vpc
  unfolding update
  bumped_vpc lm i j = elim (Bool-cases (i == j)) [
    | inl e ↦ rw e (ap (λ x. (lm.lines x).vpc) (==→eq i j e))
    | inr e ↦ rw e refl
  ]

  bumped-le :
      (lm : LineMgmt Q) (i j : ℕ) → ((lower_vpc (bumped lm i) i).lines j).vpc ≤ (lm.lines j).vpc
  bumped-le lm i j = omega (arith, lower_vpc-le (bumped lm i) i j, bumped_vpc lm i j)

  invalidate_line_runs :
      (s : SsdParams) (lm : LineMgmt Q) (i : ℕ)
      → (lm.lines i).ipc < s.pgs_per_line
      → 0 < (lm.lines i).vpc
      → (lm.lines i).vpc ≤ s.pgs_per_line
      → ((lm.lines i).vpc ≡ s.pgs_per_line → (lm.lines i).ipc ≡ 0)
      → (m : LineMgmt Q) × (invalidate_line s lm i ≡ some m)
        × ((j : ℕ) → (m.lines j).vpc ≤ (lm.lines j).vpc)
  unfolding invalidate_line
  invalidate_line_runs s lm i h1 h2 h3 h4 = elim (Bool-cases ((lm.lines i).vpc == s.pgs_per_line)) [
    | inl full ↦ (
      full_to_victim (lower_vpc (bumped lm i) i) i,
      rw (lt→ltb _ _ h1, full, eq→== _ _ (h4 (==→eq _ _ full)), lt→ltb _ _ h2, le→leb _ _ h3) refl,
      λ j. omega (arith, full_to_victim-le (lower_vpc (bumped lm i) i) i j, bumped-le lm i j),
    )
    | inr part ↦ (
      lower_vpc (bumped lm i) i,
      rw (lt→ltb _ _ h1, part, lt→ltb _ _ h2, le→leb _ _ h3) refl,
      bumped-le lm i,
    )
  ]

  -- Giving up a page that is counted runs, raises no count and leaves the free pages free.
  give_up_runs :
      (gone : Ppa → Bool) (f : ConvFtl Q) (lpn : ℕ)
      → IsGeometry f.ssd.sp
      → IsConsistent gone f
      → lpn < f.ssd.sp.tt_pgs
      → IsBlockwise f.ssd
      → (mapped_ppa (f.maptbl lpn) ≡ true → IsCounted f (f.maptbl lpn))
      → (h : ConvFtl Q) × (give_up f lpn ≡ some h)
        × (h.ssd.sp ≡ f.ssd.sp)
        × (h.wp ≡ f.wp)
        × ((q : Ppa) → (h.ssd.blocks q).vpc ≤ (f.ssd.blocks q).vpc)
        × ((j : ℕ) → (h.lm.lines j).vpc ≤ (f.lm.lines j).vpc)
        × ((q : Ppa)
            → IsAddr f.ssd.sp q
            → f.ssd.status q ≡ PgStatus.free
            → h.ssd.status q ≡ PgStatus.free)
  unfolding give_up mark_page_invalid set_rmap_ent ppa2pgidx
  give_up_runs gone f lpn geo c hl bw counted = elim (Bool-cases (mapped_ppa (f.maptbl lpn))) [
    | inl m ↦
        let p = f.maptbl lpn in
        let k = counted m in
        let at = c.maps lpn hl m in
        let a = invalidate_page_runs f.ssd p at.is_valid k.blk_ipc k.blk_vpc k.blk_vpc_le in
        let (lm, b, le) =
          invalidate_line_runs f.ssd.sp f.lm p.blk k.line_ipc k.line_vpc k.line_vpc_le
            k.full_clean in
        (
          record f {
            ssd = invalidated f.ssd p;
            lm = lm;
            rmap = update f.rmap (pgidx f.ssd.sp p) invalid_lpn;
          },
          rw (m, a, b, lt→ltb _ _ (pgidx-lt-tt_pgs f.ssd.sp p geo at.addr.range)) refl,
          refl,
          refl,
          λ q. invalidated-le f.ssd p q bw,
          le,
          λ q aq free.
              set_status_ne f.ssd.status p q PgStatus.invalid
                (same_pg_comm p q (free-ne f lpn q geo aq p at.addr free at.is_valid))
              ∙ free,
        )
    | inr fresh ↦ (f, rw fresh refl, refl, refl, λ q. omega arith, λ j. omega arith, λ q aq e. e)
  ]

  -- On a well-formed geometry whose coordinates fit in an address, with the host's write pointer on
  -- a page of the array, consistent tables, a logical page in range, and a victim queue that
  -- changes a line's `vpc` only as it is told: if the counters of a block are the same at all its
  -- pages, those of the block and the line of the old page (if there is one) are in their bounds,
  -- and the page at the pointer is free with room in the counts of its block and line, then no
  -- assertion of `write_remap` fails: it returns, the logical page lies on the page at the pointer,
  -- every other logical page lies where it did, and the tables are consistent.
  pub write_remap_runs :
      (gone : Ppa → Bool) (f : ConvFtl Q) (lpn : ℕ)
      → IsGeometry f.ssd.sp
      → Fits f.ssd.sp
      → IsPointer f.ssd.sp f.wp
      → IsConsistent gone f
      → lpn < f.ssd.sp.tt_pgs
      → IsBlockwise f.ssd
      → (mapped_ppa (f.maptbl lpn) ≡ true → IsCounted f (f.maptbl lpn))
      → HasRoom f (page_at f.wp)
      → (r : Ppa × ConvFtl Q) × (write_remap f lpn ≡ some r)
        × Remapped gone lpn (page_at f.wp) f r.1
  unfolding write_remap get_wp
  write_remap_runs gone f lpn geo fits w c hl bw counted room =
      let (h, e, sp, wp, blk, line, free) = give_up_runs gone f lpn geo c hl bw counted in
      let new = page_at f.wp in
      let a = page_at-IsAddr f.ssd.sp f.wp w in
      let page : get_new_page h user_io ≡ some new =
        get_new_page_lem h user_io (rw sp fits) (rw (sp, wp) w) ∙ ap (λ x. some (page_at x)) wp in
      let (g, done) =
        take_page_runs h lpn new (rw sp hl) (rw sp (pgidx-lt-tt_pgs f.ssd.sp new geo a.range))
          (free new a room.is_free) (rw sp (omega (arith, blk new, room.blk_vpc)))
          (rw sp (omega (arith, line new.blk, room.line_vpc))) in
      let runs : write_remap f lpn ≡ some (new, g) = rw (e, page, done) refl in
      ((new, g), runs, write_remap-Remapped gone f lpn geo fits w c hl runs)
