-- ===== src/Io/Transfer/Same.antt =====
-- The DMA transfer merges adjacent pages, and moves the same bytes as the copy page by page.
use nvmevirt_learned_ftl.Prelude.{
  ℕ, zero, suc, ◌+◌, ◌-◌, ◌/◌, ◌^◌, ◌<◌, ◌≡◌, refl, sym, ap, ◌∙◌, true, false, some, none, List, [],
  ◌∷◌, ltb, ◌==◌, arith, ◌>>=◌, inl, inr, eq-cases, subst, length, >>=-eq-some, some-eq, lt→ltb,
}
use nvmevirt_learned_ftl.Io.Transfer.{
  page_size, Host, IoCommand, Piece, Copying, prp_at, piece_size, piece_at, next_prp, took,
  copy_pieces, copy_start, cmd_io_offset, cmd_io_size, do_perform_io, Transfer, direction_of,
  ns_index, list_pages, paddr_list_length, do_perform_io_using_dma,
}
use nvmevirt_learned_ftl.Io.Transfer.Merge.{bytes, hosts, AllAligned, tail, cut, Covers, dma-bytes}
use nvmevirt_learned_ftl.Io.Transfer.Tiles.{piece_size_bounds, piece_at-host, copy_pieces-nil}

copy_more :
    (n : ℕ) (h : Host) (cmd : IoCommand) (s : Copying) {ps : List Piece}
    → 0 < s.remaining
    → copy_pieces (suc n) h cmd s ≡ some ps
    → (prp_at h cmd (next_prp s).chained (next_prp s).prp_offs >>= λ paddr.
        copy_pieces n h cmd (took (piece_size s.remaining paddr) (next_prp s)) >>= λ qs.
        some (piece_at h s paddr ∷ qs))
      ≡ some ps
unfolding copy_pieces
copy_more n h cmd s more e = let t : (s.remaining == 0) ≡ false = ground arith in rw t at e

copy_none :
    (h : Host) (cmd : IoCommand) (s : Copying) → 0 < s.remaining → copy_pieces 0 h cmd s ≡ none
unfolding copy_pieces
copy_none h cmd s more = let t : (s.remaining == 0) ≡ false = ground arith in rw t

module _ (h : Host) (valid : (f : ℕ) → h.pfn_valid f ≡ true) (cmd : IoCommand) where
  -- The loop that gathers the addresses finds those of the pieces.
  record Gathered (n : ℕ) (s : Copying) (ps : List Piece) : Type 0 where
    found : list_pages n h cmd s ≡ some (hosts ps)
    pieces : ps ≡ cut (hosts ps) s.remaining s.offset
    covers : Covers (hosts ps) s.remaining

  Gathered-nil : (n : ℕ) (s : Copying) → s.remaining ≡ 0 → Gathered n s []
  unfolding list_pages cut
  Gathered-nil zero s e = record { found = rw e; pieces = refl; covers = e }
  Gathered-nil (suc n) s e =
      let t : (s.remaining == 0) ≡ true = ground arith in
      record { found = rw t; pieces = refl; covers = e }

  list_cons :
      (n : ℕ) (s : Copying) (paddr : ℕ) {pages : List ℕ}
      → 0 < s.remaining
      → (next_prp s).prp_offs < paddr_list_length
      → prp_at h cmd (next_prp s).chained (next_prp s).prp_offs ≡ some paddr
      → list_pages n h cmd (took (piece_size s.remaining paddr) (next_prp s)) ≡ some pages
      → list_pages (suc n) h cmd s ≡ some (paddr ∷ pages)
  unfolding list_pages
  list_cons n s paddr more room at rest =
      let e : (s.remaining == 0) ≡ false = ground arith in
      let r : ltb (next_prp s).prp_offs paddr_list_length ≡ true = lt→ltb _ _ room in
      rw (e, r, at, rest)

  piece_of :
      (s : Copying) (paddr : ℕ)
      → piece_at h s paddr
        ≡ record { host = paddr; offset = s.offset; size = piece_size s.remaining paddr }
  unfolding piece_at
  piece_of s paddr =
      let at = piece_at-host h s paddr (valid (paddr / page_size)) in
      ap (λ a. record { host = a; offset = s.offset; size = piece_size s.remaining paddr }) at

  took_offset :
      (s : Copying) (k : ℕ)
      → s.offset + k < 2 ^ 64
      → ((took k (next_prp s)).offset ≡ s.offset + k)
        × ((took k (next_prp s)).remaining ≡ s.remaining - k)
        × ((took k (next_prp s)).prp_offs ≡ s.prp_offs + 1)
        × ((next_prp s).prp_offs ≡ s.prp_offs + 1)
  unfolding took next_prp
  took_offset s k fits = (omega arith, refl, refl, refl)

  Gathered-cons :
      (n : ℕ) (s : Copying) (paddr : ℕ) (ps : List Piece)
      → 0 < s.remaining
      → s.offset + s.remaining < 2 ^ 64
      → (next_prp s).prp_offs < paddr_list_length
      → prp_at h cmd (next_prp s).chained (next_prp s).prp_offs ≡ some paddr
      → Gathered n (took (piece_size s.remaining paddr) (next_prp s)) ps
      → Gathered (suc n) s (piece_at h s paddr ∷ ps)
  unfolding cut
  Gathered-cons n s paddr ps more fits room at g =
      let k = piece_size s.remaining paddr in
      let (pos, le, _) = piece_size_bounds s.remaining paddr more in
      let (o, r, _, _) = took_offset s k (omega arith) in
      let here = piece_of s paddr in
      let host = sym (ap (λ (p : Piece). p.host) here) in
      let piece : Piece = record { host = paddr; offset = s.offset; size = k } in
      record {
        found = list_cons n s paddr more room at g.found ∙ ap (λ a. some (a ∷ hosts ps)) host;
        pieces =
            ap (λ a. a ∷ ps) here
            ∙ ap (λ l. piece ∷ l)
                (g.pieces
                  ∙ ap (λ a. cut (hosts ps) a (took k (next_prp s)).offset) r
                  ∙ ap (cut (hosts ps) (s.remaining - k)) o)
            ∙ ap (λ a. cut (a ∷ hosts ps) s.remaining s.offset) host;
        covers =
            subst (λ a. Covers (a ∷ hosts ps) s.remaining) host
              (more, subst (Covers (hosts ps)) r g.covers);
      }

  gather :
      (n : ℕ) (s : Copying) (ps : List Piece)
      → copy_pieces n h cmd s ≡ some ps
      → s.offset + s.remaining < 2 ^ 64
      → s.prp_offs + length ps < paddr_list_length
      → Gathered n s ps
  gather zero s ps e fits room = elim (eq-cases s.remaining 0) [
    | inl z ↦
        subst (Gathered zero s) (some-eq (sym (copy_pieces-nil zero h cmd s z) ∙ e))
          (Gathered-nil zero s z)
    | inr ne ↦ let bad = sym (copy_none h cmd s (omega arith)) ∙ e in cc
  ]
  gather (suc n) s ps e fits room = elim (eq-cases s.remaining 0) [
    | inl z ↦
        subst (Gathered (suc n) s) (some-eq (sym (copy_pieces-nil (suc n) h cmd s z) ∙ e))
          (Gathered-nil (suc n) s z)
    | inr ne ↦
        let more : 0 < s.remaining = omega arith in
        let (paddr, at, rest) = >>=-eq-some _ _ (copy_more n h cmd s more e) in
        let (qs, go, last) = >>=-eq-some _ _ rest in
        let same = some-eq last in
        let k = piece_size s.remaining paddr in
        let (pos, le, _) = piece_size_bounds s.remaining paddr more in
        let (o, r, offs, offs') = took_offset s k (omega arith) in
        let count : suc (length qs) ≡ length ps = ap (λ l. length l) same in
        subst (Gathered (suc n) s) same (
          Gathered-cons n s paddr qs more fits (omega arith) at
            (gather n (took k (next_prp s)) qs go (omega arith) (omega arith)))
  ]

  -- Where the kernel knows every page frame, the namespace of a command is mapped from
  -- `storage_start`, the offset and the size of the command sum to less than 2^64, and
  -- `__do_perform_io` returns some pieces, fewer than 513 and all but the first at the start of a
  -- page: `__do_perform_io_using_dma` returns as well, and moves the same bytes between the same
  -- addresses of the host and of the storage, in the same direction and order.
  pub do_perform_io_using_dma-same :
      (lba_bits : ℕ) (t : Transfer)
      → do_perform_io lba_bits h cmd ≡ some t
      → h.mapped (ns_index cmd) ≡ h.storage_start
      → cmd_io_offset lba_bits cmd + cmd_io_size lba_bits cmd < 2 ^ 64
      → length t.pieces < paddr_list_length
      → AllAligned (tail (hosts t.pieces))
      → (u : Transfer) × (do_perform_io_using_dma lba_bits h cmd ≡ some u)
        × (u.direction ≡ t.direction)
        × (u.storage ≡ t.storage)
        × (bytes u.pieces ≡ bytes t.pieces)
  unfolding do_perform_io do_perform_io_using_dma
  do_perform_io_using_dma-same lba_bits t e base fits room aligned =
      let total = cmd_io_size lba_bits cmd in
      let offset = cmd_io_offset lba_bits cmd in
      let (ps, run, last) = >>=-eq-some (copy_pieces total h cmd (copy_start offset total)) _ e in
      let whole = some-eq last in
      let pieces : ps ≡ t.pieces = ap (λ (x : Transfer). x.pieces) whole in
      let few : length ps < paddr_list_length = rw pieces room in
      let g = gather total (copy_start offset total) ps run fits (omega (arith, few)) in
      let (qs, go, same) =
        dma-bytes total (hosts ps) total offset g.covers (rw pieces aligned) (omega arith) fits in
      (
        record { direction = direction_of cmd.opcode; storage = h.storage_start; pieces = qs },
        rw (g.found, go) refl,
        ap (λ (x : Transfer). x.direction) whole,
        sym base ∙ ap (λ (x : Transfer). x.storage) whole,
        same ∙ ap bytes (sym g.pieces ∙ pieces),
      )
