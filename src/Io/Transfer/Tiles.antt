-- ===== src/Io/Transfer/Tiles.antt =====
-- The pieces of a copy lie one after the other in the storage, each within a page of the host.
use nvmevirt_learned_ftl.Prelude.{
  ℕ, ◌>>=◌, zero, suc, ◌+◌, ◌-◌, ◌*◌, ◌/◌, ◌%◌, ◌^◌, ◌≤◌, ◌<◌, ◌≡◌, refl, ap, ◌∙◌, Bool, true,
  false, some, List, [], ◌∷◌, ltb, ◌==◌, arith, add64, Bool-cases, inl, inr, eq-cases, subst,
}
use nvmevirt_learned_ftl.Io.Transfer.{
  page_size, Host, IoCommand, Piece, Copying, mapped_at, prp_list, prp_at, piece_size, piece_at,
  next_prp, took, copy_pieces, copy_start, cmd_io_offset, cmd_io_size, do_perform_io, Transfer,
  direction_of, ns_index,
}

-- The pieces cover `length` bytes from `offset` on, in order; none is empty, and none leaves its page.
abbrev pub Tiles : ℕ → ℕ → List Piece → Type 0
Tiles offset length [] = length ≡ 0
Tiles offset length (p ∷ ps) =
    (p.offset ≡ offset)
    × (0 < p.size)
    × (p.size ≤ length)
    × (p.host % page_size + p.size ≤ page_size)
    × Tiles (offset + p.size) (length - p.size) ps

pub piece_size_bounds :
    (remaining paddr : ℕ)
    → 0 < remaining
    → (0 < piece_size remaining paddr)
      × (piece_size remaining paddr ≤ remaining)
      × (paddr % page_size + piece_size remaining paddr ≤ page_size)
unfolding piece_size
piece_size_bounds remaining paddr h = (ground arith, ground arith, ground arith)

-- Where the kernel knows a page, the mapped address is the address itself.
pub piece_at-host :
    (h : Host) (s : Copying) (paddr : ℕ)
    → h.pfn_valid (paddr / page_size) ≡ true
    → (piece_at h s paddr).host ≡ paddr
unfolding piece_at mapped_at
piece_at-host h s paddr valid = rw valid (omega arith)

-- A round of the copy loop
pub copy_pieces-cons :
    (n : ℕ) (h : Host) (cmd : IoCommand) (s : Copying) {paddr : ℕ} {ps : List Piece}
    → 0 < s.remaining
    → prp_at h cmd (next_prp s).chained (next_prp s).prp_offs ≡ some paddr
    → copy_pieces n h cmd (took (piece_size s.remaining paddr) (next_prp s)) ≡ some ps
    → copy_pieces (suc n) h cmd s ≡ some (piece_at h s paddr ∷ ps)
unfolding copy_pieces
copy_pieces-cons n h cmd s more at rest =
    let e : (s.remaining == 0) ≡ false = ground arith in rw (e, at, rest)

pub copy_pieces-nil :
    (n : ℕ) (h : Host) (cmd : IoCommand) (s : Copying)
    → s.remaining ≡ 0
    → copy_pieces n h cmd s ≡ some []
unfolding copy_pieces
copy_pieces-nil zero h cmd s e = rw e
copy_pieces-nil (suc n) h cmd s e = let t : (s.remaining == 0) ≡ true = ground arith in rw t

module _ (h : Host) (valid : (f : ℕ) → h.pfn_valid f ≡ true) (cmd : IoCommand) where
  Tiles-cons :
      (s : Copying) (paddr : ℕ) (ps : List Piece)
      → 0 < s.remaining
      → s.offset + s.remaining < 2 ^ 64
      → Tiles
          (took (piece_size s.remaining paddr) (next_prp s)).offset
          (took (piece_size s.remaining paddr) (next_prp s)).remaining
          ps
      → Tiles s.offset s.remaining (piece_at h s paddr ∷ ps)
  unfolding piece_at took next_prp
  Tiles-cons s paddr ps more fits tiles =
      let (pos, le, page) = piece_size_bounds s.remaining paddr more in
      let host = piece_at-host h s paddr (valid (paddr / page_size)) in
      let next : add64 s.offset (piece_size s.remaining paddr)
          ≡ s.offset + piece_size s.remaining paddr =
        omega arith in
      (
        refl,
        pos,
        le,
        rw host page,
        subst (λ o. Tiles o (s.remaining - piece_size s.remaining paddr) ps) next tiles,
      )

  -- The state after a piece
  took_fields :
      (s : Copying) (paddr : ℕ)
      → 0 < s.remaining
      → s.offset + s.remaining < 2 ^ 64
      → ((took (piece_size s.remaining paddr) (next_prp s)).remaining < s.remaining)
        × ((took (piece_size s.remaining paddr) (next_prp s)).offset
              + (took (piece_size s.remaining paddr) (next_prp s)).remaining
            < 2 ^ 64)
  unfolding took next_prp
  took_fields s paddr more fits =
      let (pos, le, _) = piece_size_bounds s.remaining paddr more in (omega arith, omega arith)

  chained_next :
      (s : Copying) (k : ℕ)
      → 2 ≤ s.prp_offs
      → ((took k (next_prp s)).chained ≡ s.chained)
        × ((next_prp s).chained ≡ s.chained)
        × ((next_prp s).prp_offs ≡ s.prp_offs + 1)
        × ((took k (next_prp s)).prp_offs ≡ s.prp_offs + 1)
  unfolding took next_prp
  chained_next s k offs = (ground arith, ground arith, ground arith, ground arith)

  chained_at :
      (offs : ℕ) (chained : Bool)
      → chained ≡ true
      → 2 ≤ offs
      → prp_at h cmd chained offs ≡ some (h.load (prp_list h cmd.prp2 + 8 * (offs - 2)))
  unfolding prp_at
  chained_at offs chained e le = ground arith

  -- The pieces from the third on
  loop_chained :
      (n : ℕ) (s : Copying)
      → s.chained ≡ true
      → 2 ≤ s.prp_offs
      → s.remaining ≤ n
      → s.offset + s.remaining < 2 ^ 64
      → (ps : List Piece) × (copy_pieces n h cmd s ≡ some ps) × Tiles s.offset s.remaining ps
  loop_chained zero s chained offs enough fits =
      let e : s.remaining ≡ 0 = omega arith in ([], copy_pieces-nil zero h cmd s e, e)
  loop_chained (suc n) s chained offs enough fits = elim (eq-cases s.remaining 0) [
    | inl e ↦ ([], copy_pieces-nil (suc n) h cmd s e, e)
    | inr ne ↦
        let more : 0 < s.remaining = omega arith in
        let offs' = s.prp_offs + 1 in
        let paddr = h.load (prp_list h cmd.prp2 + 8 * (offs' - 2)) in
        let k = piece_size s.remaining paddr in
        let (c, c', o, o') = chained_next s k offs in
        let (less, fits') = took_fields s paddr more fits in
        let at =
          chained_at (next_prp s).prp_offs (next_prp s).chained (c' ∙ chained) (omega arith)
          ∙ ap (λ a. some (h.load (prp_list h cmd.prp2 + 8 * (a - 2)))) o in
        let (ps, run, tiles) =
          loop_chained n (took k (next_prp s)) (c ∙ chained) (omega arith) (omega arith) fits' in
        (
          piece_at h s paddr ∷ ps,
          copy_pieces-cons n h cmd s more at run,
          Tiles-cons s paddr ps more fits tiles,
        )
  ]

  -- A state after the first piece, where `prp2` is aligned if it is the last page
  second_next :
      (s : Copying) (k : ℕ)
      → s.prp_offs ≡ 1
      → ((next_prp s).chained ≡ ltb page_size s.remaining)
        × ((next_prp s).prp_offs ≡ 2)
        × ((took k (next_prp s)).chained ≡ ltb page_size s.remaining)
        × ((took k (next_prp s)).prp_offs ≡ 2)
        × ((took k (next_prp s)).remaining ≡ s.remaining - k)
  unfolding took next_prp
  second_next s k offs = (ground arith, ground arith, ground arith, ground arith, refl)

  last_at : prp_at h cmd false 2 ≡ some cmd.prp2
  unfolding prp_at
  last_at = refl

  last_size :
      (remaining : ℕ)
      → remaining ≤ page_size
      → cmd.prp2 % page_size ≡ 0
      → piece_size remaining cmd.prp2 ≡ remaining
  unfolding piece_size
  last_size remaining le aligned = ground arith

  loop_more :
      (n : ℕ) (s : Copying)
      → s.prp_offs ≡ 1
      → (s.remaining ≤ page_size → cmd.prp2 % page_size ≡ 0)
      → s.remaining ≤ suc n
      → s.offset + s.remaining < 2 ^ 64
      → 0 < s.remaining
      → (ps : List Piece) × (copy_pieces (suc n) h cmd s ≡ some ps) × Tiles s.offset s.remaining ps
  loop_more n s offs aligned enough fits more = elim (Bool-cases (ltb page_size s.remaining)) [
    | inl c ↦
        let paddr = h.load (prp_list h cmd.prp2 + 8 * (2 - 2)) in
        let k = piece_size s.remaining paddr in
        let (c1, o1, c2, o2, _) = second_next s k offs in
        let (less, fits') = took_fields s paddr more fits in
        let at =
          chained_at (next_prp s).prp_offs (next_prp s).chained (c1 ∙ c) (omega arith)
          ∙ ap (λ a. some (h.load (prp_list h cmd.prp2 + 8 * (a - 2)))) o1 in
        let (ps, run, tiles) =
          loop_chained n (took k (next_prp s)) (c2 ∙ c) (omega arith) (omega arith) fits' in
        (
          piece_at h s paddr ∷ ps,
          copy_pieces-cons n h cmd s more at run,
          Tiles-cons s paddr ps more fits tiles,
        )
    | inr c ↦
        let k = piece_size s.remaining cmd.prp2 in
        let small : s.remaining ≤ page_size = ground arith in
        let whole = last_size s.remaining small (aligned small) in
        let (c1, o1, _, _, r) = second_next s k offs in
        let at =
          ap (λ b. prp_at h cmd b (next_prp s).prp_offs) (c1 ∙ c)
          ∙ ap (prp_at h cmd false) o1
          ∙ last_at in
        let none_left : (took k (next_prp s)).remaining ≡ 0 = omega arith in
        (
          piece_at h s cmd.prp2 ∷ [],
          copy_pieces-cons n h cmd s more at
              (copy_pieces-nil n h cmd (took k (next_prp s)) none_left),
          Tiles-cons s cmd.prp2 [] more fits none_left,
        )
  ]

  loop_second :
      (n : ℕ) (s : Copying)
      → s.prp_offs ≡ 1
      → (s.remaining ≤ page_size → cmd.prp2 % page_size ≡ 0)
      → s.remaining ≤ n
      → s.offset + s.remaining < 2 ^ 64
      → (ps : List Piece) × (copy_pieces n h cmd s ≡ some ps) × Tiles s.offset s.remaining ps
  loop_second zero s offs aligned enough fits =
      let e : s.remaining ≡ 0 = omega arith in ([], copy_pieces-nil zero h cmd s e, e)
  loop_second (suc n) s offs aligned enough fits = elim (eq-cases s.remaining 0) [
    | inl e ↦ ([], copy_pieces-nil (suc n) h cmd s e, e)
    | inr ne ↦ loop_more n s offs aligned enough fits (omega arith)
  ]

  first_next :
      (s : Copying) (k : ℕ)
      → s.prp_offs ≡ 0
      → ((next_prp s).prp_offs ≡ 1)
        × ((took k (next_prp s)).prp_offs ≡ 1)
        × ((took k (next_prp s)).remaining ≡ s.remaining - k)
  unfolding took next_prp
  first_next s k offs = (ground arith, ground arith, refl)

  first_at : (chained : Bool) → prp_at h cmd chained 1 ≡ some cmd.prp1
  unfolding prp_at
  first_at chained = refl

  loop_first :
      (n : ℕ) (s : Copying)
      → s.prp_offs ≡ 0
      → (s.remaining ≤ piece_size s.remaining cmd.prp1 + page_size → cmd.prp2 % page_size ≡ 0)
      → s.remaining ≤ suc n
      → 0 < s.remaining
      → s.offset + s.remaining < 2 ^ 64
      → (ps : List Piece) × (copy_pieces (suc n) h cmd s ≡ some ps) × Tiles s.offset s.remaining ps
  loop_first n s offs aligned enough more fits =
      let k = piece_size s.remaining cmd.prp1 in
      let (o1, o2, r) = first_next s k offs in
      let (less, fits') = took_fields s cmd.prp1 more fits in
      let at = ap (prp_at h cmd (next_prp s).chained) o1 ∙ first_at (next_prp s).chained in
      let (ps, run, tiles) =
        loop_second n (took k (next_prp s)) o2 (λ le. aligned (omega arith)) (omega arith) fits' in
      (
        piece_at h s cmd.prp1 ∷ ps,
        copy_pieces-cons n h cmd s more at run,
        Tiles-cons s cmd.prp1 ps more fits tiles,
      )

  loop_start :
      (n : ℕ) (s : Copying)
      → s.prp_offs ≡ 0
      → (s.remaining ≤ piece_size s.remaining cmd.prp1 + page_size → cmd.prp2 % page_size ≡ 0)
      → s.remaining ≤ n
      → 0 < s.remaining
      → s.offset + s.remaining < 2 ^ 64
      → (ps : List Piece) × (copy_pieces n h cmd s ≡ some ps) × Tiles s.offset s.remaining ps
  loop_start zero s offs aligned enough more fits = absurd (omega arith)
  loop_start (suc n) s offs aligned enough more fits = loop_first n s offs aligned enough more fits

  -- Where the kernel knows every page frame, a command has some bytes and ends below 2^64, and the
  -- second address starts a page if the data ends in its page: `__do_perform_io` returns, and its
  -- pieces cover the range of the command in the storage one after the other, each of some bytes
  -- and within one page of the host.
  pub do_perform_io-Tiles :
      (lba_bits : ℕ)
      → 0 < cmd_io_size lba_bits cmd
      → cmd_io_offset lba_bits cmd + cmd_io_size lba_bits cmd < 2 ^ 64
      → (cmd_io_size lba_bits cmd ≤ piece_size (cmd_io_size lba_bits cmd) cmd.prp1 + page_size
          → cmd.prp2 % page_size ≡ 0)
      → (t : Transfer) × (do_perform_io lba_bits h cmd ≡ some t)
        × Tiles (cmd_io_offset lba_bits cmd) (cmd_io_size lba_bits cmd) t.pieces
  unfolding do_perform_io
  do_perform_io-Tiles lba_bits more fits aligned =
      let length = cmd_io_size lba_bits cmd in
      let (ps, run, tiles) =
        loop_start length (copy_start (cmd_io_offset lba_bits cmd) length) refl aligned
          (omega arith) more fits in
      let t : Transfer = record {
        direction = direction_of cmd.opcode;
        storage = h.mapped (ns_index cmd);
        pieces = ps;
      } in
      (t, ap (λ o. o >>= λ qs. some (record t { pieces = qs })) run, tiles)
