-- ===== src/Io/Transfer/Merge.antt =====
-- The DMA transfer merges adjacent pages: by what it moves, it is the same as page by page.
use nvmevirt_learned_ftl.Prelude.{
  ℕ, zero, suc, ◌+◌, ◌-◌, ◌%◌, ◌^◌, ◌≤◌, ◌<◌, ◌≡◌, ◌≢◌, refl, sym, ap, ◌∙◌, true, false, some, List,
  [], ◌∷◌, ◌++◌, ◌==◌, arith, add64, inl, inr, eq-cases, subst,
}
use mathlib.Core.List.{append_assoc}
use nvmevirt_learned_ftl.Io.Transfer.{
  page_size, Piece, piece_size, adjacent, dma_run, dma_size, dma_pieces,
}
use nvmevirt_learned_ftl.Io.Transfer.Tiles.{piece_size_bounds}

-- The bytes of a transfer: the address of each in the host, with its offset in the storage
unfoldable pub run : ℕ → ℕ → ℕ → List (ℕ × ℕ)
run host offset zero = []
run host offset (suc n) = (host, offset) ∷ run (host + 1) (offset + 1) n

unfoldable pub bytes : List Piece → List (ℕ × ℕ)
bytes [] = []
bytes (p ∷ ps) = run p.host p.offset p.size ++ bytes ps

abbrev pub hosts : List Piece → List ℕ
hosts [] = []
hosts (p ∷ ps) = p.host ∷ hosts ps

abbrev pub AllAligned : List ℕ → Type 0
AllAligned [] = Unit {0}
AllAligned (p ∷ ps) = (p % page_size ≡ 0) × AllAligned ps

-- The pieces page by page, from the addresses alone
unfoldable pub cut : List ℕ → ℕ → ℕ → List Piece
cut [] remaining offset = []
cut (p ∷ ps) remaining offset =
    let size = piece_size remaining p in
    record { host = p; offset = offset; size = size } ∷ cut ps (remaining - size) (offset + size)

-- The addresses are as many as the bytes need.
abbrev pub Covers : List ℕ → ℕ → Type 0
Covers [] remaining = remaining ≡ 0
Covers (p ∷ ps) remaining = (0 < remaining) × Covers ps (remaining - piece_size remaining p)

pub run-append :
    (host offset n m : ℕ)
    → run host offset (n + m) ≡ run host offset n ++ run (host + n) (offset + n) m
unfolding run
run-append host offset zero m =
    ap (run host offset) (omega arith)
    ∙ ap (λ a. run a offset m) (omega arith)
    ∙ ap (λ a. run (host + 0) a m) (omega arith)
run-append host offset (suc n) m =
    ap (run host offset) {y = suc (n + m)} (omega arith)
    ∙ ap (λ l. (host, offset) ∷ l)
        (run-append (host + 1) (offset + 1) n m
          ∙ ap (λ a. run (host + 1) (offset + 1) n ++ run a (offset + 1 + n) m) (omega arith)
          ∙ ap (λ a. run (host + 1) (offset + 1) n ++ run (host + suc n) a m) (omega arith))

-- A run of adjacent pages covers the same bytes as its pages.
record Merged (p : ℕ) (ps : List ℕ) (remaining offset : ℕ) : Type 0 where
  size_pos : 0 < dma_size remaining p (adjacent p ps).0
  size_le : dma_size remaining p (adjacent p ps).0 ≤ remaining
  same :
      bytes (cut (p ∷ ps) remaining offset)
      ≡ run p offset (dma_size remaining p (adjacent p ps).0)
        ++ bytes (
            cut
              (adjacent p ps).1
              (remaining - dma_size remaining p (adjacent p ps).0)
              (offset + dma_size remaining p (adjacent p ps).0))
  covers : Covers (adjacent p ps).1 (remaining - dma_size remaining p (adjacent p ps).0)
  aligned : AllAligned (adjacent p ps).1

single_size : (remaining p : ℕ) → 0 < remaining → dma_size remaining p 0 ≡ piece_size remaining p
unfolding dma_size
single_size remaining p more = let (_, le, _) = piece_size_bounds remaining p more in ground arith

-- A page that stands alone
Merged-single :
    (p : ℕ) (ps : List ℕ) (remaining offset : ℕ)
    → Covers (p ∷ ps) remaining
    → AllAligned ps
    → (adjacent p ps ≡ (0, ps))
    → Merged p ps remaining offset
unfolding bytes cut
Merged-single p ps remaining offset c a e =
    let (pos, le, _) = piece_size_bounds remaining p c.0 in
    let size : dma_size remaining p (adjacent p ps).0 ≡ piece_size remaining p =
      ap (λ r. dma_size remaining p r.0) e ∙ single_size remaining p c.0 in
    let left : (adjacent p ps).1 ≡ ps = ap (λ r. r.1) e in
    record {
      size_pos = omega arith;
      size_le = omega arith;
      same = rw (size, left);
      covers = rw (size, left) c.1;
      aligned = rw left a;
    }

adjacent-none : (p : ℕ) → adjacent p [] ≡ (0, [])
unfolding adjacent
adjacent-none p = refl

adjacent-next :
    (p q : ℕ) (qs : List ℕ)
    → q ≡ p + page_size
    → adjacent p (q ∷ qs) ≡ (page_size + (adjacent q qs).0, (adjacent q qs).1)
unfolding adjacent
adjacent-next p q qs e = let t : (q == p + page_size) ≡ true = ground arith in rw t

adjacent-apart : (p q : ℕ) (qs : List ℕ) → q ≢ p + page_size → adjacent p (q ∷ qs) ≡ (0, q ∷ qs)
unfolding adjacent
adjacent-apart p q qs ne = let t : (q == p + page_size) ≡ false = ground arith in rw t

-- A whole page is taken where more than a page is left and the address is aligned.
whole_page :
    (p remaining : ℕ)
    → p % page_size ≡ 0
    → 0 < remaining - piece_size remaining p
    → (piece_size remaining p ≡ page_size) × (page_size < remaining)
unfolding piece_size
whole_page p remaining a more = (ground arith, ground arith)

merged_size :
    (p q remaining more : ℕ)
    → p % page_size ≡ 0
    → q % page_size ≡ 0
    → page_size < remaining
    → dma_size remaining p (page_size + more) ≡ page_size + dma_size (remaining - page_size) q more
unfolding dma_size piece_size
merged_size p q remaining more a b h = ground arith

Merged-next :
    (p q : ℕ) (qs : List ℕ) (remaining offset : ℕ)
    → Covers (p ∷ q ∷ qs) remaining
    → AllAligned (q ∷ qs)
    → q ≡ p + page_size
    → Merged q qs (remaining - page_size) (offset + page_size)
    → Merged p (q ∷ qs) remaining offset
unfolding bytes cut
Merged-next p q qs remaining offset c a e m =
    let p_aligned : p % page_size ≡ 0 = omega (arith, a.0) in
    let (size, more) = whole_page p remaining p_aligned c.1.0 in
    let rest = adjacent q qs in
    let step = adjacent-next p q qs e in
    let io = dma_size (remaining - page_size) q rest.0 in
    let total : dma_size remaining p (adjacent p (q ∷ qs)).0 ≡ page_size + io =
      ap (λ r. dma_size remaining p r.0) step
      ∙ merged_size p q remaining rest.0 p_aligned a.0 more in
    let left : (adjacent p (q ∷ qs)).1 ≡ rest.1 = ap (λ r. r.1) step in
    let less : remaining - (page_size + io) ≡ remaining - page_size - io = omega arith in
    let further : offset + (page_size + io) ≡ offset + page_size + io = omega arith in
    record {
      size_pos = omega arith;
      size_le = omega (arith, m.size_le);
      same =
          rw (total, left, less, further, size)
            (ap (λ l. run p offset page_size ++ l) m.same
              ∙ sym (append_assoc (run p offset page_size) (run q (offset + page_size) io) _)
              ∙ ap
                  (λ l.
                    l ++ bytes (cut rest.1 (remaining - page_size - io) (offset + page_size + io)))
                  (ap (λ a. run p offset page_size ++ run a (offset + page_size) io) e
                    ∙ sym (run-append p offset page_size io)));
      covers = rw (total, left, less) m.covers;
      aligned = rw left m.aligned;
    }

merged :
    (ps : List ℕ) (p remaining offset : ℕ)
    → Covers (p ∷ ps) remaining
    → AllAligned ps
    → Merged p ps remaining offset
merged [] p remaining offset c a = Merged-single p [] remaining offset c a (adjacent-none p)
merged (q ∷ qs) p remaining offset c a = elim (eq-cases q (p + page_size)) [
  | inl e ↦
      let p_aligned : p % page_size ≡ 0 = omega (arith, a.0) in
      let (size, more) = whole_page p remaining p_aligned c.1.0 in
      Merged-next p q qs remaining offset c a e (
        merged qs q (remaining - page_size) (offset + page_size)
          (subst (λ n. Covers (q ∷ qs) (remaining - n)) size c.1) a.1)
  | inr ne ↦ Merged-single p (q ∷ qs) remaining offset c a (adjacent-apart p q qs ne)
]

abbrev pub tail : List ℕ → List ℕ
tail [] = []
tail (p ∷ ps) = ps

AllAligned-tail : (ps : List ℕ) → AllAligned ps → AllAligned (tail ps)
AllAligned-tail [] a = tt
AllAligned-tail (p ∷ ps) a = a.1

dma_nil : (n : ℕ) (pages : List ℕ) (offset : ℕ) → dma_pieces n pages 0 offset ≡ some []
unfolding dma_pieces
dma_nil zero pages offset = refl
dma_nil (suc n) pages offset = refl

dma_cons :
    (n p : ℕ) (ps : List ℕ) (remaining offset : ℕ) {qs : List Piece}
    → 0 < remaining
    → dma_pieces n
        (adjacent p ps).1
        (remaining - dma_size remaining p (adjacent p ps).0)
        (add64 offset (dma_size remaining p (adjacent p ps).0))
      ≡ some qs
    → dma_pieces (suc n) (p ∷ ps) remaining offset
      ≡ some
          (record { host = p; offset = offset; size = dma_size remaining p (adjacent p ps).0 } ∷ qs)
unfolding dma_pieces dma_run
dma_cons n p ps remaining offset more rest =
    let e : (remaining == 0) ≡ false = ground arith in rw (e, rest)

pub dma-bytes :
    (n : ℕ) (pages : List ℕ) (remaining offset : ℕ)
    → Covers pages remaining
    → AllAligned (tail pages)
    → remaining ≤ n
    → offset + remaining < 2 ^ 64
    → (ps : List Piece) × (dma_pieces n pages remaining offset ≡ some ps)
      × (bytes ps ≡ bytes (cut pages remaining offset))
unfolding bytes cut
dma-bytes n [] remaining offset c a enough fits =
    ([], ap (λ r. dma_pieces n [] r offset) c ∙ dma_nil n [] offset, refl)
dma-bytes zero (p ∷ ps) remaining offset c a enough fits = absurd (omega (arith, c.0))
dma-bytes (suc n) (p ∷ ps) remaining offset c a enough fits =
    let m = merged ps p remaining offset c a in
    let size = dma_size remaining p (adjacent p ps).0 in
    let pos : 0 < size = m.size_pos in
    let le : size ≤ remaining = m.size_le in
    let next : add64 offset size ≡ offset + size = omega arith in
    let (qs, go, same) =
      dma-bytes n (adjacent p ps).1 (remaining - size) (offset + size) m.covers
        (AllAligned-tail (adjacent p ps).1 m.aligned) (omega arith) (omega arith) in
    (
      record { host = p; offset = offset; size = size } ∷ qs,
      dma_cons n p ps remaining offset c.0
          (ap (dma_pieces n (adjacent p ps).1 (remaining - size)) next ∙ go),
      ap (λ l. run p offset size ++ l) same ∙ sym m.same,
    )
