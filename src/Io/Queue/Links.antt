-- ===== src/Io/Queue/Links.antt =====
-- Segments of a list that is linked by indices: the `next` fields and the `prev` fields, apart.
use nvmevirt_learned_ftl.Prelude.{ℕ, ◌≤◌, ◌<◌, ◌≡◌, ◌≢◌, List, [], ◌∷◌, ◌++◌, arith, sym, ◌∙◌}
use nvmevirt_learned_ftl.Io.State.{IoWork}
use nvmevirt_learned_ftl.Io.Queue.Lists.{
  count, first, last, count_last, count_first, head-ne, count_tail,
}

-- The `next` fields of `xs` lead from each to the one after it, and from the last to `n`.
abbrev pub Nexts : (ℕ → IoWork) → List ℕ → ℕ → Type 0
Nexts q [] n = Unit {0}
Nexts q (x ∷ xs) n = ((q x).next ≡ first n xs) × Nexts q xs n

-- The `prev` fields of `xs` lead from each to the one before it, and from the first to `p`.
abbrev pub Prevs : (ℕ → IoWork) → ℕ → List ℕ → Type 0
Prevs q p [] = Unit {0}
Prevs q p (x ∷ xs) = ((q x).prev ≡ p) × Prevs q x xs

module _ (q q' : ℕ → IoWork) where
  pub Nexts-frame :
      (xs : List ℕ) (n : ℕ)
      → Nexts q xs n
      → ((i : ℕ) → 0 < count i xs → (q' i).next ≡ (q i).next)
      → Nexts q' xs n
  unfolding count
  Nexts-frame [] n h same = tt
  Nexts-frame (x ∷ xs) n h same =
      (ground (arith, same x), Nexts-frame xs n h.1 (λ i k. same i (omega arith)))

  pub Prevs-frame :
      (p : ℕ) (xs : List ℕ)
      → Prevs q p xs
      → ((i : ℕ) → 0 < count i xs → (q' i).prev ≡ (q i).prev)
      → Prevs q' p xs
  unfolding count
  Prevs-frame p [] h same = tt
  Prevs-frame p (x ∷ xs) h same =
      (ground (arith, same x), Prevs-frame x xs h.1 (λ i k. same i (omega arith)))

module _ (q : ℕ → IoWork) where
  pub Nexts-append :
      (xs ys : List ℕ) (n : ℕ) → Nexts q xs (first n ys) → Nexts q ys n → Nexts q (xs ++ ys) n
  Nexts-append [] ys n h k = k
  Nexts-append (x ∷ []) ys n h k = (h.0, k)
  Nexts-append (x ∷ y ∷ xs) ys n h k = (h.0, Nexts-append (y ∷ xs) ys n h.1 k)

  pub Nexts-front : (xs ys : List ℕ) (n : ℕ) → Nexts q (xs ++ ys) n → Nexts q xs (first n ys)
  Nexts-front [] ys n h = tt
  Nexts-front (x ∷ []) ys n h = (h.0, tt)
  Nexts-front (x ∷ y ∷ xs) ys n h = (h.0, Nexts-front (y ∷ xs) ys n h.1)

  pub Nexts-back : (xs ys : List ℕ) (n : ℕ) → Nexts q (xs ++ ys) n → Nexts q ys n
  Nexts-back [] ys n h = h
  Nexts-back (x ∷ xs) ys n h = Nexts-back xs ys n h.1

  pub Prevs-append :
      (p : ℕ) (xs ys : List ℕ) → Prevs q p xs → Prevs q (last p xs) ys → Prevs q p (xs ++ ys)
  Prevs-append p [] ys h k = k
  Prevs-append p (x ∷ xs) ys h k = (h.0, Prevs-append x xs ys h.1 k)

  pub Prevs-front : (p : ℕ) (xs ys : List ℕ) → Prevs q p (xs ++ ys) → Prevs q p xs
  Prevs-front p [] ys h = tt
  Prevs-front p (x ∷ xs) ys h = (h.0, Prevs-front x xs ys h.1)

  pub Prevs-back : (p : ℕ) (xs ys : List ℕ) → Prevs q p (xs ++ ys) → Prevs q (last p xs) ys
  Prevs-back p [] ys h = h
  Prevs-back p (x ∷ xs) ys h = Prevs-back x xs ys h.1

  -- The `next` field of the last entry of a segment
  pub next_last : (x : ℕ) (xs : List ℕ) (n : ℕ) → Nexts q (x ∷ xs) n → (q (last x xs)).next ≡ n
  next_last x [] n h = h.0
  next_last x (y ∷ xs) n h = next_last y xs n h.1

-- Redirecting the last entry of a segment of distinct entries moves the end of the segment.
pub relink_last :
    (q q' : ℕ → IoWork) (x : ℕ) (xs : List ℕ) (n m : ℕ)
    → Nexts q (x ∷ xs) n
    → ((i : ℕ) → count i (x ∷ xs) ≤ 1)
    → ((i : ℕ) → 0 < count i (x ∷ xs) → i ≢ last x xs → (q' i).next ≡ (q i).next)
    → (q' (last x xs)).next ≡ m
    → Nexts q' (x ∷ xs) m
relink_last q q' x [] n m h one same new = (new, tt)
relink_last q q' x (y ∷ xs) n m h one same new =
    let apart : x ≢ last y xs = head-ne x (last y xs) (y ∷ xs) (one x) (count_last y xs) in
    let rest =
      relink_last q q' y xs n m h.1 (λ i. omega (arith, count_tail x i (y ∷ xs), one i))
        (λ i k. same i (omega (arith, count_tail x i (y ∷ xs)))) new in
    (same x (count_first x (y ∷ xs)) apart ∙ h.0, rest)

-- Redirecting the first entry of a segment of distinct entries moves its start.
pub relink_first :
    (q q' : ℕ → IoWork) (x : ℕ) (xs : List ℕ) (p r : ℕ)
    → Prevs q p (x ∷ xs)
    → ((i : ℕ) → count i (x ∷ xs) ≤ 1)
    → ((i : ℕ) → 0 < count i xs → i ≢ x → (q' i).prev ≡ (q i).prev)
    → (q' x).prev ≡ r
    → Prevs q' r (x ∷ xs)
relink_first q q' x xs p r h one same new =
    let apart = λ (i : ℕ) (k : 0 < count i xs). head-ne x i xs (one x) k in
    (new, Prevs-frame q q' x xs h.1 (λ i k. same i k (λ e. apart i k (sym e))))
