-- ===== src/Io/Queue/Order.antt =====
-- Lists in the order of a key, and the insertion behind all that are not later: what
-- `__insert_req_sorted` has to do, written from the front and with no links.
use nvmevirt_learned_ftl.Prelude.{
  ℕ, ◌≤◌, ◌<◌, ◌≡◌, refl, ap, List, [], ◌∷◌, ◌++◌, true, leb, Bool-cases, leb→le, inl, inr,
  if◌then◌else◌, arith,
}
use nvmevirt_learned_ftl.Io.Queue.Lists.{count, count_first}

abbrev pub All : (ℕ → Type 0) → List ℕ → Type 0
All P [] = Unit {0}
All P (x ∷ xs) = P x × All P xs

abbrev pub IsOrdered : (ℕ → ℕ) → List ℕ → Type 0
IsOrdered key [] = Unit {0}
IsOrdered key (x ∷ xs) = All (λ y. key x ≤ key y) xs × IsOrdered key xs

unfoldable pub place : (ℕ → ℕ) → ℕ → List ℕ → List ℕ
place key e [] = e ∷ []
place key e (x ∷ xs) = if leb (key x) (key e) then x ∷ place key e xs else e ∷ x ∷ xs

pub count-place :
    (key : ℕ → ℕ) (e i : ℕ) (xs : List ℕ) → count i (place key e xs) ≡ count i (e ∷ xs)
unfolding place count
count-place key e i [] = refl
count-place key e i (x ∷ xs) = ground (arith, count-place key e i xs)

All-le :
    (key : ℕ → ℕ) (a b : ℕ) (xs : List ℕ)
    → a ≤ b
    → All (λ y. b ≤ key y) xs
    → All (λ y. a ≤ key y) xs
All-le key a b [] h all = tt
All-le key a b (x ∷ xs) h all = (omega arith, All-le key a b xs h all.1)

All-place :
    (key : ℕ → ℕ) (a e : ℕ) (xs : List ℕ)
    → a ≤ key e
    → All (λ y. a ≤ key y) xs
    → All (λ y. a ≤ key y) (place key e xs)
unfolding place
All-place key a e [] h all = (h, tt)
All-place key a e (x ∷ xs) h all = elim (Bool-cases (leb (key x) (key e))) [
  | inl c ↦ rw c (all.0, All-place key a e xs h all.1)
  | inr c ↦ rw c (h, all)
]

pub place-IsOrdered :
    (key : ℕ → ℕ) (e : ℕ) (xs : List ℕ) → IsOrdered key xs → IsOrdered key (place key e xs)
unfolding place
place-IsOrdered key e [] h = (tt, tt)
place-IsOrdered key e (x ∷ xs) h = elim (Bool-cases (leb (key x) (key e))) [
  | inl c ↦ rw c (All-place key (key x) e xs (leb→le _ _ c) h.0, place-IsOrdered key e xs h.1)
  | inr c ↦
      let later : key e ≤ key x = ground arith in
      rw c ((later, All-le key (key e) (key x) xs later h.0), h)
]

-- The two parts between which `place` puts an entry
pub record Split (key : ℕ → ℕ) (e : ℕ) (xs front back : List ℕ) : Type 0 where
  pub parts : xs ≡ front ++ back
  pub placed : place key e xs ≡ front ++ e ∷ back
  pub not_later : All (λ x. key x ≤ key e) front
  pub later : All (λ x. key e < key x) back

All-lt :
    (key : ℕ → ℕ) (a b : ℕ) (xs : List ℕ)
    → a < b
    → All (λ y. b ≤ key y) xs
    → All (λ y. a < key y) xs
All-lt key a b [] h all = tt
All-lt key a b (x ∷ xs) h all = (omega arith, All-lt key a b xs h all.1)

Split-cons :
    {key : ℕ → ℕ} {e x : ℕ} {xs : List ℕ}
    → leb (key x) (key e) ≡ true
    → (front : List ℕ) × (back : List ℕ) × Split key e xs front back
    → (front : List ℕ) × (back : List ℕ) × Split key e (x ∷ xs) front back
unfolding place
Split-cons {x} c (front, back, s) = (
  x ∷ front,
  back,
  record {
    parts = ap (λ l. x ∷ l) s.parts;
    placed = rw c (ap (λ l. x ∷ l) s.placed);
    not_later = (leb→le _ _ c, s.not_later);
    later = s.later;
  },
)

pub place-Split :
    (key : ℕ → ℕ) (e : ℕ) (xs : List ℕ)
    → IsOrdered key xs
    → (front : List ℕ) × (back : List ℕ) × Split key e xs front back
unfolding place
place-Split key e [] h =
    ([], [], record { parts = refl; placed = refl; not_later = tt; later = tt })
place-Split key e (x ∷ xs) h = elim (Bool-cases (leb (key x) (key e))) [
  | inl c ↦ Split-cons c (place-Split key e xs h.1)
  | inr c ↦
      let late : key e < key x = ground arith in
      (
        [],
        x ∷ xs,
        record {
          parts = refl;
          placed = rw c;
          not_later = tt;
          later = (late, All-lt key (key e) (key x) xs late h.0);
        },
      )
]

module _ (key key' : ℕ → ℕ) where
  All-same :
      (a : ℕ) (xs : List ℕ)
      → ((i : ℕ) → 0 < count i xs → key' i ≡ key i)
      → All (λ y. a ≤ key y) xs
      → All (λ y. a ≤ key' y) xs
  unfolding count
  All-same a [] same all = tt
  All-same a (x ∷ xs) same all =
      (ground (arith, same x, all.0), All-same a xs (λ i k. same i (omega arith)) all.1)

  -- The order depends on the keys of the elements only.
  pub IsOrdered-same :
      (xs : List ℕ)
      → ((i : ℕ) → 0 < count i xs → key' i ≡ key i)
      → IsOrdered key xs
      → IsOrdered key' xs
  unfolding count
  IsOrdered-same [] same h = tt
  IsOrdered-same (x ∷ xs) same h =
      let tail = λ (i : ℕ) (k : 0 < count i xs). same i (omega arith) in
      let here : key' x ≡ key x = same x (count_first x xs) in
      (rw here (All-same (key x) xs tail h.0), IsOrdered-same xs tail h.1)
