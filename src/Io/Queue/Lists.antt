-- ===== src/Io/Queue/Lists.antt =====
-- Lists of indices: how often an index occurs, the two ends, and the room that distinct indices need.
use nvmevirt_learned_ftl.Prelude.{
  ap, ℕ, zero, suc, ◌+◌, ◌≤◌, ◌<◌, ◌≡◌, ◌≢◌, refl, List, [], ◌∷◌, ◌++◌, ltb, ◌==◌, if◌then◌else◌,
  length, arith,
}

unfoldable pub count : ℕ → List ℕ → ℕ
count i [] = 0
count i (x ∷ xs) = (if i == x then 1 else 0) + count i xs

-- The first element and the last one, or the default of an empty list
abbrev pub first : ℕ → List ℕ → ℕ
first d [] = d
first d (x ∷ xs) = x

abbrev pub last : ℕ → List ℕ → ℕ
last d [] = d
last d (x ∷ xs) = last x xs

pub count-append : (i : ℕ) (xs ys : List ℕ) → count i (xs ++ ys) ≡ count i xs + count i ys
unfolding count
count-append i [] ys = omega arith
count-append i (x ∷ xs) ys = omega (arith, count-append i xs ys)

pub last-append : (d : ℕ) (xs ys : List ℕ) → last d (xs ++ ys) ≡ last (last d xs) ys
last-append d [] ys = refl
last-append d (x ∷ xs) ys = last-append x xs ys

pub first-append : (d : ℕ) (xs ys : List ℕ) → first d (xs ++ ys) ≡ first (first d ys) xs
first-append d [] ys = refl
first-append d (x ∷ xs) ys = refl

pub length-append : (xs ys : List ℕ) → length (xs ++ ys) ≡ length xs + length ys
length-append [] ys = omega arith
length-append (x ∷ xs) ys = omega (arith, length-append xs ys)

pub count_first : (x : ℕ) (xs : List ℕ) → 0 < count x (x ∷ xs)
unfolding count
count_first x xs = ground arith

-- The last element of a list with one occurs in it.
pub count_last : (x : ℕ) (xs : List ℕ) → 0 < count (last x xs) (x ∷ xs)
unfolding count
count_last x [] = ground arith
count_last x (y ∷ ys) = omega (arith, count_last y ys)

-- All occurrences of an index left out
without : ℕ → List ℕ → List ℕ
without i [] = []
without i (x ∷ xs) = if i == x then without i xs else x ∷ without i xs

length-without : (i : ℕ) (xs : List ℕ) → length xs ≡ count i xs + length (without i xs)
unfolding without count
length-without i [] = omega arith
length-without i (x ∷ xs) = ground (arith, length-without i xs)

count-without :
    (i j : ℕ) (xs : List ℕ) → count j (without i xs) ≡ (if i == j then 0 else count j xs)
unfolding without count
count-without i j [] = ground arith
count-without i j (x ∷ xs) = ground (arith, count-without i j xs)

-- Indices below `n` that occur once at most are at most `n`.
pub length_le :
    (n : ℕ) (xs : List ℕ) → ((i : ℕ) → count i xs ≤ (if ltb i n then 1 else 0)) → length xs ≤ n
unfolding count
length_le zero [] h = omega arith
length_le zero (x ∷ xs) h = ground (arith, h x)
length_le (suc n) xs h =
    let rest = length_le n (without n xs) (λ i. ground (arith, count-without n i xs, h i)) in
    ground (arith, length-without n xs, h n)

-- An index that occurs once at most is none of those after it.
pub head-ne : (x i : ℕ) (xs : List ℕ) → count x (x ∷ xs) ≤ 1 → 0 < count i xs → x ≢ i
unfolding count
head-ne x i xs one k e = let more : 0 < count x xs = rw e k in ground arith

pub count_tail : (x i : ℕ) (xs : List ℕ) → count i xs ≤ count i (x ∷ xs)
unfolding count
count_tail x i xs = ground arith

pub last_any : (d n : ℕ) (xs : List ℕ) → 0 < length xs → last d xs ≡ last n xs
last_any d n [] h = absurd (omega arith)
last_any d n (x ∷ xs) h = refl

pub ends-ne : {i j : ℕ} (xs : List ℕ) → count i xs ≡ 0 → 0 < count j xs → i ≢ j
ends-ne xs z k e = let same = ap (λ a. count a xs) e in omega arith
