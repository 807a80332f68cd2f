-- ===== src/Prelude/Arrays.antt =====
-- C arrays as functions of the index: a write changes one index, a `memset` a range.
use Prim.Native.Nat.{ℕ, ◌+◌}
use mathlib.Core.Path.{◌≡◌}
use mathlib.Core.Logic.{◌≢◌}
use mathlib.Core.Bool.{◌&&◌}
use mathlib.Core.List.{List, [], ◌∷◌}
use mathlib.Core.Bool.{Bool, true, false}
use native.Mathlib.Omega.{arith}
use nvmevirt_learned_ftl.Prelude.Tests.{◌==◌, ltb, leb, if◌then◌else◌}

module _ {ℓ} {A : Type ℓ} where
  -- `f[i] = v`
  unfoldable pub update : (ℕ → A) → ℕ → A → ℕ → A
  update f i v j = if i == j then v else f j

  -- `memset(&f[start], v, len)`
  unfoldable pub fill : (ℕ → A) → ℕ → ℕ → A → ℕ → A
  fill f start len v j = if leb start j && ltb j (start + len) then v else f j

  pub update_self : (f : ℕ → A) (i : ℕ) (v : A) → update f i v i ≡ v
  unfolding update
  update_self f i v = ground arith

  pub update_ne : (f : ℕ → A) (i j : ℕ) (v : A) → i ≢ j → update f i v j ≡ f j
  unfolding update
  update_ne f i j v h = ground arith

-- Removes one occurrence of a number, as `list_del` does for a linked entry.
unfoldable pub remove : ℕ → List ℕ → List ℕ
remove a [] = []
remove a (x ∷ xs) = if a == x then xs else x ∷ remove a xs

unfoldable pub has : ℕ → List ℕ → Bool
has a [] = false
has a (x ∷ xs) = if a == x then true else has a xs

abbrev pub length {ℓ} : {A : Type ℓ} → List A → ℕ
length [] = 0
length (x ∷ xs) = ℕ.suc (length xs)
