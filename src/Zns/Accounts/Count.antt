-- ===== src/Zns/Accounts/Count.antt =====
-- How many zones have a property, and how that number follows a change of one zone.
use nvmevirt_learned_ftl.Prelude.{
  ℕ, zero, suc, ◌+◌, ◌≤◌, ◌<◌, Bool, true, false, ◌≡◌, ◌≢◌, refl, sym, arith, eq-cases, inl, inr,
}
use nvmevirt_learned_ftl.Zns.State.{ZoneDescriptor}

abbrev pub weight : Bool → ℕ
weight true = 1
weight false = 0

unfoldable pub count : (ZoneDescriptor → Bool) → (ℕ → ZoneDescriptor) → ℕ → ℕ
count p zones zero = 0
count p zones (suc n) = count p zones n + weight (p (zones n))

module _ (p : ZoneDescriptor → Bool) (zones zones' : ℕ → ZoneDescriptor) where
  pub count-same :
      (n : ℕ) → ((j : ℕ) → j < n → zones' j ≡ zones j) → count p zones' n ≡ count p zones n
  unfolding count
  count-same zero h = refl
  count-same (suc n) h =
      let ih = count-same n (λ j l. h j (omega arith)) in rw (ih, h n (omega arith)) refl

  -- A change of one zone changes the number by that zone's share.
  pub count-moves :
      (n zid : ℕ)
      → zid < n
      → ((j : ℕ) → j ≢ zid → zones' j ≡ zones j)
      → count p zones' n + weight (p (zones zid)) ≡ count p zones n + weight (p (zones' zid))
  unfolding count
  count-moves zero zid l h = omega arith
  count-moves (suc n) zid l h = elim (eq-cases n zid) [
    | inl e ↦ let same = count-same n (λ j lj. h j (omega arith)) in rw (sym e, same) (omega arith)
    | inr ne ↦ let ih = count-moves n zid (omega arith) h in rw (h n ne) (omega arith)
  ]

pub count-le :
    (p : ZoneDescriptor → Bool) (zones : ℕ → ZoneDescriptor) (n : ℕ) → count p zones n ≤ n
unfolding count
count-le p zones zero = omega arith
count-le p zones (suc n) = let ih = count-le p zones n in ground arith

-- A zone with the property is one of those counted.
pub count-has :
    (p : ZoneDescriptor → Bool) (zones : ℕ → ZoneDescriptor) (n zid : ℕ)
    → zid < n
    → weight (p (zones zid)) ≤ count p zones n
unfolding count
count-has p zones zero zid l = omega arith
count-has p zones (suc n) zid l = elim (eq-cases n zid) [
  | inl e ↦ rw e (omega arith)
  | inr ne ↦ let ih = count-has p zones n zid (omega arith) in omega arith
]
