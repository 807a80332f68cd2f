-- ===== src/Simple/Idle.antt =====
-- What `simple_ftl.c` answers to a flush.
use nvmevirt_learned_ftl.Prelude.{
  ℕ, zero, suc, ◌+◌, ◌≤◌, ◌<◌, ◌≡◌, ◌⊎◌, inl, inr, refl, sym, arith, max, subst,
}
use nvmevirt_learned_ftl.Simple.{UnitConfig, latest_unit, schedule_flush}

-- `t` is the least time from `latest` on at which the units `i` to `i + n - 1` are all free.
record IsLatest (stat : ℕ → ℕ) (n i latest t : ℕ) : Type 0 where
  from_latest : latest ≤ t
  covers : (j : ℕ) → j < n → stat (i + j) ≤ t
  least : (u : ℕ) → latest ≤ u → ((j : ℕ) → j < n → stat (i + j) ≤ u) → t ≤ u

latest_unit-IsLatest :
    (stat : ℕ → ℕ) (n i latest : ℕ) → IsLatest stat n i latest (latest_unit stat n i latest)
unfolding latest_unit
latest_unit-IsLatest stat zero i latest = record {
  from_latest = omega arith;
  covers = λ j l. omega arith;
  least = λ u l h. l;
}
latest_unit-IsLatest stat (suc n) i latest =
    let ih = latest_unit-IsLatest stat n (i + 1) (max latest (stat i)) in
    let from = ih.from_latest in
    record {
      from_latest = omega arith;
      covers = λ j l. elim (split j) [
        | inl z ↦
            subst (λ k. stat (i + k) ≤ latest_unit stat n (i + 1) (max latest (stat i))) (sym z)
              (subst (λ k. stat k ≤ latest_unit stat n (i + 1) (max latest (stat i))) (omega arith)
                (from_now from))
        | inr (k, e) ↦
            subst (λ k. stat k ≤ latest_unit stat n (i + 1) (max latest (stat i))) (omega arith)
              (ih.covers k (omega arith))
      ];
      least = λ u l h.
          ih.least u (both l (subst (λ k. stat k ≤ u) (omega arith) (h 0 (omega arith))))
            (λ j lj. subst (λ k. stat k ≤ u) (omega arith) (h (suc j) (omega arith)));
    }
  where
    split : (j : ℕ) → (j ≡ 0) ⊎ ((k : ℕ) × (j ≡ suc k))
    split zero = inl refl
    split (suc k) = inr (k, refl)

    from_now : {t : ℕ} → max latest (stat i) ≤ t → stat i ≤ t
    from_now h = omega arith

    both : {u : ℕ} → latest ≤ u → stat i ≤ u → max latest (stat i) ≤ u
    both a b = omega arith

-- A flush of the simple layer is done no earlier than any I/O unit is free, and at the least such
-- time.
pub schedule_flush_lem :
    (c : UnitConfig) (stat : ℕ → ℕ)
    → ((j : ℕ) → j < c.nr_io_units → stat j ≤ schedule_flush c stat)
      × ((u : ℕ) → ((j : ℕ) → j < c.nr_io_units → stat j ≤ u) → schedule_flush c stat ≤ u)
unfolding schedule_flush
schedule_flush_lem c stat =
    let h = latest_unit-IsLatest stat c.nr_io_units 0 0 in
    (
      λ j l. subst (λ k. stat k ≤ latest_unit stat c.nr_io_units 0 0) (omega arith) (h.covers j l),
      λ u f. h.least u (omega arith) (λ j l. subst (λ k. stat k ≤ u) (omega arith) (f j l)),
    )
