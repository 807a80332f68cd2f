-- ===== src/Io/Queue/Find.antt =====
-- `find_place` stops at the entry after which `place` puts the new one.
use nvmevirt_learned_ftl.Prelude.{
  ℕ, suc, ◌+◌, ◌-◌, ◌≤◌, ◌<◌, ◌≡◌, ◌≢◌, refl, ap, ◌∙◌, max, true, false, some, List, [], ◌∷◌, ◌++◌,
  length, arith,
}
use nvmevirt_learned_ftl.Io.State.{IoWorker, nil, nr_max_parallel_io}
use nvmevirt_learned_ftl.Io.Queue.{stops, find_place}
use nvmevirt_learned_ftl.Io.Queue.Lists.{count, last, last-append}
use nvmevirt_learned_ftl.Io.Queue.Links.{Prevs, Prevs-back}
use nvmevirt_learned_ftl.Io.Queue.Order.{All}

-- When an entry counts as due: its target time, but all that the worker's clock has passed are equal.
abbrev pub due : IoWorker → ℕ → ℕ
due w x = max (w.work_queue x).nsecs_target w.latest_nsecs

-- The search goes back over entries that are later, and stops before them.
find_place-skip :
    (w : IoWorker) (t p k : ℕ) (back : List ℕ)
    → Prevs w.work_queue p back
    → All (λ x. (x ≢ nil) × (stops w t x ≡ false)) back
    → find_place (length back + suc k) w t (last p back) ≡ find_place (suc k) w t p
unfolding find_place
find_place-skip w t p k [] prevs late = ap (λ n. find_place n w t p) {y = suc k} (omega arith)
find_place-skip w t p k (b ∷ bs) prevs late =
    let rest = find_place-skip w t b (suc k) bs prevs.1 late.1 in
    ap (λ n. find_place n w t (last b bs)) {y = length bs + suc (suc k)} (omega arith)
    ∙ rest
    ∙ ground (arith, prevs.0, late.0)

module _ (w : IoWorker) (e : ℕ) where
  late_stops :
      (xs : List ℕ)
      → ((i : ℕ) → 0 < count i xs → i < nr_max_parallel_io)
      → All (λ x. due w e < due w x) xs
      → All (λ x. (x ≢ nil) × (stops w (w.work_queue e).nsecs_target x ≡ false)) xs
  unfolding count stops
  late_stops [] lt late = tt
  late_stops (x ∷ xs) lt late = (
    (λ q. ground (arith, lt x), ground (arith, late.0)),
    late_stops xs (λ i k. lt i (omega arith)) late.1,
  )

  stops_at_last :
      (f : ℕ) (fs : List ℕ)
      → All (λ x. due w x ≤ due w e) (f ∷ fs)
      → stops w (w.work_queue e).nsecs_target (last f fs) ≡ true
  unfolding stops
  stops_at_last f [] all = ground (arith, all.0)
  stops_at_last f (g ∷ fs) all = stops_at_last g fs all.1

  stop_front :
      (k : ℕ) (front : List ℕ)
      → All (λ x. due w x ≤ due w e) front
      → find_place (suc k) w (w.work_queue e).nsecs_target (last nil front) ≡ some (last nil front)
  unfolding find_place
  stop_front k [] all = refl
  stop_front k (f ∷ fs) all = ground (arith, stops_at_last f fs all)

  -- The search of `__insert_req_sorted` finds the end of the first part.
  pub find_place-front :
      (fuel : ℕ) (front back : List ℕ)
      → Prevs w.work_queue nil (front ++ back)
      → ((i : ℕ) → 0 < count i back → i < nr_max_parallel_io)
      → length back < fuel
      → All (λ x. due w x ≤ due w e) front
      → All (λ x. due w e < due w x) back
      → find_place fuel w (w.work_queue e).nsecs_target (last nil (front ++ back))
        ≡ some (last nil front)
  find_place-front fuel front back prevs lt enough early late =
      let t = (w.work_queue e).nsecs_target in
      let k = fuel - length back - 1 in
      let skip =
        find_place-skip w t (last nil front) k back (Prevs-back w.work_queue nil front back prevs)
          (late_stops back lt late) in
      let same : fuel ≡ length back + suc k = omega arith in
      ap (λ n. find_place n w t (last nil (front ++ back))) same
      ∙ ap (find_place (length back + suc k) w t) (last-append nil front back)
      ∙ skip
      ∙ stop_front k front early
