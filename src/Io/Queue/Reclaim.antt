-- ===== src/Io/Queue/Reclaim.antt =====
-- `__reclaim_completed_reqs` on one worker gives back the completed entries at the front.
use nvmevirt_learned_ftl.Prelude.{
  ℕ, zero, suc, ◌<◌, ◌≡◌, refl, ap, subst, ◌∙◌, Bool, some, List, [], ◌∷◌, ◌++◌, ◌==◌,
  if◌then◌else◌, length, arith, Bool-cases, inl, inr,
}
use mathlib.Core.List.{append-nil}
use nvmevirt_learned_ftl.Io.State.{IoWorker, nil, nr_max_parallel_io}
use nvmevirt_learned_ftl.Io.Queue.{reclaimable, find_last, splice, reclaim}
use nvmevirt_learned_ftl.Io.Queue.Lists.{count, first, last, count_first, count_last, length_le}
use nvmevirt_learned_ftl.Io.Queue.Links.{Nexts}
use nvmevirt_learned_ftl.Io.Queue.Order.{IsOrdered}
use nvmevirt_learned_ftl.Io.Queue.Find.{due}
use nvmevirt_learned_ftl.Io.Queue.Linked.{SameWork}
use nvmevirt_learned_ftl.Io.Queue.Enter.{InOrder, SameWork-due}
use nvmevirt_learned_ftl.Io.Queue.Rest.{in_done, splice-Parts, splice-SameWork}

-- The entries at the front that pass a test, and the others
pub take_while : (ℕ → Bool) → List ℕ → List ℕ
take_while test [] = []
take_while test (x ∷ xs) = if test x then x ∷ take_while test xs else []

pub drop_while : (ℕ → Bool) → List ℕ → List ℕ
drop_while test [] = []
drop_while test (x ∷ xs) = if test x then drop_while test xs else x ∷ xs

take-drop_while : (test : ℕ → Bool) (xs : List ℕ) → xs ≡ take_while test xs ++ drop_while test xs
unfolding take_while drop_while
take-drop_while test [] = refl
take-drop_while test (x ∷ xs) = elim (Bool-cases (test x)) [
  | inl t ↦ rw t (ap (λ l. x ∷ l) (take-drop_while test xs))
  | inr t ↦ rw t
]

IsOrdered-drop : (key : ℕ → ℕ) (xs ys : List ℕ) → IsOrdered key (xs ++ ys) → IsOrdered key ys
IsOrdered-drop key [] ys h = h
IsOrdered-drop key (x ∷ xs) ys h = IsOrdered-drop key xs ys h.1

find_last-take :
    (w : IoWorker) (xs : List ℕ) (n last_entry : ℕ)
    → Nexts w.work_queue xs nil
    → ((i : ℕ) → 0 < count i xs → i < nr_max_parallel_io)
    → length xs < n
    → find_last n w (first nil xs) last_entry
      ≡ some (last last_entry (take_while (reclaimable w) xs))
unfolding find_last take_while count
find_last-take w xs zero last_entry nexts lt enough = absurd (omega arith)
find_last-take w [] (suc n) last_entry nexts lt enough = refl
find_last-take w (x ∷ xs) (suc n) last_entry nexts lt enough =
    let rest = find_last-take w xs n x nexts.1 (λ i k. lt i (omega arith)) (omega arith) in
    let here : x < nr_max_parallel_io = lt x (count_first x xs) in
    let step = ap (λ c. find_last n w c x) nexts.0 in
    elim (Bool-cases (reclaimable w x)) [ inl t ↦ ground arith | inr t ↦ ground arith ]

-- `reclaim` once its loop has found the entries `done` at the front
reclaim_at :
    {w : IoWorker} (front rest free : List ℕ)
    → InOrder w (front ++ rest) free
    → (w' : IoWorker) × ((if last nil front == nil then w else splice (last nil front) w) ≡ w')
      × InOrder w' rest (free ++ front)
      × SameWork w w'
reclaim_at front rest [] h = let some = h.parts.some_free in absurd (omega arith)
reclaim_at {w} [] rest (g ∷ gs) h = (
  w,
  refl,
  record { parts = rw append-nil h.parts; order = h.order },
  record { work = λ i. refl; latest = refl; same_id = refl },
)
reclaim_at {w} (f ∷ fs) rest (g ∷ gs) h =
    let same = splice-SameWork fs gs rest h.parts in
    let (lt, _, _) = in_done fs rest gs h.parts (last f fs) (count_last f fs) in
    let key = SameWork-due same in
    (
      splice (last f fs) w,
      ground arith,
      record {
        parts = splice-Parts fs gs rest h.parts;
        order = rw key (IsOrdered-drop (due w) (f ∷ fs) rest h.order);
      },
      same,
    )

-- On a worker in order, `__reclaim_completed_reqs` returns and leaves it in order: the waiting
-- entries at the front that are completed, copied and due by the worker's clock have gone to the
-- end of the free list, in their order, and the others wait as before; no entry has changed but in
-- its links.
pub reclaim-InOrder :
    {w : IoWorker} {waiting free : List ℕ}
    → InOrder w waiting free
    → (w' : IoWorker) × (reclaim w ≡ some w')
      × InOrder w' (drop_while (reclaimable w) waiting) (free ++ take_while (reclaimable w) waiting)
      × SameWork w w'
unfolding reclaim count
reclaim-InOrder {w} {waiting} {free} h =
    let p = h.parts in
    let test = reclaimable w in
    let below = length_le nr_max_parallel_io waiting (λ i. ground (arith, p.whole i)) in
    let found =
      ap (λ c. find_last (suc nr_max_parallel_io) w c nil) p.head
      ∙ find_last-take w waiting (suc nr_max_parallel_io) nil p.nexts
          (λ i k. ground (arith, p.whole i)) (omega arith) in
    let cut = subst (λ l. InOrder w l free) (take-drop_while test waiting) h in
    let (w', run, order, same) =
      reclaim_at (take_while test waiting) (drop_while test waiting) free cut in
    (w', rw found (ap some run), order, same)
