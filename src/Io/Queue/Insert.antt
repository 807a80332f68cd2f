-- ===== src/Io/Queue/Insert.antt =====
-- `__insert_req_sorted` puts its entry where `place` does.
use nvmevirt_learned_ftl.Prelude.{
  ℕ, suc, ◌≤◌, ◌<◌, ◌≡◌, refl, sym, ap, subst, ◌∙◌, false, some, List, [], ◌∷◌, ◌++◌, ◌==◌, length,
  arith,
}
use nvmevirt_learned_ftl.Io.State.{IoWorker, nil, nr_max_parallel_io}
use nvmevirt_learned_ftl.Io.Queue.{find_place, link_after, insert_req_sorted}
use nvmevirt_learned_ftl.Io.Queue.Lists.{
  first, last, count_first, count_last, last-append, last_any, length-append,
}
use nvmevirt_learned_ftl.Io.Queue.Links.{next_last, Nexts-front}
use nvmevirt_learned_ftl.Io.Queue.Order.{All, IsOrdered, place, place-Split}
use nvmevirt_learned_ftl.Io.Queue.Parts.{Parts, in_front, in_back, waiting_le}
use nvmevirt_learned_ftl.Io.Queue.Splice.{Spliced}
use nvmevirt_learned_ftl.Io.Queue.Find.{due, find_place-front}
use nvmevirt_learned_ftl.Io.Queue.Linked.{
  SameWork, link_head-Spliced, link_tail-Spliced, link_between-Spliced, link_Parts,
}

-- An insertion at the place between two parts, by which of them are empty
abbrev Inserted : IoWorker → ℕ → List ℕ → List ℕ → Type 0
Inserted w e xs free =
    (w' : IoWorker) × (insert_req_sorted e (w.work_queue e).nsecs_target w ≡ some w')
    × Parts w' [] xs free
    × SameWork w w'

insert_empty :
    {w : IoWorker} {e : ℕ} {free : List ℕ}
    → Parts w (e ∷ []) [] free
    → (w.work_queue e).next ≡ nil
    → (w.work_queue e).prev ≡ nil
    → Inserted w e (e ∷ []) free
unfolding insert_req_sorted
insert_empty {w} {e} p next prev =
    let w' = record w { io_seq = e; io_seq_end = e } in
    let head : w.io_seq ≡ nil = p.head in
    let s : Spliced w.work_queue w'.work_queue e [] [] = record {
      next_of = λ i h. ground arith;
      prev_of = λ i h. ground arith;
      rest_of = λ i. refl;
    } in
    (
      w',
      rw head,
      link_Parts w' [] [] p s refl refl refl refl,
      record { work = λ i. refl; latest = refl; same_id = refl },
    )

link_after-free_seq :
    (e c : ℕ) (w : IoWorker)
    → ((link_after e c w).free_seq ≡ w.free_seq)
      × ((link_after e c w).free_seq_end ≡ w.free_seq_end)
      × ((link_after e c w).latest_nsecs ≡ w.latest_nsecs)
      × ((link_after e c w).id ≡ w.id)
unfolding link_after
link_after-free_seq e c w = (ground arith, ground arith, ground arith, ground arith)

module _ {w : IoWorker} {e : ℕ} {free : List ℕ} where
  some_first :
      (front back : List ℕ)
      → Parts w (e ∷ []) (front ++ back) free
      → 0 < length (front ++ back)
      → (w.io_seq == nil) ≡ false
  some_first [] [] p more = absurd (omega arith)
  some_first [] (b ∷ bs) p more =
      let (lt, _, _, _) = in_back [] (b ∷ bs) p b (count_first b bs) in
      let head : w.io_seq ≡ b = p.head in ground arith
  some_first (f ∷ fs) back p more =
      let (lt, _, _, _) = in_front (f ∷ fs) back p f (count_first f fs) in
      let head : w.io_seq ≡ f = p.head in ground arith

  insert_linked :
      (front back : List ℕ)
      → Parts w (e ∷ []) (front ++ back) free
      → 0 < length (front ++ back)
      → All (λ x. due w x ≤ due w e) front
      → All (λ x. due w e < due w x) back
      → Spliced w.work_queue (link_after e (last nil front) w).work_queue e front back
      → (link_after e (last nil front) w).io_seq ≡ first nil (front ++ e ∷ back)
      → last (link_after e (last nil front) w).io_seq_end (front ++ e ∷ back)
        ≡ (link_after e (last nil front) w).io_seq_end
      → Inserted w e (front ++ e ∷ back) free
  unfolding insert_req_sorted
  insert_linked front back p more early late s head tail =
      let w' = link_after e (last nil front) w in
      let (seq, end, latest, same_id) = link_after-free_seq e (last nil front) w in
      let below = waiting_le front back p in
      let found =
        ap (find_place (suc nr_max_parallel_io) w (w.work_queue e).nsecs_target)
          (sym p.tail ∙ last_any w.io_seq_end nil (front ++ back) more)
        ∙ find_place-front w e (suc nr_max_parallel_io) front back p.prevs
            (λ i k. (in_back front back p i k).0) (omega (arith, length-append front back)) early
            late in
      (
        w',
        rw (some_first front back p more, found),
        link_Parts w' front back p s head tail seq end,
        record { work = s.rest_of; latest = latest; same_id = same_id },
      )

  at_front :
      (f : ℕ) (fs back : List ℕ)
      → Parts w (e ∷ []) ((f ∷ fs) ++ back) free
      → (link_after e (last f fs) w).io_seq ≡ f
  unfolding link_after
  at_front f fs back p =
      let (lt, _, _, _) = in_front (f ∷ fs) back p (last f fs) (count_last f fs) in
      let head : w.io_seq ≡ f = p.head in ground arith

  at_end :
      (f : ℕ) (fs : List ℕ)
      → Parts w (e ∷ []) ((f ∷ fs) ++ []) free
      → (link_after e (last f fs) w).io_seq_end ≡ e
  unfolding link_after
  at_end f fs p =
      let (lt, _, _, _) = in_front (f ∷ fs) [] p (last f fs) (count_last f fs) in
      let end =
        next_last w.work_queue f fs nil (Nexts-front w.work_queue (f ∷ fs) [] nil p.nexts) in
      ground arith

  at_end_between :
      (f : ℕ) (fs : List ℕ) (b : ℕ) (bs : List ℕ)
      → Parts w (e ∷ []) ((f ∷ fs) ++ b ∷ bs) free
      → (link_after e (last f fs) w).io_seq_end ≡ w.io_seq_end
  unfolding link_after
  at_end_between f fs b bs p =
      let (lt, _, _, _) = in_front (f ∷ fs) (b ∷ bs) p (last f fs) (count_last f fs) in
      let (lt', _, _, _) = in_back (f ∷ fs) (b ∷ bs) p b (count_first b bs) in
      let end =
        next_last w.work_queue f fs b (Nexts-front w.work_queue (f ∷ fs) (b ∷ bs) nil p.nexts) in
      ground arith

  insert_at :
      (front back : List ℕ)
      → Parts w (e ∷ []) (front ++ back) free
      → (w.work_queue e).next ≡ nil
      → (w.work_queue e).prev ≡ nil
      → All (λ x. due w x ≤ due w e) front
      → All (λ x. due w e < due w x) back
      → Inserted w e (front ++ e ∷ back) free
  unfolding link_after
  insert_at [] [] p next prev early late = insert_empty p next prev
  insert_at [] (b ∷ bs) p next prev early late =
      insert_linked [] (b ∷ bs) p (omega arith) early late (link_head-Spliced b bs p prev) refl
        p.tail
  insert_at (f ∷ fs) [] p next prev early late =
      insert_linked (f ∷ fs) [] p (omega arith) early late (link_tail-Spliced f fs p next)
        (at_front f fs [] p) (last-append f fs (e ∷ []) ∙ sym (at_end f fs p))
  insert_at (f ∷ fs) (b ∷ bs) p next prev early late =
      insert_linked (f ∷ fs) (b ∷ bs) p (omega arith) early late (link_between-Spliced f fs b bs p)
        (at_front f fs (b ∷ bs) p)
        (last-append f fs (e ∷ b ∷ bs)
          ∙ sym (last-append f fs (b ∷ bs))
          ∙ p.tail
          ∙ sym (at_end_between f fs b bs p))

-- On a worker whose links are in order and whose waiting entries are in the order of their times,
-- `__insert_req_sorted` always returns.
pub insert_req_sorted-Parts :
    {w : IoWorker} {e : ℕ} {waiting free : List ℕ}
    → Parts w (e ∷ []) waiting free
    → IsOrdered (due w) waiting
    → (w.work_queue e).next ≡ nil
    → (w.work_queue e).prev ≡ nil
    → (w' : IoWorker) × (insert_req_sorted e (w.work_queue e).nsecs_target w ≡ some w')
      × Parts w' [] (place (due w) e waiting) free
      × SameWork w w'
insert_req_sorted-Parts {w} {e} {waiting} {free} p order next prev =
    let (front, back, s) = place-Split (due w) e waiting order in
    let p' = subst (λ l. Parts w (e ∷ []) l free) s.parts p in
    let (w', run, parts, same) = insert_at front back p' next prev s.not_later s.later in
    (w', run, subst (λ l. Parts w' [] l free) (sym s.placed) parts, same)
