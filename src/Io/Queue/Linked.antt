-- ===== src/Io/Queue/Linked.antt =====
-- What `link_after`, the end of `__insert_req_sorted`, leaves of the linked lists.
use nvmevirt_learned_ftl.Prelude.{ℕ, ◌≡◌, ◌≢◌, ◌∙◌, List, [], ◌∷◌, ◌++◌, arith, update}
use nvmevirt_learned_ftl.Io.State.{IoWorker, nil, set_next, set_prev}
use nvmevirt_learned_ftl.Io.Queue.{link_after}
use nvmevirt_learned_ftl.Io.Queue.Lists.{
  count, first, last, count-append, count_first, count_last, ends-ne,
}
use nvmevirt_learned_ftl.Io.Queue.Links.{Nexts-frame, next_last, Nexts-front}
use nvmevirt_learned_ftl.Io.Queue.Parts.{Parts, shares, in_front, in_back, held_lt}
use nvmevirt_learned_ftl.Io.Queue.Splice.{Spliced, bare, Spliced-Nexts, Spliced-Prevs, free_next}

-- The entry before the place, its successor and its predecessor, as `link_after` finds them
module _ {w : IoWorker} {e : ℕ} {free : List ℕ} where
  pub link_head-Spliced :
      (b : ℕ) (bs : List ℕ)
      → Parts w (e ∷ []) (b ∷ bs) free
      → (w.work_queue e).prev ≡ nil
      → Spliced w.work_queue (link_after e nil w).work_queue e [] (b ∷ bs)
  unfolding link_after set_next set_prev update
  link_head-Spliced b bs p prev =
      let lt = held_lt [] (b ∷ bs) p in
      let (first_lt, apart, _, _) = in_back [] (b ∷ bs) p b (count_first b bs) in
      let head : w.io_seq ≡ b = p.head in
      record {
        next_of = λ i h. ground arith;
        prev_of = λ i h. ground arith;
        rest_of = λ i. ground arith;
      }

  pub link_tail-Spliced :
      (f : ℕ) (fs : List ℕ)
      → Parts w (e ∷ []) ((f ∷ fs) ++ []) free
      → (w.work_queue e).next ≡ nil
      → Spliced w.work_queue (link_after e (last f fs) w).work_queue e (f ∷ fs) []
  unfolding link_after set_next set_prev update
  link_tail-Spliced f fs p next =
      let lt = held_lt (f ∷ fs) [] p in
      let (last_lt, apart, _, _) = in_front (f ∷ fs) [] p (last f fs) (count_last f fs) in
      let end =
        next_last w.work_queue f fs nil (Nexts-front w.work_queue (f ∷ fs) [] nil p.nexts) in
      record {
        next_of = λ i h. ground arith;
        prev_of = λ i h. ground arith;
        rest_of = λ i. ground arith;
      }

  pub link_between-Spliced :
      (f : ℕ) (fs : List ℕ) (b : ℕ) (bs : List ℕ)
      → Parts w (e ∷ []) ((f ∷ fs) ++ b ∷ bs) free
      → Spliced w.work_queue (link_after e (last f fs) w).work_queue e (f ∷ fs) (b ∷ bs)
  unfolding link_after set_next set_prev update
  link_between-Spliced f fs b bs p =
      let lt = held_lt (f ∷ fs) (b ∷ bs) p in
      let (last_lt, apart, none, _) = in_front (f ∷ fs) (b ∷ bs) p (last f fs) (count_last f fs) in
      let (first_lt, other, _, _) = in_back (f ∷ fs) (b ∷ bs) p b (count_first b bs) in
      let end =
        next_last w.work_queue f fs b (Nexts-front w.work_queue (f ∷ fs) (b ∷ bs) nil p.nexts) in
      let differ : last f fs ≢ b = ends-ne (b ∷ bs) none (count_first b bs) in
      record {
        next_of = λ i h. ground arith;
        prev_of = λ i h. ground arith;
        rest_of = λ i. ground arith;
      }

-- What an insertion leaves alone
pub record SameWork (w w' : IoWorker) : Type 0 where
  pub work : (i : ℕ) → bare (w'.work_queue i) ≡ bare (w.work_queue i)
  pub latest : w'.latest_nsecs ≡ w.latest_nsecs
  pub same_id : w'.id ≡ w.id

pub link_Parts :
    {w : IoWorker} (w' : IoWorker) {e : ℕ} (front back : List ℕ) {free : List ℕ}
    → Parts w (e ∷ []) (front ++ back) free
    → Spliced w.work_queue w'.work_queue e front back
    → w'.io_seq ≡ first nil (front ++ e ∷ back)
    → last w'.io_seq_end (front ++ e ∷ back) ≡ w'.io_seq_end
    → w'.free_seq ≡ w.free_seq
    → w'.free_seq_end ≡ w.free_seq_end
    → Parts w' [] (front ++ e ∷ back) free
unfolding count
link_Parts {w} w' {e} front back {free} p s head tail seq end = record {
  nexts = Spliced-Nexts w' front back p s;
  prevs = Spliced-Prevs w' front back p s;
  head = head;
  tail = tail;
  free_nexts =
      Nexts-frame w.work_queue w'.work_queue free nil p.free_nexts (free_next w' front back p s);
  free_head = seq ∙ p.free_head;
  free_tail = end ∙ p.free_tail;
  some_free = p.some_free;
  whole = λ i. omega (arith, shares front back p i, count-append i front (e ∷ back));
}
