-- ===== src/Io/Queue/Rest.antt =====
-- The two linked lists of a worker after `splice` has moved the entries at the front.
use nvmevirt_learned_ftl.Prelude.{
  ℕ, ◌+◌, ◌<◌, ◌≡◌, ◌≢◌, refl, sym, ap, subst, ◌∙◌, List, [], ◌∷◌, ◌++◌, ltb, ◌==◌, if◌then◌else◌,
  arith,
}
use nvmevirt_learned_ftl.Io.State.{IoWorker, nil, nr_max_parallel_io}
use nvmevirt_learned_ftl.Io.Queue.{splice}
use nvmevirt_learned_ftl.Io.Queue.Lists.{
  count, first, last, count-append, count_first, count_last, count_tail, ends-ne, last-append,
}
use nvmevirt_learned_ftl.Io.Queue.Links.{
  Nexts, Prevs, Nexts-frame, Nexts-append, Nexts-front, Nexts-back, Prevs-back, next_last,
  relink_last, relink_first,
}
use nvmevirt_learned_ftl.Io.Queue.Parts.{Parts}
use nvmevirt_learned_ftl.Io.Queue.Linked.{SameWork}
use nvmevirt_learned_ftl.Io.Queue.Cut.{splice-next, splice-prev, splice-bare}

module _ {w : IoWorker} {f : ℕ} (fs rest : List ℕ) {g : ℕ} (gs : List ℕ)
    (p : Parts w [] ((f ∷ fs) ++ rest) (g ∷ gs)) where
  portions :
      (i : ℕ)
      → count i (f ∷ fs) + count i rest + count i (g ∷ gs)
        ≡ (if ltb i nr_max_parallel_io then 1 else 0)
  unfolding count
  portions i = ground (arith, p.whole i, count-append i (f ∷ fs) rest)

  pub in_done :
      (i : ℕ)
      → 0 < count i (f ∷ fs)
      → (i < nr_max_parallel_io) × (count i rest ≡ 0) × (count i (g ∷ gs) ≡ 0)
  in_done i k = (ground (arith, portions i), ground (arith, portions i), ground (arith, portions i))

  in_rest :
      (i : ℕ)
      → 0 < count i rest
      → (i < nr_max_parallel_io) × (count i (f ∷ fs) ≡ 0) × (count i (g ∷ gs) ≡ 0)
  in_rest i k = (ground (arith, portions i), ground (arith, portions i), ground (arith, portions i))

  in_free :
      (i : ℕ)
      → 0 < count i (g ∷ gs)
      → (i < nr_max_parallel_io) × (count i (f ∷ fs) ≡ 0) × (count i rest ≡ 0)
  in_free i k = (ground (arith, portions i), ground (arith, portions i), ground (arith, portions i))

  done : IoWorker
  done = splice (last f fs) w

  end_next : (w.work_queue (last f fs)).next ≡ first nil rest
  end_next =
      next_last w.work_queue f fs (first nil rest)
        (Nexts-front w.work_queue (f ∷ fs) rest nil p.nexts)

  next_of :
      (i : ℕ)
      → (done.work_queue i).next
        ≡ (if last g gs == i then f else if last f fs == i then nil else (w.work_queue i).next)
  unfolding done
  next_of i =
      subst
        (λ n.
          (done.work_queue i).next
          ≡ (if n == i then f else if last f fs == i then nil else (w.work_queue i).next))
        p.free_tail
        (subst
          (λ n. (done.work_queue i).next ≡ (
            if w.free_seq_end == i
            then n
            else if last f fs == i
            then nil
            else (w.work_queue i).next))
          p.head (splice-next (last f fs) w i))

  prev_kept :
      (i : ℕ) → f ≢ i → i ≢ first nil rest → (done.work_queue i).prev ≡ (w.work_queue i).prev
  unfolding done
  prev_kept i ne other =
      let head : w.io_seq ≡ f = p.head in
      let next = end_next in ground (arith, splice-prev (last f fs) w i)

  prev_moved :
      (r : ℕ) (rs : List ℕ)
      → rest ≡ r ∷ rs
      → r < nr_max_parallel_io
      → f ≢ r
      → (done.work_queue r).prev ≡ nil
  unfolding done
  prev_moved r rs e lt ne =
      let head : w.io_seq ≡ f = p.head in
      let next : (w.work_queue (last f fs)).next ≡ r = end_next ∙ ap (first nil) e in
      ground (arith, splice-prev (last f fs) w r)

  rest-Nexts : Nexts done.work_queue rest nil
  rest-Nexts =
      Nexts-frame w.work_queue done.work_queue rest nil
        (Nexts-back w.work_queue (f ∷ fs) rest nil p.nexts)
        (λ i k.
          let (lt, absent, other) = in_rest i k in
          let a = ends-ne (f ∷ fs) absent (count_last f fs) in
          let b = ends-ne (g ∷ gs) other (count_last g gs) in ground (arith, next_of i))

  done-Nexts : Nexts done.work_queue (f ∷ fs) nil
  done-Nexts =
      relink_last w.work_queue done.work_queue f fs (first nil rest) nil
        (Nexts-front w.work_queue (f ∷ fs) rest nil p.nexts) (λ i. ground (arith, portions i))
        (λ i k ne.
          let (lt, _, other) = in_done i k in
          let b = ends-ne (g ∷ gs) other (count_last g gs) in ground (arith, next_of i))
        (let (lt, _, other) = in_done (last f fs) (count_last f fs) in
          let b = ends-ne (g ∷ gs) other (count_last g gs) in ground (arith, next_of (last f fs)))

  free-Nexts : Nexts done.work_queue (g ∷ gs) f
  free-Nexts =
      relink_last w.work_queue done.work_queue g gs nil f p.free_nexts
        (λ i. ground (arith, portions i))
        (λ i k ne.
          let (lt, other, _) = in_free i k in
          let b = ends-ne (f ∷ fs) other (count_last f fs) in ground (arith, next_of i))
        (let (lt, _, _) = in_free (last g gs) (count_last g gs) in
          ground (arith, next_of (last g gs)))

  done_fields :
      (done.io_seq ≡ first nil rest)
      × (done.io_seq_end ≡ w.io_seq_end)
      × (done.free_seq ≡ w.free_seq)
      × (done.free_seq_end ≡ last f fs)
      × (done.latest_nsecs ≡ w.latest_nsecs)
      × (done.id ≡ w.id)
  unfolding done splice
  done_fields = (end_next, refl, refl, refl, refl, refl)

  rest_tail : last w.io_seq_end rest ≡ w.io_seq_end
  rest_tail = tail_of rest refl
    where
      tail_of : (xs : List ℕ) → rest ≡ xs → last w.io_seq_end xs ≡ w.io_seq_end
      tail_of [] e = refl
      tail_of (x ∷ xs) e =
          sym (last-append f fs (x ∷ xs)) ∙ ap (λ l. last f (fs ++ l)) (sym e) ∙ p.tail

module _ {w : IoWorker} {f : ℕ} (fs : List ℕ) {g : ℕ} (gs : List ℕ) where
  rest-Prevs :
      (rest : List ℕ)
      → Parts w [] ((f ∷ fs) ++ rest) (g ∷ gs)
      → Prevs (splice (last f fs) w).work_queue nil rest
  unfolding done
  rest-Prevs [] p = tt
  rest-Prevs (r ∷ rs) p =
      let old = Prevs-back w.work_queue nil (f ∷ fs) (r ∷ rs) p.prevs in
      let (lt, absent, _) = in_rest fs (r ∷ rs) gs p r (count_first r rs) in
      let apart : f ≢ r = λ e. ends-ne (f ∷ fs) absent (count_first f fs) (sym e) in
      relink_first w.work_queue (splice (last f fs) w).work_queue r rs (last f fs) nil old
        (λ i. ground (arith, portions fs (r ∷ rs) gs p i))
        (λ i k ne.
          let (_, none', _) = in_rest fs (r ∷ rs) gs p i (omega (arith, count_tail r i rs)) in
          prev_kept fs (r ∷ rs) gs p i (λ e. ends-ne (f ∷ fs) none' (count_first f fs) (sym e)) ne)
        (prev_moved fs (r ∷ rs) gs p r rs refl lt apart)

  pub splice-Parts :
      (rest : List ℕ)
      → Parts w [] ((f ∷ fs) ++ rest) (g ∷ gs)
      → Parts (splice (last f fs) w) [] rest ((g ∷ gs) ++ f ∷ fs)
  unfolding done count
  splice-Parts rest p =
      let (head, end, seq, free_end, _, _) = done_fields fs rest gs p in
      record {
        nexts = rest-Nexts fs rest gs p;
        prevs = rest-Prevs rest p;
        head = head;
        tail = ap (λ d. last d rest) end ∙ rest_tail fs rest gs p ∙ sym end;
        free_nexts =
            Nexts-append (splice (last f fs) w).work_queue (g ∷ gs) (f ∷ fs) nil
              (free-Nexts fs rest gs p) (done-Nexts fs rest gs p);
        free_head = seq ∙ p.free_head;
        free_tail = free_end ∙ sym (last-append g gs (f ∷ fs));
        some_free = omega arith;
        whole = λ i. omega (arith, portions fs rest gs p i, count-append i (g ∷ gs) (f ∷ fs));
      }

  pub splice-SameWork :
      (rest : List ℕ) → Parts w [] ((f ∷ fs) ++ rest) (g ∷ gs) → SameWork w (splice (last f fs) w)
  unfolding done
  splice-SameWork rest p =
      let (_, _, _, _, latest, same_id) = done_fields fs rest gs p in
      record { work = splice-bare (last f fs) w; latest = latest; same_id = same_id }
