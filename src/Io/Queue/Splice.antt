-- ===== src/Io/Queue/Splice.antt =====
-- A held entry that is linked in between two parts of the waiting list.
use nvmevirt_learned_ftl.Prelude.{ℕ, ◌<◌, ◌≡◌, ◌≢◌, List, [], ◌∷◌, ◌++◌, ◌==◌, if◌then◌else◌, arith}
use nvmevirt_learned_ftl.Io.State.{IoWork, IoWorker, nil, nr_max_parallel_io}
use nvmevirt_learned_ftl.Io.Queue.Lists.{count, first, last, count_first, count_last, count_tail}
use nvmevirt_learned_ftl.Io.Queue.Links.{
  Nexts, Prevs, Nexts-frame, Prevs-frame, Nexts-append, Nexts-front, Nexts-back, Prevs-append,
  Prevs-front, Prevs-back, relink_last, relink_first,
}
use nvmevirt_learned_ftl.Io.Queue.Parts.{
  Parts, in_front, in_back, in_free, held_lt, front_one, back_one,
}

-- An entry less its links
abbrev pub bare : IoWork → IoWork
bare x = record x { next = 0; prev = 0 }

-- How the links change when `e` goes between `front` and `back`
pub record Spliced (q q' : ℕ → IoWork) (e : ℕ) (front back : List ℕ) : Type 0 where
  pub next_of :
      (i : ℕ)
      → i < nr_max_parallel_io
      → (q' i).next
        ≡ (if i == e then first nil back else if i == last nil front then e else (q i).next)
  pub prev_of :
      (i : ℕ)
      → i < nr_max_parallel_io
      → (q' i).prev
        ≡ (if i == e then last nil front else if i == first nil back then e else (q i).prev)
  pub rest_of : (i : ℕ) → bare (q' i) ≡ bare (q i)

-- An entry that does not occur is not at the end.
last-ne : (i : ℕ) (xs : List ℕ) → i < nr_max_parallel_io → count i xs ≡ 0 → i ≢ last nil xs
last-ne i [] h z e = omega arith
last-ne i (x ∷ xs) h z e = let more : 0 < count i (x ∷ xs) = rw e (count_last x xs) in omega arith

first-ne : (i : ℕ) (xs : List ℕ) → i < nr_max_parallel_io → count i xs ≡ 0 → i ≢ first nil xs
first-ne i [] h z e = omega arith
first-ne i (x ∷ xs) h z e = let more : 0 < count i (x ∷ xs) = rw e (count_first x xs) in omega arith

module _ {w : IoWorker} (w' : IoWorker) {e : ℕ} (front back : List ℕ) {free : List ℕ}
    (p : Parts w (e ∷ []) (front ++ back) free)
    (s : Spliced w.work_queue w'.work_queue e front back) where
  back_next : (i : ℕ) → 0 < count i back → (w'.work_queue i).next ≡ (w.work_queue i).next
  back_next i k =
      let (lt, ne, none, _) = in_back front back p i k in
      let apart = last-ne i front lt none in ground (arith, s.next_of i)

  front_prev : (i : ℕ) → 0 < count i front → (w'.work_queue i).prev ≡ (w.work_queue i).prev
  front_prev i k =
      let (lt, ne, none, _) = in_front front back p i k in
      let apart = first-ne i back lt none in ground (arith, s.prev_of i)

  pub free_next : (i : ℕ) → 0 < count i free → (w'.work_queue i).next ≡ (w.work_queue i).next
  free_next i k =
      let (lt, ne, none, _) = in_free front back p i k in
      let apart = last-ne i front lt none in ground (arith, s.next_of i)

  entry_next : (w'.work_queue e).next ≡ first nil back
  entry_next = let lt = held_lt front back p in ground (arith, s.next_of e)

  entry_prev : (w'.work_queue e).prev ≡ last nil front
  entry_prev = let lt = held_lt front back p in ground (arith, s.prev_of e)

  back-Nexts : Nexts w'.work_queue (e ∷ back) nil
  back-Nexts = (
    entry_next,
    Nexts-frame w.work_queue w'.work_queue back nil (Nexts-back w.work_queue front back nil p.nexts)
        back_next,
  )

  front-Prevs : Prevs w'.work_queue nil front
  front-Prevs =
      Prevs-frame w.work_queue w'.work_queue nil front
        (Prevs-front w.work_queue nil front back p.prevs) front_prev

module _ {w : IoWorker} (w' : IoWorker) {e : ℕ} where
  kept_prev :
      (front : List ℕ) (b : ℕ) (bs : List ℕ) {free : List ℕ}
      → Parts w (e ∷ []) (front ++ b ∷ bs) free
      → Spliced w.work_queue w'.work_queue e front (b ∷ bs)
      → (i : ℕ) → 0 < count i (b ∷ bs)
      → i ≢ b
      → (w'.work_queue i).prev ≡ (w.work_queue i).prev
  kept_prev front b bs p s i k ne =
      let (lt, apart, _, _) = in_back front (b ∷ bs) p i k in ground (arith, s.prev_of i)

  moved_prev :
      (front : List ℕ) (b : ℕ) (bs : List ℕ) {free : List ℕ}
      → Parts w (e ∷ []) (front ++ b ∷ bs) free
      → Spliced w.work_queue w'.work_queue e front (b ∷ bs)
      → (w'.work_queue b).prev ≡ e
  moved_prev front b bs p s =
      let (lt, apart, _, _) = in_back front (b ∷ bs) p b (count_first b bs) in
      ground (arith, s.prev_of b)

  kept_next :
      (f : ℕ) (fs back : List ℕ) {free : List ℕ}
      → Parts w (e ∷ []) ((f ∷ fs) ++ back) free
      → Spliced w.work_queue w'.work_queue e (f ∷ fs) back
      → (i : ℕ) → 0 < count i (f ∷ fs)
      → i ≢ last f fs
      → (w'.work_queue i).next ≡ (w.work_queue i).next
  kept_next f fs back p s i k ne =
      let (lt, apart, _, _) = in_front (f ∷ fs) back p i k in ground (arith, s.next_of i)

  moved_next :
      (f : ℕ) (fs back : List ℕ) {free : List ℕ}
      → Parts w (e ∷ []) ((f ∷ fs) ++ back) free
      → Spliced w.work_queue w'.work_queue e (f ∷ fs) back
      → (w'.work_queue (last f fs)).next ≡ e
  moved_next f fs back p s =
      let (lt, apart, _, _) = in_front (f ∷ fs) back p (last f fs) (count_last f fs) in
      ground (arith, s.next_of (last f fs))

module _ {w : IoWorker} (w' : IoWorker) {e : ℕ} where
  pub Spliced-Prevs :
      (front back : List ℕ) {free : List ℕ}
      → Parts w (e ∷ []) (front ++ back) free
      → Spliced w.work_queue w'.work_queue e front back
      → Prevs w'.work_queue nil (front ++ e ∷ back)
  Spliced-Prevs front [] p s =
      Prevs-append w'.work_queue nil front (e ∷ []) (front-Prevs w' front [] p s)
        (entry_prev w' front [] p s, tt)
  Spliced-Prevs front (b ∷ bs) p s =
      let old = Prevs-back w.work_queue nil front (b ∷ bs) p.prevs in
      let one = back_one front (b ∷ bs) p in
      let same = λ (i : ℕ) (k : 0 < count i bs).
        kept_prev w' front b bs p s i (omega (arith, count_tail b i bs)) in
      let back_prevs =
        relink_first w.work_queue w'.work_queue b bs (last nil front) e old one same
          (moved_prev w' front b bs p s) in
      Prevs-append w'.work_queue nil front (e ∷ b ∷ bs) (front-Prevs w' front (b ∷ bs) p s)
        (entry_prev w' front (b ∷ bs) p s, back_prevs)

  pub Spliced-Nexts :
      (front back : List ℕ) {free : List ℕ}
      → Parts w (e ∷ []) (front ++ back) free
      → Spliced w.work_queue w'.work_queue e front back
      → Nexts w'.work_queue (front ++ e ∷ back) nil
  Spliced-Nexts [] back p s = back-Nexts w' [] back p s
  Spliced-Nexts (f ∷ fs) back p s =
      let old = Nexts-front w.work_queue (f ∷ fs) back nil p.nexts in
      let one = front_one (f ∷ fs) back p in
      let front_nexts =
        relink_last w.work_queue w'.work_queue f fs (first nil back) e old one
          (kept_next w' f fs back p s) (moved_next w' f fs back p s) in
      Nexts-append w'.work_queue (f ∷ fs) (e ∷ back) nil front_nexts
        (back-Nexts w' (f ∷ fs) back p s)
