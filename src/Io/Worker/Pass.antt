-- ===== src/Io/Worker/Pass.antt =====
-- The inner loop of `nvmev_io_worker`: one pass over the waiting list.
use nvmevirt_learned_ftl.Prelude.{
  ℕ, zero, suc, ◌≤◌, ◌<◌, ◌≡◌, ◌≢◌, refl, sym, ap, subst, ◌∙◌, Bool, false, some, List, [], ◌∷◌,
  ◌==◌, length, arith, update, update_self, update_ne, eq-cases, inl, inr, add64,
}
use nvmevirt_learned_ftl.Io.State.{IoWork, IoWorker, nil, nr_max_parallel_io}
use nvmevirt_learned_ftl.Io.Transfer.{Host}
use nvmevirt_learned_ftl.Io.Device.{IoDevice}
use nvmevirt_learned_ftl.Io.Queue.Lists.{count, first, count_first, count_tail, head-ne}
use nvmevirt_learned_ftl.Io.Queue.Links.{Nexts, Nexts-frame}
use nvmevirt_learned_ftl.Io.Worker.{visit, visit_all}
use nvmevirt_learned_ftl.Io.Worker.Visit.{after_visit, IsRunnable, Visited, visit-Visited}
use nvmevirt_learned_ftl.Io.Worker.Effect.{visit-Does}
use nvmevirt_learned_ftl.Io.Worker.Outcome.{works, works-same, Done, Done-nil, Done-cons}

after_visit-next : (work : IoWork) (now : ℕ) → (after_visit work now).next ≡ work.next
after_visit-next work now = ground arith

more_count : (x i : ℕ) (xs : List ℕ) → 0 < count i xs → 0 < count i (x ∷ xs)
more_count x i xs k = omega (arith, count_tail x i xs)

-- The links of a worker, less those in its entries
abbrev pub ends_of : IoWorker → ℕ × ℕ × ℕ × ℕ × ℕ
ends_of w = (w.io_seq, w.io_seq_end, w.free_seq, w.free_seq_end, w.id)

module _ (lba_bits : ℕ) (io_using_dma : Bool) (host : Host) (clock : ℕ → ℕ) (id delta : ℕ) where
  -- What a pass over the entries `xs` leaves: each of them as `after_visit` has it at a reading of the
  -- clock made in the pass, and the links as they were
  pub record Passed (d d' : IoDevice) (xs : List ℕ) : Type 0 where
    pub entries :
        (x : ℕ)
        → 0 < count x xs
        → (m : ℕ) × ((d'.io_workers id).work_queue x
            ≡ after_visit ((d.io_workers id).work_queue x) (add64 (clock m) delta))
          × (d.ticks ≤ m)
          × (m < d'.ticks)
    pub others :
        (x : ℕ) → count x xs ≡ 0 → (d'.io_workers id).work_queue x ≡ (d.io_workers id).work_queue x
    pub ends : ends_of (d'.io_workers id) ≡ ends_of (d.io_workers id)
    pub other_workers : (j : ℕ) → id ≢ j → d'.io_workers j ≡ d.io_workers j
    pub same_sqes : d'.sqes ≡ d.sqes
    pub same_count : d'.nr_io_workers ≡ d.nr_io_workers
    pub later : d.ticks ≤ d'.ticks
    pub did :
        Done clock delta lba_bits io_using_dma host d d' (works (d.io_workers id).work_queue xs)

  -- A request that a pass can handle
  abbrev pub CanVisit : IoDevice → ℕ → Type 0
  CanVisit d x =
      ((d.io_workers id).work_queue x).is_completed ≡ false
      → IsRunnable lba_bits io_using_dma host d ((d.io_workers id).work_queue x)

  module _ {d d1 : IoDevice} {curr now : ℕ}
      (v : Visited lba_bits io_using_dma host
        (record d { ticks = suc d.ticks })
        d1
        id
        curr
        now) where
    entry_of :
        (i : ℕ)
        → (d1.io_workers id).work_queue i
          ≡ update
              (d.io_workers id).work_queue
              curr
              (after_visit ((d.io_workers id).work_queue curr) now)
              i
    entry_of i =
        ap (λ (f : ℕ → IoWorker). (f id).work_queue i) v.workers
        ∙ ap (λ (w : IoWorker). w.work_queue i) (update_self d.io_workers id _)

    same_entry :
        (i : ℕ) → curr ≢ i → (d1.io_workers id).work_queue i ≡ (d.io_workers id).work_queue i
    same_entry i ne = entry_of i ∙ update_ne (d.io_workers id).work_queue curr i _ ne

    ends_kept : ends_of (d1.io_workers id) ≡ ends_of (d.io_workers id)
    ends_kept =
        ap (λ (f : ℕ → IoWorker). ends_of (f id)) v.workers
        ∙ ap (λ (w : IoWorker). ends_of w) (update_self d.io_workers id _)

    other_kept : (j : ℕ) → id ≢ j → d1.io_workers j ≡ d.io_workers j
    other_kept j ne = ap (λ (f : ℕ → IoWorker). f j) v.workers ∙ update_ne d.io_workers id j _ ne

    next_kept :
        (i : ℕ) → ((d1.io_workers id).work_queue i).next ≡ ((d.io_workers id).work_queue i).next
    next_kept i = elim (eq-cases curr i) [
      | inl e ↦ rw (← e) (
          ap (λ (x : IoWork). x.next)
            (entry_of curr ∙ update_self (d.io_workers id).work_queue curr _)
          ∙ after_visit-next ((d.io_workers id).work_queue curr) now)
      | inr ne ↦ ap (λ (x : IoWork). x.next) (same_entry i ne)
    ]

    CanVisit-kept : (i : ℕ) → curr ≢ i → CanVisit d i → CanVisit d1 i
    CanVisit-kept i ne can waits =
        let e = same_entry i ne in
        let r = can (ap (λ (x : IoWork). x.is_completed) (sym e) ∙ waits) in
        subst (λ x. IsRunnable lba_bits io_using_dma host d1 x) (sym e)
          (record {
            buffer = r.buffer;
            queue = λ q. v.queues ((d.io_workers id).work_queue i).cqid (r.queue q);
            copy = λ q c.
                let (sq, here, ok) = r.copy q c in
                (sq, ap (λ f. f ((d.io_workers id).work_queue i).sqid) v.same_sqes ∙ here, ok);
          })

  Passed-nil : (d : IoDevice) → Passed d d []
  unfolding count
  Passed-nil d = record {
    entries = λ x k. absurd (omega arith);
    others = λ x z. refl;
    ends = refl;
    other_workers = λ j ne. refl;
    same_sqes = refl;
    same_count = refl;
    later = omega arith;
    did = Done-nil clock delta lba_bits io_using_dma host d;
  }

  Passed-cons :
      {d d1 d' : IoDevice} (x : ℕ) (xs : List ℕ)
      → ((i : ℕ) → count i (x ∷ xs) ≤ 1)
      → visit lba_bits io_using_dma host id x
          (add64 (clock d.ticks) delta)
          (record d { ticks = suc d.ticks })
        ≡ some d1
      → Visited lba_bits io_using_dma host
          (record d { ticks = suc d.ticks })
          d1
          id
          x
          (add64 (clock d.ticks) delta)
      → Passed d1 d' xs
      → Passed d d' (x ∷ xs)
  unfolding count
  Passed-cons {d} {d1} {d'} x xs one run v p =
      let ticks : d1.ticks ≡ suc d.ticks = v.same_ticks in
      let q = (d.io_workers id).work_queue in
      let once : count x xs ≡ 0 = ground (arith, one x, count_first x xs) in
      record {
        entries = λ y k. elim (eq-cases x y) [
          | inl e ↦ (
            d.ticks,
            rw (← e) (p.others x once ∙ entry_of v x ∙ update_self q x _),
            omega arith,
            omega (arith, p.later),
          )
          | inr ne ↦
              let (m, now_has, lo, hi) = p.entries y (ground arith) in
              (
                m,
                now_has ∙ ap (λ w. after_visit w (add64 (clock m) delta)) (same_entry v y ne),
                omega arith,
                hi,
              )
        ];
        others = λ y z.
            let ne : x ≢ y = λ e. ground (arith, count_first x xs, ap (λ a. count a (x ∷ xs)) e) in
            p.others y (ground arith) ∙ same_entry v y ne;
        ends = p.ends ∙ ends_kept v;
        other_workers = λ j ne. p.other_workers j ne ∙ other_kept v j ne;
        same_sqes = p.same_sqes ∙ v.same_sqes;
        same_count = p.same_count ∙ v.same_count;
        later = omega (arith, p.later);
        did =
            Done-cons clock delta lba_bits io_using_dma host (q x) (works q xs)
              (works (d1.io_workers id).work_queue xs)
              (visit-Does lba_bits io_using_dma host id x (add64 (clock d.ticks) delta)
                (record d { ticks = suc d.ticks }) run)
              v.same_sqes ticks
              (works-same q (d1.io_workers id).work_queue xs
                (λ i k. same_entry v i (head-ne x i xs (one x) k)))
              p.did;
      }

  -- A clock reading changes nothing that a request needs.
  pub later_tick :
      (d : IoDevice) (x : ℕ) → CanVisit d x → CanVisit (record d { ticks = suc d.ticks }) x
  later_tick d x can waits =
      let r = can waits in record { buffer = r.buffer; queue = r.queue; copy = r.copy }

  pub visit_all-Passed :
      (n : ℕ) (xs : List ℕ) (d : IoDevice)
      → Nexts (d.io_workers id).work_queue xs nil
      → ((i : ℕ) → 0 < count i xs → i < nr_max_parallel_io)
      → ((i : ℕ) → count i xs ≤ 1)
      → ((x : ℕ) → 0 < count x xs → CanVisit d x)
      → length xs < n
      → (d' : IoDevice) × (visit_all lba_bits io_using_dma host clock n id delta (first nil xs) d
          ≡ some d')
        × Passed d d' xs
  unfolding visit_all
  visit_all-Passed zero xs d nexts lt one can enough = absurd (omega arith)
  visit_all-Passed (suc n) [] d nexts lt one can enough = (d, refl, Passed-nil d)
  visit_all-Passed (suc n) (x ∷ xs) d nexts lt one can enough =
      let now = add64 (clock d.ticks) delta in
      let dt = record d { ticks = suc d.ticks } in
      let (d1, run, v) =
        visit-Visited lba_bits io_using_dma host id x now dt
          (later_tick d x (can x (count_first x xs))) in
      let q1 = (d1.io_workers id).work_queue in
      let here : x < nr_max_parallel_io = lt x (count_first x xs) in
      let some_entry : (x == nil) ≡ false = ground arith in
      let in_tail = λ (i : ℕ) (k : 0 < count i xs). more_count x i xs k in
      let (d2, run', p) =
        visit_all-Passed n xs d1
          (Nexts-frame (d.io_workers id).work_queue q1 xs nil nexts.1 (λ i k. next_kept v i))
          (λ i k. lt i (in_tail i k)) (λ i. omega (arith, count_tail x i xs, one i))
          (λ i k. CanVisit-kept v i (head-ne x i xs (one x) k) (can i (in_tail i k)))
          (omega arith) in
      let step =
        ap (λ c. visit_all lba_bits io_using_dma host clock n id delta c d1)
          (next_kept v x ∙ nexts.0) in
      (d2, rw (some_entry, run) (step ∙ run'), Passed-cons x xs one run v p)
