-- ===== src/Io/Worker/Round.antt =====
-- A round of `nvmev_io_worker` completes what is due, and only that.
use nvmevirt_learned_ftl.Prelude.{
  ℕ, zero, suc, ◌+◌, ◌<◌, ◌≡◌, ◌≢◌, refl, sym, ap, ◌∙◌, Bool, some, List, [], arith, ltb, add64,
  sub64, Option-cases, Bool-cases, inl, inr,
}
use nvmevirt_learned_ftl.Io.State.{IoWork, nil, nr_max_parallel_io}
use nvmevirt_learned_ftl.Ssd.Nand.{BufferId}
use nvmevirt_learned_ftl.Io.Transfer.{Host}
use nvmevirt_learned_ftl.Io.Device.{IoDevice}
use nvmevirt_learned_ftl.Io.Queue.Lists.{count, last, length_le}
use nvmevirt_learned_ftl.Io.Queue.Links.{Nexts-frame, Prevs-frame}
use nvmevirt_learned_ftl.Io.Queue.Parts.{Parts}
use nvmevirt_learned_ftl.Io.Worker.{visit_all, signal_irq, signal_irqs, io_worker_round}
use nvmevirt_learned_ftl.Io.Worker.Visit.{after_visit}
use nvmevirt_learned_ftl.Io.Worker.Outcome.{
  works, made_all, post_all, give_all, quiet, signal_irqs-quiet,
}
use nvmevirt_learned_ftl.Io.Worker.Pass.{Passed, CanVisit, visit_all-Passed, later_tick}

signal_irq-workers :
    (d : IoDevice) (id qidx : ℕ)
    → ((signal_irq d id qidx).io_workers ≡ d.io_workers) × ((signal_irq d id qidx).ticks ≡ d.ticks)
unfolding signal_irq
signal_irq-workers d id qidx = elim (Option-cases (d.cqes qidx)) [
  | inl e ↦ rw (e, signal_irq) (ground arith, ground arith)
  | inr (cq, e) ↦ rw (e, signal_irq) (ground arith, ground arith)
]

signal_irqs-workers :
    (n : ℕ) (id qidx : ℕ) (d : IoDevice)
    → ((signal_irqs n id qidx d).io_workers ≡ d.io_workers)
      × ((signal_irqs n id qidx d).ticks ≡ d.ticks)
unfolding signal_irqs
signal_irqs-workers zero id qidx d = (refl, refl)
signal_irqs-workers (suc n) id qidx d =
    let (a, b) = signal_irqs-workers n id (qidx + 1) (signal_irq d id qidx) in
    let (a', b') = signal_irq-workers d id qidx in (a ∙ a', b ∙ b')

after_visit-links :
    (work : IoWork) (now : ℕ)
    → ((after_visit work now).next ≡ work.next) × ((after_visit work now).prev ≡ work.prev)
after_visit-links work now = (ground arith, ground arith)

-- What a round leaves of the worker `id`
pub record Round (lba_bits : ℕ) (io_using_dma : Bool) (host : Host) (clock : ℕ → ℕ) (id delta : ℕ)
    (d d' : IoDevice) (waiting free : List ℕ) : Type 0 where
  pub parts : Parts (d'.io_workers id) [] waiting free
  pub visited :
      (x : ℕ)
      → 0 < count x waiting
      → (m : ℕ) × ((d'.io_workers id).work_queue x
          ≡ after_visit ((d.io_workers id).work_queue x) (add64 (clock m) delta))
        × (d.ticks < m)
        × (m < d'.ticks)
  pub untouched :
      (x : ℕ)
      → count x waiting ≡ 0
      → (d'.io_workers id).work_queue x ≡ (d.io_workers id).work_queue x
  pub other_workers : (j : ℕ) → id ≢ j → d'.io_workers j ≡ d.io_workers j
  pub copies :
      d'.copies
      ≡ made_all clock delta lba_bits io_using_dma host d.sqes
          (works (d.io_workers id).work_queue waiting)
          d.copies
  pub posts :
      (c : ℕ)
      → quiet (d'.cqes c)
        ≡ quiet (
            post_all clock delta
              (suc d.ticks)
              c
              (works (d.io_workers id).work_queue waiting)
              (d.cqes c))
  pub gives :
      (b : BufferId)
      → d'.buffers b
        ≡ give_all clock delta
            (suc d.ticks)
            b
            (works (d.io_workers id).work_queue waiting)
            (d.buffers b)

module _ (lba_bits : ℕ) (io_using_dma : Bool) (host : Host) (clock : ℕ → ℕ) (id delta : ℕ)
    {d d' : IoDevice} {waiting free : List ℕ} (p : Parts (d.io_workers id) [] waiting free)
    (t : Passed lba_bits io_using_dma host clock id delta d d' waiting) where
  links_kept :
      (i : ℕ)
      → (((d'.io_workers id).work_queue i).next ≡ ((d.io_workers id).work_queue i).next)
        × (((d'.io_workers id).work_queue i).prev ≡ ((d.io_workers id).work_queue i).prev)
  links_kept i = elim (Bool-cases (ltb 0 (count i waiting))) [
    | inl k ↦
        let (m, e, _, _) = t.entries i (ground arith) in
        let (a, b) = after_visit-links ((d.io_workers id).work_queue i) (add64 (clock m) delta) in
        (ap (λ (x : IoWork). x.next) e ∙ a, ap (λ (x : IoWork). x.prev) e ∙ b)
    | inr z ↦
        let e = t.others i (ground arith) in
        (ap (λ (x : IoWork). x.next) e, ap (λ (x : IoWork). x.prev) e)
  ]

  Parts-kept : Parts (d'.io_workers id) [] waiting free
  Parts-kept =
      let w = d.io_workers id in
      let w' = d'.io_workers id in
      let e = t.ends in
      let seq_end : w'.io_seq_end ≡ w.io_seq_end = ap (λ x. x.1) e in
      record {
        nexts =
            Nexts-frame w.work_queue w'.work_queue waiting nil p.nexts (λ i k. (links_kept i).0);
        prevs =
            Prevs-frame w.work_queue w'.work_queue nil waiting p.prevs (λ i k. (links_kept i).1);
        head = ap (λ x. x.0) e ∙ p.head;
        tail = ap (λ a. last a waiting) seq_end ∙ p.tail ∙ sym seq_end;
        free_nexts =
            Nexts-frame w.work_queue w'.work_queue free nil p.free_nexts (λ i k. (links_kept i).0);
        free_head = ap (λ x. x.2) e ∙ p.free_head;
        free_tail = ap (λ x. x.3) e ∙ p.free_tail;
        some_free = p.some_free;
        whole = p.whole;
      }

module _ (lba_bits : ℕ) (io_using_dma : Bool) (host : Host) (clock : ℕ → ℕ) (id wall : ℕ) where
  -- Where the lists of a worker are linked in order, and each waiting request that is not completed
  -- has its completion queue or its buffer, and a copy that ends if it is still to be made: one
  -- round of `nvmev_io_worker` returns and leaves the lists of the worker in order, with the same
  -- entries. Each waiting entry was visited at one reading of the clock in that round: a completed
  -- one is as it was; any other is marked copied, and completed exactly when its target time is not
  -- after that reading. The other entries of the worker, and all other workers, are as they were.
  -- In the order of the list, the data of each waiting request that was neither copied nor
  -- completed nor internal has been copied, once; each request completed in the round has its one
  -- completion in its completion queue or, if it is internal, its bytes back in the buffer that it
  -- names. Nothing else is in the list of copies, in the completion queues (but for the flag that
  -- their interrupt is to be raised) or in the buffers than this and what was there.
  pub io_worker_round-Round :
      (d : IoDevice) (waiting free : List ℕ)
      → Parts (d.io_workers id) [] waiting free
      → ((x : ℕ)
          → 0 < count x waiting
          → CanVisit lba_bits io_using_dma host clock id (sub64 wall (clock d.ticks)) d x)
      → (d' : IoDevice) × (io_worker_round lba_bits io_using_dma host clock id wall d ≡ some d')
        × Round lba_bits io_using_dma host clock id (sub64 wall (clock d.ticks)) d d' waiting free
  unfolding io_worker_round count
  io_worker_round-Round d waiting free p can =
      let delta = sub64 wall (clock d.ticks) in
      let dt = record d { ticks = suc d.ticks } in
      let below = length_le nr_max_parallel_io waiting (λ i. ground (arith, p.whole i)) in
      let (d1, run, t) =
        visit_all-Passed lba_bits io_using_dma host clock id delta (suc nr_max_parallel_io) waiting
          dt p.nexts (λ i k. ground (arith, p.whole i)) (λ i. ground (arith, p.whole i))
          (λ x k. later_tick lba_bits io_using_dma host clock id delta d x (can x k))
          (omega arith) in
      let start =
        ap (λ c. visit_all lba_bits io_using_dma host clock (suc nr_max_parallel_io) id delta c dt)
          p.head in
      let (workers, ticks) = signal_irqs-workers d1.nr_cq id 1 d1 in
      let (copies, buffers, cqes) = signal_irqs-quiet d1.nr_cq id 1 d1 in
      let kept = Parts-kept lba_bits io_using_dma host clock id delta p t in
      (
        signal_irqs d1.nr_cq id 1 d1,
        rw (start, run),
        record {
          parts = rw workers kept;
          visited = λ x k.
              let (m, e, lo, hi) = t.entries x k in
              (m, ap (λ f. (f id).work_queue x) workers ∙ e, lo, omega (arith, ticks));
          untouched = λ x z. ap (λ f. (f id).work_queue x) workers ∙ t.others x z;
          other_workers = λ j ne. ap (λ f. f j) workers ∙ t.other_workers j ne;
          copies = copies ∙ t.did.copies;
          posts = λ c. cqes c ∙ ap quiet (t.did.posts c);
          gives = λ b. ap (λ f. f b) buffers ∙ t.did.gives b;
        },
      )
