-- ===== src/Io/Enqueue/Place.antt =====
-- A request that is handed over lands in the list of its worker where it is due, or is dropped.
use nvmevirt_learned_ftl.Prelude.{
  ℕ, suc, ◌+◌, ◌≡◌, ◌≢◌, refl, sym, ap, subst, ◌∙◌, some, none, List, ◌∷◌, [], ◌==◌, if◌then◌else◌,
  update, update_self, update_ne, u32,
}
use nvmevirt_learned_ftl.Ssd.Nand.{Release}
use nvmevirt_learned_ftl.Io.State.{IoWork, IoWorker, nil}
use nvmevirt_learned_ftl.Io.Device.{IoDevice, SubmissionQueue}
use nvmevirt_learned_ftl.Io.Queue.{insert_req_sorted}
use nvmevirt_learned_ftl.Io.Queue.Order.{place}
use nvmevirt_learned_ftl.Io.Queue.Splice.{bare}
use nvmevirt_learned_ftl.Io.Queue.Find.{due}
use nvmevirt_learned_ftl.Io.Queue.Enter.{
  InOrder, allocate_entry-more, allocate_entry-last, insert_req_sorted-InOrder,
}
use nvmevirt_learned_ftl.Io.Enqueue.{
  Result, get_io_worker, allocate_work_queue_entry, enter, io_work, internal_work, enqueue_io_req,
  schedule_internal_operation,
}

-- What a step on worker `id` leaves alone
pub record OtherWorkers (d d' : IoDevice) (id : ℕ) : Type 0 where
  pub others : (j : ℕ) → id ≢ j → d'.io_workers j ≡ d.io_workers j
  pub same_count : d'.nr_io_workers ≡ d.nr_io_workers
  pub same_sqes : d'.sqes ≡ d.sqes
  pub same_cqes : d'.cqes ≡ d.cqes
  pub same_buffers : d'.buffers ≡ d.buffers

-- The entry `e` of worker `id` has become `work`, put where it is due; the free list has lost it.
pub record Placed (d d' : IoDevice) (id e : ℕ) (waiting free : List ℕ) (work : IoWork)
    : Type 0 where
  pub order : InOrder (d'.io_workers id) (place (due (d'.io_workers id)) e waiting) free
  pub entry : bare ((d'.io_workers id).work_queue e) ≡ bare work
  pub other_entries :
      (i : ℕ)
      → e ≢ i
      → bare ((d'.io_workers id).work_queue i) ≡ bare ((d.io_workers id).work_queue i)
  pub other_workers : OtherWorkers d d' id

module _ (d : IoDevice) (sqid : ℕ) where
  allocated : ℕ → IoDevice
  allocated y =
      let turn = get_io_worker d sqid in
      let next = u32 (turn + 1) in
      record d {
        io_workers = update d.io_workers turn (record (d.io_workers turn) { free_seq = y });
        io_worker_turn = if next == d.nr_io_workers then 0 else next;
      }

  allocate-more :
      {e y : ℕ} {waiting free : List ℕ}
      → InOrder (d.io_workers (get_io_worker d sqid)) waiting (e ∷ y ∷ free)
      → allocate_work_queue_entry d sqid ≡ some (some (get_io_worker d sqid, e, allocated y))
  unfolding allocate_work_queue_entry allocated
  allocate-more h = rw (allocate_entry-more h.parts)

  allocate-last :
      {e : ℕ} {waiting : List ℕ}
      → InOrder (d.io_workers (get_io_worker d sqid)) waiting (e ∷ [])
      → allocate_work_queue_entry d sqid ≡ some none
  unfolding allocate_work_queue_entry
  allocate-last h = rw (allocate_entry-last h.parts)

  old_entry :
      (y e : ℕ)
      → ((allocated y).io_workers (get_io_worker d sqid)).work_queue e
        ≡ (d.io_workers (get_io_worker d sqid)).work_queue e
  unfolding allocated
  old_entry y e = ap (λ (w : IoWorker). w.work_queue e) (update_self d.io_workers _ _)

  enter-Placed :
      {e y : ℕ} {waiting free : List ℕ} (work : IoWork)
      → InOrder (d.io_workers (get_io_worker d sqid)) waiting (e ∷ y ∷ free)
      → work.next ≡ nil
      → work.prev ≡ nil
      → (d' : IoDevice) × (enter
            (record (allocated y) { ticks = suc d.ticks })
            (get_io_worker d sqid)
            e
            work
          ≡ some d')
        × Placed d d' (get_io_worker d sqid) e waiting (y ∷ free) work
  unfolding enter allocated
  enter-Placed {e} {y} {waiting} {free} work h next prev =
      let turn = get_io_worker d sqid in
      let w = d.io_workers turn in
      let wa = record w { free_seq = y } in
      let (w', run, order, same) = insert_req_sorted-InOrder work h next prev in
      let self = update_self d.io_workers turn wa in
      let self' = update_self (update d.io_workers turn wa) turn w' in
      let run' =
        ap
          (λ (v : IoWorker).
            insert_req_sorted e work.nsecs_target
              (record v { work_queue = update v.work_queue e work }))
          self
        ∙ run in
      (
        record (allocated y) {
          ticks = suc d.ticks;
          io_workers = update (update d.io_workers turn wa) turn w';
        },
        rw run',
        record {
          order = subst (λ v. InOrder v (place (due v) e waiting) (y ∷ free)) (sym self') order;
          entry =
              ap (λ (v : IoWorker). bare (v.work_queue e)) self'
              ∙ same.work e
              ∙ ap bare (update_self w.work_queue e work);
          other_entries = λ i ne.
              ap (λ (v : IoWorker). bare (v.work_queue i)) self'
              ∙ same.work i
              ∙ ap bare (update_ne w.work_queue e i work ne);
          other_workers = record {
            others = λ j ne.
                update_ne (update d.io_workers turn wa) turn j w' ne
                ∙ update_ne d.io_workers turn j wa ne;
            same_count = refl;
            same_sqes = refl;
            same_cqes = refl;
            same_buffers = refl;
          };
        },
      )

-- On a device where the worker of the submission queue is in order, with the waiting entries
-- `waiting` and two free entries `e` and `y` first in its free list: `__enqueue_io_req` returns,
-- and that worker is in order after it. Its waiting entries are `waiting` with `e` put behind all
-- that are not due later (by target time, where all times that the worker's clock has passed count
-- as equal), and its free list has lost `e`; the entry holds the request, the other entries differ
-- at most in their links, and the other workers, the queues and the buffers are as they were.
pub enqueue_io_req-Placed :
    (clock : ℕ → ℕ) (d : IoDevice) (sq : SubmissionQueue) (sqid cqid sq_entry nsecs_start : ℕ)
    (ret : Result) {e y : ℕ} {waiting free : List ℕ}
    → InOrder (d.io_workers (get_io_worker d sqid)) waiting (e ∷ y ∷ free)
    → (d' : IoDevice) × (enqueue_io_req clock d sq sqid cqid sq_entry nsecs_start ret ≡ some d')
      × Placed d d' (get_io_worker d sqid) e waiting (y ∷ free) (
          io_work
            ((d.io_workers (get_io_worker d sqid)).work_queue e)
            sqid
            cqid
            sq_entry
            (sq.sq sq_entry).command_id
            nsecs_start
            (clock d.ticks)
            ret)
unfolding enqueue_io_req io_work
enqueue_io_req-Placed clock d sq sqid cqid sq_entry nsecs_start ret {e} {y} h =
    let old = (d.io_workers (get_io_worker d sqid)).work_queue e in
    let work = λ (o : IoWork).
      io_work o sqid cqid sq_entry (sq.sq sq_entry).command_id nsecs_start (clock d.ticks) ret in
    let (d', run, placed) = enter-Placed d sqid (work old) h refl refl in
    (d', rw (allocate-more d sqid h, old_entry d sqid y e) run, placed)

-- Schedule
pub schedule_internal_operation-Placed :
    (clock : ℕ → ℕ) (d : IoDevice) (r : Release) {e y : ℕ} {waiting free : List ℕ}
    → InOrder (d.io_workers (get_io_worker d r.sqid)) waiting (e ∷ y ∷ free)
    → (d' : IoDevice) × (schedule_internal_operation clock d r ≡ some d')
      × Placed d d'
          (get_io_worker d r.sqid)
          e
          waiting
          (y ∷ free)
          (internal_work ((d.io_workers (get_io_worker d r.sqid)).work_queue e) (clock d.ticks) r)
unfolding schedule_internal_operation internal_work
schedule_internal_operation-Placed clock d r {e} {y} h =
    let old = (d.io_workers (get_io_worker d r.sqid)).work_queue e in
    let (d', run, placed) =
      enter-Placed d r.sqid (internal_work old (clock d.ticks) r) h refl refl in
    (d', rw (allocate-more d r.sqid h, old_entry d r.sqid y e) run, placed)

-- On a worker in order with one free entry left, `__enqueue_io_req` and
-- `schedule_internal_operation` return with the device as it was: the request, or the release of a
-- buffer, is lost.
pub full_queue_drops :
    (clock : ℕ → ℕ) (d : IoDevice) (sq : SubmissionQueue) (cqid sq_entry nsecs_start : ℕ)
    (ret : Result) (r : Release) {e : ℕ} {waiting : List ℕ}
    → InOrder (d.io_workers (get_io_worker d r.sqid)) waiting (e ∷ [])
    → (enqueue_io_req clock d sq r.sqid cqid sq_entry nsecs_start ret ≡ some d)
      × (schedule_internal_operation clock d r ≡ some d)
unfolding enqueue_io_req schedule_internal_operation
full_queue_drops clock d sq cqid sq_entry nsecs_start ret r h =
    (rw (allocate-last d r.sqid h), rw (allocate-last d r.sqid h))
