-- ===== src/Io/Dispatch/Kept.antt =====
-- `nvmev_proc_io_sq` over a layer that returns: its steps return and keep the workers in order.
use nvmevirt_learned_ftl.Prelude.{
  ℕ, zero, suc, ◌+◌, ◌≤◌, ◌<◌, ◌≡◌, refl, sym, subst, ◌∙◌, some, Option, List, ◌∷◌, [], arith,
  update, update_self, update_ne, eq-cases, inl, inr,
}
use nvmevirt_learned_ftl.Ssd.Nand.{Release, ssd_buffer}
use nvmevirt_learned_ftl.Io.State.{IoWorker}
use nvmevirt_learned_ftl.Io.Transfer.{IoOpcode}
use nvmevirt_learned_ftl.Io.Device.{IoDevice, SubmissionQueue}
use nvmevirt_learned_ftl.Io.Queue.Enter.{InOrder}
use nvmevirt_learned_ftl.Io.Queue.Reclaim.{reclaim-InOrder}
use nvmevirt_learned_ftl.Io.Enqueue.{
  Result, get_io_worker, enqueue_io_req, schedule_internal_operation, reclaim_workers,
  reclaim_completed_reqs,
}
use nvmevirt_learned_ftl.Io.Dispatch.{schedule_all}
use nvmevirt_learned_ftl.Io.Enqueue.Place.{
  OtherWorkers, enqueue_io_req-Placed, schedule_internal_operation-Placed, full_queue_drops,
}

abbrev no_queue : SubmissionQueue
no_queue = record {
  cqid = 0;
  queue_size = 0;
  stat = record {
    nr_dispatched = 0;
    nr_dispatch = 0;
    nr_in_flight = 0;
    max_nr_in_flight = 0;
    total_io = 0;
  };
  sq = λ i. record {
    opcode = IoOpcode.other;
    command_id = 0;
    nsid = 0;
    prp1 = 0;
    prp2 = 0;
    slba = 0;
    length = 0;
  };
}

-- Each worker is in order.
abbrev pub Ordered : IoDevice → Type 0
Ordered d =
    (id : ℕ)
    → id < d.nr_io_workers
    → (waiting : List ℕ) × (free : List ℕ) × InOrder (d.io_workers id) waiting free

-- A step of the dispatcher: the workers stay in order, and all but them, the turn and the clock
-- stays.
pub record Keeps (d d' : IoDevice) : Type 0 where
  pub ordered : Ordered d'
  pub same_count : d'.nr_io_workers ≡ d.nr_io_workers
  pub same_sqes : d'.sqes ≡ d.sqes
  pub same_cqes : d'.cqes ≡ d.cqes
  pub same_buffers : d'.buffers ≡ d.buffers

pub Keeps-refl : {d : IoDevice} → Ordered d → Keeps d d
Keeps-refl o = record {
  ordered = o;
  same_count = refl;
  same_sqes = refl;
  same_cqes = refl;
  same_buffers = refl;
}

pub Keeps-trans : {d d' d'' : IoDevice} → Keeps d d' → Keeps d' d'' → Keeps d d''
Keeps-trans k l = record {
  ordered = l.ordered;
  same_count = l.same_count ∙ k.same_count;
  same_sqes = l.same_sqes ∙ k.same_sqes;
  same_cqes = l.same_cqes ∙ k.same_cqes;
  same_buffers = l.same_buffers ∙ k.same_buffers;
}

-- A step on one worker that leaves it in order
Ordered-step :
    {d d' : IoDevice} (turn : ℕ) {waiting free : List ℕ}
    → Ordered d
    → InOrder (d'.io_workers turn) waiting free
    → OtherWorkers d d' turn
    → Keeps d d'
Ordered-step {d} {d'} turn {waiting} {free} o here rest = record {
  ordered = λ id lt. elim (eq-cases turn id) [
    | inl e ↦ (waiting, free, subst (λ j. InOrder (d'.io_workers j) waiting free) e here)
    | inr ne ↦
        let (ws, fs, h) = o id (subst (λ n. id < n) rest.same_count lt) in
        (ws, fs, subst (λ w. InOrder w ws fs) (sym (rest.others id ne)) h)
  ];
  same_count = rest.same_count;
  same_sqes = rest.same_sqes;
  same_cqes = rest.same_cqes;
  same_buffers = rest.same_buffers;
}

-- A step that returns and keeps the workers in order
abbrev pub Steps : IoDevice → Option IoDevice → Type 0
Steps d r = (d' : IoDevice) × (r ≡ some d') × Keeps d d'

module _ (clock : ℕ → ℕ) (d : IoDevice) (o : Ordered d) (some_workers : 0 < d.nr_io_workers) where
  turn_lt : (sqid : ℕ) → get_io_worker d sqid < d.nr_io_workers
  unfolding get_io_worker
  turn_lt sqid = grind arith

  enqueue_at :
      (sq : SubmissionQueue) (r : Release) (cqid sq_entry nsecs_start : ℕ) (ret : Result)
      (waiting free : List ℕ)
      → InOrder (d.io_workers (get_io_worker d r.sqid)) waiting free
      → Steps d (enqueue_io_req clock d sq r.sqid cqid sq_entry nsecs_start ret)
        × Steps d (schedule_internal_operation clock d r)
  enqueue_at sq r cqid sq_entry nsecs_start ret waiting [] h =
      let more = h.parts.some_free in absurd (omega arith)
  enqueue_at sq r cqid sq_entry nsecs_start ret waiting (e ∷ []) h =
      let (a, b) = full_queue_drops clock d sq cqid sq_entry nsecs_start ret r h in
      ((d, a, Keeps-refl o), (d, b, Keeps-refl o))
  enqueue_at sq r cqid sq_entry nsecs_start ret waiting (e ∷ y ∷ free) h =
      let turn = get_io_worker d r.sqid in
      let (d1, run, p) = enqueue_io_req-Placed clock d sq r.sqid cqid sq_entry nsecs_start ret h in
      let (d2, run', p') = schedule_internal_operation-Placed clock d r h in
      (
        (d1, run, Ordered-step turn o p.order p.other_workers),
        (d2, run', Ordered-step turn o p'.order p'.other_workers),
      )

  pub enqueue-Steps :
      (sq : SubmissionQueue) (sqid cqid sq_entry nsecs_start : ℕ) (ret : Result)
      → Steps d (enqueue_io_req clock d sq sqid cqid sq_entry nsecs_start ret)
  enqueue-Steps sq sqid cqid sq_entry nsecs_start ret =
      let r : Release = record {
        sqid = sqid;
        write_buffer = ssd_buffer;
        nsecs_target = 0;
        buffs_to_release = 0;
      } in
      let (waiting, free, h) = o (get_io_worker d sqid) (turn_lt sqid) in
      (enqueue_at sq r cqid sq_entry nsecs_start ret waiting free h).0

  schedule-Steps : (r : Release) → Steps d (schedule_internal_operation clock d r)
  schedule-Steps r =
      let (waiting, free, h) = o (get_io_worker d r.sqid) (turn_lt r.sqid) in
      (enqueue_at no_queue r 0 0 0 (record { status = 0; nsecs_target = 0 }) waiting free h).1

reclaim-Keeps :
    {d : IoDevice} (turn : ℕ) {w : IoWorker} {waiting free : List ℕ}
    → Ordered d
    → InOrder w waiting free
    → Keeps d (record d { io_workers = update d.io_workers turn w })
reclaim-Keeps {d} turn {w} {waiting} {free} o h =
    Ordered-step turn o
      (subst (λ v. InOrder v waiting free) (sym (update_self d.io_workers turn w)) h)
      (record {
        others = λ j ne. update_ne d.io_workers turn j w ne;
        same_count = refl;
        same_sqes = refl;
        same_cqes = refl;
        same_buffers = refl;
      })

reclaim_workers-Steps :
    (n turn : ℕ) (d : IoDevice)
    → Ordered d
    → turn + n ≤ d.nr_io_workers
    → Steps d (reclaim_workers n turn d)
unfolding reclaim_workers
reclaim_workers-Steps zero turn d o le = (d, refl, Keeps-refl o)
reclaim_workers-Steps (suc n) turn d o le =
    let (waiting, free, h) = o turn (omega arith) in
    let (w, run, h', _) = reclaim-InOrder h in
    let d1 = record d { io_workers = update d.io_workers turn w } in
    let k : Keeps d d1 = reclaim-Keeps turn o h' in
    let (d', run', k') = reclaim_workers-Steps n (turn + 1) d1 k.ordered (omega arith) in
    (d', rw run run', Keeps-trans k k')

pub reclaim_completed_reqs-Steps : (d : IoDevice) → Ordered d → Steps d (reclaim_completed_reqs d)
unfolding reclaim_completed_reqs
reclaim_completed_reqs-Steps d o = reclaim_workers-Steps d.nr_io_workers 0 d o (omega arith)

pub schedule_all-Steps :
    (clock : ℕ → ℕ) (rs : List Release) (d : IoDevice)
    → Ordered d
    → 0 < d.nr_io_workers
    → Steps d (schedule_all clock rs d)
unfolding schedule_all
schedule_all-Steps clock [] d o some_workers = (d, refl, Keeps-refl o)
schedule_all-Steps clock (r ∷ rs) d o some_workers =
    let (d1, run, k) = schedule-Steps clock d o some_workers r in
    let (d2, run', k') =
      schedule_all-Steps clock rs d1 k.ordered
        (subst (λ n. 0 < n) (sym k.same_count) some_workers) in
    (d2, rw run run', Keeps-trans k k')
