-- ===== src/Io/Enqueue.antt =====
-- A request is handed to the worker of its submission queue: `__get_io_worker`,
-- `__allocate_work_queue_entry`, `__enqueue_io_req` and `schedule_internal_operation` (io.c), built
-- with CONFIG_NVMEV_IO_WORKER_BY_SQ as nvmev.h has it.
pub mod Place
use nvmevirt_learned_ftl.Prelude.{
  ℕ, zero, suc, ◌+◌, ◌%◌, ◌^◌, Bool, true, false, Option, none, some, ◌==◌, if◌then◌else◌, ◌>>=◌,
  update, u32, sub32,
}
use nvmevirt_learned_ftl.Ssd.Nand.{Release}
use nvmevirt_learned_ftl.Io.State.{IoWork, IoWorker, nil}
use nvmevirt_learned_ftl.Io.Device.{IoDevice, SubmissionQueue}
use nvmevirt_learned_ftl.Io.Queue.{allocate_entry, insert_req_sorted, reclaim}

-- `__get_io_worker`
unfoldable pub get_io_worker : IoDevice → ℕ → ℕ
get_io_worker d sqid = sub32 sqid 1 % d.nr_io_workers

-- `__allocate_work_queue_entry`: the number of the worker and the entry, or nothing where the queue
-- is almost full, which leaves all as it is
unfoldable pub allocate_work_queue_entry : IoDevice → ℕ → Option (Option (ℕ × ℕ × IoDevice))
unfolding get_io_worker
allocate_work_queue_entry d sqid =
    let turn = get_io_worker d sqid in
    let next = u32 (turn + 1) in
    allocate_entry (d.io_workers turn) >>= λ r. elim r [
      | none ↦ some none
      | some (entry, w) ↦ some (
          some (
            turn,
            entry,
            record d {
              io_workers = update d.io_workers turn w;
              io_worker_turn = if next == d.nr_io_workers then 0 else next;
            },
          ))
    ]

-- Writes an entry of a worker and puts it in the waiting list.
unfoldable pub enter : IoDevice → ℕ → ℕ → IoWork → Option IoDevice
enter d turn entry work =
    let w = d.io_workers turn in
    insert_req_sorted entry work.nsecs_target
      (record w { work_queue = update w.work_queue entry work })
    >>= λ w'. some (record d { io_workers = update d.io_workers turn w' })

-- `struct nvmev_result`
pub record Result : Type 0 where
  pub status : ℕ
  pub nsecs_target : ℕ

-- The fields that `__enqueue_io_req` sets; the others keep what the entry had.
unfoldable pub io_work :
    IoWork → (sqid cqid sq_entry command_id nsecs_start now : ℕ) → Result → IoWork
io_work old sqid cqid sq_entry command_id nsecs_start now ret = record old {
  sqid = sqid;
  cqid = cqid;
  sq_entry = sq_entry;
  command_id = command_id;
  nsecs_start = nsecs_start;
  nsecs_enqueue = now;
  nsecs_target = ret.nsecs_target;
  status = ret.status;
  is_completed = false;
  is_copied = false;
  prev = nil;
  next = nil;
  is_internal = false;
}

-- The fields that `schedule_internal_operation` sets
unfoldable pub internal_work : IoWork → ℕ → Release → IoWork
internal_work old now r = record old {
  sqid = r.sqid;
  nsecs_start = now;
  nsecs_enqueue = now;
  nsecs_target = r.nsecs_target;
  is_completed = false;
  is_copied = true;
  prev = nil;
  next = nil;
  is_internal = true;
  write_buffer = some r.write_buffer;
  buffs_to_release = r.buffs_to_release;
}

-- `__enqueue_io_req`: a full work queue drops the request. `clock` is `local_clock`.
unfoldable pub enqueue_io_req :
    (ℕ → ℕ)
    → IoDevice
    → SubmissionQueue
    → (sqid cqid sq_entry nsecs_start : ℕ) → Result
    → Option IoDevice
unfolding allocate_work_queue_entry enter io_work
enqueue_io_req clock d sq sqid cqid sq_entry nsecs_start ret =
    allocate_work_queue_entry d sqid >>= λ r. elim r [
      | none ↦ some d
      | some (turn, entry, d1) ↦
          let old = (d1.io_workers turn).work_queue entry in
          let command_id = (sq.sq sq_entry).command_id in
          let work = io_work old sqid cqid sq_entry command_id nsecs_start (clock d.ticks) ret in
          enter (record d1 { ticks = suc d.ticks }) turn entry work
    ]

-- `schedule_internal_operation`
unfoldable pub schedule_internal_operation : (ℕ → ℕ) → IoDevice → Release → Option IoDevice
unfolding allocate_work_queue_entry enter internal_work
schedule_internal_operation clock d rel = allocate_work_queue_entry d rel.sqid >>= λ r. elim r [
  | none ↦ some d
  | some (turn, entry, d1) ↦
      let work = internal_work ((d1.io_workers turn).work_queue entry) (clock d.ticks) rel in
      enter (record d1 { ticks = suc d.ticks }) turn entry work
]

-- The loop of `__reclaim_completed_reqs` over the workers, with `n` rounds left
unfoldable pub reclaim_workers : ℕ → ℕ → IoDevice → Option IoDevice
reclaim_workers zero turn d = some d
reclaim_workers (suc n) turn d = reclaim (d.io_workers turn) >>= λ w.
    reclaim_workers n (turn + 1) (record d { io_workers = update d.io_workers turn w })

-- `__reclaim_completed_reqs`
unfoldable pub reclaim_completed_reqs : IoDevice → Option IoDevice
unfolding reclaim_workers
reclaim_completed_reqs d = reclaim_workers d.nr_io_workers 0 d
