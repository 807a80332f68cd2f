-- ===== src/Io/Worker.antt =====
-- The I/O worker: `__fill_cq_result` and the body of the outer loop of `nvmev_io_worker` (io.c). The
-- worker's sleep when it is idle has no state to model.
pub mod Ring
pub mod Visit
pub mod Effect
pub mod Outcome
pub mod Pass
pub mod Round
use nvmevirt_learned_ftl.Prelude.{
  ℕ, zero, suc, ◌+◌, ◌*◌, ◌%◌, ◌^◌, Bool, true, false, not, ◌&&◌, Option, none, some, List, ◌∷◌,
  ltb, leb, ◌==◌, if◌then◌else◌, ◌>>=◌, update, add64, sub64,
}
use nvmevirt_learned_ftl.Ssd.Nand.{BufferId, ssd_buffer, zone_buffer, zrwa_buffer}
use nvmevirt_learned_ftl.Ssd.Buffer.{Buffer, release}
use nvmevirt_learned_ftl.Io.State.{IoWork, IoWorker, nil, nr_max_parallel_io}
use nvmevirt_learned_ftl.Io.Device.{IoDevice, CompletionQueue, Completion}
use nvmevirt_learned_ftl.Io.Transfer.{
  Host, Transfer, IoCommand, do_perform_io, do_perform_io_using_dma,
}
use nvmevirt_learned_ftl.Io.Enqueue.{get_io_worker}

-- `__fill_cq_result` on its queue; the fields of an entry have 16 bits but for the results.
unfoldable pub completion : CompletionQueue → IoWork → Completion
completion cq w = record {
  command_id = w.command_id % 2 ^ 16;
  sq_id = w.sqid % 2 ^ 16;
  sq_head = w.sq_entry % 2 ^ 16;
  status = ((if cq.phase then 1 else 0) + 2 * w.status) % 2 ^ 16;
  result0 = w.result0;
  result1 = w.result1;
}

unfoldable pub fill_cq_result : CompletionQueue → IoWork → CompletionQueue
unfolding completion
fill_cq_result cq w =
    let head = cq.cq_head + 1 in
    let wraps = head == cq.queue_size in
    record cq {
      cq = update cq.cq cq.cq_head (completion cq w);
      cq_head = if wraps then 0 else head;
      phase = if wraps then not cq.phase else cq.phase;
      interrupt_ready = true;
    }

-- Whether two pointers name the same buffer
unfoldable pub same_buffer : BufferId → BufferId → Bool
same_buffer ssd_buffer ssd_buffer = true
same_buffer (zone_buffer i) (zone_buffer j) = i == j
same_buffer (zrwa_buffer i) (zrwa_buffer j) = i == j
same_buffer _ _ = false

-- `buffer_release` on a buffer
unfoldable pub release_to : IoDevice → ℕ → BufferId → IoDevice
unfolding same_buffer
release_to d n b = record d {
  buffers = λ c. if same_buffer b c then release (d.buffers c) n else d.buffers c;
}

-- The release of an internal request; `none` is a null pointer.
unfoldable pub release_buffer : IoDevice → IoWork → Option IoDevice
unfolding release_to
release_buffer d w = w.write_buffer >>= λ b. some (release_to d w.buffs_to_release b)

-- The completion of a request whose time has come
unfoldable pub complete : IoDevice → IoWork → Option IoDevice
unfolding fill_cq_result release_buffer
complete d w =
    if w.is_internal
    then release_buffer d w
    else d.cqes w.cqid >>= λ cq.
        some (record d { cqes = update d.cqes w.cqid (some (fill_cq_result cq w)) })

-- Writes back an entry of worker `id`, with the time that the worker has seen last.
unfoldable pub set_work : IoDevice → (id curr now : ℕ) → IoWork → IoDevice
set_work d id curr now work =
    let w = d.io_workers id in
    record d {
      io_workers =
          update d.io_workers id
            (record w { latest_nsecs = now; work_queue = update w.work_queue curr work });
    }

unfoldable pub note_copy : IoDevice → IoCommand → Transfer → IoDevice
note_copy d cmd t = record d { copies = record { command = cmd; transfer = t } ∷ d.copies }

module _ (lba_bits : ℕ) (io_using_dma : Bool) (host : Host) where
  -- The copy of a request's data. An internal request has none.
  unfoldable pub copy_data : IoDevice → IoWork → Option IoDevice
  unfolding do_perform_io do_perform_io_using_dma note_copy
  copy_data d w =
      if w.is_copied
      then some d
      else if w.is_internal
      then some d
      else d.sqes w.sqid >>= λ sq.
          (let cmd = sq.sq w.sq_entry in
            let copy =
              if io_using_dma
              then do_perform_io_using_dma lba_bits host cmd
              else do_perform_io lba_bits host cmd in
            copy >>= λ t. some (note_copy d cmd t))

  -- The completion of a request whose data is copied, if its time has come by `now`
  unfoldable pub finish : (id curr now : ℕ) → IoWork → IoDevice → Option IoDevice
  unfolding complete set_work
  finish id curr now work d =
      let work' = record work { is_copied = true } in
      if leb work.nsecs_target now
      then (complete d work' >>= λ d1.
          some (set_work d1 id curr now (record work' { is_completed = true })))
      else some (set_work d id curr now work')

  -- One round of the inner loop of `nvmev_io_worker` at the entry `curr`, at the time `now`
  unfoldable pub visit : (id curr now : ℕ) → IoDevice → Option IoDevice
  unfolding copy_data finish set_work
  visit id curr now d =
      let work = (d.io_workers id).work_queue curr in
      if work.is_completed
      then some (set_work d id curr now work)
      else (copy_data d work >>= λ d1. finish id curr now work d1)

  -- The inner loop. Each round goes to another entry, so the count of entries and one more is
  -- enough. `clock` gives the readings of `local_clock()`, to which `delta` is added.
  unfoldable pub visit_all : (ℕ → ℕ) → ℕ → (id delta curr : ℕ) → IoDevice → Option IoDevice
  unfolding visit
  visit_all clock zero id delta curr d = none
  visit_all clock (suc n) id delta curr d =
      let now = add64 (clock d.ticks) delta in
      let rest = visit id curr now (record d { ticks = suc d.ticks }) >>= λ d1.
      visit_all clock n id delta ((d1.io_workers id).work_queue curr).next d1 in
      if curr == nil then some d else rest

-- The interrupt of one completion queue, whose lock is free
unfoldable pub signal_irq : IoDevice → (id qidx : ℕ) → IoDevice
signal_irq d id qidx = if not (get_io_worker d qidx == id) then d else elim (d.cqes qidx) [
  | none ↦ d
  | some cq ↦
      if cq.irq_enabled && cq.interrupt_ready
      then record d {
        cqes = update d.cqes qidx (some (record cq { interrupt_ready = false }));
        signalled = cq.irq_vector ∷ d.signalled;
      }
      else d
]

-- The loop over the completion queues, with `n` rounds left
unfoldable pub signal_irqs : ℕ → (id qidx : ℕ) → IoDevice → IoDevice
unfolding signal_irq
signal_irqs zero id qidx d = d
signal_irqs (suc n) id qidx d = signal_irqs n id (qidx + 1) (signal_irq d id qidx)

-- One round of the outer loop. `wall` is the reading of `__get_wallclock`.
unfoldable pub io_worker_round :
    ℕ → Bool → Host → (ℕ → ℕ) → (id wall : ℕ) → IoDevice → Option IoDevice
unfolding visit_all signal_irqs
io_worker_round lba_bits io_using_dma host clock id wall d =
    let delta = sub64 wall (clock d.ticks) in
    let first = (d.io_workers id).io_seq in
    visit_all lba_bits io_using_dma host clock (suc nr_max_parallel_io) id delta first
      (record d { ticks = suc d.ticks })
    >>= λ d1. some (signal_irqs d1.nr_cq id 1 d1)
