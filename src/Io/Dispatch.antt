-- ===== src/Io/Dispatch.antt =====
-- The dispatcher's side of io.c: `__nvmev_proc_io`, `nvmev_proc_io_sq`, `nvmev_proc_io_cq` and
-- `NVMEV_IO_WORKER_INIT`. The layer below a namespace is the parameter `Layer`.
pub mod Kept
pub mod Returns
use nvmevirt_learned_ftl.Prelude.{
  ℕ, zero, suc, ◌+◌, ◌-◌, ◌%◌, ◌^◌, Bool, true, false, Option, none, some, List, [], ◌∷◌, ltb, leb,
  ◌==◌, if◌then◌else◌, ◌>>=◌, ◌>>◌, ensure, update, add32, sub32, add64,
}
use nvmevirt_learned_ftl.Ssd.Nand.{Release}
use nvmevirt_learned_ftl.Io.State.{IoWorker, nil}
use nvmevirt_learned_ftl.Io.Transfer.{IoCommand, cmd_io_size}
use nvmevirt_learned_ftl.Io.Device.{IoDevice, SubmissionQueue, SqStat, CompletionQueue}
use nvmevirt_learned_ftl.Io.Queue.{init_worker}
use nvmevirt_learned_ftl.Io.Enqueue.{
  Result, enqueue_io_req, schedule_internal_operation, reclaim_completed_reqs,
}

-- What `proc_io_cmd` of a namespace leaves: whether it took the command, its result, the command,
-- which it may change in place, the releases that it scheduled, the first one first, and its state.
pub record Handled (S : Type 0) : Type 0 where
  pub taken : Bool
  pub ret : Result
  pub cmd : IoCommand
  pub releases : List Release
  pub layer : S

-- `ns->proc_io_cmd`, by the index of the namespace; `none` is a fault. It takes the id of the
-- submission queue, the start time and the command.
abbrev pub Layer : Type 0 → Type 0
Layer S = S → (nsid sqid nsecs_start : ℕ) → IoCommand → Option (Handled S)

-- The calls of `schedule_internal_operation`, in order
unfoldable pub schedule_all : (ℕ → ℕ) → List Release → IoDevice → Option IoDevice
schedule_all clock [] d = some d
schedule_all clock (r ∷ rs) d =
    schedule_internal_operation clock d r >>= λ d1. schedule_all clock rs d1

unfoldable pub set_entry : SubmissionQueue → ℕ → IoCommand → SubmissionQueue
set_entry sq i cmd = record sq { sq = update sq.sq i cmd }

-- The counters after a command is dispatched
unfoldable pub dispatched : SqStat → ℕ → SqStat
dispatched st io_size = record st {
  nr_dispatched = add32 st.nr_dispatched 1;
  nr_in_flight = add32 st.nr_in_flight 1;
  total_io = add64 st.total_io io_size;
}

unfoldable pub set_stat : IoDevice → ℕ → (SqStat → SqStat) → Option IoDevice
set_stat d sqid f = d.sqes sqid >>= λ sq.
    some (record d { sqes = update d.sqes sqid (some (record sq { stat = f sq.stat })) })

-- `max_t(int, a, b)` on two 32-bit words
unfoldable pub max_int : ℕ → ℕ → ℕ
max_int a b = if ltb (add32 a (2 ^ 31)) (add32 b (2 ^ 31)) then b else a

unfoldable pub note_dispatch : SqStat → SqStat
unfolding max_int
note_dispatch st = record st {
  nr_dispatch = add32 st.nr_dispatch 1;
  max_nr_in_flight = max_int st.max_nr_in_flight st.nr_in_flight;
}

-- The number of commands between the two doorbells; a negative one makes no round.
unfoldable pub num_proc : (queue_size new_db old_db : ℕ) → ℕ
num_proc queue_size new_db old_db =
    if ltb new_db old_db then new_db + queue_size - old_db else new_db - old_db

module _ {S : Type 0} (lba_bits : ℕ) (kv_prototype : Bool) (clock : ℕ → ℕ) (layer : Layer S) where
  -- The rest of `__nvmev_proc_io` once the layer has run
  unfoldable pub enqueue_taken :
      IoDevice
      → SubmissionQueue
      → (sqid sq_entry nsecs_start : ℕ) → Handled S
      → Option (Option ℕ × IoDevice × S)
  enqueue_taken d sq sqid sq_entry nsecs_start r =
      if r.taken
      then (enqueue_io_req clock d sq sqid sq.cqid sq_entry nsecs_start r.ret >>= λ d2.
          reclaim_completed_reqs d2 >>= λ d3. some (some (cmd_io_size lba_bits r.cmd), d3, r.layer))
      else some (none, d, r.layer)

  -- `__nvmev_proc_io`: the size of the command, or nothing where the layer does not take it
  unfoldable pub proc_io : IoDevice → S → (sqid sq_entry : ℕ) → Option (Option ℕ × IoDevice × S)
  unfolding schedule_all set_entry enqueue_taken
  proc_io d s sqid sq_entry = d.sqes sqid >>= λ sq.
      (let cmd = sq.sq sq_entry in
        let nsid = if kv_prototype then 0 else sub32 cmd.nsid 1 in
        let nsecs_start = clock d.ticks in
        layer s nsid sqid nsecs_start cmd >>= λ r.
        (let sq1 = set_entry sq sq_entry r.cmd in
          let d0 = record d { ticks = suc d.ticks; sqes = update d.sqes sqid (some sq1) } in
          schedule_all clock r.releases d0 >>= λ d1.
          enqueue_taken d1 sq1 sqid sq_entry nsecs_start r))

  -- The loop of `nvmev_proc_io_sq`, with `n` commands to go and `seq` done
  unfoldable pub proc_entries :
      ℕ → IoDevice → S → (sqid queue_size sq_entry seq : ℕ) → Option (ℕ × IoDevice × S)
  unfolding proc_io dispatched set_stat
  proc_entries zero d s sqid queue_size sq_entry seq = some (seq, d, s)
  proc_entries (suc n) d s sqid queue_size sq_entry seq =
      proc_io d s sqid sq_entry >>= λ (r, d1, s1). elim r [
        | none ↦ some (seq, d1, s1)
        | some io_size ↦ set_stat d1 sqid (λ st. dispatched st io_size) >>= λ d2.
            let next = if sq_entry + 1 == queue_size then 0 else sq_entry + 1 in
            proc_entries n d2 s1 sqid queue_size next (seq + 1)
      ]

  -- `nvmev_proc_io_sq`: the doorbell up to which commands are taken, a remainder by the size of the
  -- queue
  unfoldable pub proc_io_sq : IoDevice → S → (sqid new_db old_db : ℕ) → Option (ℕ × IoDevice × S)
  unfolding proc_entries note_dispatch num_proc
  proc_io_sq d s sqid new_db old_db = elim (d.sqes sqid) [
    | none ↦ some (old_db, d, s)
    | some sq ↦
        proc_entries (num_proc sq.queue_size new_db old_db) d s sqid sq.queue_size old_db 0
        >>= λ (seq, d1, s1). set_stat d1 sqid note_dispatch >>= λ d2.
            ensure (ltb 0 sq.queue_size) >> some ((old_db + seq) % sq.queue_size, d2, s1)
  ]

-- One entry of a completion queue that the host has read
unfoldable pub done_entry : IoDevice → ℕ → IoDevice
done_entry d sqid = elim (d.sqes sqid) [
  | none ↦ d
  | some sq ↦
      let stat = record sq.stat { nr_in_flight = sub32 sq.stat.nr_in_flight 1 } in
      record d { sqes = update d.sqes sqid (some (record sq { stat = stat })) }
]

-- The loop of `nvmev_proc_io_cq`, whose `i` is an `int` that goes from the end of the queue to 0 by
-- way of -1; `none` is a loop that goes on past the rounds given.
unfoldable pub done_entries : ℕ → IoDevice → CompletionQueue → (i new_db : ℕ) → Option IoDevice
unfolding done_entry
done_entries zero d cq i new_db = if i == new_db then some d else none
done_entries (suc n) d cq i new_db =
    let wrap = leb cq.queue_size i in
    let d1 = if wrap then d else done_entry d (cq.cq i).sq_id in
    let rest = done_entries n d1 cq (if wrap then 0 else i + 1) new_db in
    if i == new_db then some d else rest

-- `nvmev_proc_io_cq`. Two rounds for each entry and one for each wrap are enough.
unfoldable pub proc_io_cq : IoDevice → (cqid new_db old_db : ℕ) → Option IoDevice
unfolding done_entries
proc_io_cq d cqid new_db old_db = d.cqes cqid >>= λ cq.
    done_entries (cq.queue_size + cq.queue_size + 2) d cq old_db new_db >>= λ d1.
    let tail = if new_db == nil then sub32 cq.queue_size 1 else sub32 new_db 1 in
    d1.cqes cqid >>= λ cq1.
    some (record d1 { cqes = update d1.cqes cqid (some (record cq1 { cq_tail = tail })) })

-- `NVMEV_IO_WORKER_INIT`, less the threads
unfoldable pub io_worker_init : IoDevice → IoDevice
io_worker_init d = record d { io_workers = init_worker; io_worker_turn = 0 }
