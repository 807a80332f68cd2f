-- ===== src/Io/Queue.antt =====
-- The ordered list of waiting requests and the list of free entries, both linked by indices in
-- `work_queue`: `__insert_req_sorted`, `__allocate_work_queue_entry`, `__reclaim_completed_reqs` and
-- the start of a worker. Each function runs as one step: what the other thread writes to the worker
-- meanwhile (`is_completed`, `is_copied`, `latest_nsecs`) is taken as it stands at the start.
pub mod Lists
pub mod Links
pub mod Order
pub mod Parts
pub mod Splice
pub mod Find
pub mod Linked
pub mod Insert
pub mod Enter
pub mod Cut
pub mod Rest
pub mod Reclaim
pub mod Start
use nvmevirt_learned_ftl.Prelude.{
  ℕ, zero, suc, ◌+◌, ◌-◌, ◌%◌, Bool, true, false, ◌&&◌, Option, none, some, ltb, leb, ◌==◌,
  if◌then◌else◌, ◌>>=◌, ◌>>◌, ensure, update, sub32,
}
use nvmevirt_learned_ftl.Io.State.{IoWork, IoWorker, nil, nr_max_parallel_io, set_next, set_prev}

-- The two tests that end the search of `__insert_req_sorted` at an entry
unfoldable pub stops : IoWorker → ℕ → ℕ → Bool
stops w nsecs_target curr =
    let t = (w.work_queue curr).nsecs_target in
    if leb t w.latest_nsecs then true else leb t nsecs_target

-- The search from the end for the entry to insert after, or `nil`. Each round goes to another entry,
-- so the count of entries and one more is enough.
unfoldable pub find_place : ℕ → IoWorker → ℕ → ℕ → Option ℕ
unfolding stops
find_place zero w nsecs_target curr = none
find_place (suc n) w nsecs_target curr =
    let rest = find_place n w nsecs_target (w.work_queue curr).prev in
    if curr == nil then some nil else if stops w nsecs_target curr then some curr else rest

-- The three cases of the insertion after `curr`
unfoldable pub link_head : ℕ → IoWorker → IoWorker
link_head entry w = record w {
  work_queue = set_next (set_prev w.work_queue w.io_seq entry) entry w.io_seq;
  io_seq = entry;
}

unfoldable pub link_tail : ℕ → ℕ → IoWorker → IoWorker
link_tail entry curr w = record w {
  work_queue = set_next (set_prev w.work_queue entry curr) curr entry;
  io_seq_end = entry;
}

unfoldable pub link_between : ℕ → ℕ → IoWorker → IoWorker
link_between entry curr w =
    let next = (w.work_queue curr).next in
    let q = set_next (set_prev w.work_queue entry curr) entry next in
    record w { work_queue = set_next (set_prev q next entry) curr entry }

unfoldable pub link_after : ℕ → ℕ → IoWorker → IoWorker
unfolding link_head link_tail link_between
link_after entry curr w =
    if curr == nil
    then link_head entry w
    else if (w.work_queue curr).next == nil
    then link_tail entry curr w
    else link_between entry curr w

-- `__insert_req_sorted`
unfoldable pub insert_req_sorted : ℕ → ℕ → IoWorker → Option IoWorker
unfolding find_place link_after
insert_req_sorted entry nsecs_target w =
    if w.io_seq == nil
    then some (record w { io_seq = entry; io_seq_end = entry })
    else find_place (suc nr_max_parallel_io) w nsecs_target w.io_seq_end >>= λ curr.
        some (link_after entry curr w)

-- The part of `__allocate_work_queue_entry` on its worker: the entry, or nothing where the list of
-- free entries has one left. `none` is the failed `BUG_ON`.
unfoldable pub allocate_entry : IoWorker → Option (Option (ℕ × IoWorker))
allocate_entry w =
    let e = w.free_seq in
    let next = (w.work_queue e).next in
    if leb nr_max_parallel_io next
    then some none
    else ensure (ltb next nr_max_parallel_io) >> some (some (e, record w { free_seq = next }))

-- The test of `__reclaim_completed_reqs` on an entry
unfoldable pub reclaimable : IoWorker → ℕ → Bool
reclaimable w curr =
    let e = w.work_queue curr in
    e.is_completed && (e.is_copied && leb e.nsecs_target w.latest_nsecs)

-- The loop of `__reclaim_completed_reqs`: the last entry from `curr` on to give back
unfoldable pub find_last : ℕ → IoWorker → ℕ → ℕ → Option ℕ
unfolding reclaimable
find_last zero w curr last_entry = none
find_last (suc n) w curr last_entry =
    let rest = find_last n w (w.work_queue curr).next curr in
    if curr == nil then some last_entry else if reclaimable w curr then rest else some last_entry

-- The entries up to `last_entry` leave the waiting list and go to the end of the free list.
unfoldable pub splice : ℕ → IoWorker → IoWorker
splice last_entry w =
    let first_entry = w.io_seq in
    let next = (w.work_queue last_entry).next in
    let q0 = if next == nil then w.work_queue else set_prev w.work_queue next nil in
    let q1 = set_prev (set_next q0 last_entry nil) first_entry w.free_seq_end in
    record w {
      work_queue = set_next q1 w.free_seq_end first_entry;
      io_seq = next;
      free_seq_end = last_entry;
    }

-- `__reclaim_completed_reqs` for one worker
unfoldable pub reclaim : IoWorker → Option IoWorker
unfolding find_last splice
reclaim w = find_last (suc nr_max_parallel_io) w w.io_seq nil >>= λ last_entry.
    some (if last_entry == nil then w else splice last_entry w)

-- A zeroed entry, as `kzalloc` leaves it
abbrev blank_work : IoWork
blank_work = record {
  sqid = 0;
  cqid = 0;
  sq_entry = 0;
  command_id = 0;
  nsecs_start = 0;
  nsecs_target = 0;
  nsecs_enqueue = 0;
  is_copied = false;
  is_completed = false;
  status = 0;
  result0 = 0;
  result1 = 0;
  is_internal = false;
  write_buffer = none;
  buffs_to_release = 0;
  next = 0;
  prev = 0;
}

-- The part of `NVMEV_IO_WORKER_INIT` on one worker; the loop over the entries is written by index.
unfoldable pub init_worker : ℕ → IoWorker
init_worker id = record {
  work_queue = λ i. record blank_work {
    next = if i == nr_max_parallel_io - 1 then nil else i + 1;
    prev = sub32 i 1;
  };
  free_seq = 0;
  free_seq_end = nr_max_parallel_io - 1;
  io_seq = nil;
  io_seq_end = nil;
  latest_nsecs = 0;
  id = id;
}
