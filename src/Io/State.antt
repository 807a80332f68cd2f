-- ===== src/Io/State.antt =====
-- The requests that wait in an I/O worker and the state of the worker (nvmev.h). Indices into a work
-- queue are `unsigned int`, and `nil` is the -1 that ends a list of them.
use nvmevirt_learned_ftl.Prelude.{ℕ, ◌-◌, ◌^◌, Bool, Option, update}
use nvmevirt_learned_ftl.Ssd.Nand.{BufferId}

-- `NR_MAX_PARALLEL_IO`
abbrev pub nr_max_parallel_io : ℕ
nr_max_parallel_io = 16384

abbrev pub nil : ℕ
nil = 2 ^ 32 - 1

-- `struct nvmev_io_work`, less the times that only PERF_DEBUG sets. `write_buffer` is a pointer.
pub record IoWork : Type 0 where
  pub sqid : ℕ
  pub cqid : ℕ
  pub sq_entry : ℕ
  pub command_id : ℕ
  pub nsecs_start : ℕ
  pub nsecs_target : ℕ
  pub nsecs_enqueue : ℕ
  pub is_copied : Bool
  pub is_completed : Bool
  pub status : ℕ
  pub result0 : ℕ
  pub result1 : ℕ
  pub is_internal : Bool
  pub write_buffer : Option BufferId
  pub buffs_to_release : ℕ
  pub next : ℕ
  pub prev : ℕ

-- `struct nvmev_io_worker`, less its thread
pub record IoWorker : Type 0 where
  pub work_queue : ℕ → IoWork
  pub free_seq : ℕ
  pub free_seq_end : ℕ
  pub io_seq : ℕ
  pub io_seq_end : ℕ
  pub latest_nsecs : ℕ
  pub id : ℕ

-- `worker->work_queue[i].next = j`, and so on
unfoldable pub set_next : (ℕ → IoWork) → ℕ → ℕ → ℕ → IoWork
set_next q i j = update q i (record (q i) { next = j })

unfoldable pub set_prev : (ℕ → IoWork) → ℕ → ℕ → ℕ → IoWork
set_prev q i j = update q i (record (q i) { prev = j })
