-- ===== src/Io/Device.antt =====
-- The parts of `struct nvmev_dev` that the dispatcher and the I/O workers share (nvmev.h, nvme.h):
-- submission and completion queues, the workers, and the buffers that the workers give back to.
use nvmevirt_learned_ftl.Prelude.{ℕ, Bool, Option, List}
use nvmevirt_learned_ftl.Ssd.Nand.{BufferId}
use nvmevirt_learned_ftl.Ssd.Buffer.{Buffer}
use nvmevirt_learned_ftl.Io.State.{IoWorker}
use nvmevirt_learned_ftl.Io.Transfer.{IoCommand, Transfer}

-- `struct nvmev_sq_stat`
pub record SqStat : Type 0 where
  pub nr_dispatched : ℕ
  pub nr_dispatch : ℕ
  pub nr_in_flight : ℕ
  pub max_nr_in_flight : ℕ
  pub total_io : ℕ

-- `struct nvmev_submission_queue`; `sq` has the entries of all its pages.
pub record SubmissionQueue : Type 0 where
  pub cqid : ℕ
  pub queue_size : ℕ
  pub stat : SqStat
  pub sq : ℕ → IoCommand

-- `struct nvme_completion`
pub record Completion : Type 0 where
  pub command_id : ℕ
  pub sq_id : ℕ
  pub sq_head : ℕ
  pub status : ℕ
  pub result0 : ℕ
  pub result1 : ℕ

-- `struct nvmev_completion_queue`; `cq` has the entries of all its pages.
pub record CompletionQueue : Type 0 where
  pub irq_vector : ℕ
  pub irq_enabled : Bool
  pub interrupt_ready : Bool
  pub queue_size : ℕ
  pub phase : Bool
  pub cq_head : ℕ
  pub cq_tail : ℕ
  pub cq : ℕ → Completion

-- A copy that a worker has made: the command, and what was moved
pub record Copy : Type 0 where
  pub command : IoCommand
  pub transfer : Transfer

-- `struct nvmev_dev`. `ticks` counts the clock readings so far; `signalled` has the interrupt vectors
-- raised and `copies` the data copied, the last one first. A queue that is not there is a null pointer.
pub record IoDevice : Type 0 where
  pub nr_io_workers : ℕ
  pub io_worker_turn : ℕ
  pub io_workers : ℕ → IoWorker
  pub nr_cq : ℕ
  pub sqes : ℕ → Option SubmissionQueue
  pub cqes : ℕ → Option CompletionQueue
  pub buffers : BufferId → Buffer
  pub ticks : ℕ
  pub signalled : List ℕ
  pub copies : List Copy
