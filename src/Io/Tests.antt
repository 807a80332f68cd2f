-- ===== src/Io/Tests.antt =====
-- Concrete devices and requests for the theorems on io.c.
mod Copies
mod Waiting
mod Full
use nvmevirt_learned_ftl.Prelude.{
  ℕ, ap, ◌>>=◌, ◌⊎◌, ◌+◌, ◌-◌, ◌^◌, ◌≤◌, ◌<◌, ◌≡◌, ◌≢◌, refl, Bool, true, false, Option, some, none,
  List, [], ◌∷◌, ◌==◌, if◌then◌else◌, arith, ◌*◌, ◌%◌,
}
use nvmevirt_learned_ftl.Ssd.Nand.{BufferId, ssd_buffer, Release}
use nvmevirt_learned_ftl.Io.State.{IoWork, IoWorker, nil, nr_max_parallel_io}
use nvmevirt_learned_ftl.Io.Transfer.{IoCommand, IoOpcode}
use nvmevirt_learned_ftl.Io.Device.{IoDevice, SubmissionQueue, CompletionQueue, Completion, SqStat}
use nvmevirt_learned_ftl.Io.Queue.{init_worker}
use nvmevirt_learned_ftl.Io.Queue.Lists.{count}
use nvmevirt_learned_ftl.Io.Queue.Start.{range, init_worker-InOrder, init_worker-free}
use nvmevirt_learned_ftl.Io.Queue.Enter.{InOrder}
use nvmevirt_learned_ftl.Io.Enqueue.{Result, get_io_worker, enqueue_io_req, io_work}
use nvmevirt_learned_ftl.Io.Enqueue.Place.{Placed, enqueue_io_req-Placed}
use nvmevirt_learned_ftl.Io.Dispatch.{Handled, Layer, proc_io_sq, num_proc}
use nvmevirt_learned_ftl.Io.Dispatch.Returns.{Processed, Refused, proc_io_sq-Processed}
use nvmevirt_learned_ftl.Simple.{UnitConfig, UnitOpcode, simple_proc_nvme_io_cmd}
use nvmevirt_learned_ftl.Simple.Rounds.{simple_proc_nvme_io_cmd-returns}
use nvmevirt_learned_ftl.Io.Worker.{fill_cq_result}
use nvmevirt_learned_ftl.Io.Worker.Ring.{IsRing, Posted, fill_cq_result-Posted}

-- A read of eight sectors of the first namespace
abbrev pub read_command : IoCommand
read_command = record {
  opcode = IoOpcode.read;
  command_id = 7;
  nsid = 1;
  prp1 = 20480;
  prp2 = 0;
  slba = 3;
  length = 7;
}

abbrev no_stat : SqStat
no_stat = record {
  nr_dispatched = 0;
  nr_dispatch = 0;
  nr_in_flight = 0;
  max_nr_in_flight = 0;
  total_io = 0;
}

abbrev pub submission : SubmissionQueue
submission = record { cqid = 1; queue_size = 8; stat = no_stat; sq = λ i. read_command }

abbrev blank_completion : Completion
blank_completion = record {
  command_id = 0;
  sq_id = 0;
  sq_head = 0;
  status = 0;
  result0 = 0;
  result1 = 0;
}

-- A queue of two entries as the host sets it up
abbrev pub completions : CompletionQueue
completions = record {
  irq_vector = 1;
  irq_enabled = true;
  interrupt_ready = false;
  queue_size = 2;
  phase = true;
  cq_head = 1;
  cq_tail = 0;
  cq = λ i. if i == 0 then record blank_completion { status = 1 } else blank_completion;
}

abbrev pub device_of : (ℕ → IoWorker) → IoDevice
device_of workers = record {
  nr_io_workers = 1;
  io_worker_turn = 0;
  io_workers = workers;
  nr_cq = 1;
  sqes = λ i. if i == 1 then some submission else none;
  cqes = λ i. if i == 1 then some completions else none;
  buffers = λ b. record { size = 0; remaining = 0 };
  ticks = 0;
  signalled = [];
  copies = [];
}

abbrev pub clock : ℕ → ℕ
clock n = 100 + n

-- The simple layer with four I/O units of 4096 bytes, whose clock shows the start of the command. It
-- takes every command.
abbrev four_units : UnitConfig
four_units = record {
  nr_io_units = 4;
  io_unit_shift = 12;
  write_delay = 10;
  write_time = 100;
  write_trailing = 5;
  read_delay = 8;
  read_time = 80;
  read_trailing = 0;
}

abbrev unit_opcode : IoOpcode → UnitOpcode
unit_opcode IoOpcode.write = UnitOpcode.write
unit_opcode IoOpcode.read = UnitOpcode.read
unit_opcode _ = UnitOpcode.other

abbrev handled : IoCommand → ℕ × (ℕ → ℕ) → Handled (ℕ → ℕ)
handled cmd r = record {
  taken = true;
  ret = record { status = 0; nsecs_target = r.0 };
  cmd = cmd;
  releases = [];
  layer = r.1;
}

abbrev units_layer : Layer (ℕ → ℕ)
units_layer s nsid sqid start cmd =
    simple_proc_nvme_io_cmd 9 four_units s (unit_opcode cmd.opcode) cmd.slba cmd.length start start
    >>= λ r. some (handled cmd r)

-- The commands of the first namespace
abbrev OfFirst : IoCommand → Type 0
OfFirst cmd = cmd.nsid ≡ 1

abbrev AnyTimes : (ℕ → ℕ) → Type 0
AnyTimes s = Unit {0}

units_layer_returns :
    (s : ℕ → ℕ) (nsid sqid start : ℕ) (cmd : IoCommand)
    → AnyTimes s
    → OfFirst cmd
    → (r : Handled (ℕ → ℕ)) × (units_layer s nsid sqid start cmd ≡ some r)
      × AnyTimes r.layer
      × OfFirst r.cmd
units_layer_returns s nsid sqid start cmd good ok =
    let (r, e) =
      simple_proc_nvme_io_cmd-returns 9 four_units s (unit_opcode cmd.opcode) cmd.slba cmd.length
        start start refl in
    (handled cmd r, ap (λ o. o >>= λ x. some (handled cmd x)) e, tt, ok)

-- The dispatcher takes two commands, of which the doorbell tells.
proc_io_sq-Processed_example :
    (k : ℕ) × (d : IoDevice) × (s : ℕ → ℕ) × (proc_io_sq 9 false clock units_layer
        (device_of init_worker)
        (λ i. 0)
        1
        3
        1
      ≡ some ((1 + k) % 8, d, s))
    × (k ≤ num_proc 8 3 1)
    × Processed OfFirst (device_of init_worker) d 1 8
    × AnyTimes s
    × ((k ≡ num_proc 8 3 1)
        ⊎ Refused 9 false clock units_layer AnyTimes OfFirst units_layer_returns 1 s)
proc_io_sq-Processed_example =
    proc_io_sq-Processed 9 false clock units_layer AnyTimes OfFirst units_layer_returns
      (device_of init_worker) (λ i. 0) 1 3 1 submission
      (λ id lt. ([], range 0 nr_max_parallel_io, init_worker-InOrder id)) (omega arith) refl
      (omega arith) tt (λ i. refl)

abbrev result : Result
result = record { status = 0; nsecs_target = 500 }

-- The first worker's list
free_of :
    InOrder
      ((device_of init_worker).io_workers (get_io_worker (device_of init_worker) 1))
      []
      (0 ∷ 1 ∷ range 2 (nr_max_parallel_io - 2))
unfolding get_io_worker
free_of = init_worker-free 0

enqueue_io_req-Placed_example :
    (d : IoDevice) × (enqueue_io_req clock (device_of init_worker) submission 1 1 4 100 result
      ≡ some d)
    × Placed
        (device_of init_worker)
        d
        (get_io_worker (device_of init_worker) 1)
        0
        []
        (1 ∷ range 2 (nr_max_parallel_io - 2))
        (io_work
          (((device_of init_worker).io_workers (get_io_worker (device_of init_worker) 1)).work_queue
            0)
          1
          1
          4
          7
          100
          100
          result)
enqueue_io_req-Placed_example =
    enqueue_io_req-Placed clock (device_of init_worker) submission 1 1 4 100 result free_of

completions-IsRing : IsRing completions
completions-IsRing = record {
  head_lt = omega arith;
  posted = λ i h. ground arith;
  stale = λ i h k. ground arith;
}

abbrev pub request_work : IoWork
request_work = record {
  sqid = 1;
  cqid = 1;
  sq_entry = 4;
  command_id = 7;
  nsecs_start = 90;
  nsecs_target = 95;
  nsecs_enqueue = 91;
  is_copied = false;
  is_completed = false;
  status = 2;
  result0 = 0;
  result1 = 0;
  is_internal = false;
  write_buffer = none;
  buffs_to_release = 0;
  next = nil;
  prev = nil;
}

fill_cq_result-Posted_example :
    Posted completions (fill_cq_result completions request_work) request_work
fill_cq_result-Posted_example = fill_cq_result-Posted completions request_work completions-IsRing

init_worker-InOrder_example : InOrder (init_worker 3) [] (range 0 nr_max_parallel_io)
init_worker-InOrder_example = init_worker-InOrder 3
