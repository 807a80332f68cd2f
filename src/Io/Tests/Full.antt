-- ===== src/Io/Tests/Full.antt =====
-- A worker with all entries but one in the waiting list.
use nvmevirt_learned_ftl.Prelude.{
  ℕ, zero, suc, ◌+◌, ◌-◌, ◌≤◌, ◌≡◌, refl, ◌∙◌, some, List, [], ◌∷◌, ◌==◌, if◌then◌else◌, arith,
}
use nvmevirt_learned_ftl.Ssd.Nand.{Release, ssd_buffer}
use nvmevirt_learned_ftl.Io.State.{IoWorker, nil, nr_max_parallel_io}
use nvmevirt_learned_ftl.Io.Queue.Lists.{count, first, last}
use nvmevirt_learned_ftl.Io.Queue.Links.{Nexts, Prevs}
use nvmevirt_learned_ftl.Io.Queue.Order.{All, IsOrdered}
use nvmevirt_learned_ftl.Io.Queue.Start.{range, count-range}
use nvmevirt_learned_ftl.Io.Queue.Find.{due}
use nvmevirt_learned_ftl.Io.Queue.Enter.{InOrder}
use nvmevirt_learned_ftl.Io.Enqueue.{enqueue_io_req, schedule_internal_operation}
use nvmevirt_learned_ftl.Io.Enqueue.Place.{full_queue_drops}
use nvmevirt_learned_ftl.Io.Tests.{device_of, clock, submission, request_work}

-- The last entry that waits
abbrev end : ℕ
end = nr_max_parallel_io - 2

abbrev full : IoWorker
full = record {
  work_queue = λ i. record request_work {
    nsecs_target = 0;
    next = if i == end then nil else if i == end + 1 then nil else i + 1;
    prev = if i == 0 then nil else i - 1;
  };
  free_seq = nr_max_parallel_io - 1;
  free_seq_end = nr_max_parallel_io - 1;
  io_seq = 0;
  io_seq_end = end;
  latest_nsecs = 0;
  id = 0;
}

full-Nexts : (n s : ℕ) → s + n ≡ end → Nexts full.work_queue (range s (suc n)) nil
unfolding range
full-Nexts zero s e = (ground arith, tt)
full-Nexts (suc n) s e = (ground arith, full-Nexts n (s + 1) (omega arith))

full-Prevs : (n p : ℕ) → Prevs full.work_queue p (range (p + 1) n)
unfolding range
full-Prevs zero p = tt
full-Prevs (suc n) p = (ground arith, full-Prevs n (p + 1))

full_last : (n s d : ℕ) → last d (range s (suc n)) ≡ s + n
unfolding range
full_last zero s d = omega arith
full_last (suc n) s d = full_last n (s + 1) s ∙ omega arith

full-due : (x : ℕ) → due full x ≡ 0
full-due x = ground arith

All-due : (xs : List ℕ) (a : ℕ) → a ≡ 0 → All (λ y. a ≤ due full y) xs
All-due [] a e = tt
All-due (x ∷ xs) a e = (omega arith, All-due xs a e)

full_order : (xs : List ℕ) → IsOrdered (due full) xs
full_order [] = tt
full_order (x ∷ xs) = (All-due xs (due full x) (full-due x), full_order xs)

first_of : (n : ℕ) → 0 ≡ first nil (range 0 (suc n))
unfolding range
first_of n = refl

from_start : (n : ℕ) → Prevs full.work_queue nil (range 0 (suc n))
unfolding range
from_start n = (refl, full-Prevs n 0)

full_at : (n : ℕ) → n ≡ end → InOrder full (range 0 (suc n)) ((nr_max_parallel_io - 1) ∷ [])
unfolding count
full_at n e = record {
  parts = record {
    nexts = full-Nexts n 0 (omega arith);
    prevs = from_start n;
    head = first_of n;
    tail = full_last n 0 end ∙ omega arith;
    free_nexts = (refl, tt);
    free_head = refl;
    free_tail = refl;
    some_free = omega arith;
    whole = λ i. ground (arith, count-range i (suc n) 0);
  };
  order = full_order (range 0 (suc n));
}

full-InOrder : InOrder full (range 0 (nr_max_parallel_io - 1)) ((nr_max_parallel_io - 1) ∷ [])
full-InOrder = full_at end refl

abbrev release_call : Release
release_call = record {
  sqid = 1;
  write_buffer = ssd_buffer;
  nsecs_target = 50;
  buffs_to_release = 4096;
}

full_queue_drops_example :
    (enqueue_io_req clock
        (device_of (λ i. full))
        submission
        1
        1
        4
        100
        (record { status = 0; nsecs_target = 500 })
      ≡ some (device_of (λ i. full)))
    × (schedule_internal_operation clock (device_of (λ i. full)) release_call
        ≡ some (device_of (λ i. full)))
full_queue_drops_example =
    full_queue_drops clock (device_of (λ i. full)) submission 1 4 100
      (record { status = 0; nsecs_target = 500 }) release_call full-InOrder
