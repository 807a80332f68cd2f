-- ===== src/Io/Tests/Waiting.antt =====
-- A worker with one request that waits.
use nvmevirt_learned_ftl.Prelude.{
  ℕ, zero, suc, ◌+◌, ◌-◌, ◌<◌, ◌≡◌, refl, ◌∙◌, true, false, some, [], ◌∷◌, ◌++◌, arith, update,
  sub64,
}
use nvmevirt_learned_ftl.Io.State.{IoWork, IoWorker, nil, nr_max_parallel_io}
use nvmevirt_learned_ftl.Io.Transfer.{Host, do_perform_io}
use nvmevirt_learned_ftl.Io.Device.{IoDevice}
use nvmevirt_learned_ftl.Io.Queue.{init_worker, reclaimable, reclaim}
use nvmevirt_learned_ftl.Io.Queue.Lists.{count, first}
use nvmevirt_learned_ftl.Io.Queue.Links.{Nexts-frame}
use nvmevirt_learned_ftl.Io.Queue.Start.{
  range, count-range, last-range, length-range, Nexts-range, init_fields,
}
use nvmevirt_learned_ftl.Io.Queue.Enter.{InOrder}
use nvmevirt_learned_ftl.Io.Queue.Linked.{SameWork}
use nvmevirt_learned_ftl.Io.Queue.Reclaim.{reclaim-InOrder, take_while, drop_while}
use nvmevirt_learned_ftl.Io.Worker.{io_worker_round}
use nvmevirt_learned_ftl.Io.Worker.Visit.{is_some}
use nvmevirt_learned_ftl.Io.Worker.Pass.{CanVisit}
use nvmevirt_learned_ftl.Io.Worker.Round.{Round, io_worker_round-Round}
use nvmevirt_learned_ftl.Io.Tests.{device_of, clock, submission, request_work}

abbrev queued : IoWork → IoWorker
queued work =
    let w = init_worker 0 in
    record w { work_queue = update w.work_queue 0 work; free_seq = 1; io_seq = 0; io_seq_end = 0 }

first_of : (n : ℕ) → 1 ≡ first nil (range 1 (suc n))
unfolding range
first_of n = refl

queued_at :
    (n : ℕ) (work : IoWork)
    → 2 + n ≡ nr_max_parallel_io
    → work.next ≡ nil
    → work.prev ≡ nil
    → InOrder (queued work) (0 ∷ []) (range 1 (suc n))
unfolding count update
queued_at n work e next prev =
    let w = init_worker 0 in
    let (_, end, _) = init_fields 0 in
    record {
      parts = record {
        nexts = (next, tt);
        prevs = (prev, tt);
        head = refl;
        tail = refl;
        free_nexts =
            Nexts-frame w.work_queue (queued work).work_queue (range 1 (suc n)) nil
              (Nexts-range 0 n 1 (omega arith)) (λ i k. ground (arith, count-range i (suc n) 1));
        free_head = first_of n;
        free_tail = end ∙ omega (arith, last-range n 1);
        some_free = omega (arith, length-range (suc n) 1);
        whole = λ i. ground (arith, count-range i (suc n) 1);
      };
      order = (tt, tt);
    }

queued-InOrder :
    (work : IoWork)
    → work.next ≡ nil
    → work.prev ≡ nil
    → InOrder (queued work) (0 ∷ []) (range 1 (nr_max_parallel_io - 1))
queued-InOrder work next prev = queued_at (nr_max_parallel_io - 2) work (omega arith) next prev

-- A request that is done and copied
abbrev done_work : IoWork
done_work = record request_work { is_copied = true; is_completed = true; nsecs_target = 0 }

reclaim-InOrder_example :
    (w : IoWorker) × (reclaim (queued done_work) ≡ some w)
    × InOrder w
        (drop_while (reclaimable (queued done_work)) (0 ∷ []))
        (range 1 (nr_max_parallel_io - 1) ++ take_while (reclaimable (queued done_work)) (0 ∷ []))
    × SameWork (queued done_work) w
reclaim-InOrder_example = reclaim-InOrder (queued-InOrder done_work refl refl)

abbrev waiting_device : IoDevice
waiting_device = device_of (λ i. queued request_work)

abbrev host : Host
host = record { pfn_valid = λ f. true; load = λ a. 0; mapped = λ n. 0; storage_start = 0 }

copy_ends : is_some (do_perform_io 9 host (submission.sq 4)) ≡ true
unfolding do_perform_io
copy_ends = refl

runnable :
    (x : ℕ) → 0 < count x (0 ∷ []) → CanVisit 9 false host clock 0 (sub64 100 100) waiting_device x
unfolding count update
runnable zero k waits = record {
  buffer = λ q. cc;
  queue = λ q. refl;
  copy = λ q c. (submission, refl, copy_ends);
}
runnable (suc x) k waits = absurd (ground arith)

-- The request is due at 95, and the worker's clock shows 101 and more.
io_worker_round-Round_example :
    (d : IoDevice) × (io_worker_round 9 false host clock 0 100 waiting_device ≡ some d)
    × Round 9 false host clock 0
        (sub64 100 100)
        waiting_device
        d
        (0 ∷ [])
        (range 1 (nr_max_parallel_io - 1))
io_worker_round-Round_example =
    io_worker_round-Round 9 false host clock 0 100 waiting_device (0 ∷ [])
      (range 1 (nr_max_parallel_io - 1)) (queued-InOrder request_work refl refl).parts runnable
