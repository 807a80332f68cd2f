-- ===== src/Io/Queue/Start.antt =====
-- `NVMEV_IO_WORKER_INIT` leaves a worker with all entries free.
use nvmevirt_learned_ftl.Prelude.{
  ℕ, zero, suc, ◌+◌, ◌-◌, ◌≡◌, refl, ap, ◌∙◌, List, [], ◌∷◌, ltb, leb, ◌==◌, if◌then◌else◌, length,
  arith,
}
use nvmevirt_learned_ftl.Io.State.{nil, nr_max_parallel_io}
use nvmevirt_learned_ftl.Io.Queue.{init_worker}
use nvmevirt_learned_ftl.Io.Queue.Lists.{count, first, last}
use nvmevirt_learned_ftl.Io.Queue.Links.{Nexts}
use nvmevirt_learned_ftl.Io.Queue.Enter.{InOrder}

-- `n` indices from `s` on
unfoldable pub range : ℕ → ℕ → List ℕ
range s zero = []
range s (suc n) = s ∷ range (s + 1) n

pub count-range :
    (i n s : ℕ) → count i (range s n) ≡ (if leb s i then if ltb i (s + n) then 1 else 0 else 0)
unfolding range count
count-range i zero s = ground arith
count-range i (suc n) s = ground (arith, count-range i n (s + 1))

pub last-range : (n s : ℕ) → last nil (range s (suc n)) ≡ s + n
unfolding range
last-range zero s = omega arith
last-range (suc n) s = let rest = last-range n (s + 1) in rest ∙ omega arith

pub length-range : (n s : ℕ) → length (range s n) ≡ n
unfolding range
length-range zero s = refl
length-range (suc n) s = ap (λ a. suc a) (length-range n (s + 1))

init_next :
    (id i : ℕ)
    → ((init_worker id).work_queue i).next ≡ (if i == nr_max_parallel_io - 1 then nil else i + 1)
unfolding init_worker
init_next id i = refl

pub Nexts-range :
    (id n s : ℕ)
    → s + suc n ≡ nr_max_parallel_io
    → Nexts (init_worker id).work_queue (range s (suc n)) nil
unfolding range
Nexts-range id zero s e = (ground (arith, init_next id s), tt)
Nexts-range id (suc n) s e =
    (ground (arith, init_next id s), Nexts-range id n (s + 1) (omega arith))

pub init_fields :
    (id : ℕ)
    → ((init_worker id).free_seq ≡ 0)
      × ((init_worker id).free_seq_end ≡ nr_max_parallel_io - 1)
      × ((init_worker id).io_seq ≡ nil)
unfolding init_worker
init_fields id = (refl, refl, refl)

start_of : (id n : ℕ) → suc n ≡ nr_max_parallel_io → InOrder (init_worker id) [] (range 0 (suc n))
unfolding count range
start_of id n e =
    let (seq, end, io) = init_fields id in
    record {
      parts = record {
        nexts = tt;
        prevs = tt;
        head = io;
        tail = refl;
        free_nexts = Nexts-range id n 0 (omega arith);
        free_head = seq ∙ range_first n;
        free_tail = end ∙ (omega (arith, last-range n 0));
        some_free = omega (arith, length-range (suc n) 0);
        whole = λ i. ground (arith, count-range i (suc n) 0);
      };
      order = tt;
    }
  where
    range_first : (k : ℕ) → 0 ≡ first nil (range 0 (suc k))
    range_first k = refl

-- `NVMEV_IO_WORKER_INIT` leaves a worker in order, with no entry waiting and all of the 16384
-- entries free.
pub init_worker-InOrder : (id : ℕ) → InOrder (init_worker id) [] (range 0 nr_max_parallel_io)
init_worker-InOrder id = start_of id (nr_max_parallel_io - 1) (omega arith)

-- The same list with its first two entries shown
pub init_worker-free :
    (id : ℕ) → InOrder (init_worker id) [] (0 ∷ 1 ∷ range 2 (nr_max_parallel_io - 2))
unfolding range
init_worker-free id = init_worker-InOrder id
