-- ===== src/Io/Queue/Parts.antt =====
-- What the links of a worker stand for: the waiting entries in order, and the free ones.
use nvmevirt_learned_ftl.Prelude.{
  ℕ, ◌+◌, ◌≤◌, ◌<◌, ◌≡◌, ◌≢◌, List, [], ◌∷◌, ◌++◌, ltb, ◌==◌, if◌then◌else◌, length, arith,
}
use nvmevirt_learned_ftl.Io.State.{IoWorker, nil, nr_max_parallel_io}
use nvmevirt_learned_ftl.Io.Queue.Lists.{count, first, last, count-append, length_le}
use nvmevirt_learned_ftl.Io.Queue.Links.{Nexts, Prevs}

-- `waiting` is linked both ways from `io_seq` to `io_seq_end`, `free` forwards from `free_seq` to
-- `free_seq_end`, and every entry of the work queue is in one of them once, or is among `held`.
pub record Parts (w : IoWorker) (held waiting free : List ℕ) : Type 0 where
  pub nexts : Nexts w.work_queue waiting nil
  pub prevs : Prevs w.work_queue nil waiting
  pub head : w.io_seq ≡ first nil waiting
  pub tail : last w.io_seq_end waiting ≡ w.io_seq_end
  pub free_nexts : Nexts w.work_queue free nil
  pub free_head : w.free_seq ≡ first nil free
  pub free_tail : w.free_seq_end ≡ last nil free
  pub some_free : 0 < length free
  pub whole :
      (i : ℕ)
      → count i held + (count i waiting + count i free)
        ≡ (if ltb i nr_max_parallel_io then 1 else 0)

module _ {w : IoWorker} {e : ℕ} (front back : List ℕ) {free : List ℕ}
    (p : Parts w (e ∷ []) (front ++ back) free) where
  pub shares :
      (i : ℕ)
      → (if i == e then 1 else 0) + (count i front + count i back + count i free)
        ≡ (if ltb i nr_max_parallel_io then 1 else 0)
  unfolding count
  shares i = ground (arith, p.whole i, count-append i front back)

  pub in_front :
      (i : ℕ)
      → 0 < count i front
      → (i < nr_max_parallel_io) × (i ≢ e) × (count i back ≡ 0) × (count i free ≡ 0)
  in_front i k = (
    ground (arith, shares i),
    ground (arith, shares i),
    ground (arith, shares i),
    ground (arith, shares i),
  )

  pub in_back :
      (i : ℕ)
      → 0 < count i back
      → (i < nr_max_parallel_io) × (i ≢ e) × (count i front ≡ 0) × (count i free ≡ 0)
  in_back i k = (
    ground (arith, shares i),
    ground (arith, shares i),
    ground (arith, shares i),
    ground (arith, shares i),
  )

  pub in_free :
      (i : ℕ)
      → 0 < count i free
      → (i < nr_max_parallel_io) × (i ≢ e) × (count i front ≡ 0) × (count i back ≡ 0)
  in_free i k = (
    ground (arith, shares i),
    ground (arith, shares i),
    ground (arith, shares i),
    ground (arith, shares i),
  )

  pub front_one : (i : ℕ) → count i front ≤ 1
  front_one i = ground (arith, shares i)

  pub back_one : (i : ℕ) → count i back ≤ 1
  back_one i = ground (arith, shares i)

  pub held_lt : e < nr_max_parallel_io
  held_lt = ground (arith, shares e)

  pub waiting_le : length (front ++ back) ≤ nr_max_parallel_io
  waiting_le = length_le nr_max_parallel_io (front ++ back) (λ i. ground (arith, p.whole i))
