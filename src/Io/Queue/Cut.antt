-- ===== src/Io/Queue/Cut.antt =====
-- What `splice`, the end of `__reclaim_completed_reqs`, writes to each entry.
use nvmevirt_learned_ftl.Prelude.{ℕ, ◌≡◌, ◌==◌, if◌then◌else◌, arith, update, Bool-cases, inl, inr}
use nvmevirt_learned_ftl.Io.State.{IoWork, IoWorker, nil, set_next, set_prev}
use nvmevirt_learned_ftl.Io.Queue.{splice}
use nvmevirt_learned_ftl.Io.Queue.Splice.{bare}

-- What a write of one link leaves
module _ (q : ℕ → IoWork) (i j k : ℕ) where
  set_next-next : (set_next q i j k).next ≡ (if i == k then j else (q k).next)
  unfolding set_next update
  set_next-next = ground arith

  set_next-prev : (set_next q i j k).prev ≡ (q k).prev
  unfolding set_next update
  set_next-prev = ground arith

  set_next-bare : bare (set_next q i j k) ≡ bare (q k)
  unfolding set_next update
  set_next-bare = ground arith

  set_prev-prev : (set_prev q i j k).prev ≡ (if i == k then j else (q k).prev)
  unfolding set_prev update
  set_prev-prev = ground arith

  set_prev-next : (set_prev q i j k).next ≡ (q k).next
  unfolding set_prev update
  set_prev-next = ground arith

  set_prev-bare : bare (set_prev q i j k) ≡ bare (q k)
  unfolding set_prev update
  set_prev-bare = ground arith

ruleset link_writes =
    (set_next-next, set_next-prev, set_next-bare, set_prev-prev, set_prev-next, set_prev-bare)

-- The work queue after `splice`
module _ (l : ℕ) (w : IoWorker) (i : ℕ) where
  pub splice-next :
      ((splice l w).work_queue i).next
      ≡ (if w.free_seq_end == i then w.io_seq else if l == i then nil else (w.work_queue i).next)
  unfolding splice
  splice-next = elim (Bool-cases ((w.work_queue l).next == nil)) [
    | inl c ↦ rw c (simp link_writes)
    | inr c ↦ rw c (simp link_writes)
  ]

  pub splice-prev : ((splice l w).work_queue i).prev ≡ (
      if w.io_seq == i
      then w.free_seq_end
      else if (w.work_queue l).next == nil
      then (w.work_queue i).prev
      else if (w.work_queue l).next == i
      then nil
      else (w.work_queue i).prev)
  unfolding splice
  splice-prev = elim (Bool-cases ((w.work_queue l).next == nil)) [
    | inl c ↦ rw c (simp link_writes)
    | inr c ↦ rw c (simp link_writes)
  ]

  pub splice-bare : bare ((splice l w).work_queue i) ≡ bare (w.work_queue i)
  unfolding splice
  splice-bare = elim (Bool-cases ((w.work_queue l).next == nil)) [
    | inl c ↦ rw c (simp link_writes)
    | inr c ↦ rw c (simp link_writes)
  ]
