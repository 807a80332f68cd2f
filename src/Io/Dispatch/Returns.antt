-- ===== src/Io/Dispatch/Returns.antt =====
-- `nvmev_proc_io_sq` returns, over any layer whose commands return.
use nvmevirt_learned_ftl.Prelude.{
  ℕ, zero, suc, true, false, ltb, lt→ltb, ◌⊎◌, eq-cases, update_ne, ◌+◌, ◌%◌, ◌≤◌, ◌<◌, ◌≡◌, refl,
  sym, ap, subst, ◌∙◌, Bool, some, none, Option, ◌==◌, if◌then◌else◌, arith, update, update_self,
  sub32, inl, inr, Bool-cases, Option-cases,
}
use nvmevirt_learned_ftl.Io.Transfer.{IoCommand, cmd_io_size}
use nvmevirt_learned_ftl.Io.Device.{IoDevice, SubmissionQueue, SqStat}
use nvmevirt_learned_ftl.Io.Dispatch.{
  Handled, Layer, set_entry, enqueue_taken, proc_io, dispatched, set_stat, proc_entries,
  note_dispatch, num_proc, proc_io_sq,
}
use nvmevirt_learned_ftl.Io.Dispatch.Kept.{
  Ordered, Keeps, Keeps-refl, Keeps-trans, enqueue-Steps, reclaim_completed_reqs-Steps,
  schedule_all-Steps,
}

-- What the processing of commands of queue `sqid` leaves: workers in order, the queue with its size
-- and commands of the kind `Ok`, and the rest as it was.
pub record Processed (Ok : IoCommand → Type 0) (d d' : IoDevice) (sqid queue_size : ℕ)
    : Type 0 where
  pub ordered : Ordered d'
  pub same_count : d'.nr_io_workers ≡ d.nr_io_workers
  pub same_cqes : d'.cqes ≡ d.cqes
  pub same_buffers : d'.buffers ≡ d.buffers
  pub queue :
      (sq : SubmissionQueue) × (d'.sqes sqid ≡ some sq)
      × (sq.queue_size ≡ queue_size)
      × ((i : ℕ) → Ok (sq.sq i))

set_stat-Processed :
    {Ok : IoCommand → Type 0} (d d' : IoDevice) (sqid queue_size : ℕ) (f : SqStat → SqStat)
    → Processed Ok d d' sqid queue_size
    → (d'' : IoDevice) × (set_stat d' sqid f ≡ some d'') × Processed Ok d d'' sqid queue_size
unfolding set_stat
set_stat-Processed d d' sqid queue_size f p =
    let (sq, here, size, ok) = p.queue in
    let sq1 = record sq { stat = f sq.stat } in
    (
      record d' { sqes = update d'.sqes sqid (some sq1) },
      rw here,
      record {
        ordered = p.ordered;
        same_count = p.same_count;
        same_cqes = p.same_cqes;
        same_buffers = p.same_buffers;
        queue = (sq1, update_self d'.sqes sqid (some sq1), size, ok);
      },
    )

Processed-trans :
    {Ok : IoCommand → Type 0} {d d' d'' : IoDevice} {sqid n m : ℕ}
    → Processed Ok d d' sqid n
    → m ≡ n
    → Processed Ok d' d'' sqid m
    → Processed Ok d d'' sqid n
Processed-trans p e q =
    let (sq, here, size, ok) = q.queue in
    record {
      ordered = q.ordered;
      same_count = q.same_count ∙ p.same_count;
      same_cqes = q.same_cqes ∙ p.same_cqes;
      same_buffers = q.same_buffers ∙ p.same_buffers;
      queue = (sq, here, size ∙ e, ok);
    }

module _ {S : Type 0} (lba_bits : ℕ) (kv_prototype : Bool) (clock : ℕ → ℕ) (layer : Layer S)
    (Good : S → Type 0) (Ok : IoCommand → Type 0)
    (total : (s : S) (nsid sqid start : ℕ) (cmd : IoCommand)
      → Good s
      → Ok cmd
      → (r : Handled S) × (layer s nsid sqid start cmd ≡ some r) × Good r.layer × Ok r.cmd) where
  -- The layer did not take a command, and its state after that
  pub record Refused (sqid : ℕ) (s' : S) : Type 0 where
    pub before : S
    pub nsid : ℕ
    pub start : ℕ
    pub cmd : IoCommand
    pub handled : Handled S
    pub returned : layer before nsid sqid start cmd ≡ some handled
    pub not_taken : handled.taken ≡ false
    pub after : handled.layer ≡ s'

  finish_taken :
      (d : IoDevice) (sq : SubmissionQueue) (sqid sq_entry start : ℕ) (r : Handled S)
      → Ordered d
      → 0 < d.nr_io_workers
      → (out : Option ℕ) × (d' : IoDevice) × (enqueue_taken lba_bits kv_prototype clock layer d sq
            sqid sq_entry start r
          ≡ some (out, d', r.layer))
        × Keeps d d'
        × (out ≡ none → r.taken ≡ false)
  unfolding enqueue_taken
  finish_taken d sq sqid sq_entry start r o some_workers = elim (Bool-cases r.taken) [
    | inl t ↦
        let (d2, run, k) =
          enqueue-Steps clock d o some_workers sq sqid sq.cqid sq_entry start r.ret in
        let (d3, run', k') = reclaim_completed_reqs-Steps d2 k.ordered in
        (some (cmd_io_size lba_bits r.cmd), d3, rw (t, run, run'), Keeps-trans k k', λ e. cc)
    | inr t ↦ (none, d, rw t, Keeps-refl o, λ e. t)
  ]

  proc_io-Processed :
      (d : IoDevice) (s : S) (sqid sq_entry : ℕ) (sq : SubmissionQueue)
      → Ordered d
      → 0 < d.nr_io_workers
      → d.sqes sqid ≡ some sq
      → Good s
      → ((i : ℕ) → Ok (sq.sq i))
      → (out : Option ℕ) × (d' : IoDevice) × (s' : S) × (proc_io lba_bits kv_prototype clock layer d
            s sqid sq_entry
          ≡ some (out, d', s'))
        × Processed Ok d d' sqid sq.queue_size
        × Good s'
        × (out ≡ none → Refused sqid s')
  unfolding proc_io set_entry
  proc_io-Processed d s sqid sq_entry sq o some_workers here good ok =
      let cmd = sq.sq sq_entry in
      let nsid = if kv_prototype then 0 else sub32 cmd.nsid 1 in
      let start = clock d.ticks in
      let (r, handled, good', ok') = total s nsid sqid start cmd good (ok sq_entry) in
      let sq1 = set_entry sq sq_entry r.cmd in
      let d0 = record d { ticks = suc d.ticks; sqes = update d.sqes sqid (some sq1) } in
      let (d1, run, k) = schedule_all-Steps clock r.releases d0 o some_workers in
      let (out, d2, run', k', left) =
        finish_taken d1 sq1 sqid sq_entry start r k.ordered
          (subst (λ n. 0 < n) (sym k.same_count) some_workers) in
      let all = Keeps-trans k k' in
      (
        out,
        d2,
        r.layer,
        rw (here, handled, run) run',
        record {
          ordered = all.ordered;
          same_count = all.same_count;
          same_cqes = all.same_cqes;
          same_buffers = all.same_buffers;
          queue = (
            sq1,
            ap (λ f. f sqid) all.same_sqes ∙ update_self d.sqes sqid (some sq1),
            refl,
            λ i. elim (eq-cases sq_entry i) [
              | inl e ↦
                  subst Ok
                    (sym
                      (ap (update sq.sq sq_entry r.cmd) (sym e) ∙ update_self sq.sq sq_entry r.cmd))
                    ok'
              | inr ne ↦ subst Ok (sym (update_ne sq.sq sq_entry i r.cmd ne)) (ok i)
            ],
          );
        },
        good',
        λ e. record {
          before = s;
          nsid = nsid;
          start = start;
          cmd = cmd;
          handled = r;
          returned = handled;
          not_taken = left e;
          after = refl;
        },
      )

  proc_entries-Processed :
      (n : ℕ) (d d' : IoDevice) (s : S) (sqid queue_size sq_entry seq : ℕ)
      → 0 < d.nr_io_workers
      → Processed Ok d d' sqid queue_size
      → Good s
      → (k : ℕ) × (d'' : IoDevice) × (s' : S) × (proc_entries lba_bits kv_prototype clock layer n d'
            s sqid queue_size sq_entry seq
          ≡ some (seq + k, d'', s'))
        × (k ≤ n)
        × Processed Ok d d'' sqid queue_size
        × Good s'
        × ((k ≡ n) ⊎ Refused sqid s')
  unfolding proc_entries
  proc_entries-Processed zero d d' s sqid queue_size sq_entry seq some_workers p good =
      (0, d', s, ap (λ a. some (a, d', s)) (omega arith), omega arith, p, good, inl refl)
  proc_entries-Processed (suc n) d d' s sqid queue_size sq_entry seq some_workers p good =
      let (sq, here, size, ok) = p.queue in
      let still = subst (λ c. 0 < c) (sym p.same_count) some_workers in
      let (out, d1, s1, run, p1, good1, left) =
        proc_io-Processed d' s sqid sq_entry sq p.ordered still here good ok in
      let q = Processed-trans p size p1 in
      elim (Option-cases out) [
        | inl e ↦ (
          0,
          d1,
          s1,
          rw (run, e) (ap (λ a. some (a, d1, s1)) (omega arith)),
          omega arith,
          q,
          good1,
          inr (left e),
        )
        | inr (io_size, e) ↦
            let (d2, run', q') =
              set_stat-Processed d d1 sqid queue_size (λ st. dispatched st io_size) q in
            let next = if sq_entry + 1 == queue_size then 0 else sq_entry + 1 in
            let (k, d3, s3, run'', le, q'', good3, stop) =
              proc_entries-Processed n d d2 s1 sqid queue_size next (seq + 1) some_workers q'
                good1 in
            let same : seq + 1 + k ≡ seq + (k + 1) = omega arith in
            (
              k + 1,
              d3,
              s3,
              rw (run, e, run') (run'' ∙ ap (λ a. some (a, d3, s3)) same),
              omega arith,
              q'',
              good3,
              elim stop [ inl e ↦ inl (omega arith) | inr r ↦ inr r ],
            )
      ]

  -- Over a layer whose `proc_io_cmd` returns in each good state on each command of some kind, and
  -- leaves a good state and a command of the kind; on a device with some workers, all of them in
  -- order; in a good state; and for a submission queue that exists, has a size above 0 and holds
  -- commands of the kind: `nvmev_proc_io_sq` returns the place that is some number of entries past
  -- the old doorbell, taken in the size of the queue. This number is all that the new doorbell asks
  -- for, or no more than that where the layer did not take the last command it was given. All
  -- workers are in order after it, the state is good, the queue still exists, has its size and
  -- holds commands of the kind, and the completion queues and the buffers are as they were.
  pub proc_io_sq-Processed :
      (d : IoDevice) (s : S) (sqid new_db old_db : ℕ) (sq : SubmissionQueue)
      → Ordered d
      → 0 < d.nr_io_workers
      → d.sqes sqid ≡ some sq
      → 0 < sq.queue_size
      → Good s
      → ((i : ℕ) → Ok (sq.sq i))
      → (k : ℕ) × (d' : IoDevice) × (s' : S) × (proc_io_sq lba_bits kv_prototype clock layer d s
            sqid new_db old_db
          ≡ some ((old_db + k) % sq.queue_size, d', s'))
        × (k ≤ num_proc sq.queue_size new_db old_db)
        × Processed Ok d d' sqid sq.queue_size
        × Good s'
        × ((k ≡ num_proc sq.queue_size new_db old_db) ⊎ Refused sqid s')
  unfolding proc_io_sq
  proc_io_sq-Processed d s sqid new_db old_db sq o some_workers here some_size good ok =
      let n = num_proc sq.queue_size new_db old_db in
      let start : Processed Ok d d sqid sq.queue_size = record {
        ordered = o;
        same_count = refl;
        same_cqes = refl;
        same_buffers = refl;
        queue = (sq, here, refl, ok);
      } in
      let (k, d1, s1, run, le, p, good1, stop) =
        proc_entries-Processed n d d s sqid sq.queue_size old_db 0 some_workers start good in
      let (d2, run', p') = set_stat-Processed d d1 sqid sq.queue_size note_dispatch p in
      let same : 0 + k ≡ k = omega arith in
      let sized : ltb 0 sq.queue_size ≡ true = lt→ltb 0 sq.queue_size some_size in
      (
        k,
        d2,
        s1,
        rw (here, proc_io_sq, run, run', sized)
            (ap (λ a. some ((old_db + a) % sq.queue_size, d2, s1)) same),
        le,
        p',
        good1,
        stop,
      )
