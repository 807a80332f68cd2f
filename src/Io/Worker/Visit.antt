-- ===== src/Io/Worker/Visit.antt =====
-- One round of the inner loop of `nvmev_io_worker`, on every branch.
use nvmevirt_learned_ftl.Prelude.{
  ℕ, ◌≡◌, refl, sym, ap, ◌∙◌, Bool, true, false, Option, some, none, if◌then◌else◌, leb, update,
  update_self, update_ne, Bool-cases, eq-cases, inl, inr, ◌>>=◌,
}
use nvmevirt_learned_ftl.Io.State.{IoWork}
use nvmevirt_learned_ftl.Io.Transfer.{
  Host, Transfer, IoCommand, do_perform_io, do_perform_io_using_dma,
}
use nvmevirt_learned_ftl.Io.Device.{IoDevice, SubmissionQueue}
use nvmevirt_learned_ftl.Io.Worker.{
  copy_data, complete, set_work, finish, visit, fill_cq_result, release_buffer, release_to,
  note_copy,
}

abbrev pub is_some {ℓ} : {A : Type ℓ} → Option A → Bool
is_some none = false
is_some (some a) = true

-- What a round leaves of an entry
abbrev pub after_visit : IoWork → ℕ → IoWork
after_visit work now =
    if work.is_completed
    then work
    else record work { is_copied = true; is_completed = leb work.nsecs_target now }

module _ (lba_bits : ℕ) (io_using_dma : Bool) (host : Host) where
  -- The copy of a command's data, by the way of the configuration
  abbrev pub copy_of : IoCommand → Option Transfer
  copy_of cmd =
      if io_using_dma
      then do_perform_io_using_dma lba_bits host cmd
      else do_perform_io lba_bits host cmd

  -- What a round on a request needs: the completion queue or the buffer of a request that is not
  -- completed, and a copy that ends where there is one to make
  pub record IsRunnable (d : IoDevice) (work : IoWork) : Type 0 where
    pub buffer : work.is_internal ≡ true → is_some work.write_buffer ≡ true
    pub queue : work.is_internal ≡ false → is_some (d.cqes work.cqid) ≡ true
    pub copy :
        work.is_internal ≡ false
        → work.is_copied ≡ false
        → (sq : SubmissionQueue) × (d.sqes work.sqid ≡ some sq)
          × (is_some (copy_of (sq.sq work.sq_entry)) ≡ true)

-- What stays in a round: all but the worker, the copies, the buffers and the contents of completion
-- queues
pub record Stays (d d' : IoDevice) : Type 0 where
  pub same_workers : d'.io_workers ≡ d.io_workers
  pub same_sqes : d'.sqes ≡ d.sqes
  pub same_count : d'.nr_io_workers ≡ d.nr_io_workers
  pub same_nr_cq : d'.nr_cq ≡ d.nr_cq
  pub same_ticks : d'.ticks ≡ d.ticks
  pub queues : (c : ℕ) → is_some (d.cqes c) ≡ true → is_some (d'.cqes c) ≡ true

Stays-refl : (d : IoDevice) → Stays d d
Stays-refl d = record {
  same_workers = refl;
  same_sqes = refl;
  same_count = refl;
  same_nr_cq = refl;
  same_ticks = refl;
  queues = λ c h. h;
}

some-of {ℓ} : {A : Type ℓ} (o : Option A) → is_some o ≡ true → (a : A) × (o ≡ some a)
some-of none h = cc
some-of (some a) h = (a, refl)

complete-Stays :
    (d : IoDevice) (work : IoWork)
    → (work.is_internal ≡ true → is_some work.write_buffer ≡ true)
    → (work.is_internal ≡ false → is_some (d.cqes work.cqid) ≡ true)
    → (d' : IoDevice) × (complete d work ≡ some d') × Stays d d'
unfolding complete release_buffer release_to
complete-Stays d work buffer queue = elim (Bool-cases work.is_internal) [
  | inl t ↦
      let (b, e) = some-of work.write_buffer (buffer t) in
      (
        release_to d work.buffs_to_release b,
        rw (t, e),
        record {
          same_workers = refl;
          same_sqes = refl;
          same_count = refl;
          same_nr_cq = refl;
          same_ticks = refl;
          queues = λ c h. h;
        },
      )
  | inr t ↦
      let (cq, e) = some-of (d.cqes work.cqid) (queue t) in
      (
        record d { cqes = update d.cqes work.cqid (some (fill_cq_result cq work)) },
        rw (t, e),
        record {
          same_workers = refl;
          same_sqes = refl;
          same_count = refl;
          same_nr_cq = refl;
          same_ticks = refl;
          queues = λ c h. elim (eq-cases work.cqid c) [
            | inl q ↦
                rw (← q) (
                  ap (λ o. is_some o)
                    (update_self d.cqes work.cqid (some (fill_cq_result cq work))))
            | inr ne ↦
                ap (λ o. is_some o)
                  (update_ne d.cqes work.cqid c (some (fill_cq_result cq work)) ne)
                ∙ h
          ];
        },
      )
]

-- A conditional by the value of its test, which may stand elsewhere in the goal
pub if_true {ℓ} : {A : Type ℓ} (x y : A) (b : Bool) → b ≡ true → (if b then x else y) ≡ x
if_true x y true e = refl
if_true x y false e = cc

pub if_false {ℓ} : {A : Type ℓ} (x y : A) (b : Bool) → b ≡ false → (if b then x else y) ≡ y
if_false x y true e = cc
if_false x y false e = refl

after_due :
    (work : IoWork) (now : ℕ)
    → work.is_completed ≡ false
    → leb work.nsecs_target now ≡ true
    → record work { is_copied = true; is_completed = true } ≡ after_visit work now
after_due work now t c =
    ap (λ (b : Bool). record work { is_copied = true; is_completed = b }) (sym c)
    ∙ sym (if_false _ _ _ t)

after_early :
    (work : IoWork) (now : ℕ)
    → work.is_completed ≡ false
    → leb work.nsecs_target now ≡ false
    → record work { is_copied = true } ≡ after_visit work now
after_early work now t c =
    ap (λ (b : Bool). record work { is_copied = true; is_completed = b }) (t ∙ sym c)
    ∙ sym (if_false _ _ _ t)

module _ (lba_bits : ℕ) (io_using_dma : Bool) (host : Host) where
  copy_data-Stays :
      (d : IoDevice) (work : IoWork)
      → IsRunnable lba_bits io_using_dma host d work
      → (d' : IoDevice) × (copy_data lba_bits io_using_dma host d work ≡ some d') × Stays d d'
  unfolding copy_data note_copy
  copy_data-Stays d work r = elim (Bool-cases work.is_copied) [
    | inl t ↦ (d, rw t, Stays-refl d)
    | inr t ↦ elim (Bool-cases work.is_internal) [
      | inl i ↦ (d, rw (t, i), Stays-refl d)
      | inr i ↦
          let (sq, here, ends) = r.copy i t in
          let (ps, e) = some-of (copy_of lba_bits io_using_dma host (sq.sq work.sq_entry)) ends in
          (
            note_copy d (sq.sq work.sq_entry) ps,
            rw (t, i, here, e),
            record {
              same_workers = refl;
              same_sqes = refl;
              same_count = refl;
              same_nr_cq = refl;
              same_ticks = refl;
              queues = λ c h. h;
            },
          )
    ]
  ]

  -- What a round leaves: the entry as `after_visit` has it, and the time that the worker saw
  pub record Visited (d d' : IoDevice) (id curr now : ℕ) : Type 0 where
    pub workers :
        d'.io_workers
        ≡ update d.io_workers id (record (d.io_workers id) {
          latest_nsecs = now;
          work_queue =
              update
                (d.io_workers id).work_queue
                curr
                (after_visit ((d.io_workers id).work_queue curr) now);
        })
    pub same_sqes : d'.sqes ≡ d.sqes
    pub same_count : d'.nr_io_workers ≡ d.nr_io_workers
    pub same_nr_cq : d'.nr_cq ≡ d.nr_cq
    pub same_ticks : d'.ticks ≡ d.ticks
    pub queues : (c : ℕ) → is_some (d.cqes c) ≡ true → is_some (d'.cqes c) ≡ true

  set_work-Visited :
      (d d' : IoDevice) (id curr now : ℕ) (work : IoWork)
      → Stays d d'
      → work ≡ after_visit ((d.io_workers id).work_queue curr) now
      → Visited d (set_work d' id curr now work) id curr now
  unfolding set_work
  set_work-Visited d d' id curr now work s e = record {
    workers = rw (s.same_workers, e);
    same_sqes = s.same_sqes;
    same_count = s.same_count;
    same_nr_cq = s.same_nr_cq;
    same_ticks = s.same_ticks;
    queues = s.queues;
  }

  Stays-trans : {d d' d'' : IoDevice} → Stays d d' → Stays d' d'' → Stays d d''
  Stays-trans s t = record {
    same_workers = t.same_workers ∙ s.same_workers;
    same_sqes = t.same_sqes ∙ s.same_sqes;
    same_count = t.same_count ∙ s.same_count;
    same_nr_cq = t.same_nr_cq ∙ s.same_nr_cq;
    same_ticks = t.same_ticks ∙ s.same_ticks;
    queues = λ c h. t.queues c (s.queues c h);
  }

  finish_due :
      (id curr now : ℕ) (work : IoWork) (d d1 : IoDevice)
      → leb work.nsecs_target now ≡ true
      → complete d (record work { is_copied = true }) ≡ some d1
      → finish lba_bits io_using_dma host id curr now work d
        ≡ some (set_work d1 id curr now (record work { is_copied = true; is_completed = true }))
  unfolding finish
  finish_due id curr now work d d1 c e =
      if_true _ _ _ c
      ∙ ap
          (λ (o : Option IoDevice). o >>= λ x.
            some (set_work x id curr now (record work { is_copied = true; is_completed = true })))
          e

  finish_early :
      (id curr now : ℕ) (work : IoWork) (d : IoDevice)
      → leb work.nsecs_target now ≡ false
      → finish lba_bits io_using_dma host id curr now work d
        ≡ some (set_work d id curr now (record work { is_copied = true }))
  unfolding finish
  finish_early id curr now work d c = if_false _ _ _ c

  visit_done :
      (id curr now : ℕ) (d : IoDevice)
      → ((d.io_workers id).work_queue curr).is_completed ≡ true
      → visit lba_bits io_using_dma host id curr now d
        ≡ some (set_work d id curr now ((d.io_workers id).work_queue curr))
  unfolding visit
  visit_done id curr now d t = if_true _ _ _ t

  visit_more :
      (id curr now : ℕ) (d d1 : IoDevice)
      → ((d.io_workers id).work_queue curr).is_completed ≡ false
      → copy_data lba_bits io_using_dma host d ((d.io_workers id).work_queue curr) ≡ some d1
      → visit lba_bits io_using_dma host id curr now d
        ≡ finish lba_bits io_using_dma host id curr now ((d.io_workers id).work_queue curr) d1
  unfolding visit
  visit_more id curr now d d1 t e =
      if_false _ _ _ t
      ∙ ap
          (λ (o : Option IoDevice).
            o >>= finish lba_bits io_using_dma host id curr now ((d.io_workers id).work_queue curr))
          e

  finish-Visited :
      (id curr now : ℕ) (d d1 : IoDevice)
      → ((d.io_workers id).work_queue curr).is_completed ≡ false
      → IsRunnable lba_bits io_using_dma host d ((d.io_workers id).work_queue curr)
      → Stays d d1
      → (d' : IoDevice) × (finish lba_bits io_using_dma host id curr now
            ((d.io_workers id).work_queue curr)
            d1
          ≡ some d')
        × Visited d d' id curr now
  finish-Visited id curr now d d1 t r s1 =
      let work = (d.io_workers id).work_queue curr in
      elim (Bool-cases (leb work.nsecs_target now)) [
        | inl c ↦
            let (d2, ends, s2) =
              complete-Stays d1 (record work { is_copied = true }) r.buffer
                (λ q. s1.queues work.cqid (r.queue q)) in
            let work' = record work { is_copied = true; is_completed = true } in
            (
              set_work d2 id curr now work',
              finish_due id curr now work d1 d2 c ends,
              set_work-Visited d d2 id curr now work' (Stays-trans s1 s2) (after_due work now t c),
            )
        | inr c ↦
            let work' = record work { is_copied = true } in
            (
              set_work d1 id curr now work',
              finish_early id curr now work d1 c,
              set_work-Visited d d1 id curr now work' s1 (after_early work now t c),
            )
      ]

  pub visit-Visited :
      (id curr now : ℕ) (d : IoDevice)
      → (((d.io_workers id).work_queue curr).is_completed ≡ false
          → IsRunnable lba_bits io_using_dma host d ((d.io_workers id).work_queue curr))
      → (d' : IoDevice) × (visit lba_bits io_using_dma host id curr now d ≡ some d')
        × Visited d d' id curr now
  visit-Visited id curr now d runs =
      let work = (d.io_workers id).work_queue curr in
      elim (Bool-cases work.is_completed) [
        | inl t ↦ (
          set_work d id curr now work,
          visit_done id curr now d t,
          set_work-Visited d d id curr now work (Stays-refl d) (sym (if_true _ _ _ t)),
        )
        | inr t ↦
            let (d1, copies, s1) = copy_data-Stays d work (runs t) in
            let (d2, ends, v) = finish-Visited id curr now d d1 t (runs t) s1 in
            (d2, visit_more id curr now d d1 t copies ∙ ends, v)
      ]
