-- ===== src/Io/Worker/Effect.antt =====
-- What one round of the inner loop of `nvmev_io_worker` does besides its worker: the data copied, the
-- completions posted, and the buffers released.
use nvmevirt_learned_ftl.Prelude.{
  ℕ, ◌≡◌, refl, sym, ap, ◌∙◌, Bool, true, false, Option, some, none, List, ◌∷◌, if◌then◌else◌, leb,
  ◌==◌, update, update_self, update_ne, Bool-cases, eq-cases, inl, inr, ◌>>=◌, >>=-eq-some, some-eq,
  arith,
}
use nvmevirt_learned_ftl.Ssd.Nand.{BufferId}
use nvmevirt_learned_ftl.Ssd.Buffer.{Buffer, release}
use nvmevirt_learned_ftl.Io.State.{IoWork}
use nvmevirt_learned_ftl.Io.Transfer.{Host, Transfer, IoCommand}
use nvmevirt_learned_ftl.Io.Device.{IoDevice, SubmissionQueue, CompletionQueue, Copy}
use nvmevirt_learned_ftl.Io.Worker.{
  copy_data, complete, set_work, finish, visit, fill_cq_result, completion, release_buffer,
  release_to, note_copy, same_buffer,
}
use nvmevirt_learned_ftl.Io.Worker.Visit.{copy_of, if_true, if_false}

-- A completion queue after a request: its completion is posted there if it names the queue.
abbrev pub post : IoWork → ℕ → Option CompletionQueue → Option CompletionQueue
post w c none = none
post w c (some cq) =
    if w.is_internal then some cq else if w.cqid == c then some (fill_cq_result cq w) else some cq

-- A buffer after a request: an internal one that names it gives its bytes back.
abbrev pub give_to : Option BufferId → ℕ → BufferId → Buffer → Buffer
give_to none n b buf = buf
give_to (some named) n b buf = if same_buffer named b then release buf n else buf

abbrev pub give : IoWork → BufferId → Buffer → Buffer
give w b buf = if w.is_internal then give_to w.write_buffer w.buffs_to_release b buf else buf

-- Whether a round at `now` completes a request
abbrev pub is_due : IoWork → ℕ → Bool
is_due w now = if w.is_completed then false else leb w.nsecs_target now

abbrev pub noted : IoCommand → Option Transfer → List Copy → List Copy
noted cmd none l = l
noted cmd (some t) l = record { command = cmd; transfer = t } ∷ l

complete-Does :
    (d : IoDevice) (w : IoWork) {d' : IoDevice}
    → complete d w ≡ some d'
    → (d'.copies ≡ d.copies)
      × ((c : ℕ) → d'.cqes c ≡ post w c (d.cqes c))
      × ((b : BufferId) → d'.buffers b ≡ give w b (d.buffers b))
unfolding complete release_buffer release_to
complete-Does d w {d'} e = elim (Bool-cases w.is_internal) [
  | inl t ↦
      let run : release_buffer d w ≡ some d' = sym (rw t refl) ∙ e in
      let (b, here, last) = >>=-eq-some w.write_buffer _ run in
      let same = sym (some-eq last) in
      (
        ap (λ (x : IoDevice). x.copies) same,
        λ c. ap (λ (x : IoDevice). x.cqes c) same ∙ internal_post w c t (d.cqes c),
        λ c. ap (λ (x : IoDevice). x.buffers c) same ∙ rw (t, here) refl,
      )
  | inr t ↦
      let run : (d.cqes w.cqid >>= λ cq.
      some (record d { cqes = update d.cqes w.cqid (some (fill_cq_result cq w)) }))
          ≡ some d' =
        sym (rw t refl) ∙ e in
      let (cq, here, last) = >>=-eq-some (d.cqes w.cqid) _ run in
      let same = sym (some-eq last) in
      (
        ap (λ (x : IoDevice). x.copies) same,
        λ c. ap (λ (x : IoDevice). x.cqes c) same ∙ elim (eq-cases w.cqid c) [
          | inl q ↦ rw (← q) (
              update_self d.cqes w.cqid (some (fill_cq_result cq w))
              ∙ sym (ap (post w w.cqid) here ∙ own_post w t cq))
          | inr ne ↦
              update_ne d.cqes w.cqid c (some (fill_cq_result cq w)) ne
              ∙ sym (other_post w c t ne (d.cqes c))
        ],
        λ c. ap (λ (x : IoDevice). x.buffers c) same ∙ rw t refl,
      )
]
  where
    internal_post :
        (w : IoWork) (c : ℕ) → w.is_internal ≡ true → (o : Option CompletionQueue) → o ≡ post w c o
    internal_post w c t none = refl
    internal_post w c t (some cq) = rw t refl

    own_post :
        (w : IoWork)
        → w.is_internal ≡ false
        → (cq : CompletionQueue) → post w w.cqid (some cq) ≡ some (fill_cq_result cq w)
    own_post w t cq = let same : (w.cqid == w.cqid) ≡ true = ground arith in rw (t, same) refl

    other_post :
        (w : IoWork) (c : ℕ)
        → w.is_internal ≡ false
        → (w.cqid ≡ c → ⊥)
        → (o : Option CompletionQueue) → post w c o ≡ o
    other_post w c t ne none = refl
    other_post w c t ne (some cq) =
        let differ : (w.cqid == c) ≡ false = ground arith in rw (t, differ) refl

post-copied :
    (w : IoWork) (c : ℕ) (o : Option CompletionQueue)
    → post (record w { is_copied = true }) c o ≡ post w c o
unfolding fill_cq_result completion
post-copied w c none = refl
post-copied w c (some cq) = refl

module _ (lba_bits : ℕ) (io_using_dma : Bool) (host : Host) where
  -- The copies after a request, with the one of its data unless it is made or the request is internal
  abbrev pub made : (ℕ → Option SubmissionQueue) → IoWork → List Copy → List Copy
  made sqes w l =
      if w.is_completed
      then l
      else if w.is_copied
      then l
      else if w.is_internal
      then l
      else elim (sqes w.sqid) [
        | none ↦ l
        | some sq ↦
            noted (sq.sq w.sq_entry) (copy_of lba_bits io_using_dma host (sq.sq w.sq_entry)) l
      ]

  -- What a round at an entry does, by what the entry was
  pub record Does (d d' : IoDevice) (w : IoWork) (now : ℕ) : Type 0 where
    pub copies : d'.copies ≡ made d.sqes w d.copies
    pub posts : (c : ℕ) → d'.cqes c ≡ (if is_due w now then post w c (d.cqes c) else d.cqes c)
    pub gives :
        (b : BufferId)
        → d'.buffers b ≡ (if is_due w now then give w b (d.buffers b) else d.buffers b)

  made_before :
      (sqes : ℕ → Option SubmissionQueue) (w : IoWork) (l : List Copy)
      → w.is_copied ≡ true
      → made sqes w l ≡ l
  made_before sqes w l t = elim (Bool-cases w.is_completed) [
    | inl o ↦ rw o refl
    | inr o ↦ rw (o, t) refl
  ]

  made_internal :
      (sqes : ℕ → Option SubmissionQueue) (w : IoWork) (l : List Copy)
      → w.is_completed ≡ false
      → w.is_copied ≡ false
      → w.is_internal ≡ true
      → made sqes w l ≡ l
  made_internal sqes w l o t i = rw (o, t, i) refl

  made_now :
      (sqes : ℕ → Option SubmissionQueue) (w : IoWork) (l : List Copy) (sq : SubmissionQueue)
      (x : Transfer)
      → w.is_completed ≡ false
      → w.is_copied ≡ false
      → w.is_internal ≡ false
      → sqes w.sqid ≡ some sq
      → copy_of lba_bits io_using_dma host (sq.sq w.sq_entry) ≡ some x
      → made sqes w l ≡ record { command = sq.sq w.sq_entry; transfer = x } ∷ l
  made_now sqes w l sq x o t i here at =
      rw (o, t, i, here) (ap (λ y. noted (sq.sq w.sq_entry) y l) at)

  copy_data-Does :
      (d : IoDevice) (w : IoWork) {d' : IoDevice}
      → w.is_completed ≡ false
      → copy_data lba_bits io_using_dma host d w ≡ some d'
      → (d'.copies ≡ made d.sqes w d.copies) × (d'.cqes ≡ d.cqes) × (d'.buffers ≡ d.buffers)
  unfolding copy_data note_copy
  copy_data-Does d w {d'} o e = elim (Bool-cases w.is_copied) [
    | inl t ↦
        let same : d ≡ d' = some-eq (sym (rw t refl) ∙ e) in
        kept d d' same (made_before d.sqes w d.copies t)
    | inr t ↦ elim (Bool-cases w.is_internal) [
      | inl i ↦
          let same : d ≡ d' = some-eq (sym (rw (t, i) refl) ∙ e) in
          kept d d' same (made_internal d.sqes w d.copies o t i)
      | inr i ↦
          let run : (d.sqes w.sqid >>= λ sq.
          copy_of lba_bits io_using_dma host (sq.sq w.sq_entry) >>= λ x.
          some (note_copy d (sq.sq w.sq_entry) x))
              ≡ some d' =
            sym (rw (t, i) refl) ∙ e in
          let (sq, here, e1) = >>=-eq-some (d.sqes w.sqid) _ run in
          let (x, at, e2) =
            >>=-eq-some (copy_of lba_bits io_using_dma host (sq.sq w.sq_entry)) _ e1 in
          let same = sym (some-eq e2) in
          (
            ap (λ (y : IoDevice). y.copies) same
                ∙ sym (made_now d.sqes w d.copies sq x o t i here at),
            ap (λ (y : IoDevice). y.cqes) same,
            ap (λ (y : IoDevice). y.buffers) same,
          )
    ]
  ]
    where
      kept :
          (d d' : IoDevice) {l : List Copy}
          → d ≡ d'
          → l ≡ d.copies
          → (d'.copies ≡ l) × (d'.cqes ≡ d.cqes) × (d'.buffers ≡ d.buffers)
      kept d d' same e = (
        ap (λ (x : IoDevice). x.copies) (sym same) ∙ sym e,
        ap (λ (x : IoDevice). x.cqes) (sym same),
        ap (λ (x : IoDevice). x.buffers) (sym same),
      )

  finish-Does :
      (id curr now : ℕ) (w : IoWork) (d : IoDevice) {d' : IoDevice}
      → finish lba_bits io_using_dma host id curr now w d ≡ some d'
      → (d'.copies ≡ d.copies)
        × ((c : ℕ) → d'.cqes c ≡ (if leb w.nsecs_target now then post w c (d.cqes c) else d.cqes c))
        × ((b : BufferId)
            → d'.buffers b
              ≡ (if leb w.nsecs_target now then give w b (d.buffers b) else d.buffers b))
  unfolding finish set_work
  finish-Does id curr now w d {d'} e = elim (Bool-cases (leb w.nsecs_target now)) [
    | inl due ↦
        let w' = record w { is_copied = true } in
        let run : (complete d w' >>= λ x.
        some (set_work x id curr now (record w' { is_completed = true })))
            ≡ some d' =
          sym (if_true _ _ _ due) ∙ e in
        let (d1, e1, e2) = >>=-eq-some (complete d w') _ run in
        let (a, b, c) = complete-Does d w' e1 in
        let same = sym (some-eq e2) in
        (
          ap (λ (x : IoDevice). x.copies) same ∙ a,
          λ i.
              ap (λ (x : IoDevice). x.cqes i) same
              ∙ b i
              ∙ post-copied w i (d.cqes i)
              ∙ sym (if_true _ _ _ due),
          λ i. ap (λ (x : IoDevice). x.buffers i) same ∙ c i ∙ sym (if_true _ _ _ due),
        )
    | inr early ↦
        let same = sym (some-eq (sym (if_false _ _ _ early) ∙ e)) in
        (
          ap (λ (x : IoDevice). x.copies) same,
          λ i. ap (λ (x : IoDevice). x.cqes i) same ∙ sym (if_false _ _ _ early),
          λ i. ap (λ (x : IoDevice). x.buffers i) same ∙ sym (if_false _ _ _ early),
        )
  ]

  pub visit-Does :
      (id curr now : ℕ) (d : IoDevice) {d' : IoDevice}
      → visit lba_bits io_using_dma host id curr now d ≡ some d'
      → Does d d' ((d.io_workers id).work_queue curr) now
  unfolding visit set_work
  visit-Does id curr now d {d'} e =
      let w = (d.io_workers id).work_queue curr in
      elim (Bool-cases w.is_completed) [
        | inl o ↦
            let same = sym (some-eq (sym (if_true _ _ _ o) ∙ e)) in
            record {
              copies = ap (λ (x : IoDevice). x.copies) same ∙ sym (if_true _ _ _ o);
              posts = λ c.
                  ap (λ (x : IoDevice). x.cqes c) same
                  ∙ sym (ap (λ t. if t then post w c (d.cqes c) else d.cqes c) (if_true _ _ _ o));
              gives = λ b.
                  ap (λ (x : IoDevice). x.buffers b) same
                  ∙ sym (
                      ap (λ t. if t then give w b (d.buffers b) else d.buffers b)
                        (if_true _ _ _ o));
            }
        | inr o ↦
            let run = sym (if_false _ _ _ o) ∙ e in
            let (d1, e1, e2) = >>=-eq-some (copy_data lba_bits io_using_dma host d w) _ run in
            let (a, q, u) = copy_data-Does d w o e1 in
            let (a', q', u') = finish-Does id curr now w d1 e2 in
            let due = sym (if_false _ _ _ o) in
            record {
              copies = a' ∙ a;
              posts = λ c.
                  q' c
                  ∙ ap (λ f. if leb w.nsecs_target now then post w c (f c) else f c) q
                  ∙ ap (λ t. if t then post w c (d.cqes c) else d.cqes c) due;
              gives = λ b.
                  u' b
                  ∙ ap (λ f. if leb w.nsecs_target now then give w b (f b) else f b) u
                  ∙ ap (λ t. if t then give w b (d.buffers b) else d.buffers b) due;
            }
      ]
