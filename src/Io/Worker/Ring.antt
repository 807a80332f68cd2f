-- ===== src/Io/Worker/Ring.antt =====
-- The phase tags of a completion queue, by which the host tells new entries from old ones.
use nvmevirt_learned_ftl.Prelude.{
  ℕ, ◌+◌, ◌*◌, ◌%◌, ◌^◌, ◌≤◌, ◌<◌, ◌≡◌, ◌≢◌, refl, Bool, true, false, not, ◌==◌, if◌then◌else◌,
  arith, update, Bool-cases, inl, inr, sym, ap, ◌∙◌, ==→eq,
}
use nvmevirt_learned_ftl.Io.State.{IoWork}
use nvmevirt_learned_ftl.Io.Device.{CompletionQueue, Completion}
use nvmevirt_learned_ftl.Io.Worker.{completion, fill_cq_result}

-- The phase tag of an entry, and the bit of a phase
abbrev pub tag : Completion → ℕ
tag c = c.status % 2

abbrev pub bit : Bool → ℕ
bit b = if b then 1 else 0

-- The entries before the head have the tag of this pass, and the others that of the one before.
pub record IsRing (cq : CompletionQueue) : Type 0 where
  pub head_lt : cq.cq_head < cq.queue_size
  pub posted : (i : ℕ) → i < cq.cq_head → tag (cq.cq i) ≡ bit cq.phase
  pub stale : (i : ℕ) → cq.cq_head ≤ i → i < cq.queue_size → tag (cq.cq i) ≡ bit (not cq.phase)

-- What `__fill_cq_result` has written at the head, and what it has left
pub record Posted (cq cq' : CompletionQueue) (w : IoWork) : Type 0 where
  pub ring : IsRing cq'
  pub new : tag (cq'.cq cq.cq_head) ≡ bit cq.phase
  pub id_of : (cq'.cq cq.cq_head).command_id ≡ w.command_id % 2 ^ 16
  pub status_of : w.status < 2 ^ 15 → (cq'.cq cq.cq_head).status ≡ bit cq.phase + 2 * w.status
  pub others : (i : ℕ) → cq.cq_head ≢ i → cq'.cq i ≡ cq.cq i
  pub moved : cq'.cq_head ≡ (if cq.cq_head + 1 == cq.queue_size then 0 else cq.cq_head + 1)
  pub ready : cq'.interrupt_ready ≡ true

tag-completion : (cq : CompletionQueue) (w : IoWork) → tag (completion cq w) ≡ bit cq.phase
unfolding completion
tag-completion cq w = ground arith

double_not : (b : Bool) → not (not b) ≡ b
double_not true = refl
double_not false = refl

module _ (cq : CompletionQueue) (w : IoWork) (r : IsRing cq) where
  fill_tag :
      (i : ℕ)
      → tag ((fill_cq_result cq w).cq i) ≡ (if cq.cq_head == i then bit cq.phase else tag (cq.cq i))
  unfolding fill_cq_result update
  fill_tag i = elim (Bool-cases (cq.cq_head == i)) [
    | inl e ↦ rw e (tag-completion cq w)
    | inr e ↦ rw e
  ]

  fill_fields :
      ((fill_cq_result cq w).cq_head
        ≡ (if cq.cq_head + 1 == cq.queue_size then 0 else cq.cq_head + 1))
      × ((fill_cq_result cq w).phase
          ≡ (if cq.cq_head + 1 == cq.queue_size then not cq.phase else cq.phase))
      × ((fill_cq_result cq w).queue_size ≡ cq.queue_size)
      × ((fill_cq_result cq w).interrupt_ready ≡ true)
  unfolding fill_cq_result
  fill_fields = (refl, refl, refl, refl)

  tag_before : (i : ℕ) → i < cq.cq_head + 1 → tag ((fill_cq_result cq w).cq i) ≡ bit cq.phase
  tag_before i h = elim (Bool-cases (cq.cq_head == i)) [
    | inl e ↦ fill_tag i ∙ (rw e)
    | inr e ↦ fill_tag i ∙ (rw e (r.posted i (ground arith)))
  ]

  tag_after :
      (i : ℕ)
      → cq.cq_head + 1 ≤ i
      → i < cq.queue_size
      → tag ((fill_cq_result cq w).cq i) ≡ bit (not cq.phase)
  tag_after i h k =
      let e : (cq.cq_head == i) ≡ false = ground arith in
      fill_tag i ∙ (rw e (r.stale i (omega arith) k))

  fill-IsRing : IsRing (fill_cq_result cq w)
  fill-IsRing =
      let (head, phase, size, _) = fill_fields in
      let lt = r.head_lt in
      elim (Bool-cases (cq.cq_head + 1 == cq.queue_size)) [
        | inl e ↦
            let head' : (fill_cq_result cq w).cq_head ≡ 0 = head ∙ (rw e) in
            let phase' : (fill_cq_result cq w).phase ≡ not cq.phase = phase ∙ (rw e) in
            let full : cq.cq_head + 1 ≡ cq.queue_size = ==→eq _ _ e in
            record {
              head_lt = omega arith;
              posted = λ i h. absurd (omega arith);
              stale = λ i h k.
                  tag_before i (omega arith)
                  ∙ ap bit (sym (double_not cq.phase) ∙ ap not (sym phase'));
            }
        | inr e ↦
            let head' : (fill_cq_result cq w).cq_head ≡ cq.cq_head + 1 = head ∙ (rw e) in
            let phase' : (fill_cq_result cq w).phase ≡ cq.phase = phase ∙ (rw e) in
            let more : cq.cq_head + 1 ≢ cq.queue_size = λ q. ground arith in
            record {
              head_lt = omega arith;
              posted = λ i h. tag_before i (omega arith) ∙ ap bit (sym phase');
              stale = λ i h k.
                  tag_after i (omega arith) (omega arith) ∙ ap (λ b. bit (not b)) (sym phase');
            }
      ]

  -- On a completion queue whose entries before the head have the tag of the current phase and whose
  -- others have the other tag, `__fill_cq_result` keeps this, with the new phase at the wrap: the
  -- entry at the old head has turned to the phase that it had not, holds the command id and a
  -- status that fits in 15 bits, the other entries are as they were, the head is the next entry,
  -- and the interrupt is due.
  pub fill_cq_result-Posted : Posted cq (fill_cq_result cq w) w
  unfolding fill_cq_result completion update
  fill_cq_result-Posted = record {
    ring = fill-IsRing;
    new = tag_before cq.cq_head (omega arith);
    id_of = ground arith;
    status_of = λ h. ground arith;
    others = λ i ne. ground arith;
    moved = refl;
    ready = refl;
  }
