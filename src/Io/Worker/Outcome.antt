-- ===== src/Io/Worker/Outcome.antt =====
-- What a pass of `nvmev_io_worker` over its waiting requests does besides its worker, read off the
-- list of the requests and the readings of the clock.
use nvmevirt_learned_ftl.Prelude.{
  ℕ, zero, suc, ◌+◌, ◌<◌, ◌≡◌, refl, sym, ap, ◌∙◌, Bool, false, Option, some, none, List, [], ◌∷◌,
  if◌then◌else◌, ◌&&◌, ◌==◌, add64, arith, update_self, update_ne, Bool-cases, Option-cases,
  eq-cases, inl, inr,
}
use nvmevirt_learned_ftl.Ssd.Nand.{BufferId}
use nvmevirt_learned_ftl.Ssd.Buffer.{Buffer}
use nvmevirt_learned_ftl.Io.State.{IoWork}
use nvmevirt_learned_ftl.Io.Transfer.{Host}
use nvmevirt_learned_ftl.Io.Device.{IoDevice, SubmissionQueue, CompletionQueue, Copy}
use nvmevirt_learned_ftl.Io.Queue.Lists.{count, count_first, count_tail}
use nvmevirt_learned_ftl.Io.Enqueue.{get_io_worker}
use nvmevirt_learned_ftl.Io.Worker.{signal_irq, signal_irqs}
use nvmevirt_learned_ftl.Io.Worker.Effect.{post, give, is_due, made, Does}

-- The entries at some indices
abbrev pub works : (ℕ → IoWork) → List ℕ → List IoWork
works q [] = []
works q (x ∷ xs) = q x ∷ works q xs

pub works-same :
    (q q' : ℕ → IoWork) (xs : List ℕ)
    → ((i : ℕ) → 0 < count i xs → q' i ≡ q i)
    → works q' xs ≡ works q xs
works-same q q' [] same = refl
works-same q q' (x ∷ xs) same =
    ap (λ w. w ∷ works q' xs) (same x (count_first x xs))
    ∙ ap (λ ws. q x ∷ ws) (works-same q q' xs (λ i k. same i (omega (arith, count_tail x i xs))))

module _ (clock : ℕ → ℕ) (delta : ℕ) where
  -- A completion queue and a buffer after the requests, the first one at clock reading `n`
  abbrev pub post_all : ℕ → ℕ → List IoWork → Option CompletionQueue → Option CompletionQueue
  post_all n c [] o = o
  post_all n c (w ∷ ws) o =
      post_all (suc n) c ws (if is_due w (add64 (clock n) delta) then post w c o else o)

  abbrev pub give_all : ℕ → BufferId → List IoWork → Buffer → Buffer
  give_all n b [] buf = buf
  give_all n b (w ∷ ws) buf =
      give_all (suc n) b ws (if is_due w (add64 (clock n) delta) then give w b buf else buf)

  module _ (lba_bits : ℕ) (io_using_dma : Bool) (host : Host) where
    -- The copies after the requests
    abbrev pub made_all : (ℕ → Option SubmissionQueue) → List IoWork → List Copy → List Copy
    made_all sqes [] l = l
    made_all sqes (w ∷ ws) l = made_all sqes ws (made lba_bits io_using_dma host sqes w l)

    -- What a pass over requests `ws` does
    pub record Done (d d' : IoDevice) (ws : List IoWork) : Type 0 where
      pub copies : d'.copies ≡ made_all d.sqes ws d.copies
      pub posts : (c : ℕ) → d'.cqes c ≡ post_all d.ticks c ws (d.cqes c)
      pub gives : (b : BufferId) → d'.buffers b ≡ give_all d.ticks b ws (d.buffers b)

    pub Done-nil : (d : IoDevice) → Done d d []
    Done-nil d = record { copies = refl; posts = λ c. refl; gives = λ b. refl }

    pub Done-cons :
        {d d1 d' : IoDevice} (w : IoWork) (ws ws1 : List IoWork)
        → Does lba_bits io_using_dma host
            (record d { ticks = suc d.ticks })
            d1
            w
            (add64 (clock d.ticks) delta)
        → d1.sqes ≡ d.sqes
        → d1.ticks ≡ suc d.ticks
        → ws1 ≡ ws
        → Done d1 d' ws1
        → Done d d' (w ∷ ws)
    Done-cons {d} {d1} {d'} w ws ws1 h sqes ticks same p = record {
      copies =
          p.copies
          ∙ ap (λ s. made_all s ws1 d1.copies) sqes
          ∙ ap (λ l. made_all d.sqes l d1.copies) same
          ∙ ap (made_all d.sqes ws) h.copies;
      posts = λ c.
          p.posts c
          ∙ ap (λ n. post_all n c ws1 (d1.cqes c)) ticks
          ∙ ap (λ l. post_all (suc d.ticks) c l (d1.cqes c)) same
          ∙ ap (post_all (suc d.ticks) c ws) (h.posts c);
      gives = λ b.
          p.gives b
          ∙ ap (λ n. give_all n b ws1 (d1.buffers b)) ticks
          ∙ ap (λ l. give_all (suc d.ticks) b l (d1.buffers b)) same
          ∙ ap (give_all (suc d.ticks) b ws) (h.gives b);
    }

-- A completion queue, less the flag that its interrupt is to be raised
abbrev pub quiet : Option CompletionQueue → Option CompletionQueue
quiet none = none
quiet (some cq) = some (record cq { interrupt_ready = false })

signal_irq-quiet :
    (d : IoDevice) (id qidx : ℕ)
    → ((signal_irq d id qidx).copies ≡ d.copies)
      × ((signal_irq d id qidx).buffers ≡ d.buffers)
      × ((c : ℕ) → quiet ((signal_irq d id qidx).cqes c) ≡ quiet (d.cqes c))
unfolding signal_irq
signal_irq-quiet d id qidx = elim (Bool-cases (get_io_worker d qidx == id)) [
  | inr other ↦ rw other (refl, refl, λ c. refl)
  | inl own ↦ elim (Option-cases (d.cqes qidx)) [
    | inl e ↦ rw (own, e) (refl, refl, λ c. refl)
    | inr (cq, e) ↦ elim (Bool-cases (cq.irq_enabled && cq.interrupt_ready)) [
      | inr off ↦ rw (own, e, off) (refl, refl, λ c. refl)
      | inl on ↦
          rw (own, e, on)
            (
              refl,
              refl,
              λ c. elim (eq-cases qidx c) [
                | inl q ↦ rw (← q) (
                    ap quiet
                      (update_self d.cqes qidx (some (record cq { interrupt_ready = false })))
                    ∙ sym (ap quiet e))
                | inr ne ↦
                    ap quiet
                      (update_ne d.cqes qidx c (some (record cq { interrupt_ready = false })) ne)
              ],
            )
    ]
  ]
]

pub signal_irqs-quiet :
    (n : ℕ) (id qidx : ℕ) (d : IoDevice)
    → ((signal_irqs n id qidx d).copies ≡ d.copies)
      × ((signal_irqs n id qidx d).buffers ≡ d.buffers)
      × ((c : ℕ) → quiet ((signal_irqs n id qidx d).cqes c) ≡ quiet (d.cqes c))
unfolding signal_irqs
signal_irqs-quiet zero id qidx d = (refl, refl, λ c. refl)
signal_irqs-quiet (suc n) id qidx d =
    let (a, b, q) = signal_irqs-quiet n id (qidx + 1) (signal_irq d id qidx) in
    let (a', b', q') = signal_irq-quiet d id qidx in (a ∙ a', b ∙ b', λ c. q c ∙ q' c)
