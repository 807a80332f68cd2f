-- ===== src/Ssd/Channel/Drain.antt =====
-- The credit loop of `chmodel_request`: it ends, and it takes what it was asked for.
use nvmevirt_learned_ftl.Prelude.{
  ℕ, zero, suc, ◌+◌, ◌-◌, ◌%◌, ◌^◌, ◌≤◌, ◌<◌, ◌≡◌, ◌≢◌, refl, ◌⊎◌, inl, inr, some, arith, ◌==◌,
  update, Bool-cases, ap, add32, ◌∙◌,
}
use nvmevirt_learned_ftl.Ssd.Channel.{nr_credit_entries, Draining, take_credits, drain, drain_all}

-- Entries from `pos` to the last one before the head.
abbrev pub room : ℕ → ℕ → ℕ
room head pos = (head + nr_credit_entries - pos - 1) % nr_credit_entries

-- What the loop has done when it stops.
pub record Drained (head : ℕ) (d e : Draining) : Type 0 where
  pub in_ring : e.pos < nr_credit_entries
  pub finished : (e.remaining ≡ 0) ⊎ ((e.pos + 1) % nr_credit_entries ≡ head)
  pub less : e.remaining ≤ d.remaining
  pub forward : e.delay + room head e.pos ≡ d.delay + room head d.pos
  pub onward : room head e.pos ≤ room head d.pos
  pub keeps : (i : ℕ) → e.avail i ≤ d.avail i
  pub skips :
      (i : ℕ) → i < nr_credit_entries → room head d.pos < room head i → e.avail i ≡ d.avail i
  pub stops :
      (i : ℕ) → i < nr_credit_entries → room head i < room head e.pos → e.avail i ≡ d.avail i

-- One entry: credits only go down, and only at `pos`.
take_credits_lem :
    (d : Draining) (i : ℕ)
    → ((take_credits d).pos ≡ d.pos)
      × ((take_credits d).delay ≡ d.delay)
      × ((take_credits d).remaining ≤ d.remaining)
      × ((take_credits d).avail i ≤ d.avail i)
      × (i ≢ d.pos → (take_credits d).avail i ≡ d.avail i)
unfolding take_credits update
take_credits_lem d i = ground arith

abbrev next_entry : Draining → Draining
next_entry d = record d { delay = add32 d.delay 1; pos = (d.pos + 1) % nr_credit_entries }

-- Before the head is reached, the next entry is one nearer to it.
room-next :
    (head pos : ℕ)
    → head < nr_credit_entries
    → pos < nr_credit_entries
    → (pos + 1) % nr_credit_entries ≢ head
    → (room head ((pos + 1) % nr_credit_entries) + 1 ≡ room head pos)
      × ((pos + 1) % nr_credit_entries < nr_credit_entries)
room-next head pos hh hp ne = omega arith

room-injective :
    (head i j : ℕ)
    → head < nr_credit_entries
    → i < nr_credit_entries
    → j < nr_credit_entries
    → room head i ≡ room head j
    → i ≡ j
room-injective head i j hh hi hj e = omega arith

stop-Drained :
    (head : ℕ) (d : Draining)
    → d.pos < nr_credit_entries
    → ((take_credits d).remaining ≡ 0) ⊎ ((d.pos + 1) % nr_credit_entries ≡ head)
    → Drained head d (take_credits d)
stop-Drained head d hp fin = record {
  in_ring = rw (take_credits_lem d 0).0 hp;
  finished = rw (take_credits_lem d 0).0 fin;
  less = (take_credits_lem d 0).2;
  forward = rw ((take_credits_lem d 0).0, (take_credits_lem d 0).1) refl;
  onward = rw (take_credits_lem d 0).0 (omega arith);
  keeps = λ i. (take_credits_lem d i).3;
  skips = λ i hi lt. (take_credits_lem d i).4 (λ e. absurd (omega (arith, ap (room head) e)));
  stops = λ i hi lt.
      (take_credits_lem d i).4
        (λ e. absurd (omega (arith, ap (room head) e, ap (room head) (take_credits_lem d 0).0)));
}

step-Drained :
    (head : ℕ) (d e : Draining)
    → head < nr_credit_entries
    → d.pos < nr_credit_entries
    → (d.pos + 1) % nr_credit_entries ≢ head
    → d.delay + room head d.pos < 2 ^ 32
    → Drained head (next_entry (take_credits d)) e
    → Drained head d e
step-Drained head d e hh hp ne hd h = record {
  in_ring = h.in_ring;
  finished = h.finished;
  less = omega (arith, h.less, (take_credits_lem d 0).2);
  forward =
      omega (arith, h.forward, (take_credits_lem d 0).0, (take_credits_lem d 0).1, nearer, later);
  onward = omega (arith, h.onward, nearer);
  keeps = λ i. omega (arith, h.keeps i, (take_credits_lem d i).3);
  skips = λ i hi lt.
      h.skips i hi (omega (arith, nearer))
      ∙ (take_credits_lem d i).4 (λ q. absurd (omega (arith, ap (room head) q)));
  stops = λ i hi lt.
      h.stops i hi lt
      ∙ (take_credits_lem d i).4 (λ q. absurd (omega (arith, ap (room head) q, nearer, h.onward)));
}
  where
    nearer : room head (next_entry (take_credits d)).pos + 1 ≡ room head d.pos
    nearer = rw (take_credits_lem d 0).0 ((room-next head d.pos hh hp ne).0)

    later : (next_entry (take_credits d)).delay ≡ d.delay + 1
    later = omega (arith, (take_credits_lem d 0).1, nearer)

abbrev Ends : ℕ → ℕ → Draining → Type 0
Ends fuel head d = (e : Draining) × (drain fuel head d ≡ some e) × Drained head d e

drain-step :
    (fuel head : ℕ) (d : Draining)
    → head < nr_credit_entries
    → d.pos < nr_credit_entries
    → d.delay + room head d.pos < 2 ^ 32
    → ((d.pos + 1) % nr_credit_entries ≢ head → Ends fuel head (next_entry (take_credits d)))
    → Ends (suc fuel) head d
unfolding drain
drain-step fuel head d hh hp hd ih = elim (Bool-cases ((take_credits d).remaining == 0)) [
  | inl done ↦ (take_credits d, rw done refl, stop-Drained head d hp (inl (ground arith)))
  | inr more ↦ elim (Bool-cases (((take_credits d).pos + 1) % nr_credit_entries == head)) [
    | inl full ↦ (
      take_credits d,
      rw (more, full) refl,
      stop-Drained head d hp (inr (ground (arith, take_credits_lem d 0))),
    )
    | inr ahead ↦
        let ne : (d.pos + 1) % nr_credit_entries ≢ head = ground (arith, take_credits_lem d 0) in
        (
          (ih ne).0,
          rw (more, ahead) ((ih ne).1),
          step-Drained head d (ih ne).0 hh hp ne hd (ih ne).2,
        )
  ]
]

-- The loop ends before it comes round to the head, within the fuel.
drain-Drained :
    (fuel head : ℕ) (d : Draining)
    → head < nr_credit_entries
    → d.pos < nr_credit_entries
    → room head d.pos < fuel
    → d.delay + room head d.pos < 2 ^ 32
    → Ends fuel head d
drain-Drained zero head d hh hp hf hd = absurd (omega arith)
drain-Drained (suc fuel) head d hh hp hf hd = drain-step fuel head d hh hp hd λ ne.
    drain-Drained fuel head (next_entry (take_credits d)) hh
      (omega (arith, take_credits_lem d 0, room-next head d.pos hh hp ne))
      (omega (arith, take_credits_lem d 0, room-next head d.pos hh hp ne, fewer ne))
      (omega (arith, take_credits_lem d 0, room-next head d.pos hh hp ne, fewer ne))
  where
    fewer :
        (d.pos + 1) % nr_credit_entries ≢ head
        → room head (next_entry (take_credits d)).pos + 1 ≡ room head d.pos
    fewer ne = rw (take_credits_lem d 0).0 ((room-next head d.pos hh hp ne).0)

-- From a head and a position in the ring and a delay of 0, the `while (1)` of `chmodel_request`
-- ends within one round for each entry; then nothing remains or the next entry is the head, no
-- entry has more credits than before, and the entries before the start and past the end have the
-- same.
pub drain_all-Drained :
    (head : ℕ) (d : Draining)
    → head < nr_credit_entries
    → d.pos < nr_credit_entries
    → d.delay ≡ 0
    → (e : Draining) × (drain_all head d ≡ some e) × Drained head d e
unfolding drain_all
drain_all-Drained head d hh hp hd =
    drain-Drained nr_credit_entries head d hh hp (omega arith) (omega arith)
