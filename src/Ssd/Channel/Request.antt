-- ===== src/Ssd/Channel/Request.antt =====
-- `chmodel_request` as a whole.
use nvmevirt_learned_ftl.Prelude.{
  ℕ, ◌+◌, ◌/◌, ◌^◌, ◌≤◌, ◌<◌, ◌≡◌, refl, inl, inr, some, arith, ltb, leb, Bool-cases, lt→ltb,
  le→leb, ◌||◌, u32, sub64,
}
use nvmevirt_learned_ftl.Ssd.Channel.{
  Channel, Draining, nr_credit_entries, settle, draining, transfer, request, advance,
  unit_time_interval,
}
use nvmevirt_learned_ftl.Ssd.Channel.Drain.{Drained, drain_all-Drained}
use nvmevirt_learned_ftl.Ssd.Channel.Ring.{IsChannel, used_length-ahead, advance-IsChannel}

-- What a request returns: a time from `t` on and within 2^33 ns of it, and a channel in order.
pub record Served (t : ℕ) (ch : Channel) (r : ℕ × Channel) : Type 0 where
  pub later : t ≤ r.0
  pub soon : r.0 < t + 2 ^ 33
  pub valid : IsChannel r.1
  pub same_max : r.1.max_credits ≡ ch.max_credits
  pub same_lat : r.1.xfer_lat ≡ ch.xfer_lat

settle-Served :
    (ch : Channel) (t offs len : ℕ) (d : Draining)
    → IsChannel ch
    → offs < nr_credit_entries
    → t < 2 ^ 63
    → Drained ch.head (draining ch offs len) d
    → Served t ch (settle ch t len d)
unfolding settle
settle-Served ch t offs len d h ho ht e = record {
  later = ground (arith, e.forward);
  soon = ground (arith, e.forward);
  valid = record {
    head_in = h.head_in;
    len_in = ground (arith, h.len_in, used_length-ahead ch.head d.pos h.head_in e.in_ring);
    has_credits = h.has_credits;
    fresh = λ i hi hl. ground (
      arith,
      used_length-ahead ch.head d.pos h.head_in e.in_ring,
      e.stops i hi,
      h.fresh i hi,
      h.head_in,
      e.in_ring,
    );
  };
  same_max = refl;
  same_lat = refl;
}

transfer-Served :
    (ch : Channel) (t offs len : ℕ)
    → IsChannel ch
    → offs < nr_credit_entries
    → t < 2 ^ 63
    → (r : ℕ × Channel) × (transfer ch t offs len ≡ some r) × Served t ch r
unfolding transfer
transfer-Served ch t offs len h ho ht =
    let (e, ends, drained) =
      drain_all-Drained ch.head (draining ch offs len) h.head_in (omega arith) refl in
    (
      settle ch t len e,
      rw (lt→ltb 0 ch.max_credits h.has_credits, ends) refl,
      settle-Served ch t offs len e h ho ht drained,
    )

abbrev request_offs : ℕ → ℕ → ℕ
request_offs now t = u32 (sub64 (t / unit_time_interval) (now / unit_time_interval))

-- On a channel in order and for a request time below 2^63, `chmodel_request` always returns, at a
-- time from the request time on and less than 2^33 ns after it, and the channel is in order after
-- it with its credits and latency as before.
pub request-Served :
    (ch : Channel) (now t len : ℕ)
    → IsChannel ch
    → t < 2 ^ 63
    → (r : ℕ × Channel) × (request ch now t len ≡ some r) × Served t ch r
unfolding request
request-Served ch now t len h ht =
    let v = advance-IsChannel ch now h in
    elim (Bool-cases (ltb t now || leb nr_credit_entries (request_offs now t))) [
      | inl early ↦ (
        (t, advance ch now),
        rw (le→leb _ _ v.len_in, early) refl,
        unfold advance in
            record {
              later = omega arith;
              soon = omega arith;
              valid = v;
              same_max = refl;
              same_lat = refl;
            },
      )
      | inr due ↦
          let (r, e, s) =
            transfer-Served (advance ch now) t (request_offs now t) len v (ground arith) ht in
          (
            r,
            rw (le→leb _ _ v.len_in, due) e,
            unfold advance in
                record {
                  later = s.later;
                  soon = s.soon;
                  valid = s.valid;
                  same_max = s.same_max;
                  same_lat = s.same_lat;
                },
          )
    ]
