-- ===== src/Ssd/Channel/Ring.antt =====
-- The ring of credits seen from its head: what has been used, and what moving the head does.
use nvmevirt_learned_ftl.Prelude.{
  ℕ, ◌+◌, ◌-◌, ◌%◌, ◌^◌, ◌≤◌, ◌<◌, ◌≡◌, refl, arith, ltb, if◌then◌else◌, fill, ◌∙◌,
}
use nvmevirt_learned_ftl.Ssd.Channel.{
  Channel, nr_credit_entries, init, elapsed, refilled, advance, used_length, bandwidth_credits,
}

-- How far an entry lies ahead of the head.
abbrev pub ahead : ℕ → ℕ → ℕ
ahead head i = (i + nr_credit_entries - head) % nr_credit_entries

-- Past the `valid_len` entries from the head, every entry still has all its credits.
pub record IsChannel (ch : Channel) : Type 0 where
  pub head_in : ch.head < nr_credit_entries
  pub len_in : ch.valid_len ≤ nr_credit_entries
  pub has_credits : 0 < ch.max_credits
  pub fresh :
      (i : ℕ)
      → i < nr_credit_entries
      → ch.valid_len ≤ ahead ch.head i
      → ch.avail_credits i ≡ ch.max_credits % 2 ^ 8

-- Where the bandwidth gives some credits in 32 bits, `chmodel_init` sets up a channel in order.
pub init-IsChannel :
    (bandwidth : ℕ) → 0 < bandwidth_credits bandwidth % 2 ^ 32 → IsChannel (init bandwidth)
unfolding init
init-IsChannel bandwidth h = record {
  head_in = omega arith;
  len_in = omega arith;
  has_credits = h;
  fresh = λ i hi hl. refl;
}

pub elapsed-le : (ch : Channel) (now : ℕ) → elapsed ch now ≤ ch.valid_len
unfolding elapsed
elapsed-le ch now = ground arith

-- The two `memset` calls fill the entries that the head passes, and no other.
pub refilled_lem :
    (ch : Channel) (offs i : ℕ)
    → ch.head < nr_credit_entries
    → offs ≤ nr_credit_entries
    → i < nr_credit_entries
    → refilled ch offs i
      ≡ (if ltb (ahead ch.head i) offs then ch.max_credits % 2 ^ 8 else ch.avail_credits i)
unfolding refilled fill
refilled_lem ch offs i hh ho hi = ground arith

-- Moving the head of the credit ring to the current time keeps a channel in order: past the first
-- `valid_len` entries from the head, every entry has all its credits.
pub advance-IsChannel : (ch : Channel) (now : ℕ) → IsChannel ch → IsChannel (advance ch now)
unfolding advance
advance-IsChannel ch now h = record {
  head_in = omega arith;
  len_in = omega (arith, h.len_in, elapsed-le ch now);
  has_credits = h.has_credits;
  fresh = λ i hi hl.
      refilled_lem ch (elapsed ch now) i h.head_in (omega (arith, h.len_in, elapsed-le ch now)) hi
      ∙ ground (arith, h.fresh i, h.len_in, h.head_in, elapsed-le ch now);
}

-- `valid_length` counts the entries from the head up to `pos`.
pub used_length-ahead :
    (head pos : ℕ)
    → head < nr_credit_entries
    → pos < nr_credit_entries
    → used_length head pos ≡ ahead head pos + 1
unfolding used_length
used_length-ahead head pos hh hp = ground arith
