-- ===== src/Ssd/Channel.antt =====
-- channel_model.h and channel_model.c: a link as a ring of credits, one entry for each time unit.
-- The reading of `cpu_clock` is an argument of the request.
pub mod Drain
pub mod Ring
pub mod Request
use nvmevirt_learned_ftl.Prelude.{
  ℕ, zero, suc, ◌+◌, ◌-◌, ◌*◌, ◌/◌, ◌%◌, ◌^◌, Bool, true, false, Option, none, some, ltb, leb, ◌==◌,
  if◌then◌else◌, ◌>>=◌, ◌>>◌, ensure, update, fill, add32, sub32, mul32, u32, add64, sub64,
  div_round_up, mb, ◌||◌,
}

abbrev pub nr_credit_entries : ℕ
nr_credit_entries = 98304

abbrev pub unit_time_interval : ℕ
unit_time_interval = 4000

abbrev pub unit_xfer_size : ℕ
unit_xfer_size = 128

abbrev pub unit_xfer_credits : ℕ
unit_xfer_credits = 1

-- `struct channel_model`; `avail_credits` is an array of `uint8_t`.
pub record Channel : Type 0 where
  pub cur_time : ℕ
  pub head : ℕ
  pub valid_len : ℕ
  pub max_credits : ℕ
  pub command_credits : ℕ
  pub xfer_lat : ℕ
  pub avail_credits : ℕ → ℕ

-- `BANDWIDTH_TO_TX_TIME` and `BANDWIDTH_TO_MAX_CREDITS`, with NS_PER_SEC(1) written out
abbrev pub tx_time : ℕ → ℕ
tx_time bandwidth = unit_xfer_size * 1_000_000_000 / mb bandwidth

abbrev pub bandwidth_credits : ℕ → ℕ
bandwidth_credits bandwidth =
    mb bandwidth * unit_time_interval / 1_000_000_000 / unit_xfer_size * unit_xfer_credits

-- `chmodel_init`
unfoldable pub init : ℕ → Channel
init bandwidth = record {
  cur_time = 0;
  head = 0;
  valid_len = 0;
  max_credits = u32 (bandwidth_credits bandwidth);
  command_credits = 0;
  xfer_lat = u32 (tx_time bandwidth);
  avail_credits = λ i. u32 (bandwidth_credits bandwidth) % 2 ^ 8;
}

-- How many entries the head moves over to come to the current time.
pub elapsed : Channel → ℕ → ℕ
elapsed ch cur_time =
    let offs = u32 (sub64 (cur_time / unit_time_interval) (ch.cur_time / unit_time_interval)) in
    if ltb offs ch.valid_len then offs else ch.valid_len

-- The entries that the head leaves behind are filled again, round the end of the array.
pub refilled : Channel → ℕ → ℕ → ℕ
refilled ch offs =
    let v = ch.max_credits % 2 ^ 8 in
    let tail = sub32 nr_credit_entries ch.head in
    if leb nr_credit_entries (add32 ch.head offs)
    then fill (fill ch.avail_credits ch.head tail v) 0 (sub32 offs tail) v
    else fill ch.avail_credits ch.head offs v

-- "Search current time index and move head to it", up to the assertion on `valid_len`
unfoldable pub advance : Channel → ℕ → Channel
unfolding elapsed refilled
advance ch cur_time =
    let offs = elapsed ch cur_time in
    record ch {
      avail_credits = refilled ch offs;
      head = add32 ch.head offs % nr_credit_entries;
      cur_time = cur_time;
      valid_len = sub32 ch.valid_len offs;
    }

-- The variables of the `while (1)` of `chmodel_request`.
pub record Draining : Type 0 where
  pub avail : ℕ → ℕ
  pub remaining : ℕ
  pub pos : ℕ
  pub delay : ℕ

abbrev pub consumed : Draining → ℕ
consumed d = if leb d.remaining (d.avail d.pos) then d.remaining else d.avail d.pos

-- The part of an iteration that takes credits from the entry at `pos`.
pub take_credits : Draining → Draining
take_credits d = record d {
  avail = update d.avail d.pos (d.avail d.pos - consumed d);
  remaining = d.remaining - consumed d;
}

-- The loop: it ends when nothing remains, or where the next entry is the head. `none` means that
-- the fuel has run out.
pub drain : ℕ → ℕ → Draining → Option Draining
drain zero head d = none
drain (suc fuel) head d =
    let d' = take_credits d in
    let next_pos = (d'.pos + 1) % nr_credit_entries in
    let rest = drain fuel head (record d' { delay = add32 d'.delay 1; pos = next_pos }) in
    if d'.remaining == 0 then some d' else if next_pos == head then some d' else rest

-- The loop, with fuel for every entry of the ring.
pub drain_all : ℕ → Draining → Option Draining
drain_all head d = drain nr_credit_entries head d

-- `valid_length`: the entries from the head up to the last one that was used
pub used_length : ℕ → ℕ → ℕ
used_length head pos =
    if leb head pos
    then add32 (sub32 pos head) 1
    else sub32 nr_credit_entries (sub32 (sub32 head pos) 1)

abbrev pub units : ℕ → ℕ
units length = u32 (div_round_up length unit_xfer_size)

-- The credits that a transfer takes.
pub wanted : Channel → ℕ → ℕ
wanted ch length = add32 (mul32 (units length) unit_xfer_credits) ch.command_credits

-- What follows the loop: the entries used, the delay over the default one, and the end time.
pub settle : Channel → ℕ → ℕ → Draining → ℕ × Channel
unfolding wanted used_length
settle ch request_time length d =
    let valid_length = used_length ch.head d.pos in
    let default_delay = wanted ch length / ch.max_credits in
    let delay = if ltb default_delay d.delay then d.delay - default_delay else 0 in
    let latency = add64 (mul32 ch.xfer_lat (units length)) (delay * unit_time_interval) in
    (
      add64 request_time latency,
      record ch {
        avail_credits = d.avail;
        valid_len = if ltb ch.valid_len valid_length then valid_length else ch.valid_len;
      },
    )

-- The variables of the loop when it starts.
abbrev pub draining : Channel → ℕ → ℕ → Draining
draining ch offs length = record {
  avail = ch.avail_credits;
  remaining = wanted ch length;
  pos = add32 ch.head offs % nr_credit_entries;
  delay = 0;
}

-- The transfer, once the head stands at the current time; the division wants `max_credits`.
pub transfer : Channel → ℕ → ℕ → ℕ → Option (ℕ × Channel)
transfer ch request_time offs length = do
  ensure (ltb 0 ch.max_credits)
  d ← drain_all ch.head (draining ch offs length)
  some (settle ch request_time length d)

-- `chmodel_request`: the time at which the transfer ends, and the channel after it.
pub request : Channel → ℕ → ℕ → ℕ → Option (ℕ × Channel)
request ch cur_time request_time length = do
  let ch' = advance ch cur_time
  let offs = u32 (sub64 (request_time / unit_time_interval) (cur_time / unit_time_interval))
  ensure (leb ch'.valid_len nr_credit_entries)
  let served = transfer ch' request_time offs length
  if ltb request_time cur_time || leb nr_credit_entries offs
      then some (request_time, ch')
      else served
