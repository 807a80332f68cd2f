-- ===== src/Ssd/Nand/Timing.antt =====
-- `ssd_advance_nand`: programs, erasures and waits return, no earlier than the die and the command allow, and keeps the
-- die busy until then.
use nvmevirt_learned_ftl.Prelude.{
  ℕ, suc, ◌+◌, ◌^◌, ◌≤◌, ◌<◌, ◌≡◌, refl, arith, max, some, add64, update, ◌==◌, false, Bool-cases,
  inl, inr,
}
use nvmevirt_learned_ftl.Ssd.Ppa.{Ppa}
use nvmevirt_learned_ftl.Ssd.Channel.{Channel}
use nvmevirt_learned_ftl.Ssd.Channel.Ring.{IsChannel}
use nvmevirt_learned_ftl.Ssd.Channel.Request.{request-Served}
use nvmevirt_learned_ftl.Ssd.Nand.{
  set_avail, Device, NandCmd, advance_channel, set_lun, nand_write, nand_wait, get_lun,
}

-- The channels and the link are in order.
pub record IsDevice (d : Device) : Type 0 where
  pub channels_ok : (i : ℕ) → IsChannel (d.ssd.channels i)
  pub link_ok : IsChannel d.bus.pcie

-- What a command of a die comes to: the time it ends, and the device after it.
pub record Programmed (d : Device) (p : Ppa) (stime lat : ℕ) (r : ℕ × Device) : Type 0 where
  pub after_die : (get_lun d.ssd p).next_lun_avail_time + lat ≤ r.0
  pub after_start : stime + lat ≤ r.0
  pub busy : (get_lun r.1.ssd p).next_lun_avail_time ≡ r.0
  pub other_dies : (ch lun : ℕ) → (p.ch == ch) ≡ false → r.1.ssd.luns ch lun ≡ d.ssd.luns ch lun
  pub device_ok : IsDevice r.1
  pub soon : r.0 < max (get_lun d.ssd p).next_lun_avail_time stime + lat + 2 ^ 33

abbrev with_channel : Device → ℕ → Channel → Device
with_channel d i ch = record d {
  bus = record (d.bus) { ticks = suc d.bus.ticks };
  ssd = record (d.ssd) { channels = update d.ssd.channels i ch };
}

with_channel-IsDevice :
    (d : Device) (i : ℕ) (ch : Channel) → IsDevice d → IsChannel ch → IsDevice (with_channel d i ch)
unfolding update
with_channel-IsDevice d i ch h hc = record {
  channels_ok =
      λ j. elim (Bool-cases (i == j)) [ inl e ↦ rw e hc | inr ne ↦ rw ne (h.channels_ok j) ];
  link_ok = h.link_ok;
}

-- A transfer over a channel of the array.
pub record Transferred (d : Device) (t : ℕ) (r : ℕ × Device) : Type 0 where
  pub later : t ≤ r.0
  pub soon : r.0 < t + 2 ^ 33
  pub device_ok : IsDevice r.1
  pub same_luns : r.1.ssd.luns ≡ d.ssd.luns
  pub same_sp : r.1.ssd.sp ≡ d.ssd.sp

pub channel-Transferred :
    (clock : ℕ → ℕ) (d : Device) (p : Ppa) (t len : ℕ)
    → IsDevice d
    → t < 2 ^ 63
    → (r : ℕ × Device) × (advance_channel clock d p t len ≡ some r) × Transferred d t r
unfolding advance_channel
channel-Transferred clock d p t len h ht =
    let (r, e, s) =
      request-Served (d.ssd.channels p.ch) (clock d.bus.ticks) t len (h.channels_ok p.ch) ht in
    (
      (r.0, with_channel d p.ch r.1),
      rw e refl,
      record {
        later = s.later;
        soon = s.soon;
        device_ok = with_channel-IsDevice d p.ch r.1 h s.valid;
        same_luns = refl;
        same_sp = refl;
      },
    )

-- A die that is busy until `t`, on a device that has otherwise its dies as before.
pub set_avail-Programmed :
    (d e : Device) (p : Ppa) (stime lat t : ℕ)
    → IsDevice e
    → e.ssd.luns ≡ d.ssd.luns
    → max (get_lun d.ssd p).next_lun_avail_time stime + lat ≤ t
    → t < max (get_lun d.ssd p).next_lun_avail_time stime + lat + 2 ^ 33
    → Programmed d p stime lat (t, set_avail e p t)
unfolding set_lun
set_avail-Programmed d e p stime lat t h l ht hs = record {
  after_die = omega arith;
  after_start = omega arith;
  busy = ground arith;
  other_dies = λ ch lun o. rw (o, l) refl;
  device_ok = record { channels_ok = h.channels_ok; link_ok = h.link_ok };
  soon = hs;
}

module _ (clock : ℕ → ℕ) where
  -- With the channels and the link in order, the start time and the die's free time below 2^62 and
  -- the latency below 2^32: a program command always returns, no earlier than its latency after the
  -- die is free and after its start, and within 2^33 ns of that; the die is busy until then, the
  -- dies of the other channels are as they were, and the channels and the link are in order.
  pub nand_write-Programmed :
      (d : Device) (c : NandCmd) (stime : ℕ)
      → IsDevice d
      → stime < 2 ^ 62
      → (get_lun d.ssd c.ppa).next_lun_avail_time < 2 ^ 62
      → d.ssd.sp.pg_wr_lat < 2 ^ 32
      → (r : ℕ × Device) × (nand_write clock d c stime ≡ some r)
        × Programmed d c.ppa stime d.ssd.sp.pg_wr_lat r
  unfolding nand_write
  nand_write-Programmed d c stime h hs ha hl =
      let t : ℕ = max (get_lun d.ssd c.ppa).next_lun_avail_time stime in
      let (r, e, s) = channel-Transferred clock d c.ppa t c.xfer_size h (omega arith) in
      let u : ℕ = add64 r.0 d.ssd.sp.pg_wr_lat in
      let wide : u ≡ r.0 + d.ssd.sp.pg_wr_lat = omega (arith, s.soon) in
      (
        (u, set_avail r.1 c.ppa u),
        rw e refl,
        set_avail-Programmed d r.1 c.ppa stime d.ssd.sp.pg_wr_lat u s.device_ok s.same_luns
            (omega (arith, s.later, wide)) (omega (arith, s.soon, wide)),
      )

-- Erasing and waiting always return, with the same promise.
pub nand_wait-Programmed :
    (clock : ℕ → ℕ) (d : Device) (c : NandCmd) (stime lat : ℕ)
    → IsDevice d
    → stime < 2 ^ 62
    → (get_lun d.ssd c.ppa).next_lun_avail_time < 2 ^ 62
    → lat < 2 ^ 32
    → (r : ℕ × Device) × (nand_wait clock d c stime lat ≡ some r) × Programmed d c.ppa stime lat r
unfolding nand_wait
nand_wait-Programmed clock d c stime lat h hs ha hl =
    let u : ℕ = add64 (max (get_lun d.ssd c.ppa).next_lun_avail_time stime) lat in
    (
      (u, set_avail d c.ppa u),
      refl,
      set_avail-Programmed d d c.ppa stime lat u h refl (omega arith) (omega arith),
    )
