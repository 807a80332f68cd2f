-- ===== src/Ssd/Nand/Reading.antt =====
-- The `while (remaining)` of a read command.
use nvmevirt_learned_ftl.Prelude.{
  ℕ, zero, suc, ◌+◌, ◌-◌, ◌*◌, ◌^◌, ◌≤◌, ◌<◌, ◌≡◌, refl, arith, max, min, some, if◌then◌else◌, ◌==◌,
  Bool-cases, inl, inr, lt→ltb, ◌⊎◌, ==→eq, add64, ◌∙◌,
}
use nvmevirt_learned_ftl.Ssd.Ppa.{Ppa}
use nvmevirt_learned_ftl.Ssd.Channel.Request.{request-Served}
use nvmevirt_learned_ftl.Ssd.Nand.{
  set_avail, get_lun, set_lun, get_cell, nand_read, Device, NandCmd, advance_pcie, after_channel,
  read_transfer,
}
use nvmevirt_learned_ftl.Ssd.Nand.Timing.{IsDevice, Transferred, channel-Transferred}

after_channel-Transferred :
    (clock : ℕ → ℕ) (c : NandCmd) (t len : ℕ) (d : Device)
    → IsDevice d
    → t < 2 ^ 63
    → (r : ℕ × Device) × (after_channel clock c t len d ≡ some r) × Transferred d t r
unfolding after_channel advance_pcie
after_channel-Transferred clock c t len d h ht =
    let (r, e, s) = request-Served d.bus.pcie (clock d.bus.ticks) t len h.link_ok ht in
    elim (Bool-cases c.interleave_pci_dma) [
      | inl over ↦ (
        (r.0, record d { bus = record (d.bus) { pcie = r.1; ticks = suc d.bus.ticks } }),
        rw (over, e) refl,
        record {
          later = s.later;
          soon = s.soon;
          device_ok = record { channels_ok = h.channels_ok; link_ok = s.valid };
          same_luns = refl;
          same_sp = refl;
        },
      )
      | inr direct ↦ (
        (t, d),
        rw direct refl,
        record {
          later = omega arith;
          soon = omega arith;
          device_ok = h;
          same_luns = refl;
          same_sp = refl;
        },
      )
    ]

-- What the loop leaves: the time of the last transfer over the channel, and the completion time.
pub record Delivered (d : Device) (stime rounds : ℕ) (r : ℕ × ℕ × Device) : Type 0 where
  pub later : stime ≤ r.0
  pub complete : r.0 ≤ r.1
  pub soon : r.1 < stime + (rounds + 1) * 2 ^ 33
  pub device_ok : IsDevice r.2
  pub same_luns : r.2.ssd.luns ≡ d.ssd.luns
  pub same_sp : r.2.ssd.sp ≡ d.ssd.sp

-- The loop ends within its fuel, one round for each byte at most, and every transfer starts no
-- earlier than the last one ended.
pub read_transfer-Delivered :
    (clock : ℕ → ℕ) (fuel : ℕ) (c : NandCmd) (stime completed remaining : ℕ) (d : Device)
    → IsDevice d
    → 0 < d.ssd.sp.max_ch_xfer_size
    → remaining ≤ fuel
    → stime + (remaining + 1) * 2 ^ 33 < 2 ^ 63
    → (0 < remaining) ⊎ ((stime ≤ completed) × (completed < stime + 2 ^ 33))
    → (r : ℕ × ℕ × Device) × (read_transfer clock fuel c stime completed remaining d ≡ some r)
      × Delivered d stime remaining r
unfolding read_transfer
read_transfer-Delivered clock zero c stime completed remaining d h hm hf hs start = (
  (stime, completed, d),
  ground arith,
  record {
    later = omega arith;
    complete = omega arith;
    soon = omega arith;
    device_ok = h;
    same_luns = refl;
    same_sp = refl;
  },
)
read_transfer-Delivered clock (suc fuel) c stime completed remaining d h hm hf hs start =
    elim (Bool-cases (remaining == 0)) [
      | inl finished ↦
          let z = ==→eq remaining 0 finished in
          (
            (stime, completed, d),
            rw finished refl,
            record {
              later = omega arith;
              complete = omega arith;
              soon = omega arith;
              device_ok = h;
              same_luns = refl;
              same_sp = refl;
            },
          )
      | inr more ↦
          let pos : 0 < remaining = ground arith in
          let size : ℕ = min remaining d.ssd.sp.max_ch_xfer_size in
          let (r, e, s) = channel-Transferred clock d c.ppa stime size h (omega arith) in
          let (q, e', s') =
            after_channel-Transferred clock c r.0 size r.1 s.device_ok (omega (arith, s.soon)) in
          let sp = s'.same_sp ∙ s.same_sp in
          let (w, e'', t) =
            read_transfer-Delivered clock fuel c r.0 q.0 (remaining - size) q.1 s'.device_ok
              (rw sp hm) (omega arith) (omega (arith, s.soon)) (inr (s'.later, s'.soon)) in
          (
            w,
            rw (more, e, e') e'',
            record {
              later = omega (arith, s.later, t.later);
              complete = t.complete;
              soon = omega (arith, s.soon, t.soon);
              device_ok = t.device_ok;
              same_luns = t.same_luns ∙ s'.same_luns ∙ s.same_luns;
              same_sp = t.same_sp ∙ sp;
            },
          )
    ]

-- The latency of a read command
abbrev pub read_latency : Device → NandCmd → ℕ
read_latency d c =
    if c.xfer_size == 4096
    then d.ssd.sp.pg_4kb_rd_lat (get_cell d.ssd c.ppa)
    else d.ssd.sp.pg_rd_lat (get_cell d.ssd c.ppa)

latency-lt :
    (d : Device) (c : NandCmd)
    → d.ssd.sp.pg_4kb_rd_lat (get_cell d.ssd c.ppa) < 2 ^ 32
    → d.ssd.sp.pg_rd_lat (get_cell d.ssd c.ppa) < 2 ^ 32
    → read_latency d c < 2 ^ 32
latency-lt d c h4 hl = ground arith

avail_set :
    (d : Device) (p : Ppa) (t : ℕ) → (get_lun (set_avail d p t).ssd p).next_lun_avail_time ≡ t
unfolding set_lun
avail_set d p t = ground arith

module _ (clock : ℕ → ℕ) where
  -- With the channels and the link in order, positive `max_ch_xfer_size`, `pgs_per_flashpg` and
  -- `cell_mode`, the start time and the die's free time below 2^61, the two latencies of the cell
  -- below 2^32 and a size from 1 to 2^28 - 1: a read command, for an address in the array, returns;
  -- the die is busy for its latency at least after it was free and after the start, the command
  -- completes no earlier than the die is free again, and the channels and the link are in order
  -- after it.
  pub nand_read-Delivered :
      (d : Device) (c : NandCmd) (stime : ℕ)
      → IsDevice d
      → 0 < d.ssd.sp.max_ch_xfer_size
      → 0 < d.ssd.sp.pgs_per_flashpg
      → 0 < d.ssd.sp.cell_mode
      → stime < 2 ^ 61
      → (get_lun d.ssd c.ppa).next_lun_avail_time < 2 ^ 61
      → d.ssd.sp.pg_4kb_rd_lat (get_cell d.ssd c.ppa) < 2 ^ 32
      → d.ssd.sp.pg_rd_lat (get_cell d.ssd c.ppa) < 2 ^ 32
      → 0 < c.xfer_size
      → c.xfer_size < 2 ^ 28
      → (r : ℕ × Device) × (nand_read clock d c stime ≡ some r)
        × (max (get_lun d.ssd c.ppa).next_lun_avail_time stime + read_latency d c
            ≤ (get_lun r.1.ssd c.ppa).next_lun_avail_time)
        × ((get_lun r.1.ssd c.ppa).next_lun_avail_time ≤ r.0)
        × IsDevice r.1
  unfolding nand_read set_lun
  nand_read-Delivered d c stime h hm hp hc hs ha h4 hl hx hx' =
      let avail : ℕ = max (get_lun d.ssd c.ppa).next_lun_avail_time stime in
      let fast = latency-lt d c h4 hl in
      let wide : add64 avail (read_latency d c) ≡ avail + read_latency d c = omega (arith, fast) in
      let (r, e, s) =
        read_transfer-Delivered clock c.xfer_size c (add64 avail (read_latency d c)) 0 c.xfer_size d
          h hm (omega arith) (omega (arith, fast, wide)) (inl hx) in
      (
        (r.1, set_avail r.2 c.ppa r.0),
        rw (lt→ltb 0 _ hp, lt→ltb 0 _ hc, lt→ltb 0 c.xfer_size hx, e) refl,
        rw (avail_set r.2 c.ppa r.0) (omega (arith, s.later, wide)),
        rw (avail_set r.2 c.ppa r.0) s.complete,
        record { channels_ok = s.device_ok.channels_ok; link_ok = s.device_ok.link_ok },
      )
