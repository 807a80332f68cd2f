-- ===== src/Ssd/Nand/Advance.antt =====
-- `ssd_advance_nand` as a whole, for every command.
use nvmevirt_learned_ftl.Prelude.{
  ℕ, true, false, ◌^◌, ◌≤◌, ◌<◌, ◌≡◌, refl, arith, some, ◌==◌, Bool-cases, inl, inr, if◌then◌else◌,
}
use nvmevirt_learned_ftl.Ssd.Ppa.{Ppa, word, unmapped_ppa}
use nvmevirt_learned_ftl.Ssd.Nand.{
  Device, NandCmd, NandOp, get_lun, get_cell, start, in_array, nand_op, advance_nand,
}
use nvmevirt_learned_ftl.Ssd.Nand.Timing.{IsDevice, nand_write-Programmed, nand_wait-Programmed}
use nvmevirt_learned_ftl.Ssd.Nand.Reading.{nand_read-Delivered}

-- A device on which no time wraps: it is in order, its latencies are short, and the die of an address
-- is free before 2^61.
pub record IsPaced (d : Device) (p : Ppa) : Type 0 where
  pub in_order : IsDevice d
  pub transfers : 0 < d.ssd.sp.max_ch_xfer_size
  pub some_pages : 0 < d.ssd.sp.pgs_per_flashpg
  pub some_cells : 0 < d.ssd.sp.cell_mode
  pub free_soon : (get_lun d.ssd p).next_lun_avail_time < 2 ^ 61
  pub short_4kb : d.ssd.sp.pg_4kb_rd_lat (get_cell d.ssd p) < 2 ^ 32
  pub short_read : d.ssd.sp.pg_rd_lat (get_cell d.ssd p) < 2 ^ 32
  pub short_write : d.ssd.sp.pg_wr_lat < 2 ^ 32
  pub short_erase : d.ssd.sp.blk_er_lat < 2 ^ 32

-- When a command starts.
abbrev pub start_time : (ℕ → ℕ) → Device → NandCmd → ℕ
start_time clock d c = if c.stime == 0 then clock d.bus.ticks else c.stime

module _ (clock : ℕ → ℕ) where
  nand_op-IsDevice :
      (op : NandOp) (d : Device) (c : NandCmd) (stime : ℕ)
      → IsPaced d c.ppa
      → stime < 2 ^ 61
      → (op ≡ NandOp.read → (0 < c.xfer_size) × (c.xfer_size < 2 ^ 28))
      → (r : ℕ × Device) × (nand_op clock op d c stime ≡ some r) × (stime ≤ r.0) × IsDevice r.1
  unfolding nand_op
  nand_op-IsDevice NandOp.read d c stime h hs sized =
      let (r, e, a, b, ok) =
        nand_read-Delivered clock d c stime h.in_order h.transfers h.some_pages h.some_cells hs
          h.free_soon h.short_4kb h.short_read (sized refl).0 (sized refl).1 in
      (r, e, omega (arith, a, b), ok)
  nand_op-IsDevice NandOp.write d c stime h hs sized =
      let (r, e, q) =
        nand_write-Programmed clock d c stime h.in_order (omega arith) (omega (arith, h.free_soon))
          h.short_write in
      (r, e, omega (arith, q.after_start), q.device_ok)
  nand_op-IsDevice NandOp.erase d c stime h hs sized =
      let (r, e, q) =
        nand_wait-Programmed clock d c stime d.ssd.sp.blk_er_lat h.in_order (omega arith)
          (omega (arith, h.free_soon)) h.short_erase in
      (r, e, omega (arith, q.after_start), q.device_ok)
  nand_op-IsDevice NandOp.nop d c stime h hs sized =
      let (r, e, q) =
        nand_wait-Programmed clock d c stime 0 h.in_order (omega arith) (omega (arith, h.free_soon))
          (omega arith) in
      (r, e, omega (arith, q.after_start), q.device_ok)

  start-IsPaced :
      (d : Device) (c : NandCmd)
      → IsPaced d c.ppa
      → ((start clock d c).0 ≡ start_time clock d c) × IsPaced (start clock d c).1 c.ppa
  start-IsPaced d c h = elim (Bool-cases (c.stime == 0)) [
    | inl now ↦ rw now (
      refl,
      record {
        in_order = record { channels_ok = h.in_order.channels_ok; link_ok = h.in_order.link_ok };
        transfers = h.transfers;
        some_pages = h.some_pages;
        some_cells = h.some_cells;
        free_soon = h.free_soon;
        short_4kb = h.short_4kb;
        short_read = h.short_read;
        short_write = h.short_write;
        short_erase = h.short_erase;
      },
    )
    | inr later ↦ rw later (refl, h)
  ]

  -- With the channels and the link in order, positive `max_ch_xfer_size`, `pgs_per_flashpg` and
  -- `cell_mode`, an address that is unmapped or has its channel and die in the array, latencies
  -- below 2^32, the die's free time and the command's start below 2^61, and for a read a size from
  -- 1 to 2^28 - 1: `ssd_advance_nand` returns, no earlier than the command's start, and leaves the
  -- channels and the link in order.
  pub advance_nand-IsDevice :
      (d : Device) (c : NandCmd)
      → IsPaced d c.ppa
      → start_time clock d c < 2 ^ 61
      → ((word c.ppa == unmapped_ppa) ≡ false → in_array d.ssd.sp c.ppa ≡ true)
      → (c.cmd ≡ NandOp.read → (0 < c.xfer_size) × (c.xfer_size < 2 ^ 28))
      → (r : ℕ × Device) × (advance_nand clock d c ≡ some r)
        × (start_time clock d c ≤ r.0)
        × IsDevice r.1
  unfolding advance_nand
  advance_nand-IsDevice d c h hs inside sized =
      let (e, h') = start-IsPaced d c h in
      let d' = (start clock d c).1 in
      elim (Bool-cases (word c.ppa == unmapped_ppa)) [
        | inl nowhere ↦ (start clock d c, rw nowhere refl, omega (arith, e), h'.in_order)
        | inr somewhere ↦
            let (r, q, t, ok) =
              nand_op-IsDevice c.cmd d' c (start clock d c).0 h' (omega (arith, e)) sized in
            (r, rw (somewhere, inside somewhere) q, omega (arith, e, t), ok)
      ]
