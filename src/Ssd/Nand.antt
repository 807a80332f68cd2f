-- ===== src/Ssd/Nand.antt =====
-- The NAND array and its timing: `struct ssd` (ssd.h) and `ssd_advance_*` (ssd.c).
-- The PCIe link and the write buffer are shared by all partitions, so they stand apart from `Ssd`,
-- with the number of clock readings so far. `clock` gives the reading of each call of `cpu_clock`.
pub mod Idle
pub mod Same
pub mod Programs
pub mod Timing
pub mod Reading
pub mod Advance
use nvmevirt_learned_ftl.Prelude.{
  ℕ, zero, suc, ◌+◌, ◌-◌, ◌*◌, ◌/◌, ◌%◌, min, max, Bool, true, false, Option, none, some, List, [],
  ltb, ◌==◌, if◌then◌else◌, ◌>>=◌, ◌>>◌, ensure, update, u32, add32, add64, mul64, div_round_up, kb,
  ◌&&◌,
}
use nvmevirt_learned_ftl.Ssd.Params.{SsdParams}
use nvmevirt_learned_ftl.Ssd.Ppa.{Ppa, word, unmapped_ppa, same_pg, same_blk}
use nvmevirt_learned_ftl.Ssd.Buffer.{Buffer}
use nvmevirt_learned_ftl.Ssd.Buffer
use nvmevirt_learned_ftl.Ssd.Channel.{Channel, unit_xfer_size}
use nvmevirt_learned_ftl.Ssd.Channel

-- `PG_FREE`, `PG_INVALID`, `PG_VALID`
pub data PgStatus : Type 0 where
  free invalid valid : PgStatus

-- The counters of `struct nand_block`; its `npgs` is `pgs_per_blk`.
pub record Block : Type 0 where
  pub ipc : ℕ
  pub vpc : ℕ
  pub erase_cnt : ℕ

-- `struct nand_lun`, less its planes and the field `busy`, which nothing reads.
pub record Lun : Type 0 where
  pub next_lun_avail_time : ℕ
  pub gc_endtime : ℕ

-- `struct ssd`, less what the partitions share. `status` and `blocks` are the nested arrays of pages
-- and blocks, `luns` and `channels` those of the dies and links.
pub record Ssd : Type 0 where
  pub sp : SsdParams
  pub status : Ppa → PgStatus
  pub blocks : Ppa → Block
  pub luns : ℕ → ℕ → Lun
  pub channels : ℕ → Channel

-- The buffers that the code names by a pointer: `ssd->write_buffer`, and for each zone an entry of
-- `zone_write_buffer` and of `zrwa_buffer`.
pub data BufferId : Type 0 where
  ssd_buffer : BufferId
  zone_buffer zrwa_buffer : ℕ → BufferId

-- A call of `schedule_internal_operation`: when to give how much back to which buffer.
pub record Release : Type 0 where
  pub sqid : ℕ
  pub write_buffer : BufferId
  pub nsecs_target : ℕ
  pub buffs_to_release : ℕ

pub record Bus : Type 0 where
  pub pcie : Channel
  pub write_buffer : Buffer
  pub ticks : ℕ
  pub scheduled : List Release

pub record Device : Type 0 where
  pub bus : Bus
  pub ssd : Ssd

-- `NAND_READ`, `NAND_WRITE`, `NAND_ERASE`, `NAND_NOP`; no caller passes another command.
pub data NandOp : Type 0 where
  read write erase nop : NandOp

-- `struct nand_cmd`, less the field `type`, which nothing reads.
pub record NandCmd : Type 0 where
  pub cmd : NandOp
  pub xfer_size : ℕ
  pub stime : ℕ
  pub interleave_pci_dma : Bool
  pub ppa : Ppa

-- `get_pg(ssd, ppa)->status = s`
unfoldable pub set_status : (Ppa → PgStatus) → Ppa → PgStatus → Ppa → PgStatus
set_status f p s q = if same_pg p q then s else f q

-- `*get_blk(ssd, ppa) = b`
unfoldable pub set_block : (Ppa → Block) → Ppa → Block → Ppa → Block
set_block f p b q = if same_blk p q then b else f q

-- `get_lun`, for an address in the array
abbrev pub get_lun : Ssd → Ppa → Lun
get_lun s p = s.luns p.ch p.lun

unfoldable pub set_lun : (ℕ → ℕ → Lun) → Ppa → Lun → ℕ → ℕ → Lun
set_lun f p l ch lun = if p.ch == ch && p.lun == lun then l else f ch lun

-- `get_cell`, where both divisors are positive
abbrev pub get_cell : Ssd → Ppa → ℕ
get_cell s p = p.pg / s.sp.pgs_per_flashpg % s.sp.cell_mode

-- Whether the divisors of `get_cell` are positive
abbrev pub has_cells : SsdParams → Bool
has_cells spp = ltb 0 spp.pgs_per_flashpg && ltb 0 spp.cell_mode

-- Whether the indices of `get_ch` and `get_lun` lie in their arrays
abbrev pub in_array : SsdParams → Ppa → Bool
in_array spp p = ltb p.ch spp.nchs && ltb p.lun spp.luns_per_ch

-- `lunp->next_lun_avail_time = t`
abbrev pub set_avail : Device → Ppa → ℕ → Device
set_avail d p t = record d {
  ssd = record (d.ssd) {
    luns = set_lun d.ssd.luns p (record (get_lun d.ssd p) { next_lun_avail_time = t });
  };
}

-- The loops of `ssd_next_idle_time`, over the dies of a channel and over the channels: `n` rounds
-- are left.
unfoldable pub lun_idle_time : Ssd → ℕ → ℕ → ℕ → ℕ → ℕ
lun_idle_time s ch zero j latest = latest
lun_idle_time s ch (suc n) j latest =
    lun_idle_time s ch n (j + 1) (max latest (s.luns ch j).next_lun_avail_time)

unfoldable pub ch_idle_time : Ssd → ℕ → ℕ → ℕ → ℕ
unfolding lun_idle_time
ch_idle_time s zero i latest = latest
ch_idle_time s (suc n) i latest =
    ch_idle_time s n (i + 1) (lun_idle_time s i s.sp.luns_per_ch 0 latest)

module _ (clock : ℕ → ℕ) where
  -- `ssd_advance_pcie`
  unfoldable pub advance_pcie : Bus → ℕ → ℕ → Option (ℕ × Bus)
  advance_pcie b request_time length = do
    r ← Channel.request b.pcie (clock b.ticks) request_time length
    some (r.0, record b { pcie = r.1; ticks = suc b.ticks })

  -- `chmodel_request(ch->perf_model, …)` for the channel of an address
  unfoldable pub advance_channel : Device → Ppa → ℕ → ℕ → Option (ℕ × Device)
  advance_channel d p request_time length = do
    r ← Channel.request (d.ssd.channels p.ch) (clock d.bus.ticks) request_time length
    some (
      r.0,
      record d {
        bus = record (d.bus) { ticks = suc d.bus.ticks };
        ssd = record (d.ssd) { channels = update d.ssd.channels p.ch r.1 };
      },
    )

  -- `ssd_advance_write_buffer`
  unfoldable pub advance_write_buffer : SsdParams → Bus → ℕ → ℕ → Option (ℕ × Bus)
  advance_write_buffer spp b request_time length =
      advance_pcie b
        (add64 (add64 request_time spp.fw_wbuf_lat0)
          (mul64 spp.fw_wbuf_lat1 (div_round_up length (kb 4))))
        length

  -- `if (ncmd->interleave_pci_dma)`: the transfer goes on over PCIe.
  unfoldable pub after_channel : NandCmd → ℕ → ℕ → Device → Option (ℕ × Device)
  after_channel ncmd chnl_etime xfer_size d = elim ncmd.interleave_pci_dma [
    | true ↦ advance_pcie d.bus chnl_etime xfer_size >>= λ r. some (r.0, record d { bus = r.1 })
    | false ↦ some (chnl_etime, d)
  ]

  -- The `while (remaining)` of a read: the times `chnl_etime` and `completed_time` at its end.
  -- The fuel is the bytes that remain, of which each round takes some.
  unfoldable pub read_transfer : ℕ → NandCmd → ℕ → ℕ → ℕ → Device → Option (ℕ × ℕ × Device)
  read_transfer zero ncmd chnl_stime completed_time remaining d =
      if remaining == 0 then some (chnl_stime, completed_time, d) else none
  read_transfer (suc fuel) ncmd chnl_stime completed_time remaining d =
      let xfer_size = min remaining d.ssd.sp.max_ch_xfer_size in
      let round = advance_channel d ncmd.ppa chnl_stime xfer_size >>= λ r.
      after_channel ncmd r.0 xfer_size r.1 >>= λ c.
      read_transfer fuel ncmd r.0 c.0 (remaining - xfer_size) c.1 in
      if remaining == 0 then some (chnl_stime, completed_time, d) else round

  -- `case NAND_READ`. With a divisor of 0, or with nothing to transfer, where C reads
  -- variables that were never set, it is a fault.
  unfoldable pub nand_read : Device → NandCmd → ℕ → Option (ℕ × Device)
  nand_read d ncmd cmd_stime = do
    let nand_stime = max (get_lun d.ssd ncmd.ppa).next_lun_avail_time cmd_stime
    let cell = get_cell d.ssd ncmd.ppa
    let lat =
        if ncmd.xfer_size == 4096 then d.ssd.sp.pg_4kb_rd_lat cell else d.ssd.sp.pg_rd_lat cell
    ensure (has_cells d.ssd.sp && ltb 0 ncmd.xfer_size)
    r ← read_transfer ncmd.xfer_size ncmd (add64 nand_stime lat) 0 ncmd.xfer_size d
    some (r.1, set_avail r.2 ncmd.ppa r.0)

  -- `case NAND_WRITE`
  unfoldable pub nand_write : Device → NandCmd → ℕ → Option (ℕ × Device)
  nand_write d ncmd cmd_stime = do
    let chnl_stime = max (get_lun d.ssd ncmd.ppa).next_lun_avail_time cmd_stime
    r ← advance_channel d ncmd.ppa chnl_stime ncmd.xfer_size
    let nand_etime = add64 r.0 d.ssd.sp.pg_wr_lat
    some (nand_etime, set_avail r.1 ncmd.ppa nand_etime)

  -- `case NAND_ERASE` and `case NAND_NOP`: the die is busy for `lat` more.
  unfoldable pub nand_wait : Device → NandCmd → ℕ → ℕ → Option (ℕ × Device)
  nand_wait d ncmd cmd_stime lat =
      let nand_etime = add64 (max (get_lun d.ssd ncmd.ppa).next_lun_avail_time cmd_stime) lat in
      some (nand_etime, set_avail d ncmd.ppa nand_etime)

  unfoldable pub nand_op : NandOp → Device → NandCmd → ℕ → Option (ℕ × Device)
  nand_op read d ncmd cmd_stime = nand_read d ncmd cmd_stime
  nand_op write d ncmd cmd_stime = nand_write d ncmd cmd_stime
  nand_op erase d ncmd cmd_stime = nand_wait d ncmd cmd_stime d.ssd.sp.blk_er_lat
  nand_op nop d ncmd cmd_stime = nand_wait d ncmd cmd_stime 0

  -- The start time: a command with `stime` 0 starts now.
  abbrev pub start : Device → NandCmd → ℕ × Device
  start d ncmd =
      if ncmd.stime == 0
      then (clock d.bus.ticks, record d { bus = record (d.bus) { ticks = suc d.bus.ticks } })
      else (ncmd.stime, d)

  -- `ssd_advance_nand`: the completion time, and the device after it. An address outside the array is
  -- a fault.
  unfoldable pub advance_nand : Device → NandCmd → Option (ℕ × Device)
  unfolding nand_op
  advance_nand d ncmd =
      let (cmd_stime, d') = start d ncmd in
      if word ncmd.ppa == unmapped_ppa
      then some (cmd_stime, d')
      else ensure (in_array d.ssd.sp ncmd.ppa) >> nand_op ncmd.cmd d' ncmd cmd_stime

  -- `ssd_next_idle_time`
  unfoldable pub next_idle_time : Device → ℕ × Device
  unfolding ch_idle_time
  next_idle_time d = (
    ch_idle_time d.ssd d.ssd.sp.nchs 0 (clock d.bus.ticks),
    record d { bus = record (d.bus) { ticks = suc d.bus.ticks } },
  )

-- `ssd_init_ch`: the channel's model, with the firmware overhead; `spp` gives its bandwidth.
unfoldable pub init_channel : SsdParams → Channel
init_channel spp =
    let ch = Channel.init spp.ch_bandwidth in
    record ch { xfer_lat = add32 ch.xfer_lat (u32 (spp.fw_ch_xfer_lat * unit_xfer_size / kb 4)) }

-- `ssd_init`: every page is free and every counter is 0. (`gc_endtime` is not set by the code; it is
-- written before it is read.)
unfoldable pub init : SsdParams → Ssd
init spp = record {
  sp = spp;
  status = λ p. free;
  blocks = λ p. record { ipc = 0; vpc = 0; erase_cnt = 0 };
  luns = λ ch lun. record { next_lun_avail_time = 0; gc_endtime = 0 };
  channels = λ i. init_channel spp;
}

-- `ssd_init_pcie` and `buffer_init` of the first partition, whose link and buffer all share
unfoldable pub init_bus : SsdParams → Bus
init_bus spp = record {
  pcie = Channel.init spp.pcie_bandwidth;
  write_buffer = Buffer.init spp.write_buffer_size;
  ticks = 0;
  scheduled = [];
}
