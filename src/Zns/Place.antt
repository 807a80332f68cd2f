-- ===== src/Zns/Place.antt =====
-- Where the pages of a zone lie (`__lpn_to_ppa`), the commands that read and write them, and what
-- they share in zns_read_write.c.
pub mod Bounds
use nvmevirt_learned_ftl.Prelude.{
  ℕ, ◌+◌, ◌-◌, ◌*◌, ◌/◌, ◌%◌, ◌^◌, max, Bool, true, false, Option, some, ltb, ◌==◌, ◌||◌, ◌&&◌,
  if◌then◌else◌, ◌>>=◌, update, u32, add32, add64, sub64, mul64, List, [], ◌∷◌, ◌++◌,
}
use nvmevirt_learned_ftl.Ssd.Params.{SsdParams}
use nvmevirt_learned_ftl.Ssd.Ppa.{Ppa}
use nvmevirt_learned_ftl.Ssd.Buffer
use nvmevirt_learned_ftl.Ssd.Nand.{
  BufferId, ssd_buffer, zone_buffer, zrwa_buffer, Device, Release, NandCmd, NandOp, advance_nand,
}
use nvmevirt_learned_ftl.Zns.State.{
  Status, ZnsFtl, lpn_to_zone, zone_to_slpn, lba_to_zone, zone_pgs, die_to_channel, die_to_lun,
}

-- The fields of `struct nvme_rw_command` and of the request that the zoned layer reads. `append` tells
-- a zone append from a write.
pub record RwCommand : Type 0 where
  pub append : Bool
  pub slba : ℕ
  pub length : ℕ
  pub control : ℕ
  pub sq_id : ℕ
  pub nsecs_start : ℕ

-- `struct nvmev_result`, or the handler's `return false`
pub data Reply : Type 0 where
  replied : Status → ℕ → Reply
  refused : Reply

-- What a handler leaves: a zone append writes its address into the command.
pub record Outcome : Type 0 where
  pub reply : Reply
  pub cmd : RwCommand
  pub ftl : ZnsFtl

-- `__nr_lbas_from_rw_cmd`, with `length` of 16 bits
abbrev pub nr_lbas : RwCommand → ℕ
nr_lbas cmd = cmd.length + 1

-- `slba + nr_lba - 1`
abbrev pub last_lba : ℕ → ℕ → ℕ
last_lba slba nr_lba = sub64 (add64 slba nr_lba) 1

-- `cmd->control & NVME_RW_FUA`
abbrev pub fua : RwCommand → Bool
fua r = r.control / 2 ^ 14 % 2 == 1

-- `__check_boundary_error`: true where the range is in one zone
unfoldable pub check_boundary_error : ZnsFtl → ℕ → ℕ → Bool
unfolding lba_to_zone
check_boundary_error f slba nr_lba = lba_to_zone f slba == lba_to_zone f (last_lba slba nr_lba)

-- Whether the divisors of `__lpn_to_ppa` are positive
abbrev pub has_places : ZnsFtl → Bool
has_places f =
    let spp = f.device.ssd.sp in
    ltb 0 (zone_pgs f)
    && ltb 0 spp.pgs_per_oneshotpg
    && ltb 0 f.zp.dies_per_zone
    && ltb 0 spp.tt_luns
    && ltb 0 spp.nchs

-- `__lpn_to_ppa`, where its divisors are positive: the loops that call it test `has_places`. The
-- fields of an address cut their values.
unfoldable pub lpn_to_ppa : ZnsFtl → ℕ → Ppa
unfolding lpn_to_zone zone_to_slpn die_to_channel die_to_lun
lpn_to_ppa f lpn =
    let spp = f.device.ssd.sp in
    let zone = lpn_to_zone f lpn in
    let off = sub64 lpn (zone_to_slpn f zone) in
    let sdie = u32 (mul64 zone f.zp.dies_per_zone % spp.tt_luns) in
    let die = u32 (sdie + off / spp.pgs_per_oneshotpg % f.zp.dies_per_zone) in
    record {
      pg = off % spp.pgs_per_oneshotpg % 2 ^ 16;
      blk = 0;
      pl = 0;
      lun = die_to_lun f die % 2 ^ 8;
      ch = die_to_channel f die % 2 ^ 8;
      rsv = 0;
    }

-- The buffer behind a name, and a change of it
abbrev pub buffer_at : ZnsFtl → BufferId → Buffer.Buffer
buffer_at f ssd_buffer = f.device.bus.write_buffer
buffer_at f (zone_buffer zid) = f.zone_write_buffer zid
buffer_at f (zrwa_buffer zid) = f.zrwa_buffers zid

abbrev pub set_buffer : ZnsFtl → BufferId → Buffer.Buffer → ZnsFtl
set_buffer f ssd_buffer b =
    let d = f.device in
    let bus = d.bus in record f { device = record d { bus = record bus { write_buffer = b } } }
set_buffer f (zone_buffer zid) b = record f { zone_write_buffer = update f.zone_write_buffer zid b }
set_buffer f (zrwa_buffer zid) b = record f { zrwa_buffers = update f.zrwa_buffers zid b }

-- `buffer_allocate` on the buffer behind a name
unfoldable pub allocate_at : ZnsFtl → BufferId → ℕ → Option (ℕ × ZnsFtl)
allocate_at f id size =
    Buffer.allocate (buffer_at f id) size >>= λ r. some (r.0, set_buffer f id r.1)

-- `schedule_internal_operation`
abbrev pub schedule : Device → Release → Device
schedule d plan =
    let bus = d.bus in record d { bus = record bus { scheduled = bus.scheduled ++ (plan ∷ []) } }

-- The command that programs one wordline
abbrev pub program_cmd : SsdParams → ℕ → Ppa → NandCmd
program_cmd spp stime ppa = record {
  cmd = NandOp.write;
  xfer_size = spp.pgs_per_oneshotpg * spp.pgsz;
  stime = stime;
  interleave_pci_dma = false;
  ppa = ppa;
}

-- The end of both writes: with FUA, or without early completion, the reply waits for the flash.
abbrev pub completion : SsdParams → RwCommand → ℕ → ℕ → ℕ
completion spp cmd nsecs_latest nsecs_xfer_completed =
    if fua cmd || spp.write_early_completion == 0 then nsecs_latest else nsecs_xfer_completed

-- "Aggregate write io in flash page", of both writes: programs the wordline of a page, and plans the
-- release of `size` bytes of a buffer. The state is the device and `nsecs_latest`.
unfoldable pub program_run :
    (ℕ → ℕ) → ZnsFtl → BufferId → ℕ → ℕ → ℕ → ℕ → Device × ℕ → Option (Device × ℕ)
unfolding lpn_to_ppa
program_run clock f buffer size sq_id stime lpn (d, nsecs_latest) =
    advance_nand clock d (program_cmd f.device.ssd.sp stime (lpn_to_ppa f lpn)) >>= λ r.
    let plan : Release = record {
      sqid = sq_id;
      write_buffer = buffer;
      nsecs_target = r.0;
      buffs_to_release = size;
    } in
    some (schedule (r.1) plan, max r.0 nsecs_latest)
