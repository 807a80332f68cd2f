-- ===== src/Zns/Read.antt =====
-- `zns_read` of zns_read_write.c.
use nvmevirt_learned_ftl.Prelude.{
  ℕ, zero, suc, ◌+◌, ◌-◌, ◌*◌, ◌%◌, ◌^◌, min, max, false, not, Option, none, some, ltb, leb,
  if◌then◌else◌, ◌>>=◌, ◌>>◌, ensure, add64, mul64, kb,
}
use nvmevirt_learned_ftl.Ssd.Nand.{Device, NandCmd, NandOp, advance_nand, advance_pcie}
use nvmevirt_learned_ftl.Zns.State.{
  ZoneState, Status, ZnsFtl, success, err_boundary, err_offline, lpn_to_zone, lba_to_lpn,
}
use nvmevirt_learned_ftl.Zns.Place.{
  RwCommand, replied, Outcome, nr_lbas, last_lba, check_boundary_error, has_places, lpn_to_ppa,
}

-- The status of a read of a zone in state `state`
unfoldable pub read_status : ZoneState → ZnsFtl → RwCommand → Status
unfolding check_boundary_error
read_status ZoneState.offline f cmd = err_offline
read_status _ f cmd =
    if not (check_boundary_error f cmd.slba (nr_lbas cmd)) then err_boundary else success

-- `pgs` of the loop of `zns_read`: to the end of the flash page or of the range
abbrev pub read_size : ZnsFtl → ℕ → ℕ → ℕ
read_size f lpn elpn =
    let n = f.device.ssd.sp.pgs_per_flashpg in min (elpn - lpn + 1) (n - (lpn_to_ppa f lpn).pg % n)

-- The command of one round
abbrev pub read_cmd : ZnsFtl → ℕ → ℕ → ℕ → NandCmd
read_cmd f stime lpn pgs = record {
  cmd = NandOp.read;
  xfer_size = mul64 pgs f.device.ssd.sp.pgsz;
  stime = stime;
  interleave_pci_dma = false;
  ppa = lpn_to_ppa f lpn;
}

module _ (clock : ℕ → ℕ) where
  -- `for (lpn = slpn; lpn <= elpn; lpn += pgs)`: one command for each flash page. Each round takes
  -- some pages, so the fuel is their number.
  unfoldable pub read_runs : ℕ → ZnsFtl → ℕ → ℕ → ℕ → Device × ℕ → Option (Device × ℕ)
  unfolding lpn_to_ppa
  read_runs zero f stime lpn elpn s = if leb lpn elpn then none else some s
  read_runs (suc fuel) f stime lpn elpn (d, nsecs_latest) =
      let pgs = read_size f lpn elpn in
      let round =
        ensure (has_places f)
        >> (advance_nand clock d (read_cmd f stime lpn pgs) >>= λ r.
            read_runs fuel f stime (lpn + pgs) elpn (r.1, max r.0 nsecs_latest)) in
      if leb lpn elpn then round else some (d, nsecs_latest)

  -- `zns_read`: a range with an error status is timed all the same. A descriptor past the end is a
  -- fault.
  unfoldable pub zns_read : ℕ → ZnsFtl → RwCommand → Option Outcome
  unfolding lba_to_lpn lpn_to_zone read_status
  zns_read lba_bits f cmd =
      let spp = f.device.ssd.sp in
      let slpn = lba_to_lpn f cmd.slba in
      let elpn = lba_to_lpn f (last_lba cmd.slba (nr_lbas cmd)) in
      let zid = lpn_to_zone f slpn in
      let status = read_status (f.zone_descs zid).state f cmd in
      let lat =
        if leb (nr_lbas cmd * 2 ^ lba_bits) (kb 4) then spp.fw_4kb_rd_lat else spp.fw_rd_lat in
      let stime = add64 cmd.nsecs_start lat in
      ensure (ltb zid f.zp.nr_zones)
      >> (read_runs (elpn + 1 - slpn) f stime slpn elpn (f.device, stime) >>= λ r.
          let d = r.0 in
          advance_pcie clock d.bus r.1 (mul64 (nr_lbas cmd) spp.secsz) >>= λ t. some (record {
            reply = replied status (max t.0 r.1);
            cmd = cmd;
            ftl = record f { device = record d { bus = t.1 } };
          }))
