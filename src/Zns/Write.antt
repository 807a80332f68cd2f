-- ===== src/Zns/Write.antt =====
-- `__zns_write` of zns_read_write.c: writes and appends at the write pointer of a zone.
pub mod Steps
pub mod Kept
pub mod Timed
pub mod Whole
pub mod Runs
pub mod Replies
pub mod Effect
use nvmevirt_learned_ftl.Prelude.{
  ℕ, zero, suc, ◌+◌, ◌-◌, ◌*◌, ◌/◌, ◌%◌, ◌^◌, min, max, Bool, true, false, not, Option, none, some,
  ltb, leb, ◌==◌, ◌||◌, ◌&&◌, if◌then◌else◌, ◌>>=◌, ◌>>◌, ensure, add64, sub64,
}
use nvmevirt_learned_ftl.Ssd.Nand.{
  BufferId, ssd_buffer, zone_buffer, Device, advance_nand, advance_write_buffer,
}
use nvmevirt_learned_ftl.Zns.State.{
  ZoneState, Status, ZnsFtl, active_zone, open_zone, success, err_boundary, err_full, err_read_only,
  err_offline, invalid_write, no_active_zone, no_open_zone, is_zone_resource_full,
  acquire_zone_resource, release_zone_resource, set_zone, change_zone_state, lba_to_zone,
  zone_to_slba, zone_to_elpn, lba_to_lpn,
}
use nvmevirt_learned_ftl.Zns.Place.{
  RwCommand, Reply, replied, refused, Outcome, nr_lbas, last_lba, check_boundary_error, has_places,
  lpn_to_ppa, allocate_at, program_run, completion,
}

-- `__increase_write_ptr`; its `ASSERT` is empty, and past the end it only prints.
unfoldable pub increase_write_ptr : ZnsFtl → ℕ → ℕ → ZnsFtl
unfolding release_zone_resource change_zone_state zone_to_slba
increase_write_ptr f zid nr_lba =
    let z = f.zone_descs zid in
    let cur_write_ptr = add64 z.wp nr_lba in
    let f1 = set_zone f zid (record z { wp = cur_write_ptr }) in
    if cur_write_ptr == add64 (zone_to_slba f zid) z.zone_capacity
    then change_zone_state (release_zone_resource (release_zone_resource f1 open_zone) active_zone)
        zid ZoneState.full
    else f1

-- `case ZONE_STATE_CLOSED` of the switch of `__zns_write`: "change to ZSIO"
unfoldable pub open_implicitly : ZnsFtl → ℕ → Status × ZnsFtl
unfolding acquire_zone_resource change_zone_state
open_implicitly f zid =
    let (acquired, f') = acquire_zone_resource f open_zone in
    if not acquired
    then (no_open_zone, f')
    else (success, change_zone_state f' zid ZoneState.opened_impl)

-- The switch of `__zns_write`: success where it breaks, else the status at `goto out`
unfoldable pub take_zone : ZoneState → ZnsFtl → ℕ → ℕ → Status × ZnsFtl
unfolding open_implicitly acquire_zone_resource
take_zone ZoneState.empty f zid slba =
    if not (slba == (f.zone_descs zid).zslba)
    then (invalid_write, f)
    else if is_zone_resource_full f active_zone
    then (no_active_zone, f)
    else if is_zone_resource_full f open_zone
    then (no_open_zone, f)
    else open_implicitly (acquire_zone_resource f active_zone).1 zid
take_zone ZoneState.closed f zid slba = open_implicitly f zid
take_zone ZoneState.opened_impl f zid slba = (success, f)
take_zone ZoneState.opened_expl f zid slba = (success, f)
take_zone ZoneState.full f zid slba = (err_full, f)
take_zone ZoneState.read_only f zid slba = (err_read_only, f)
take_zone ZoneState.offline f zid slba = (err_offline, f)

abbrev pub is_success : Status → Bool
is_success success = true
is_success _ = false

-- After the switch: where it breaks, the write pointer moves on.
unfoldable pub settle : ℕ → ℕ → Status × ZnsFtl → Status × ZnsFtl
unfolding increase_write_ptr
settle zid nr_lba (success, f) = (success, increase_write_ptr f zid nr_lba)
settle zid nr_lba (status, f) = (status, f)

-- From the checks of `__zns_write` to `__increase_write_ptr`: the state and the write pointer of the
-- zone, and the status, where `write_unit_size` is positive.
unfoldable pub advance_zone : ℕ → ZnsFtl → ℕ → ℕ → ℕ → Status × ZnsFtl
unfolding take_zone settle check_boundary_error
advance_zone lba_bits f zid slba nr_lba =
    let z = f.zone_descs zid in
    if not (nr_lba * 2 ^ lba_bits % f.device.ssd.sp.write_unit_size == 0)
    then (invalid_write, f)
    else if not (check_boundary_error f slba nr_lba)
    then (err_boundary, f)
    else if not (slba == z.wp)
    then (invalid_write, f)
    else settle zid nr_lba (take_zone z.state f zid slba)

-- `bufs_to_release`: the last wordline of a zone may be cut by the end of the zone.
unfoldable pub bufs_to_release : ZnsFtl → Bool → ℕ
bufs_to_release f at_zone_end =
    let spp = f.device.ssd.sp in
    let unaligned_space = f.zp.zone_size % (spp.pgs_per_oneshotpg * spp.pgsz) in
    if at_zone_end && ltb 0 unaligned_space
    then unaligned_space
    else spp.pgs_per_oneshotpg * spp.pgsz

module _ (clock : ℕ → ℕ) where
  -- The body of the loop of `__zns_write` once `pgs` is known: the device, and `nsecs_latest`
  unfoldable pub write_run :
      ZnsFtl → BufferId → ℕ → ℕ → ℕ → ℕ → ℕ → Device × ℕ → Option (Device × ℕ)
  unfolding bufs_to_release lpn_to_ppa program_run
  write_run f buffer sq_id stime zone_elpn lpn pgs (d, nsecs_latest) =
      let spp = f.device.ssd.sp in
      let ppa = lpn_to_ppa f lpn in
      let at_zone_end = lpn + pgs - 1 == zone_elpn in
      if ppa.pg % spp.pgs_per_oneshotpg + pgs == spp.pgs_per_oneshotpg || at_zone_end
      then program_run clock f buffer (bufs_to_release f at_zone_end) sq_id stime lpn
          (d, nsecs_latest)
      else some (d, nsecs_latest)

  -- `for (lpn = slpn; lpn <= elpn; lpn += pgs)`; each round takes some pages, so the fuel is their
  -- number.
  unfoldable pub write_runs :
      ℕ → ZnsFtl → BufferId → ℕ → ℕ → ℕ → ℕ → ℕ → Device × ℕ → Option (Device × ℕ)
  unfolding lpn_to_ppa
  write_runs zero f buffer sq_id stime zone_elpn lpn elpn s = if leb lpn elpn then none else some s
  write_runs (suc fuel) f buffer sq_id stime zone_elpn lpn elpn s =
      let spp = f.device.ssd.sp in
      let pg_off = (lpn_to_ppa f lpn).pg % spp.pgs_per_oneshotpg in
      let pgs = min (elpn - lpn + 1) (spp.pgs_per_oneshotpg - pg_off) in
      let round =
        ensure (has_places f)
        >> (write_run f buffer sq_id stime zone_elpn lpn pgs s
            >>= write_runs fuel f buffer sq_id stime zone_elpn (lpn + pgs) elpn) in
      if leb lpn elpn then round else some s

  -- "get delay from nand model", to the end of `__zns_write`
  unfoldable pub write_timing : ℕ → ZnsFtl → BufferId → ℕ → RwCommand → Option Outcome
  unfolding lba_to_lpn zone_to_elpn
  write_timing lba_bits f buffer zid cmd =
      let spp = f.device.ssd.sp in
      let d = f.device in
      let slpn = lba_to_lpn f cmd.slba in
      let elpn = lba_to_lpn f (last_lba cmd.slba (nr_lbas cmd)) in
      advance_write_buffer clock spp d.bus cmd.nsecs_start (nr_lbas cmd * 2 ^ lba_bits) >>= λ w.
      write_runs (elpn + 1 - slpn) f buffer cmd.sq_id w.0 (zone_to_elpn f zid) slpn elpn
        (record d { bus = w.1 }, w.0)
      >>= λ r. some (record {
        reply = replied success (completion spp cmd r.1 w.0);
        cmd = cmd;
        ftl = record f { device = r.0 };
      })

  -- `__zns_write` once its part of the buffer is allocated. A `write_unit_size` of 0 is a fault.
  unfoldable pub buffered_write : ℕ → ZnsFtl → BufferId → ℕ → RwCommand → Option Outcome
  unfolding advance_zone
  buffered_write lba_bits f buffer zid cmd =
      let (status, f') = advance_zone lba_bits f zid cmd.slba (nr_lbas cmd) in
      let timed = write_timing lba_bits f' buffer zid cmd in
      ensure (ltb 0 f.device.ssd.sp.write_unit_size)
      >> (if is_success status
          then timed
          else some (record { reply = replied status cmd.nsecs_start; cmd = cmd; ftl = f' }))

  -- `__zns_write`. A descriptor past the end is a fault.
  unfoldable pub write_zone : ℕ → ZnsFtl → RwCommand → Option Outcome
  unfolding lba_to_zone
  write_zone lba_bits f cmd =
      let zid = lba_to_zone f cmd.slba in
      let size = nr_lbas cmd * 2 ^ lba_bits in
      let cmd' = if cmd.append then record cmd { slba = (f.zone_descs zid).wp } else cmd in
      let buffer = if f.zp.zone_wb_size == 0 then ssd_buffer else zone_buffer zid in
      ensure (ltb zid f.zp.nr_zones)
      >> (allocate_at f buffer size >>= λ a.
          let go_on = buffered_write lba_bits a.1 buffer zid cmd' in
          if ltb a.0 size then some (record { reply = refused; cmd = cmd'; ftl = a.1 }) else go_on)
