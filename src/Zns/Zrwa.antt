-- ===== src/Zns/Zrwa.antt =====
-- `__zns_write_zrwa` of zns_read_write.c: writes to a zone with a random write area, and the flush
-- that they imply.
pub mod Kept
pub mod Whole
use nvmevirt_learned_ftl.Prelude.{
  ℕ, zero, suc, ◌+◌, ◌-◌, ◌*◌, ◌/◌, ◌%◌, ◌^◌, min, max, Bool, true, false, not, Option, none, some,
  ltb, leb, ◌==◌, ◌||◌, if◌then◌else◌, ◌>>=◌, ◌>>◌, ensure, u32, mul32, add64, sub64, mul64,
  div_round_up,
}
use nvmevirt_learned_ftl.Ssd.Nand.{zrwa_buffer, Device, advance_nand, advance_write_buffer}
use nvmevirt_learned_ftl.Zns.State.{
  ZoneState, Status, ZnsFtl, open_zone, success, err_boundary, err_full, err_read_only, err_offline,
  invalid_write, no_open_zone, acquire_zone_resource, change_zone_state, lba_to_zone, zone_to_elba,
  lba_to_lpn,
}
use nvmevirt_learned_ftl.Zns.Place.{
  RwCommand, Reply, replied, refused, Outcome, nr_lbas, last_lba, check_boundary_error, has_places,
  lpn_to_ppa, allocate_at, program_run, completion,
}
use nvmevirt_learned_ftl.Zns.Write.{increase_write_ptr, is_success}

-- `case ZONE_STATE_CLOSED`, `case ZONE_STATE_EMPTY`: a zone with no area left in its buffer is a bug.
unfoldable pub open_area : ZnsFtl → ℕ → Option (Status × ZnsFtl)
unfolding acquire_zone_resource change_zone_state allocate_at
open_area f zid =
    let (acquired, f') = acquire_zone_resource f open_zone in
    let opened = allocate_at f' (zrwa_buffer zid) f.zp.zrwa_size >>= λ a.
    ensure (not (a.0 == 0)) >> some (success, change_zone_state (a.1) zid ZoneState.opened_impl) in
    if not acquired then some (no_open_zone, f') else opened

-- The switch of `__zns_write_zrwa`: success where it breaks, else the status at `goto out`
unfoldable pub take_area : ZoneState → ZnsFtl → ℕ → Option (Status × ZnsFtl)
unfolding open_area
take_area ZoneState.closed f zid = open_area f zid
take_area ZoneState.empty f zid = open_area f zid
take_area ZoneState.opened_impl f zid = some (success, f)
take_area ZoneState.opened_expl f zid = some (success, f)
take_area ZoneState.full f zid = some (err_full, f)
take_area ZoneState.read_only f zid = some (err_read_only, f)
take_area ZoneState.offline f zid = some (err_offline, f)

-- The checks of `__zns_write_zrwa` and its switch
unfoldable pub admit_area : ℕ → ZnsFtl → ℕ → RwCommand → Option (Status × ZnsFtl)
unfolding take_area check_boundary_error
admit_area lba_bits f zid cmd =
    let z = f.zone_descs zid in
    let elba = last_lba cmd.slba (nr_lbas cmd) in
    let zrwa_impl_end = sub64 (add64 z.wp (mul32 2 f.zp.lbas_per_zrwa)) 1 in
    if not (nr_lbas cmd * 2 ^ lba_bits % f.device.ssd.sp.write_unit_size == 0)
    then some (invalid_write, f)
    else if not (check_boundary_error f cmd.slba (nr_lbas cmd))
    then some (err_boundary, f)
    else if ltb cmd.slba z.wp || ltb zrwa_impl_end elba
    then some (invalid_write, f)
    else take_area z.state f zid

-- `nr_lbas_flush`: what the write pushes out of the area, or all that is left of the zone; a flush
-- granularity of 0 makes the processor trap.
unfoldable pub nr_lbas_flush : ZnsFtl → ℕ → ℕ → ℕ → Option ℕ
unfolding zone_to_elba
nr_lbas_flush f zid prev_wp elba =
    let zrwa_impl_start = add64 prev_wp f.zp.lbas_per_zrwa in
    let fg = f.zp.lbas_per_zrwafg in
    let pushed =
      ensure (not (fg == 0))
      >> some (mul64 (div_round_up (add64 (sub64 elba zrwa_impl_start) 1) fg) fg) in
    if leb zrwa_impl_start elba
    then pushed
    else some (if elba == zone_to_elba f zid then add64 (sub64 elba prev_wp) 1 else 0)

-- `if (nr_lbas_flush > 0)`: false where the area's buffer has no room.
unfoldable pub flush_area : ℕ → ZnsFtl → ℕ → ℕ → Option (Bool × ZnsFtl)
unfolding allocate_at increase_write_ptr
flush_area lba_bits f zid flush =
    let flushed = allocate_at f (zrwa_buffer zid) (mul64 flush (2 ^ lba_bits)) >>= λ a.
    some (if a.0 == 0 then (false, a.1) else (true, increase_write_ptr (a.1) zid (u32 flush))) in
    if flush == 0 then some (true, f) else flushed

module _ (clock : ℕ → ℕ) where
  -- The body of the `while (remaining > 0)` once `pgs` is known
  unfoldable pub area_run : ZnsFtl → ℕ → ℕ → ℕ → ℕ → ℕ → Device × ℕ → Option (Device × ℕ)
  unfolding lpn_to_ppa program_run
  area_run f zid sq_id stime lpn pgs (d, nsecs_latest) =
      let spp = f.device.ssd.sp in
      let ppa = lpn_to_ppa f lpn in
      if ppa.pg % spp.pgs_per_oneshotpg + pgs == spp.pgs_per_oneshotpg
      then program_run clock f (zrwa_buffer zid) (spp.pgs_per_oneshotpg * spp.pgsz) sq_id stime lpn
          (d, nsecs_latest)
      else some (d, nsecs_latest)

  -- `while (remaining > 0)`; each round takes some pages, so the fuel is their number.
  unfoldable pub area_runs : ℕ → ZnsFtl → ℕ → ℕ → ℕ → ℕ → ℕ → Device × ℕ → Option (Device × ℕ)
  unfolding lpn_to_ppa
  area_runs zero f zid sq_id stime lpn remaining s = if remaining == 0 then some s else none
  area_runs (suc fuel) f zid sq_id stime lpn remaining s =
      let spp = f.device.ssd.sp in
      let pg_off = (lpn_to_ppa f lpn).pg % spp.pgs_per_oneshotpg in
      let pgs = min remaining (spp.pgs_per_oneshotpg - pg_off) in
      let round =
        ensure (has_places f)
        >> (area_run f zid sq_id stime lpn pgs s
            >>= area_runs fuel f zid sq_id stime (lpn + pgs) (remaining - pgs)) in
      if remaining == 0 then some s else round

  -- "get delay from nand model", to the end of `__zns_write_zrwa`
  unfoldable pub area_timing : ℕ → ZnsFtl → ℕ → ℕ → ℕ → RwCommand → Option Outcome
  unfolding lba_to_lpn
  area_timing lba_bits f zid prev_wp flush cmd =
      let spp = f.device.ssd.sp in
      let d = f.device in
      let remaining = flush / spp.secs_per_pg in
      advance_write_buffer clock spp d.bus cmd.nsecs_start (nr_lbas cmd * 2 ^ lba_bits) >>= λ w.
      area_runs remaining f zid cmd.sq_id w.0 (lba_to_lpn f prev_wp) remaining
        (record d { bus = w.1 }, w.0)
      >>= λ r. some (record {
        reply = replied success (completion spp cmd r.1 w.0);
        cmd = cmd;
        ftl = record f { device = r.0 };
      })

  -- `__zns_write_zrwa` once the zone is open
  unfoldable pub write_area : ℕ → ZnsFtl → ℕ → ℕ → RwCommand → Option Outcome
  write_area lba_bits f zid prev_wp cmd =
      nr_lbas_flush f zid prev_wp (last_lba cmd.slba (nr_lbas cmd)) >>= λ flush.
      flush_area lba_bits f zid flush >>= λ a.
      let timed = area_timing lba_bits (a.1) zid prev_wp flush cmd in
      if a.0 then timed else some (record { reply = refused; cmd = cmd; ftl = a.1 })

  -- `__zns_write_zrwa`
  unfoldable pub write_zrwa : ℕ → ZnsFtl → RwCommand → Option Outcome
  unfolding lba_to_zone admit_area
  write_zrwa lba_bits f cmd =
      let zid = lba_to_zone f cmd.slba in
      ensure (ltb zid f.zp.nr_zones)
      >> (admit_area lba_bits f zid cmd >>= λ t.
          let written = write_area lba_bits (t.1) zid (f.zone_descs zid).wp cmd in
          if is_success t.0
          then written
          else some (record { reply = replied t.0 cmd.nsecs_start; cmd = cmd; ftl = t.1 }))
