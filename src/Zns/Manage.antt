-- ===== src/Zns/Manage.antt =====
-- Zone management, zns_mgmt_send.c. Each action gives its status and the state after it.
pub mod Reset
pub mod Steps
pub mod Kept
pub mod Flush
use nvmevirt_learned_ftl.Prelude.{
  ℕ, zero, suc, ◌+◌, ◌*◌, ◌%◌, min, Bool, true, false, not, Option, none, some, ltb, leb, ◌==◌,
  ◌&&◌, ◌||◌, if◌then◌else◌, ◌>>=◌, ◌>>◌, ensure, update, fill, add64, sub64,
}
use nvmevirt_learned_ftl.Ssd.Buffer
use nvmevirt_learned_ftl.Zns.State.{
  ZoneState, Status, ZnsFtl, ZoneDescriptor, active_zone, open_zone, zrwa_zone, success,
  invalid_field, invalid_zone_operation, zrwa_rsrc_unavail, no_active_zone, no_open_zone,
  invalid_transition, unset, is_zone_resource_full, acquire_zone_resource, release_zone_resource,
  set_zone, change_zone_state, lba_to_zone, zone_to_slba,
}

-- `zsa` of the command; `other` is any number that the switch has no case for.
pub data Action : Type 0 where
  close_zone finish_zone open_zone_ reset_zone offline_zone flush_expl_zrwa other : Action

-- `__zmgmt_send_close_zone`, by the state of the zone
unfoldable pub close_in : ZoneState → ZnsFtl → ℕ → Status × ZnsFtl
unfolding change_zone_state release_zone_resource
close_in ZoneState.opened_impl f zid =
    (success, release_zone_resource (change_zone_state f zid ZoneState.closed) open_zone)
close_in ZoneState.opened_expl f zid =
    (success, release_zone_resource (change_zone_state f zid ZoneState.closed) open_zone)
close_in ZoneState.closed f zid = (success, f)
close_in _ f zid = (invalid_transition, f)

-- `case ZONE_STATE_CLOSED` of finish and reset: the resources that a closed zone holds
unfoldable pub release_active : ZnsFtl → ℕ → ZnsFtl
unfolding release_zone_resource
release_active f zid =
    let f1 = release_zone_resource f active_zone in
    if (f.zone_descs zid).zrwav then release_zone_resource f1 zrwa_zone else f1

-- `__zmgmt_send_finish_zone`
unfoldable pub finish_in : ZoneState → ZnsFtl → ℕ → Status × ZnsFtl
unfolding change_zone_state release_zone_resource release_active
finish_in ZoneState.opened_impl f zid = (
  success,
  change_zone_state (release_active (release_zone_resource f open_zone) zid) zid ZoneState.full,
)
finish_in ZoneState.opened_expl f zid = (
  success,
  change_zone_state (release_active (release_zone_resource f open_zone) zid) zid ZoneState.full,
)
finish_in ZoneState.closed f zid =
    (success, change_zone_state (release_active f zid) zid ZoneState.full)
finish_in ZoneState.empty f zid = (success, change_zone_state f zid ZoneState.full)
finish_in ZoneState.full f zid = (success, f)
finish_in _ f zid = (invalid_transition, f)

-- `case ZONE_STATE_CLOSED` of open
unfoldable pub reopen : ZnsFtl → ℕ → Status × ZnsFtl
unfolding acquire_zone_resource change_zone_state
reopen f zid =
    let (acquired, f') = acquire_zone_resource f open_zone in
    if not acquired
    then (no_open_zone, f')
    else (success, change_zone_state f' zid ZoneState.opened_expl)

-- `if (zrwa)` of open, once the resource is known to be there
unfoldable pub attach_zrwa : ZnsFtl → ℕ → ZnsFtl
unfolding acquire_zone_resource
attach_zrwa f zid =
    let f1 = (acquire_zone_resource f zrwa_zone).1 in
    set_zone f1 zid (record (f1.zone_descs zid) { zrwav = true })

-- `case ZONE_STATE_EMPTY` of open
unfoldable pub open_empty : ZnsFtl → ℕ → Bool → Status × ZnsFtl
unfolding acquire_zone_resource reopen attach_zrwa
open_empty f zid zrwa =
    if is_zone_resource_full f active_zone
    then (no_active_zone, f)
    else if is_zone_resource_full f open_zone
    then (no_open_zone, f)
    else if zrwa && is_zone_resource_full f zrwa_zone
    then (zrwa_rsrc_unavail, f)
    else reopen (acquire_zone_resource (if zrwa then attach_zrwa f zid else f) active_zone).1 zid

-- `__zmgmt_send_open_zone`
unfoldable pub open_in : ZoneState → ZnsFtl → ℕ → Bool → Status × ZnsFtl
unfolding open_empty reopen change_zone_state
open_in ZoneState.empty f zid zrwa = open_empty f zid zrwa
open_in ZoneState.closed f zid zrwa = reopen f zid
open_in ZoneState.opened_impl f zid zrwa = (success, change_zone_state f zid ZoneState.opened_expl)
open_in ZoneState.opened_expl f zid zrwa = (success, f)
open_in _ f zid zrwa = (invalid_transition, f)

-- `__reset_zone`: the bytes of the zone are 0, and the write pointer is back at its start.
unfoldable pub reset_contents : ZnsFtl → ℕ → ZnsFtl
reset_contents f zid =
    let z = f.zone_descs zid in
    record f {
      storage = fill f.storage (zid * f.zp.zone_size) f.zp.zone_size 0;
      zone_descs = update f.zone_descs zid (record z { wp = z.zslba; zrwav = false });
      zrwa_buffers =
          if f.zp.zrwa_buffer_size == 0
          then f.zrwa_buffers
          else update f.zrwa_buffers zid (Buffer.refill (f.zrwa_buffers zid));
    }

-- `case ZONE_STATE_FULL` and `case ZONE_STATE_EMPTY` of reset
unfoldable pub reset_full : ZnsFtl → ℕ → ZnsFtl
unfolding reset_contents change_zone_state
reset_full f zid = reset_contents (change_zone_state f zid ZoneState.empty) zid

-- `__zmgmt_send_reset_zone`
unfoldable pub reset_in : ZoneState → ZnsFtl → ℕ → Status × ZnsFtl
unfolding release_zone_resource release_active reset_full
reset_in ZoneState.opened_impl f zid =
    (success, reset_full (release_active (release_zone_resource f open_zone) zid) zid)
reset_in ZoneState.opened_expl f zid =
    (success, reset_full (release_active (release_zone_resource f open_zone) zid) zid)
reset_in ZoneState.closed f zid = (success, reset_full (release_active f zid) zid)
reset_in ZoneState.full f zid = (success, reset_full f zid)
reset_in ZoneState.empty f zid = (success, reset_full f zid)
reset_in _ f zid = (invalid_transition, f)

-- `__zmgmt_send_offline_zone`
unfoldable pub offline_in : ZoneState → ZnsFtl → ℕ → Status × ZnsFtl
unfolding change_zone_state
offline_in ZoneState.read_only f zid = (success, change_zone_state f zid ZoneState.offline)
offline_in ZoneState.offline f zid = (success, f)
offline_in _ f zid = (invalid_transition, f)

-- "change state to ZSF" of `__zmgmt_send_flush_explicit_zrwa`
unfoldable pub flush_full : ZnsFtl → ℕ → Bool → ZnsFtl
unfolding release_zone_resource change_zone_state
flush_full f zid was_open =
    let f1 = if was_open then release_zone_resource f open_zone else f in
    let f2 = release_zone_resource (release_zone_resource f1 active_zone) zrwa_zone in
    change_zone_state f2 zid ZoneState.full

-- The first three cases of the switch of `__zmgmt_send_flush_explicit_zrwa`
unfoldable pub flush_to : ZnsFtl → ℕ → ℕ → Bool → ZnsFtl
unfolding flush_full zone_to_slba
flush_to f zid slba was_open =
    let z = f.zone_descs zid in
    let f1 = set_zone f zid (record z { wp = add64 slba 1 }) in
    if add64 slba 1 == add64 (zone_to_slba f zid) z.zone_capacity
    then flush_full f1 zid was_open
    else f1

unfoldable pub flush_in : ZoneState → ZnsFtl → ℕ → ℕ → Status × ZnsFtl
unfolding flush_to
flush_in ZoneState.opened_expl f zid slba = (success, flush_to f zid slba true)
flush_in ZoneState.opened_impl f zid slba = (success, flush_to f zid slba true)
flush_in ZoneState.closed f zid slba = (success, flush_to f zid slba false)
flush_in _ f zid slba = (invalid_zone_operation, f)

-- `zrwa_end`
unfoldable pub zrwa_end : ZnsFtl → ℕ → ℕ
unfolding zone_to_slba
zrwa_end f zid =
    let z = f.zone_descs zid in
    min (sub64 (add64 z.wp f.zp.lbas_per_zrwa) 1)
      (sub64 (add64 (zone_to_slba f zid) z.zone_capacity) 1)

-- `__zmgmt_send_flush_explicit_zrwa`; a flush granularity of 0 makes the processor trap.
unfoldable pub flush_explicit_zrwa : ZnsFtl → ℕ → ℕ → Option (Status × ZnsFtl)
unfolding flush_in zrwa_end
flush_explicit_zrwa f zid slba =
    let z = f.zone_descs zid in
    let nr_lbas_flush = add64 (sub64 slba z.wp) 1 in
    let flushed =
      ensure (not (f.zp.lbas_per_zrwafg == 0))
      >> some (
          if not (nr_lbas_flush % f.zp.lbas_per_zrwafg == 0)
          then (invalid_field, f)
          else flush_in z.state f zid slba) in
    if not z.zrwav
    then some (invalid_zone_operation, f)
    else if not (leb z.wp slba && leb slba (zrwa_end f zid))
    then some (invalid_zone_operation, f)
    else flushed

-- The switch of `__zmgmt_send`. With no case for the action C returns a variable that was never set.
unfoldable pub act : Action → ZnsFtl → ℕ → ℕ → Bool → Option (Status × ZnsFtl)
unfolding close_in finish_in open_in reset_in offline_in flush_explicit_zrwa
act close_zone f zid slba option = some (close_in (f.zone_descs zid).state f zid)
act finish_zone f zid slba option = some (finish_in (f.zone_descs zid).state f zid)
act open_zone_ f zid slba option = some (open_in (f.zone_descs zid).state f zid option)
act reset_zone f zid slba option = some (reset_in (f.zone_descs zid).state f zid)
act offline_zone f zid slba option = some (offline_in (f.zone_descs zid).state f zid)
act flush_expl_zrwa f zid slba option = flush_explicit_zrwa f zid slba
act other f zid slba option = some (unset, f)

-- `__zmgmt_send`: the zone of the address is not compared with their number, and a descriptor past
-- the end is a fault.
unfoldable pub zmgmt_send_one : ZnsFtl → ℕ → Action → Bool → Option (Status × ZnsFtl)
unfolding act lba_to_zone
zmgmt_send_one f slba action option =
    let zid = lba_to_zone f slba in ensure (ltb zid f.zp.nr_zones) >> act action f zid slba option

-- The loop of `zns_zmgmt_send` over all zones, with `n` left: it drops each status.
unfoldable pub send_all : ℕ → ℕ → ZnsFtl → Action → Bool → Option ZnsFtl
unfolding zmgmt_send_one zone_to_slba
send_all zero zid f action option = some f
send_all (suc n) zid f action option = zmgmt_send_one f (zone_to_slba f zid) action option >>= λ r.
    send_all n (suc zid) r.1 action option

-- `zns_zmgmt_send`, less the time of its reply, which is that of the request
unfoldable pub zmgmt_send : ZnsFtl → Bool → ℕ → Action → Bool → Option (Status × ZnsFtl)
unfolding send_all zmgmt_send_one
zmgmt_send f select_all slba action option =
    if select_all
    then (send_all f.zp.nr_zones 0 f action option >>= λ f'. some (success, f'))
    else zmgmt_send_one f slba action option
