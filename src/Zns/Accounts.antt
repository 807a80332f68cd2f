-- ===== src/Zns/Accounts.antt =====
-- The resources that zones hold, against the counters of `res_infos`.
pub mod Count
pub mod Kept
use nvmevirt_learned_ftl.Prelude.{
  ℕ, zero, suc, ◌+◌, ◌*◌, ◌^◌, ◌≤◌, ◌<◌, Bool, true, false, ◌&&◌, ◌≡◌, ◌≢◌,
}
use nvmevirt_learned_ftl.Zns.State.{ZoneState, ZoneDescriptor, ZnsFtl, zone_lbas, zone_pgs}
use nvmevirt_learned_ftl.Zns.Accounts.Count.{weight, count}

abbrev pub open_state : ZoneState → Bool
open_state ZoneState.opened_impl = true
open_state ZoneState.opened_expl = true
open_state _ = false

abbrev pub active_state : ZoneState → Bool
active_state ZoneState.opened_impl = true
active_state ZoneState.opened_expl = true
active_state ZoneState.closed = true
active_state _ = false

abbrev pub is_open : ZoneDescriptor → Bool
is_open z = open_state z.state

abbrev pub is_active : ZoneDescriptor → Bool
is_active z = active_state z.state

-- The zones that hold a random write area: a full zone keeps the flag, but no area.
abbrev pub holds_zrwa : ZoneDescriptor → Bool
holds_zrwa z = active_state z.state && z.zrwav

-- The layout: the sectors of all zones are counted in 32 bits, as `zone_to_slba` does, and a zone is
-- made of whole pages.
pub record IsLayout (f : ZnsFtl) : Type 0 where
  pub some_lbas : 0 < zone_lbas f
  pub fits : f.zp.nr_zones * zone_lbas f < 2 ^ 32
  pub whole_pages : zone_lbas f ≡ f.device.ssd.sp.secs_per_pg * zone_pgs f
  pub start : (zid : ℕ) → zid < f.zp.nr_zones → (f.zone_descs zid).zslba ≡ zid * zone_lbas f
  pub capacity : (zid : ℕ) → zid < f.zp.nr_zones → (f.zone_descs zid).zone_capacity ≡ zone_lbas f

-- One zone in order: the write pointer stays in the zone, and before its end while it is active.
pub record IsZone (z : ZoneDescriptor) : Type 0 where
  pub from_start : z.zslba ≤ z.wp
  pub to_end : z.wp ≤ z.zslba + z.zone_capacity
  pub active_has_room : active_state z.state ≡ true → z.wp < z.zslba + z.zone_capacity
  pub empty_at_start : z.state ≡ ZoneState.empty → z.wp ≡ z.zslba
  pub empty_plain : z.state ≡ ZoneState.empty → z.zrwav ≡ false

-- The counters are the numbers of zones that hold each resource, within their totals. `leaked` areas
-- are counted but held by no zone.
pub record IsAccounted (leaked : ℕ) (f : ZnsFtl) : Type 0 where
  pub opened : f.res_infos.open_.acquired_cnt ≡ count is_open f.zone_descs f.zp.nr_zones
  pub activated : f.res_infos.active.acquired_cnt ≡ count is_active f.zone_descs f.zp.nr_zones
  pub areas : f.res_infos.zrwa.acquired_cnt ≡ count holds_zrwa f.zone_descs f.zp.nr_zones + leaked
  pub open_within : f.res_infos.open_.acquired_cnt ≤ f.res_infos.open_.total_cnt
  pub active_within : f.res_infos.active.acquired_cnt ≤ f.res_infos.active.total_cnt
  pub areas_within : f.res_infos.zrwa.acquired_cnt ≤ f.res_infos.zrwa.total_cnt
  pub open_word : f.res_infos.open_.total_cnt < 2 ^ 32
  pub active_word : f.res_infos.active.total_cnt < 2 ^ 32
  pub areas_word : f.res_infos.zrwa.total_cnt < 2 ^ 32

-- The state that zone commands keep.
pub record IsZoned (leaked : ℕ) (f : ZnsFtl) : Type 0 where
  pub layout : IsLayout f
  pub zones : (zid : ℕ) → zid < f.zp.nr_zones → IsZone (f.zone_descs zid)
  pub accounted : IsAccounted leaked f
