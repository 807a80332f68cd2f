-- ===== src/Zns/State.antt =====
-- The state of zns_ftl.h and nvme_zns.h: zones, their descriptors, and the resources that they hold.
use nvmevirt_learned_ftl.Prelude.{
  ℕ, ◌/◌, ◌%◌, Bool, true, false, ltb, ◌==◌, if◌then◌else◌, update, add32, sub32, mul32, u32, sub64,
}
use nvmevirt_learned_ftl.Ssd.Buffer.{Buffer}
use nvmevirt_learned_ftl.Ssd.Nand.{Device}

-- `enum zone_state`
pub data ZoneState : Type 0 where
  empty opened_impl opened_expl closed read_only full offline : ZoneState

-- `enum zone_resource_type`
pub data ResourceType : Type 0 where
  active_zone open_zone zrwa_zone : ResourceType

-- The statuses that this layer returns (nvme_zns.h, nvme.h). `unset` is a status variable that no
-- statement has set.
pub data Status : Type 0 where
  success invalid_field invalid_zone_operation zrwa_rsrc_unavail err_boundary err_full : Status
  err_read_only err_offline invalid_write no_active_zone no_open_zone invalid_transition : Status
  unset : Status

-- `struct zone_descriptor`, less the attributes that the code never writes.
pub record ZoneDescriptor : Type 0 where
  pub state : ZoneState
  pub zrwav : Bool
  pub zone_capacity : ℕ
  pub zslba : ℕ
  pub wp : ℕ

-- `struct znsparams`
pub record ZnsParams : Type 0 where
  pub nr_zones : ℕ
  pub nr_active_zones : ℕ
  pub nr_open_zones : ℕ
  pub dies_per_zone : ℕ
  pub zone_size : ℕ
  pub zone_wb_size : ℕ
  pub nr_zrwa_zones : ℕ
  pub zrwafg_size : ℕ
  pub zrwa_size : ℕ
  pub zrwa_buffer_size : ℕ
  pub lbas_per_zrwafg : ℕ
  pub lbas_per_zrwa : ℕ

-- `struct zone_resource_info`
pub record ResourceInfo : Type 0 where
  pub acquired_cnt : ℕ
  pub total_cnt : ℕ

-- `res_infos`, an array of three
pub record Resources : Type 0 where
  pub active : ResourceInfo
  pub open_ : ResourceInfo
  pub zrwa : ResourceInfo

-- `struct zns_ftl`, with the back end. `storage` holds the bytes from `storage_base_addr` on. The
-- report buffer is written and read within one command, and is no state.
pub record ZnsFtl : Type 0 where
  pub device : Device
  pub zp : ZnsParams
  pub res_infos : Resources
  pub zone_descs : ℕ → ZoneDescriptor
  pub zone_write_buffer : ℕ → Buffer
  pub zrwa_buffers : ℕ → Buffer
  pub storage : ℕ → ℕ

abbrev pub resource : Resources → ResourceType → ResourceInfo
resource r active_zone = r.active
resource r open_zone = r.open_
resource r zrwa_zone = r.zrwa

abbrev pub set_resource : Resources → ResourceType → ResourceInfo → Resources
set_resource r active_zone i = record r { active = i }
set_resource r open_zone i = record r { open_ = i }
set_resource r zrwa_zone i = record r { zrwa = i }

-- `is_zone_resource_avail`
abbrev pub is_zone_resource_avail : ZnsFtl → ResourceType → Bool
is_zone_resource_avail f t =
    ltb (resource f.res_infos t).acquired_cnt (resource f.res_infos t).total_cnt

-- `is_zone_resource_full`
abbrev pub is_zone_resource_full : ZnsFtl → ResourceType → Bool
is_zone_resource_full f t =
    (resource f.res_infos t).acquired_cnt == (resource f.res_infos t).total_cnt

abbrev pub set_acquired : ZnsFtl → ResourceType → ℕ → ZnsFtl
set_acquired f t n = record f {
  res_infos = set_resource f.res_infos t (record (resource f.res_infos t) { acquired_cnt = n });
}

-- `acquire_zone_resource`
unfoldable pub acquire_zone_resource : ZnsFtl → ResourceType → Bool × ZnsFtl
acquire_zone_resource f t =
    if is_zone_resource_avail f t
    then (true, set_acquired f t (add32 (resource f.res_infos t).acquired_cnt 1))
    else (false, f)

-- `release_zone_resource`; its `ASSERT` is empty.
unfoldable pub release_zone_resource : ZnsFtl → ResourceType → ZnsFtl
release_zone_resource f t = set_acquired f t (sub32 (resource f.res_infos t).acquired_cnt 1)

abbrev pub set_zone : ZnsFtl → ℕ → ZoneDescriptor → ZnsFtl
set_zone f zid z = record f { zone_descs = update f.zone_descs zid z }

-- `change_zone_state`
unfoldable pub change_zone_state : ZnsFtl → ℕ → ZoneState → ZnsFtl
change_zone_state f zid state = set_zone f zid (record (f.zone_descs zid) { state = state })

-- The sectors and the pages of a zone, in 32 bits
abbrev pub zone_lbas : ZnsFtl → ℕ
zone_lbas f = f.zp.zone_size / f.device.ssd.sp.secsz

abbrev pub zone_pgs : ZnsFtl → ℕ
zone_pgs f = f.zp.zone_size / f.device.ssd.sp.pgsz

-- `lpn_to_zone`, `zone_to_slpn`, `lba_to_zone`, `zone_to_slba`, `zone_to_elba`, `zone_to_elpn`,
-- `lba_to_lpn`. A zone number has 32 bits, and so has its product with the size of a zone.
unfoldable pub lpn_to_zone : ZnsFtl → ℕ → ℕ
lpn_to_zone f lpn = u32 (lpn / zone_pgs f)

unfoldable pub zone_to_slpn : ZnsFtl → ℕ → ℕ
zone_to_slpn f zid = mul32 (u32 zid) (zone_pgs f)

unfoldable pub lba_to_zone : ZnsFtl → ℕ → ℕ
lba_to_zone f lba = u32 (lba / zone_lbas f)

unfoldable pub zone_to_slba : ZnsFtl → ℕ → ℕ
zone_to_slba f zid = mul32 (u32 zid) (zone_lbas f)

unfoldable pub zone_to_elba : ZnsFtl → ℕ → ℕ
unfolding zone_to_slba
zone_to_elba f zid = sub64 (zone_to_slba f (add32 zid 1)) 1

unfoldable pub lba_to_lpn : ZnsFtl → ℕ → ℕ
lba_to_lpn f lba = lba / f.device.ssd.sp.secs_per_pg

unfoldable pub zone_to_elpn : ZnsFtl → ℕ → ℕ
unfolding zone_to_elba
zone_to_elpn f zid = zone_to_elba f zid / f.device.ssd.sp.secs_per_pg

-- `die_to_channel`, `die_to_lun`
unfoldable pub die_to_channel : ZnsFtl → ℕ → ℕ
die_to_channel f die = die % f.device.ssd.sp.nchs

unfoldable pub die_to_lun : ZnsFtl → ℕ → ℕ
die_to_lun f die = die / f.device.ssd.sp.nchs
