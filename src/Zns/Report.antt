-- ===== src/Zns/Report.antt =====
-- Zone reports, zns_mgmt_recv.c.
pub mod Bounds
use nvmevirt_learned_ftl.Prelude.{
  ℕ, zero, suc, ◌+◌, ◌-◌, ◌*◌, ◌/◌, ◌%◌, ◌^◌, Bool, true, not, Option, none, some, List, [], ◌∷◌,
  ltb, leb, ◌==◌, ◌&&◌, if◌then◌else◌, mul64, sub64, add32,
}
use nvmevirt_learned_ftl.Zns.State.{
  Status, ZnsFtl, ZoneDescriptor, success, invalid_field, lba_to_zone,
}

-- The fields of `struct nvme_zone_mgmt_recv` that the report depends on
pub record ReportCommand : Type 0 where
  pub slba : ℕ
  pub nr_dw : ℕ
  pub zra : ℕ
  pub zra_specific_field : ℕ
  pub zra_specific_features : ℕ

-- `struct zone_report`
pub record ZoneReport : Type 0 where
  pub nr_zones : ℕ
  pub zd : List ZoneDescriptor

-- `sizeof(struct zone_descriptor)`
abbrev pub descriptor_size : ℕ
descriptor_size = 64

-- `memcpy` of `n` descriptors from number `start`
unfoldable pub descriptors : (ℕ → ZoneDescriptor) → ℕ → ℕ → List ZoneDescriptor
descriptors zones start zero = []
descriptors zones start (suc n) = zones start ∷ descriptors zones (start + 1) n

-- `__check_zmgmt_rcv_option_supported`
unfoldable pub check_option_supported : ZnsFtl → ReportCommand → Bool
unfolding lba_to_zone
check_option_supported f cmd =
    not (leb f.zp.nr_zones (lba_to_zone f cmd.slba)) && cmd.zra == 0 && cmd.zra_specific_field == 0

-- `nr_zone_to_report`: all zones from the address on, or as many as the transfer has room for. The
-- length is that of 32-bit words times 4 in 64 bits, with `nr_dw + 1` in 32 bits.
unfoldable pub nr_zone_to_report : ZnsFtl → ReportCommand → ℕ
unfolding lba_to_zone
nr_zone_to_report f cmd =
    let left = sub64 f.zp.nr_zones (lba_to_zone f cmd.slba) in
    let bytes_transfer = mul64 (add32 cmd.nr_dw 1) 4 in
    let wanted =
      if cmd.zra_specific_features == 0 then left else sub64 (bytes_transfer / descriptor_size) 1 in
    if ltb left wanted then left else wanted

-- `__fill_zone_report`
unfoldable pub fill_zone_report : ZnsFtl → ReportCommand → ZoneReport
unfolding descriptors nr_zone_to_report lba_to_zone
fill_zone_report f cmd = record {
  nr_zones = nr_zone_to_report f cmd;
  zd = descriptors f.zone_descs (lba_to_zone f cmd.slba) (nr_zone_to_report f cmd);
}

-- `zns_zmgmt_recv`, less the copy of the report to the host's pages: the status, and the report
unfoldable pub zmgmt_recv : ZnsFtl → ReportCommand → Status × Option ZoneReport
unfolding check_option_supported fill_zone_report
zmgmt_recv f cmd =
    if check_option_supported f cmd
    then (success, some (fill_zone_report f cmd))
    else (invalid_field, none)
