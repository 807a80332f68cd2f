-- ===== src/Zns/Report/Bounds.antt =====
-- A zone report reads descriptors of the namespace only.
use nvmevirt_learned_ftl.Prelude.{
  ℕ, zero, suc, ◌+◌, ◌^◌, ◌≤◌, ◌<◌, ◌≡◌, refl, ap, arith, some, length, subst,
}
use nvmevirt_learned_ftl.Zns.State.{ZnsFtl, ZoneDescriptor, Status, lba_to_zone}
use nvmevirt_learned_ftl.Zns.Report.{
  ReportCommand, ZoneReport, descriptors, check_option_supported, nr_zone_to_report,
  fill_zone_report, zmgmt_recv,
}

length-descriptors :
    (zones : ℕ → ZoneDescriptor) (start n : ℕ) → length (descriptors zones start n) ≡ n
unfolding descriptors
length-descriptors zones start zero = refl
length-descriptors zones start (suc n) = ap suc (length-descriptors zones (start + 1) n)

-- The report counts its descriptors, which are those of zones of the namespace from the one of the
-- command's address on.
pub record IsReport (f : ZnsFtl) (cmd : ReportCommand) (report : ZoneReport) : Type 0 where
  pub counted : length report.zd ≡ report.nr_zones
  pub within : lba_to_zone f cmd.slba + report.nr_zones ≤ f.zp.nr_zones
  pub copied : report.zd ≡ descriptors f.zone_descs (lba_to_zone f cmd.slba) report.nr_zones
  pub all_left :
      cmd.zra_specific_features ≡ 0 → lba_to_zone f cmd.slba + report.nr_zones ≡ f.zp.nr_zones

nr_zone_to_report-le :
    (f : ZnsFtl) (cmd : ReportCommand)
    → lba_to_zone f cmd.slba < f.zp.nr_zones
    → f.zp.nr_zones < 2 ^ 32
    → (lba_to_zone f cmd.slba + nr_zone_to_report f cmd ≤ f.zp.nr_zones)
      × (cmd.zra_specific_features ≡ 0
          → lba_to_zone f cmd.slba + nr_zone_to_report f cmd ≡ f.zp.nr_zones)
unfolding nr_zone_to_report
nr_zone_to_report-le f cmd l w = ground arith

supported :
    (f : ZnsFtl) (cmd : ReportCommand) {report : ZoneReport} {st : Status}
    → zmgmt_recv f cmd ≡ (st, some report)
    → (lba_to_zone f cmd.slba < f.zp.nr_zones) × (fill_zone_report f cmd ≡ report)
unfolding zmgmt_recv check_option_supported
supported f cmd e = ground arith

-- With fewer than 2^32 zones, a report that `zns_zmgmt_recv` makes counts the descriptors that it
-- holds; these are the ones of consecutive zones of the namespace from the one of the command's
-- address on, up to the last one unless a partial report is asked for.
pub zmgmt_recv-IsReport :
    (f : ZnsFtl) (cmd : ReportCommand) {report : ZoneReport} {st : Status}
    → f.zp.nr_zones < 2 ^ 32
    → zmgmt_recv f cmd ≡ (st, some report)
    → IsReport f cmd report
unfolding fill_zone_report
zmgmt_recv-IsReport f cmd w e =
    let (l, q) = supported f cmd e in
    let n = nr_zone_to_report f cmd in
    let b = nr_zone_to_report-le f cmd l w in
    subst (IsReport f cmd) q (record {
      counted = length-descriptors f.zone_descs (lba_to_zone f cmd.slba) n;
      within = b.0;
      copied = refl;
      all_left = b.1;
    })
