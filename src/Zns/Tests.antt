-- ===== src/Zns/Tests.antt =====
-- A zoned namespace of four zones on a small array.
mod Series
mod Timing
mod Writing
use nvmevirt_learned_ftl.Prelude.{
  ℕ, ◌+◌, ◌*◌, ◌/◌, ◌<◌, ◌≤◌, ◌≡◌, ◌≢◌, refl, arith, true, false, Bool, some, none, List, [], ◌∷◌,
  length, update, fill, Option,
}
use nvmevirt_learned_ftl.Ssd.Config.{samsung_970pro}
use nvmevirt_learned_ftl.Ssd.Params.{SsdParams, layout_params}
use nvmevirt_learned_ftl.Ssd.Nand
use nvmevirt_learned_ftl.Ssd.Nand.{init_bus}
use nvmevirt_learned_ftl.Conv.State.Index.{InRange}
use nvmevirt_learned_ftl.Zns.State.{
  ZoneState, ZnsParams, ZnsFtl, ZoneDescriptor, Status, success, empty, read_only, offline,
  lba_to_zone, zone_to_slba, lpn_to_zone, zone_to_slpn, acquire_zone_resource,
  release_zone_resource, change_zone_state,
}
use nvmevirt_learned_ftl.Zns.Accounts.{IsZoned}
use nvmevirt_learned_ftl.Zns.Zrwa.Whole.{IsArea}
use nvmevirt_learned_ftl.Zns.Init.{zns_init_ftl, init_descriptor, init_resource}
use nvmevirt_learned_ftl.Zns.Init.Ready.{zns_init_ftl-IsZoned}
use nvmevirt_learned_ftl.Zns.Manage.{
  Action, open_zone_, reset_zone, close_zone, open_in, open_empty, reopen, attach_zrwa, reset_in,
  reset_full, reset_contents, act, zmgmt_send_one, zmgmt_send, send_all, close_in,
}
use nvmevirt_learned_ftl.Zns.Manage.Kept.{Acts, zmgmt_send_one-Acts, zmgmt_send-IsZoned}
use nvmevirt_learned_ftl.Zns.Manage.Reset.{IsBlank, zmgmt_send-IsBlank}
use nvmevirt_learned_ftl.Zns.Layout.{lba_to_zone-zone_to_slba, check_boundary_error_lem}
use nvmevirt_learned_ftl.Zns.Place.{check_boundary_error, lpn_to_ppa}
use nvmevirt_learned_ftl.Zns.Place.Bounds.{IsStriped, lpn_to_ppa-InRange}
use nvmevirt_learned_ftl.Zns.Report.{
  ReportCommand, ZoneReport, descriptors, nr_zone_to_report, fill_zone_report,
  check_option_supported, zmgmt_recv,
}
use nvmevirt_learned_ftl.Zns.Report.Bounds.{IsReport, zmgmt_recv-IsReport}
use nvmevirt_learned_ftl.Zns.Onward.{Onward}
use nvmevirt_learned_ftl.Zns.Command.{mgmt_send, proc_nvme_io_cmd}
use nvmevirt_learned_ftl.Zns.Kept.{proc_nvme_io_cmd-Onward}

-- Two channels of two dies of four blocks, each of two wordlines of four pages
abbrev pub small : SsdParams
small =
    layout_params (record samsung_970pro { oneshot_page_size = 16384; flash_page_size = 8192 }) 2
      32768 4

-- Zones of 64 sectors, on one die each, with a random write area of 16 sectors
abbrev pub zone_params : ZnsParams
zone_params = record {
  nr_zones = 4;
  nr_active_zones = 4;
  nr_open_zones = 4;
  dies_per_zone = 1;
  zone_size = 32768;
  zone_wb_size = 0;
  nr_zrwa_zones = 4;
  zrwafg_size = 4096;
  zrwa_size = 8192;
  zrwa_buffer_size = 16384;
  lbas_per_zrwafg = 8;
  lbas_per_zrwa = 16;
}

abbrev pub zoned : ZnsFtl
zoned = zns_init_ftl 9 zone_params (record { bus = init_bus small; ssd = Nand.init small }) (λ i. 7)

pub zoned-IsZoned : IsZoned 0 zoned
unfolding Nand.init layout_params
zoned-IsZoned =
    zns_init_ftl-IsZoned 9 zone_params (record { bus = init_bus small; ssd = Nand.init small })
      (λ i. 7) refl (omega arith) (omega arith) (omega arith) refl

zns_init_ftl-IsZoned_example :
    IsZoned 0
      (zns_init_ftl 9 zone_params (record { bus = init_bus small; ssd = Nand.init small }) (λ i. 0))
unfolding Nand.init layout_params
zns_init_ftl-IsZoned_example =
    zns_init_ftl-IsZoned 9 zone_params (record { bus = init_bus small; ssd = Nand.init small })
      (λ i. 0) refl (omega arith) (omega arith) (omega arith) refl

pub zoned-IsArea : IsArea zoned
unfolding zns_init_ftl
zoned-IsArea = record { granules = omega arith; area_word = omega arith }

-- Zone 1 after it has been opened with a random write area
abbrev pub opened : Status × ZnsFtl
opened = open_in ZoneState.empty zoned 1 true

zmgmt_send_one-Acts_example : Acts (lba_to_zone zoned 70) zoned opened
unfolding zns_init_ftl init_descriptor zmgmt_send_one act lba_to_zone Nand.init layout_params
    open_in
zmgmt_send_one-Acts_example = zmgmt_send_one-Acts zoned 70 open_zone_ true zoned-IsZoned refl

zmgmt_send-IsZoned_example : IsZoned 0 opened.1
unfolding zns_init_ftl init_descriptor zmgmt_send zmgmt_send_one act lba_to_zone Nand.init
    layout_params open_in
zmgmt_send-IsZoned_example = zmgmt_send-IsZoned zoned false 70 open_zone_ true zoned-IsZoned refl

proc_nvme_io_cmd-Onward_example : Onward 0 zoned opened.1
unfolding zns_init_ftl init_descriptor proc_nvme_io_cmd zmgmt_send zmgmt_send_one act lba_to_zone
    Nand.init layout_params open_in
proc_nvme_io_cmd-Onward_example =
    proc_nvme_io_cmd-Onward (λ n. 4000 + n) 9 zoned (mgmt_send 1000 false 70 open_zone_ true)
      zoned-IsZoned zoned-IsArea tt refl

zmgmt_send-IsBlank_example :
    (g : ZnsFtl) × (zmgmt_send zoned false (zone_to_slba zoned 1 + 6) reset_zone false
      ≡ some (success, g))
    × IsBlank 1 g
unfolding zns_init_ftl init_descriptor Nand.init layout_params
zmgmt_send-IsBlank_example =
    zmgmt_send-IsBlank zoned 1 6 false zoned-IsZoned (omega arith) (omega arith) (λ e. cc) (λ e. cc)

lba_to_zone-zone_to_slba_example : lba_to_zone zoned (zone_to_slba zoned 3 + 63) ≡ 3
unfolding zns_init_ftl Nand.init layout_params
lba_to_zone-zone_to_slba_example =
    lba_to_zone-zone_to_slba zoned zoned-IsZoned.layout 3 (omega arith) 63 (omega arith)

check_boundary_error_lem_example : 70 + 58 ≤ 1 * 64 + 64
unfolding zns_init_ftl Nand.init layout_params check_boundary_error lba_to_zone
check_boundary_error_lem_example =
    check_boundary_error_lem zoned zoned-IsZoned.layout 1 70 58 (omega arith) (omega arith)
      (omega arith) (omega arith) (omega arith) refl

pub zoned-IsStriped : IsStriped zoned
unfolding zns_init_ftl Nand.init layout_params
zoned-IsStriped = record {
  groups = 4;
  some_groups = omega arith;
  grouped = refl;
  some_dies = omega arith;
  some_pages = omega arith;
  pages_fit = omega arith;
  pg_bits = omega arith;
  lun_bits = omega arith;
  ch_bits = omega arith;
  some_channels = omega arith;
  some_planes = omega arith;
  some_blks = omega arith;
  luns = refl;
}

lpn_to_ppa-InRange_example : InRange small (lpn_to_ppa zoned 29)
unfolding zns_init_ftl Nand.init layout_params
lpn_to_ppa-InRange_example = lpn_to_ppa-InRange zoned 29 zoned-IsStriped (omega arith)

abbrev report_command : ReportCommand
report_command = record {
  slba = 130;
  nr_dw = 47;
  zra = 0;
  zra_specific_field = 0;
  zra_specific_features = 1;
}

abbrev reported : ZoneReport
reported = fill_zone_report zoned report_command

zmgmt_recv-IsReport_example : IsReport zoned report_command reported
unfolding zns_init_ftl Nand.init layout_params zmgmt_recv check_option_supported lba_to_zone
zmgmt_recv-IsReport_example = zmgmt_recv-IsReport zoned report_command (omega arith) refl

-- With room for three descriptors less the header, a partial report from zone 2 on has two.
two_zones_test : reported.nr_zones ≡ 2
unfolding fill_zone_report nr_zone_to_report zns_init_ftl Nand.init layout_params lba_to_zone
two_zones_test = refl
