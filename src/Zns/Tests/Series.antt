-- ===== src/Zns/Tests/Series.antt =====
-- Two commands on the small zoned namespace, and a reset.
use nvmevirt_learned_ftl.Prelude.{◌+◌, ◌≡◌, refl, arith, true, false, some}
use nvmevirt_learned_ftl.Ssd.Params.{layout_params}
use nvmevirt_learned_ftl.Ssd.Nand
use nvmevirt_learned_ftl.Zns.State.{ZnsFtl, success, lba_to_zone, zone_to_slba}
use nvmevirt_learned_ftl.Zns.Init.{zns_init_ftl, init_descriptor}
use nvmevirt_learned_ftl.Zns.Manage.{
  open_zone_, reset_zone, act, zmgmt_send_one, zmgmt_send, open_in,
}
use nvmevirt_learned_ftl.Zns.Manage.Reset.{IsBlank}
use nvmevirt_learned_ftl.Zns.Command.{mgmt_send, other, proc_nvme_io_cmd}
use nvmevirt_learned_ftl.Zns.Runs.{Reaches, done, next, Reaches-IsBlank}
use nvmevirt_learned_ftl.Zns.Tests.{zoned, zoned-IsZoned, zoned-IsArea, opened}

-- An opcode that is not implemented, and the opening of zone 1
series : Reaches (λ n. 4000 + n) 9 zoned opened.1
unfolding zns_init_ftl init_descriptor proc_nvme_io_cmd zmgmt_send zmgmt_send_one act lba_to_zone
    Nand.init layout_params open_in
series = next (other 900) tt refl (next (mgmt_send 1000 false 70 open_zone_ true) tt refl done)

Reaches-IsBlank_example :
    (h : ZnsFtl) × (zmgmt_send opened.1 false (zone_to_slba opened.1 1 + 6) reset_zone false
      ≡ some (success, h))
    × IsBlank 1 h
unfolding zns_init_ftl init_descriptor Nand.init layout_params open_in
Reaches-IsBlank_example =
    Reaches-IsBlank 1 6 false zoned-IsZoned zoned-IsArea refl series (omega arith) (omega arith)
