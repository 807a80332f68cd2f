-- ===== src/Zns/Command.antt =====
-- `zns_write`, `zns_flush` and the dispatch of commands (zns_read_write.c, zns_ftl.c).
use nvmevirt_learned_ftl.Prelude.{
  ℕ, suc, max, Bool, Option, none, some, ltb, if◌then◌else◌, ◌>>=◌, ◌>>◌, ensure,
}
use nvmevirt_learned_ftl.Ssd.Nand.{next_idle_time}
use nvmevirt_learned_ftl.Zns.State.{ZnsFtl, success, lpn_to_zone, lba_to_lpn}
use nvmevirt_learned_ftl.Zns.Place.{RwCommand, Reply, replied, Outcome}
use nvmevirt_learned_ftl.Zns.Write.{write_zone}
use nvmevirt_learned_ftl.Zns.Zrwa.{write_zrwa}
use nvmevirt_learned_ftl.Zns.Read.{zns_read}
use nvmevirt_learned_ftl.Zns.Manage.{Action, zmgmt_send}
use nvmevirt_learned_ftl.Zns.Report.{ReportCommand, ZoneReport, zmgmt_recv}

-- The opcodes of `zns_proc_nvme_io_cmd`, with the fields that each handler reads; `mgmt_send` has
-- `select_all`, `slba`, `zsa` and `zsaso`, and `other` is an opcode that is not implemented.
pub data Command : Type 0 where
  rw_write rw_read : RwCommand → Command
  flush other : ℕ → Command
  mgmt_send : ℕ → Bool → ℕ → Action → Bool → Command
  mgmt_recv : ℕ → ReportCommand → Command

-- What the dispatcher leaves: the reply, and the report of a zone management receive
pub record Answer : Type 0 where
  pub reply : Reply
  pub report : Option ZoneReport
  pub ftl : ZnsFtl

module _ (clock : ℕ → ℕ) where
  -- `zns_write`: by the zone's random write area
  unfoldable pub zns_write : ℕ → ZnsFtl → RwCommand → Option Outcome
  unfolding lpn_to_zone lba_to_lpn
  zns_write lba_bits f cmd =
      let zid = lpn_to_zone f (lba_to_lpn f cmd.slba) in
      let plain = write_zone clock lba_bits f cmd in
      let area = write_zrwa clock lba_bits f cmd in
      ensure (ltb zid f.zp.nr_zones) >> (if (f.zone_descs zid).zrwav then area else plain)

  -- `zns_flush`, of the only partition; its `local_clock()` is one more reading.
  unfoldable pub zns_flush : ZnsFtl → ℕ × ZnsFtl
  zns_flush f =
      let d = f.device in
      let bus = d.bus in
      let start = clock bus.ticks in
      let (t, d') =
        next_idle_time clock (record d { bus = record bus { ticks = suc bus.ticks } }) in
      (max start t, record f { device = d' })

  abbrev of_outcome : Outcome → Answer
  of_outcome o = record { reply = o.reply; report = none; ftl = o.ftl }

  -- `zns_proc_nvme_io_cmd`. An opcode that is not implemented leaves the result as it came: success
  -- at the start time.
  unfoldable pub proc_nvme_io_cmd : ℕ → ZnsFtl → Command → Option Answer
  unfolding zns_write zns_flush
  proc_nvme_io_cmd lba_bits f (rw_write cmd) = zns_write lba_bits f cmd >>= λ o. some (of_outcome o)
  proc_nvme_io_cmd lba_bits f (rw_read cmd) =
      zns_read clock lba_bits f cmd >>= λ o. some (of_outcome o)
  proc_nvme_io_cmd lba_bits f (flush nsecs_start) =
      let r = zns_flush f in some (record { reply = replied success r.0; report = none; ftl = r.1 })
  proc_nvme_io_cmd lba_bits f (mgmt_send nsecs_start select_all slba action option) =
      zmgmt_send f select_all slba action option >>= λ r.
      some (record { reply = replied r.0 nsecs_start; report = none; ftl = r.1 })
  proc_nvme_io_cmd lba_bits f (mgmt_recv nsecs_start cmd) =
      let r = zmgmt_recv f cmd in
      some (record { reply = replied r.0 nsecs_start; report = r.1; ftl = f })
  proc_nvme_io_cmd lba_bits f (other nsecs_start) =
      some (record { reply = replied success nsecs_start; report = none; ftl = f })
