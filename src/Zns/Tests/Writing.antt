-- ===== src/Zns/Tests/Writing.antt =====
-- Writes on the small zoned namespace.
use nvmevirt_learned_ftl.Prelude.{
  ℕ, ◌+◌, ◌*◌, ◌≤◌, ◌≡◌, ◌≢◌, refl, arith, true, false, some, none, ◌^◌, update,
}
use nvmevirt_learned_ftl.Ssd.Params.{layout_params}
use nvmevirt_learned_ftl.Ssd.Buffer.{allocate}
use nvmevirt_learned_ftl.Ssd.Buffer
use nvmevirt_learned_ftl.Ssd.Nand
use nvmevirt_learned_ftl.Zns.State.{
  ZnsFtl, ZoneState, Status, success, invalid_write, lba_to_zone, acquire_zone_resource,
}
use nvmevirt_learned_ftl.Zns.Place.{RwCommand, allocate_at, check_boundary_error}
use nvmevirt_learned_ftl.Zns.Init.{zns_init_ftl, init_descriptor, init_resource}
use nvmevirt_learned_ftl.Zns.Write.{
  advance_zone, take_zone, settle, open_implicitly, buffered_write, write_zone,
}
use nvmevirt_learned_ftl.Zns.Write.Effect.{IsAppend, advance_zone_lem, write_zone-error, buffer_of}
use nvmevirt_learned_ftl.Zns.Zrwa.{write_zrwa, admit_area, take_area, write_area, nr_lbas_flush}
use nvmevirt_learned_ftl.Zns.Tests.{zoned, zoned-IsZoned}

-- The first eight sectors of zone 1
abbrev appended : Status × ZnsFtl
appended = advance_zone 9 zoned 1 64 8

advance_zone_lem_example :
    (success ≡ success → IsAppend 1 64 8 zoned appended.1)
    × (success ≢ success → appended.1 ≡ zoned)
unfolding zns_init_ftl init_descriptor init_resource Nand.init layout_params advance_zone
    check_boundary_error lba_to_zone take_zone open_implicitly acquire_zone_resource settle
advance_zone_lem_example =
    advance_zone_lem zoned zoned-IsZoned 1 8
      (record { in_range = omega arith; some_lba = omega arith; few_lbas = omega arith }) 9 64 refl

-- A write that does not start at the write pointer of its zone
abbrev ahead : RwCommand
ahead = record { append = false; slba = 72; length = 7; control = 0; sq_id = 1; nsecs_start = 1000 }

-- The namespace when 4096 bytes of its write buffer are taken
abbrev short_of_buffer : ZnsFtl
short_of_buffer =
    let d = zoned.device in
    let bus = d.bus in
    let b = bus.write_buffer in
    record zoned {
      device = record d { bus = record bus { write_buffer = record b { remaining = 1044480 } } };
    }

write_zone-error_example :
    (n : ℕ) × (allocate_at zoned (buffer_of zoned (lba_to_zone zoned 72)) ((7 + 1) * 2 ^ 9)
      ≡ some (n, short_of_buffer))
    × ((7 + 1) * 2 ^ 9 ≤ n)
unfolding zns_init_ftl init_descriptor init_resource Nand.init Nand.init_bus layout_params
    advance_zone check_boundary_error lba_to_zone write_zone buffered_write allocate_at allocate
    Buffer.init
write_zone-error_example =
    write_zone-error (λ n. 4000 + n) 9 zoned ahead invalid_write 1000 zoned-IsZoned (omega arith)
      refl refl (λ e. cc)

-- With no random write area configured, the host can open the first zone with one and write to it:
-- the flush granularity of 0 stops the processor.
abbrev no_area : ZnsFtl
no_area =
    let z = zoned.zone_descs 0 in
    let zp = zoned.zp in
    record zoned {
      zp = record zp { lbas_per_zrwa = 0; lbas_per_zrwafg = 0 };
      zone_descs =
          update zoned.zone_descs 0 (record z { state = ZoneState.opened_expl; zrwav = true });
    }

trap_test : write_zrwa (λ n. 4000 + n) 9 no_area (record ahead { slba = 0 }) ≡ none
unfolding write_zrwa admit_area take_area write_area nr_lbas_flush zns_init_ftl init_descriptor
    init_resource Nand.init layout_params check_boundary_error lba_to_zone update
trap_test = refl
