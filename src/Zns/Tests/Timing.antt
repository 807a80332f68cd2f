-- ===== src/Zns/Tests/Timing.antt =====
-- The timing of a write on the small zoned namespace.
use nvmevirt_learned_ftl.Prelude.{ℕ, ◌+◌, ◌*◌, ◌^◌, ◌≤◌, ◌≡◌, refl, arith, false, some}
use nvmevirt_learned_ftl.Ssd.Params.{layout_params}
use nvmevirt_learned_ftl.Ssd.Channel
use nvmevirt_learned_ftl.Ssd.Channel.{Channel}
use nvmevirt_learned_ftl.Ssd.Channel.Ring.{IsChannel, init-IsChannel}
use nvmevirt_learned_ftl.Ssd.Nand
use nvmevirt_learned_ftl.Ssd.Nand.{Device, init_bus, init_channel, ssd_buffer}
use nvmevirt_learned_ftl.Ssd.Nand.Timing.{IsDevice}
use nvmevirt_learned_ftl.Zns.State.{Status}
use nvmevirt_learned_ftl.Zns.Place.{RwCommand, Outcome, replied}
use nvmevirt_learned_ftl.Zns.Init.{zns_init_ftl}
use nvmevirt_learned_ftl.Zns.Write.{buffered_write}
use nvmevirt_learned_ftl.Zns.Write.Replies.{IsTimely, buffered_write-replies}
use nvmevirt_learned_ftl.Zns.Tests.{small, zoned, zoned-IsStriped}

link-IsChannel : IsChannel (Channel.init 800)
link-IsChannel = init-IsChannel 800 (omega arith)

abbrev idle : Device
idle = record { bus = init_bus small; ssd = Nand.init small }

idle-IsDevice : IsDevice idle
unfolding layout_params Nand.init init_bus init_channel Channel.init
idle-IsDevice = record {
  channels_ok = λ i. record {
    head_in = link-IsChannel.head_in;
    len_in = link-IsChannel.len_in;
    has_credits = omega arith;
    fresh = λ j hj hl. refl;
  };
  link_ok = init-IsChannel 3360 (omega arith);
}

-- The first two pages of zone 1
abbrev two_pages : RwCommand
two_pages = record {
  append = false;
  slba = 64;
  length = 15;
  control = 0;
  sq_id = 1;
  nsecs_start = 1000;
}

two_pages-IsTimely : IsTimely 1000 ((15 + 1) * 2 ^ 9) idle two_pages
unfolding layout_params Nand.init
two_pages-IsTimely = record {
  free = record { in_order = idle-IsDevice; sp_same = refl; free_by = λ ch lun. omega arith };
  early = omega arith;
  started = omega arith;
  by_limit = omega arith;
  short_delay = omega arith;
  short_write = omega arith;
  some_secs = omega arith;
  short = omega arith;
  low = omega arith;
}

buffered_write-replies_example :
    (o : Outcome) × (buffered_write (λ n. 4000 + n) 9 zoned ssd_buffer 1 two_pages ≡ some o)
    × (st : Status) × (t : ℕ) × (o.reply ≡ replied st t)
    × (1000 ≤ t)
unfolding layout_params zns_init_ftl Nand.init
buffered_write-replies_example =
    buffered_write-replies (λ n. 4000 + n) 9 1000 zoned ssd_buffer 1 two_pages (omega arith)
      (record {
        striped = zoned-IsStriped;
        few_dies = omega arith;
        some_zone_pgs = omega arith;
        some_zone_lbas = omega arith;
        some_unit = omega arith;
      })
      two_pages-IsTimely
