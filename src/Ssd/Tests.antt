-- ===== src/Ssd/Tests.antt =====
-- The back end at concrete values.
use nvmevirt_learned_ftl.Prelude.{
  ℕ, ◌+◌, ◌*◌, ◌≤◌, ◌≡◌, ◌⊎◌, ◌↔◌, ◌^◌, refl, arith, true, some, max,
}
use nvmevirt_learned_ftl.Ssd.Config.{samsung_970pro}
use nvmevirt_learned_ftl.Ssd.Params.{SsdParams, ssd_init_params, layout_params, block_layout}
use nvmevirt_learned_ftl.Ssd.Params.Geometry.{IsGeometry, ssd_init_params-IsGeometry}
use nvmevirt_learned_ftl.Ssd.Ppa.{Ppa, blk_in_ssd, same_blk}
use nvmevirt_learned_ftl.Ssd.Ppa.Packing.{IsPpa, blk_in_ssd_iff}
use nvmevirt_learned_ftl.Ssd.Channel.{
  Channel, Draining, nr_credit_entries, drain_all, request, advance,
}
use nvmevirt_learned_ftl.Ssd.Channel
use nvmevirt_learned_ftl.Ssd.Channel.Ring.{IsChannel, init-IsChannel}
use nvmevirt_learned_ftl.Ssd.Channel.Request.{Served, request-Served}
use nvmevirt_learned_ftl.Ssd.Buffer.{Buffer, allocate, release}
use nvmevirt_learned_ftl.Ssd.Buffer.Laws.{IsBuffer, release-allocate}
use nvmevirt_learned_ftl.Ssd.Nand.{
  advance_nand, Device, NandCmd, NandOp, nand_read, nand_write, next_idle_time, get_lun,
  init_channel, init_bus,
}
use nvmevirt_learned_ftl.Ssd.Nand
use nvmevirt_learned_ftl.Ssd.Nand.Advance.{IsPaced, advance_nand-IsDevice}
use nvmevirt_learned_ftl.Ssd.Nand.Timing.{IsDevice, Programmed, nand_write-Programmed}
use nvmevirt_learned_ftl.Ssd.Nand.Reading.{nand_read-Delivered, read_latency}

-- A partition of the 970 PRO over 1 GB.
abbrev gigabyte : SsdParams
gigabyte = layout_params samsung_970pro 2 8192 8192

ssd_init_params-IsGeometry_example :
    IsGeometry gigabyte
    × (gigabyte.tt_pgs ≡ gigabyte.tt_lines * gigabyte.pgs_per_line)
    × (gigabyte.flashpgs_per_blk * gigabyte.pgs_per_flashpg ≡ gigabyte.pgs_per_blk)
    × (gigabyte.nchs * 4 ≡ samsung_970pro.nand_channels)
unfolding ssd_init_params block_layout layout_params
ssd_init_params-IsGeometry_example =
    ssd_init_params-IsGeometry samsung_970pro (2 ^ 30) 4 (omega arith) (omega arith) (omega arith)
      refl

abbrev page : Ppa
page = record { pg = 3; blk = 17; pl = 0; lun = 1; ch = 1; rsv = 0 }

page-IsPpa : IsPpa page
page-IsPpa = record {
  pg_fits = omega arith;
  blk_fits = omega arith;
  pl_fits = omega arith;
  lun_fits = omega arith;
  ch_fits = omega arith;
  rsv_fits = omega arith;
}

blk_in_ssd_iff_example : (blk_in_ssd page ≡ blk_in_ssd page) ↔ (same_blk page page ≡ true)
blk_in_ssd_iff_example = blk_in_ssd_iff page page page-IsPpa page-IsPpa

abbrev link : Channel
link = Channel.init 800

link-IsChannel : IsChannel link
link-IsChannel = init-IsChannel 800 (omega arith)

request-Served_example :
    (r : ℕ × Channel) × (request link 5000 9000 4096 ≡ some r) × Served 9000 link r
request-Served_example = request-Served link 5000 9000 4096 link-IsChannel (omega arith)

abbrev wanting : Draining
wanting = record { avail = λ i. 26; remaining = 64; pos = 98303; delay = 0 }

abbrev half : Buffer
half = record { size = 65536; remaining = 32768 }

half-IsBuffer : IsBuffer half
half-IsBuffer = record { within = omega arith; small = omega arith }

abbrev amount : ℕ
amount = 4096

abbrev less : Buffer
less = record { size = 65536; remaining = 28672 }

release-allocate_example :
    IsBuffer less
    × (release less 4096 ≡ half)
    × (less.remaining + 4096 ≡ half.remaining)
    × (amount ≡ amount ⊎ amount ≡ 0)
unfolding allocate
release-allocate_example = release-allocate half amount half-IsBuffer refl

-- The back end of the 1 GB partition at its start.
abbrev array : Device
array = record { bus = init_bus gigabyte; ssd = Nand.init gigabyte }

array-IsDevice : IsDevice array
unfolding layout_params Nand.init init_bus init_channel Channel.init
array-IsDevice = record {
  channels_ok = λ i. record {
    head_in = link-IsChannel.head_in;
    len_in = link-IsChannel.len_in;
    has_credits = omega arith;
    fresh = λ j hj hl. refl;
  };
  link_ok = init-IsChannel 3360 (omega arith);
}

abbrev command : NandOp → ℕ → NandCmd
command op size = record {
  cmd = op;
  xfer_size = size;
  stime = 2000;
  interleave_pci_dma = true;
  ppa = page;
}

nand_write-Programmed_example :
    (r : ℕ × Device) × (nand_write (λ n. 2000) array (command NandOp.write 32768) 2000 ≡ some r)
    × Programmed array page 2000 array.ssd.sp.pg_wr_lat r
unfolding layout_params Nand.init
nand_write-Programmed_example =
    nand_write-Programmed (λ n. 2000) array (command NandOp.write 32768) 2000 array-IsDevice
      (omega arith) (omega arith) (omega arith)

nand_read-Delivered_example :
    (r : ℕ × Device) × (nand_read (λ n. 2000) array (command NandOp.read 32768) 2000 ≡ some r)
    × (max (get_lun array.ssd page).next_lun_avail_time 2000
          + read_latency array (command NandOp.read 32768)
        ≤ (get_lun r.1.ssd page).next_lun_avail_time)
    × ((get_lun r.1.ssd page).next_lun_avail_time ≤ r.0)
    × IsDevice r.1
unfolding layout_params Nand.init
nand_read-Delivered_example =
    nand_read-Delivered (λ n. 2000) array (command NandOp.read 32768) 2000 array-IsDevice
      (omega arith) (omega arith) (omega arith) (omega arith) (omega arith) (omega arith)
      (omega arith) (omega arith) (omega arith)

array-IsPaced : IsPaced array page
unfolding layout_params Nand.init
array-IsPaced = record {
  in_order = array-IsDevice;
  transfers = omega arith;
  some_pages = omega arith;
  some_cells = omega arith;
  free_soon = omega arith;
  short_4kb = omega arith;
  short_read = omega arith;
  short_write = omega arith;
  short_erase = omega arith;
}

advance_nand-IsDevice_example :
    (r : ℕ × Device) × (advance_nand (λ n. 2000) array (command NandOp.read 4096) ≡ some r)
    × (2000 ≤ r.0)
    × IsDevice r.1
unfolding layout_params Nand.init
advance_nand-IsDevice_example =
    advance_nand-IsDevice (λ n. 2000) array (command NandOp.read 4096) array-IsPaced (omega arith)
      (λ e. refl) (λ e. (omega arith, omega arith))
