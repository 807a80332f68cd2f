-- ===== src/Conv/Command.antt =====
-- `conv_flush`, the dispatch of commands, and the initial state of conv_ftl.c.
use nvmevirt_learned_ftl.Prelude.{ℕ, zero, suc, ◌+◌, max, true, Option, some, ◌>>=◌}
use nvmevirt_learned_ftl.Ssd.Params.{ssd_init_params}
use nvmevirt_learned_ftl.Ssd.Config.{Config}
use nvmevirt_learned_ftl.Ssd.Ppa.{unmapped, invalid_lpn}
use nvmevirt_learned_ftl.Ssd.Nand.{
  Ssd, Bus, Device, NandCmd, NandOp, Release, advance_nand, advance_write_buffer, next_idle_time,
}
use nvmevirt_learned_ftl.Ssd.Nand
use nvmevirt_learned_ftl.Conv.State.{
  ConvFtl, ConvParams, WritePointer, user_io, gc_io, device, with_device,
}
use nvmevirt_learned_ftl.Conv.State.Queue.{QueueOps}
use nvmevirt_learned_ftl.Conv.Lines.{init_lines, init_write_flow_control, prepare_write_pointer}
use nvmevirt_learned_ftl.Conv.Namespace.{Request, Namespace, Reply, done, part, set_part}
use nvmevirt_learned_ftl.Conv.Read.{conv_read}
use nvmevirt_learned_ftl.Conv.Write.{conv_write}

-- `nvme_cmd_flush`, `nvme_cmd_write`, `nvme_cmd_read`, and the opcodes that are not implemented
pub data Opcode : Type 0 where
  flush write read other : Opcode

module _ (clock : ℕ → ℕ) where
  -- The loop of `conv_flush` over the partitions, with `n` rounds left
  idle_time : {Q : Type 0} → ℕ → ℕ → Namespace Q × ℕ → Namespace Q × ℕ
  idle_time zero i s = s
  idle_time (suc n) i (ns, latest) =
      let (t, d) = next_idle_time clock (device (part ns i)) in
      idle_time n (i + 1) (set_part ns i (with_device (part ns i) d), max latest t)

  -- `conv_flush`, whose `local_clock()` is one more reading
  unfoldable pub conv_flush : {Q : Type 0} → Namespace Q → Reply × Namespace Q
  unfolding idle_time
  conv_flush ns =
      let bus = ns.bus in
      let start = clock bus.ticks in
      let r =
        idle_time ns.nr_parts 0 (record ns { bus = record bus { ticks = suc bus.ticks } }, start) in
      (done r.1, r.0)

  -- `conv_proc_nvme_io_cmd`; for an unknown opcode the result keeps the time that it came with.
  unfoldable pub proc_nvme_io_cmd :
      {Q : Type 0} ⦃ops : QueueOps Q⦄
      → ℕ
      → Opcode
      → Namespace Q
      → Request
      → Option (Reply × Namespace Q)
  proc_nvme_io_cmd lba_bits write ns req = conv_write clock lba_bits ns req
  proc_nvme_io_cmd lba_bits read ns req = conv_read clock lba_bits ns req
  proc_nvme_io_cmd lba_bits flush ns req = some (conv_flush ns)
  proc_nvme_io_cmd lba_bits other ns req = some (done req.nsecs_start, ns)

-- `conv_init_params`
abbrev pub conv_params : ConvParams
conv_params = record { gc_thres_lines = 2; gc_thres_lines_high = 2; enable_gc_delay = true }

abbrev null_wp : WritePointer
null_wp = record { curline = 0; ch = 0; lun = 0; pg = 0; blk = 0; pl = 0 }

module _ {Q : Type 0} ⦃ops : QueueOps Q⦄ where
  -- `conv_init_ftl`, with `init_maptbl` and `init_rmap`. The write pointers are set by
  -- `prepare_write_pointer`; what stands there before is not read.
  unfoldable pub conv_init_ftl : ConvParams → Ssd → Option (ConvFtl Q)
  conv_init_ftl cpp ssd = do
    lm ← init_lines ssd.sp
    f ←
        prepare_write_pointer
          (record {
            ssd = ssd;
            cp = cpp;
            maptbl = λ i. unmapped;
            rmap = λ i. invalid_lpn;
            wp = null_wp;
            gc_wp = null_wp;
            lm = lm;
            wfc = init_write_flow_control ssd.sp;
          })
          user_io
    prepare_write_pointer f gc_io

  -- `conv_init_namespace`: equal partitions over one bus
  unfoldable pub conv_init_namespace : Config → ℕ → Option (Namespace Q)
  conv_init_namespace c size = do
    spp ← ssd_init_params c size c.ssd_partitions
    f ← conv_init_ftl conv_params (Nand.init spp)
    some (record { nr_parts = c.ssd_partitions; bus = Nand.init_bus spp; ftls = λ i. f })
