-- ===== src/Conv/Write.antt =====
-- `conv_write` of conv_ftl.c. `spp` is that of the first partition in C; all hold the same copy.
pub mod Refuse
use nvmevirt_learned_ftl.Prelude.{
  ℕ, zero, suc, ◌+◌, ◌-◌, ◌*◌, ◌/◌, ◌%◌, max, false, Option, some, [], ◌∷◌, ◌++◌, ltb, leb, ◌==◌,
  ◌||◌, if◌then◌else◌, ◌>>=◌, add32, sub32,
}
use nvmevirt_learned_ftl.Ssd.Ppa.{Ppa, mapped_ppa, invalid_lpn}
use nvmevirt_learned_ftl.Ssd.Buffer
use nvmevirt_learned_ftl.Ssd.Nand.{
  NandCmd, NandOp, Release, ssd_buffer, advance_nand, advance_write_buffer,
}
use nvmevirt_learned_ftl.Conv.State.{
  ConvFtl, Part, user_io, device, with_device, with_ftl, last_pg_in_wordline, set_rmap_ent,
  set_maptbl_ent, get_maptbl_ent,
}
use nvmevirt_learned_ftl.Conv.State.Queue.{QueueOps}
use nvmevirt_learned_ftl.Conv.Lines.{get_new_page, advance_write_pointer}
use nvmevirt_learned_ftl.Conv.Pages.{take_page, mark_page_invalid}
use nvmevirt_learned_ftl.Conv.Gc.{foreground_gc}
use nvmevirt_learned_ftl.Conv.Namespace.{
  Request, Namespace, Reply, done, refused, fua, start_lpn, end_lpn, io_bytes, part, set_part,
}

module _ {Q : Type 0} ⦃ops : QueueOps Q⦄ where
  -- "update old page information first": the page that the host overwrites is given up.
  unfoldable pub give_up : ConvFtl Q → ℕ → Option (ConvFtl Q)
  give_up f local_lpn =
      let old = get_maptbl_ent f local_lpn in
      let given_up = mark_page_invalid f old >>= λ f1. set_rmap_ent f1 invalid_lpn old in
      if mapped_ppa old then given_up else some f

  -- The mapping part of `conv_write` for one page: the old page is given up, a new one taken.
  unfoldable pub write_remap : ConvFtl Q → ℕ → Option (Ppa × ConvFtl Q)
  write_remap f local_lpn = do
    f' ← give_up f local_lpn
    ppa ← get_new_page f' user_io
    g ← take_page f' local_lpn ppa
    some (ppa, g)

  -- `consume_write_credit`
  unfoldable pub consume_write_credit : ConvFtl Q → ConvFtl Q
  consume_write_credit f = record f {
    wfc = record (f.wfc) { write_credits = sub32 f.wfc.write_credits 1 };
  }

module _ {Q : Type 0} ⦃ops : QueueOps Q⦄ (clock : ℕ → ℕ) where
  unfoldable pub refill_write_credit : Part Q → Option (Part Q)
  refill_write_credit p = do
    p' ← foreground_gc clock p
    let wfc = p'.ftl.wfc
    some (
        with_ftl p' (record (p'.ftl) {
          wfc = record wfc { write_credits = add32 wfc.write_credits wfc.credits_to_refill };
        }))

  -- `check_and_refill_write_credit`
  unfoldable pub check_and_refill_write_credit : Part Q → Option (Part Q)
  check_and_refill_write_credit p =
      if leb p.ftl.wfc.write_credits 0 then refill_write_credit p else some p

  -- "Aggregate write io in flash page": the last page of a wordline programs it, and plans the
  -- release of its part of the write buffer.
  unfoldable pub program_wordline : ℕ → ℕ → Part Q → Ppa → ℕ → Option (Part Q × ℕ)
  program_wordline sqid stime p ppa nsecs_latest =
      let spp = p.ftl.ssd.sp in
      let size = spp.pgsz * spp.pgs_per_oneshotpg in
      let cmd : NandCmd = record {
        cmd = NandOp.write;
        xfer_size = size;
        stime = stime;
        interleave_pci_dma = false;
        ppa = ppa;
      } in
      let programmed = advance_nand clock (device p) cmd >>= λ r.
      let bus = r.1.bus in
      let plan : Release = record {
        sqid = sqid;
        write_buffer = ssd_buffer;
        nsecs_target = r.0;
        buffs_to_release = size;
      } in
      some (
        with_device p
            (record (r.1) { bus = record bus { scheduled = bus.scheduled ++ (plan ∷ []) } }),
        max r.0 nsecs_latest,
      ) in
      if last_pg_in_wordline spp ppa then programmed else some (p, nsecs_latest)

  -- One page of the loop of `conv_write`, on its partition.
  unfoldable pub write_page : ℕ → ℕ → Part Q → ℕ → ℕ → Option (Part Q × ℕ)
  write_page sqid stime p local_lpn nsecs_latest = do
    r ← write_remap p.ftl local_lpn
    f ← advance_write_pointer r.1 user_io
    q ← program_wordline sqid stime (with_ftl p f) r.0 nsecs_latest
    p' ← check_and_refill_write_credit (with_ftl q.0 (consume_write_credit q.0.ftl))
    some (p', q.1)

  -- `for (lpn = start_lpn; lpn <= end_lpn; lpn++)`, with `n` rounds left
  unfoldable pub write_pages : ℕ → ℕ → ℕ → ℕ → Namespace Q × ℕ → Option (Namespace Q × ℕ)
  write_pages sqid stime zero lpn s = some s
  write_pages sqid stime (suc n) lpn (ns, nsecs_latest) = do
    let i = lpn % ns.nr_parts
    r ← write_page sqid stime (part ns i) (lpn / ns.nr_parts) nsecs_latest
    write_pages sqid stime n (lpn + 1) (set_part ns i r.0, r.1)

  -- `conv_write` once the write buffer has been allocated
  unfoldable pub buffered_write : ℕ → Namespace Q → Request → Option (Reply × Namespace Q)
  buffered_write lba_bits ns req = do
    let spp = (ns.ftls 0).ssd.sp
    let first = start_lpn spp req
    let last = end_lpn spp req
    w ← advance_write_buffer clock spp ns.bus req.nsecs_start (io_bytes lba_bits req)
    r ← write_pages req.sq_id w.0 (last + 1 - first) first (record ns { bus = w.1 }, w.0)
    some (done (if fua req || spp.write_early_completion == 0 then r.1 else w.0), r.0)

  -- `conv_write` once its range is checked: all of the command fits in the buffer, or it is refused.
  unfoldable pub admit_write : ℕ → Namespace Q → Request → Option (Reply × Namespace Q)
  admit_write lba_bits ns req = do
    a ← Buffer.allocate ns.bus.write_buffer (io_bytes lba_bits req)
    let ns' = record ns { bus = record (ns.bus) { write_buffer = a.1 } }
    if ltb a.0 (io_bytes lba_bits req) then some (refused, ns') else buffered_write lba_bits ns' req

  -- `conv_write`
  unfoldable pub conv_write : ℕ → Namespace Q → Request → Option (Reply × Namespace Q)
  conv_write lba_bits ns req =
      let spp = (ns.ftls 0).ssd.sp in
      if leb spp.tt_pgs (end_lpn spp req / ns.nr_parts)
      then some (refused, ns)
      else admit_write lba_bits ns req
