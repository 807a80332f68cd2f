-- ===== src/Conv/Read.antt =====
-- `conv_read` of conv_ftl.c. `spp` is that of the first partition in C; all hold the same copy.
use nvmevirt_learned_ftl.Prelude.{
  ℕ, zero, suc, ◌+◌, ◌-◌, ◌*◌, ◌/◌, ◌%◌, max, Bool, true, Option, some, ltb, leb, ◌==◌, ◌&&◌, ◌||◌,
  not, if◌then◌else◌, ◌>>=◌, add32, add64, kb,
}
use nvmevirt_learned_ftl.Ssd.Params.{SsdParams}
use nvmevirt_learned_ftl.Ssd.Ppa.{Ppa, mapped_ppa, blk_in_ssd}
use nvmevirt_learned_ftl.Ssd.Nand.{Device, NandCmd, NandOp, advance_nand}
use nvmevirt_learned_ftl.Conv.State.{device, with_device, get_maptbl_ent, valid_ppa}
use nvmevirt_learned_ftl.Conv.Namespace.{
  Request, Namespace, Reply, done, refused, start_lpn, end_lpn, io_bytes, part, set_part,
}

-- `is_same_flash_page`
unfoldable pub is_same_flash_page : SsdParams → Ppa → Ppa → Bool
unfolding blk_in_ssd
is_same_flash_page spp p q =
    blk_in_ssd p == blk_in_ssd q && p.pg / spp.pgs_per_flashpg == q.pg / spp.pgs_per_flashpg

-- The variables of the loop of `conv_read` over one partition.
pub record Reading : Type 0 where
  pub xfer_size : ℕ
  pub prev_ppa : Ppa
  pub nsecs_latest : ℕ
  pub device : Device

module _ (clock : ℕ → ℕ) where
  -- `if (xfer_size > 0)`: the command for the pages gathered so far
  issue_read : ℕ → Reading → Option Reading
  issue_read stime s =
      let cmd : NandCmd = record {
        cmd = NandOp.read;
        xfer_size = s.xfer_size;
        stime = stime;
        interleave_pci_dma = true;
        ppa = s.prev_ppa;
      } in
      let issued = advance_nand clock s.device cmd >>= λ r.
      some (record s { device = r.1; nsecs_latest = max r.0 s.nsecs_latest }) in
      if ltb 0 s.xfer_size then issued else some s

  -- One page of the loop: skipped, gathered with the pages before it, or the first of a new command.
  read_page : ℕ → Reading → Ppa → Option Reading
  unfolding issue_read
  read_page stime s cur_ppa =
      let spp = s.device.ssd.sp in
      let fresh = issue_read stime s >>= λ s'.
      some (record s' { xfer_size = spp.pgsz; prev_ppa = cur_ppa }) in
      if not (mapped_ppa cur_ppa) || not (valid_ppa spp cur_ppa)
      then some s
      else if mapped_ppa s.prev_ppa && is_same_flash_page spp cur_ppa s.prev_ppa
      then some (record s { xfer_size = add32 s.xfer_size spp.pgsz })
      else fresh

  -- `for (lpn = start_lpn; lpn <= end_lpn; lpn += nr_parts)`, with `n` rounds left
  read_pages : ℕ → (ℕ → Ppa) → ℕ → ℕ → ℕ → Reading → Option Reading
  unfolding read_page
  read_pages stime maptbl nr_parts zero lpn s = some s
  read_pages stime maptbl nr_parts (suc n) lpn s =
      read_page stime s (maptbl (lpn / nr_parts)) >>= λ s'.
      read_pages stime maptbl nr_parts n (lpn + nr_parts) s'

  -- The body of the outer loop of `conv_read`: one partition.
  read_part : {Q : Type 0} → ℕ → ℕ → ℕ → Namespace Q × ℕ → Option (Namespace Q × ℕ)
  unfolding read_pages issue_read
  read_part stime start last (ns, nsecs_latest) = do
    let i = start % ns.nr_parts
    let f = ns.ftls i
    s ← read_pages stime f.maptbl ns.nr_parts ((last - start) / ns.nr_parts + 1) start (record {
      xfer_size = 0;
      prev_ppa = get_maptbl_ent f (start / ns.nr_parts);
      nsecs_latest = nsecs_latest;
      device = device (part ns i);
    })
    s' ← issue_read stime s
    some (set_part ns i (with_device (part ns i) s'.device), s'.nsecs_latest)

  -- `for (i = 0; (i < nr_parts) && (start_lpn <= end_lpn); i++, start_lpn++)`
  read_parts : {Q : Type 0} → ℕ → ℕ → ℕ → ℕ → Namespace Q × ℕ → Option (Namespace Q × ℕ)
  unfolding read_part
  read_parts stime zero start last s = some s
  read_parts stime (suc n) start last s =
      let more = read_part stime start last s >>= λ s'. read_parts stime n (start + 1) last s' in
      if leb start last then more else some s

  -- `conv_read`
  unfoldable pub conv_read : {Q : Type 0} → ℕ → Namespace Q → Request → Option (Reply × Namespace Q)
  unfolding read_parts
  conv_read lba_bits ns req =
      let spp = (ns.ftls 0).ssd.sp in
      let first = start_lpn spp req in
      let last = end_lpn spp req in
      let lat =
        if leb (io_bytes lba_bits req) (kb 4 * ns.nr_parts)
        then spp.fw_4kb_rd_lat
        else spp.fw_rd_lat in
      let served =
        read_parts (add64 req.nsecs_start lat) ns.nr_parts first last (ns, req.nsecs_start) >>= λ r.
        some (done r.1, r.0) in
      if leb spp.tt_pgs (last / ns.nr_parts) then some (refused, ns) else served
