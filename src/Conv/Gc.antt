-- ===== src/Conv/Gc.antt =====
-- Garbage collection of conv_ftl.c: `do_gc` and what it calls.
use nvmevirt_learned_ftl.Prelude.{
  ℕ, zero, suc, ◌+◌, ◌*◌, ◌/◌, ◌%◌, ◌^◌, Bool, true, false, Option, some, none, ltb, ◌==◌, ◌&&◌,
  not, if◌then◌else◌, ◌>>=◌, ◌>>◌, ensure, update, sub32,
}
use nvmevirt_learned_ftl.Ssd.Ppa.{Ppa}
use nvmevirt_learned_ftl.Ssd.Nand.{Ssd, NandCmd, NandOp, get_lun, set_lun, advance_nand}
use nvmevirt_learned_ftl.Conv.State.{
  ConvFtl, Part, gc_io, device, with_device, with_ftl, last_pg_in_wordline, get_rmap_ent, valid_lpn,
  should_gc_high,
}
use nvmevirt_learned_ftl.Conv.State.Queue.{QueueOps}
use nvmevirt_learned_ftl.Conv.Lines.{get_new_page, advance_write_pointer}
use nvmevirt_learned_ftl.Conv.Pages.{is_free, is_valid, take_page, mark_block_free, mark_line_free}

-- `ppa->g.pg = pg`, which keeps 16 bits, and `ppa_copy.g.pg++`
abbrev pub at_page : Ppa → ℕ → Ppa
at_page p pg = record p { pg = pg % 2 ^ 16 }

-- A command of the collector: it starts now.
abbrev pub gc_cmd : NandOp → ℕ → Ppa → NandCmd
gc_cmd op size p = record {
  cmd = op;
  xfer_size = size;
  stime = 0;
  interleave_pci_dma = false;
  ppa = p;
}

-- How many of `n` pages from an address on are valid; a free page is a fault.
unfoldable pub count_valid : Ssd → Ppa → ℕ → Option ℕ
count_valid s p zero = some 0
count_valid s p (suc n) = do
  ensure (not (is_free (s.status p)))
  rest ← count_valid s (at_page p (p.pg + 1)) n
  some (if is_valid (s.status p) then suc rest else rest)

module _ {Q : Type 0} (clock : ℕ → ℕ) where
  -- A timed command on a partition, under `if (cpp->enable_gc_delay)`.
  unfoldable pub gc_delay : Part Q → NandCmd → Option (Part Q)
  gc_delay p c = elim p.ftl.cp.enable_gc_delay [
    | true ↦ advance_nand clock (device p) c >>= λ r. some (with_device p r.1)
    | false ↦ some p
  ]

module _ {Q : Type 0} ⦃ops : QueueOps Q⦄ where
  -- `gc_write_page` up to the advance of the write pointer: the mapping moves to a new page.
  unfoldable pub gc_remap : ConvFtl Q → Ppa → Option (Ppa × ConvFtl Q)
  gc_remap f old_ppa = do
    lpn ← get_rmap_ent f old_ppa
    ensure (valid_lpn f lpn)
    new_ppa ← get_new_page f gc_io
    g ← take_page f lpn new_ppa
    some (new_ppa, g)

  -- `select_victim_line`: the null pointer is `none` inside.
  unfoldable pub select_victim_line : ConvFtl Q → Bool → Option ℕ × ConvFtl Q
  select_victim_line f force = elim (ops.peek f.lm.victim_line_pq) [
    | none ↦ (none, f)
    | some i ↦
        if not force && ltb (f.ssd.sp.pgs_per_line / 8) (f.lm.lines i).vpc
        then (none, f)
        else (let (q, lines) = ops.pop f.lm.victim_line_pq f.lm.lines in
            (
              some i,
              record f {
                lm = record (f.lm) {
                  victim_line_pq = q;
                  lines = update lines i (record (lines i) { pos = 0 });
                  victim_line_cnt = sub32 f.lm.victim_line_cnt 1;
                };
              },
            ))
  ]

module _ {Q : Type 0} ⦃ops : QueueOps Q⦄ (clock : ℕ → ℕ) where
  -- `gc_write_page`
  unfoldable pub gc_write_page : Part Q → Ppa → Option (Part Q)
  gc_write_page p old_ppa = do
    r ← gc_remap p.ftl old_ppa
    f ← advance_write_pointer r.1 gc_io
    gc_delay clock (with_ftl p f) (
        if last_pg_in_wordline f.ssd.sp r.0
        then gc_cmd NandOp.write (f.ssd.sp.pgsz * f.ssd.sp.pgs_per_oneshotpg) r.0
        else gc_cmd NandOp.nop 0 r.0)

  -- The second loop of `clean_one_flashpg`
  unfoldable pub copy_valid : Part Q → Ppa → ℕ → Option (Part Q)
  copy_valid p ppa zero = some p
  copy_valid p ppa (suc n) = do
    p' ← if is_valid (p.ftl.ssd.status ppa) then gc_write_page p ppa else some p
    copy_valid p' (at_page ppa (ppa.pg + 1)) n

  -- `clean_one_flashpg`
  unfoldable pub clean_one_flashpg : Part Q → Ppa → Option (Part Q)
  clean_one_flashpg p ppa = do
    let spp = p.ftl.ssd.sp
    cnt ← count_valid p.ftl.ssd ppa spp.pgs_per_flashpg
    let copied = gc_delay clock p (gc_cmd NandOp.read (spp.pgsz * cnt) ppa) >>= λ p'.
        copy_valid p' ppa spp.pgs_per_flashpg
    if cnt == 0 then some p else copied

  -- `if (flashpg == (spp->flashpgs_per_blk - 1))`: the block has been copied and is erased.
  unfoldable pub erase_block : Part Q → Ppa → Option (Part Q)
  erase_block p ppa =
      gc_delay clock (with_ftl p (record (p.ftl) { ssd = mark_block_free p.ftl.ssd ppa }))
        (gc_cmd NandOp.erase 0 ppa)

  -- `lunp->gc_endtime = lunp->next_lun_avail_time`
  unfoldable pub note_gc_end : Part Q → Ppa → Part Q
  note_gc_end p ppa =
      let s = p.ftl.ssd in
      let lun = get_lun s ppa in
      with_ftl p (record (p.ftl) {
        ssd = record s {
          luns = set_lun s.luns ppa (record lun { gc_endtime = lun.next_lun_avail_time });
        };
      })

  -- The body of the three loops of `do_gc`, at one flash page of one die.
  unfoldable pub gc_flashpg : ℕ → ℕ → ℕ → ℕ → Part Q → Option (Part Q)
  gc_flashpg blk flashpg ch lun p = do
    let spp = p.ftl.ssd.sp
    let ppa : Ppa = record {
      pg = flashpg * spp.pgs_per_flashpg % 2 ^ 16;
      blk = blk % 2 ^ 16;
      pl = 0;
      lun = lun % 2 ^ 8;
      ch = ch % 2 ^ 8;
      rsv = 0;
    }
    p' ← clean_one_flashpg p ppa
    let erased = erase_block p' ppa >>= λ p''. some (note_gc_end p'' ppa)
    if flashpg + 1 == spp.flashpgs_per_blk then erased else some p'

  -- `for (lun …)`, `for (ch …)` and `for (flashpg …)`, with `n` rounds left
  unfoldable pub gc_luns : ℕ → ℕ → ℕ → ℕ → ℕ → Part Q → Option (Part Q)
  gc_luns blk flashpg ch zero lun p = some p
  gc_luns blk flashpg ch (suc n) lun p =
      gc_flashpg blk flashpg ch lun p >>= λ p'. gc_luns blk flashpg ch n (lun + 1) p'

  unfoldable pub gc_chs : ℕ → ℕ → ℕ → ℕ → Part Q → Option (Part Q)
  gc_chs blk flashpg zero ch p = some p
  gc_chs blk flashpg (suc n) ch p =
      gc_luns blk flashpg ch p.ftl.ssd.sp.luns_per_ch 0 p >>= λ p'. gc_chs blk flashpg n (ch + 1) p'

  unfoldable pub gc_flashpgs : ℕ → ℕ → ℕ → Part Q → Option (Part Q)
  gc_flashpgs blk zero flashpg p = some p
  gc_flashpgs blk (suc n) flashpg p =
      gc_chs blk flashpg p.ftl.ssd.sp.nchs 0 p >>= λ p'. gc_flashpgs blk n (flashpg + 1) p'

  -- "copy back valid data" and "update line status", for a victim
  unfoldable pub collect : Part Q → ℕ → Option (Part Q)
  collect p i = do
    let f = p.ftl
    let blk = (f.lm.lines i).id
    let p1 =
        with_ftl p
          (record f { wfc = record (f.wfc) { credits_to_refill = (f.lm.lines i).ipc % 2 ^ 32 } })
    p2 ← gc_flashpgs blk f.ssd.sp.flashpgs_per_blk 0 p1
    some (with_ftl p2 (record (p2.ftl) { lm = mark_line_free p2.ftl.lm (blk % 2 ^ 16) }))

  -- `do_gc`; the result is whether there was a victim, 0 or -1 in C.
  unfoldable pub do_gc : Part Q → Bool → Option (Bool × Part Q)
  do_gc p force =
      let (victim, f) = select_victim_line p.ftl force in
      elim victim [
        | none ↦ some (false, with_ftl p f)
        | some i ↦ collect (with_ftl p f) i >>= λ p'. some (true, p')
      ]

  -- `foreground_gc`
  unfoldable pub foreground_gc : Part Q → Option (Part Q)
  foreground_gc p =
      let collected = do_gc p true >>= λ r. some r.1 in
      if should_gc_high p.ftl then collected else some p
