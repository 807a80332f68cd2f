-- ===== src/Conv/Lines.antt =====
-- Lines and write pointers of conv_ftl.c: where the next page goes, and what becomes of a full line.
pub mod Order
use nvmevirt_learned_ftl.Prelude.{
  ℕ, zero, suc, ◌+◌, ◌%◌, ◌^◌, Option, some, none, List, [], ◌∷◌, ◌++◌, ltb, ◌==◌, if◌then◌else◌,
  ◌>>=◌, ◌>>◌, ensure, add32, sub32,
}
use nvmevirt_learned_ftl.Ssd.Params.{SsdParams}
use nvmevirt_learned_ftl.Ssd.Ppa.{Ppa}
use nvmevirt_learned_ftl.Conv.State.{
  ConvFtl, LineMgmt, WritePointer, WriteFlowControl, IoType, get_wp, set_wp,
}
use nvmevirt_learned_ftl.Conv.State.Queue.{QueueOps}

-- The first `n` numbers, as the loop of `init_lines` puts the lines on the free list.
unfoldable pub count_up : ℕ → ℕ → List ℕ
count_up zero i = []
count_up (suc n) i = i ∷ count_up n (i + 1)

module _ {Q : Type 0} ⦃ops : QueueOps Q⦄ where
  -- `init_lines`
  unfoldable pub init_lines : SsdParams → Option (LineMgmt Q)
  init_lines spp = do
    ensure (spp.blks_per_pl == spp.tt_lines)
    some (record {
      lines = λ i. record { id = i; ipc = 0; vpc = 0; pos = 0 };
      free_line_list = count_up spp.blks_per_pl 0;
      victim_line_pq = ops.init spp.tt_lines;
      full_line_list = [];
      tt_lines = spp.blks_per_pl;
      free_line_cnt = spp.blks_per_pl;
      victim_line_cnt = 0;
      full_line_cnt = 0;
    })

-- `init_write_flow_control`
unfoldable pub init_write_flow_control : SsdParams → WriteFlowControl
init_write_flow_control spp = record {
  write_credits = spp.pgs_per_line % 2 ^ 32;
  credits_to_refill = spp.pgs_per_line % 2 ^ 32;
}

module _ {Q : Type 0} where
  unfoldable pub pop_free : LineMgmt Q → List ℕ → Option ℕ × LineMgmt Q
  pop_free lm [] = (none, lm)
  pop_free lm (i ∷ rest) =
      (some i, record lm { free_line_list = rest; free_line_cnt = sub32 lm.free_line_cnt 1 })

  -- `get_next_free_line`; `none` is the null pointer.
  unfoldable pub get_next_free_line : ConvFtl Q → Option ℕ × ConvFtl Q
  unfolding pop_free
  get_next_free_line f =
      let (line, lm) = pop_free f.lm f.lm.free_line_list in (line, record f { lm = lm })

  -- `prepare_write_pointer`, with `NVMEV_ASSERT(curline)`
  unfoldable pub prepare_write_pointer : ConvFtl Q → IoType → Option (ConvFtl Q)
  prepare_write_pointer f io = do
    let (line, f') = get_next_free_line f
    i ← line
    some (
        set_wp f' io
          (record { curline = i; ch = 0; lun = 0; pg = 0; blk = (f'.lm.lines i).id; pl = 0 }))

  -- `get_new_page`: the fields of a `struct ppa` cut the write pointer to their bits.
  unfoldable pub get_new_page : ConvFtl Q → IoType → Option Ppa
  get_new_page f io = do
    let w = get_wp f io
    ensure (w.pl % 2 ^ 8 == 0)
    some (record {
      pg = w.pg % 2 ^ 16;
      blk = w.blk % 2 ^ 16;
      pl = w.pl % 2 ^ 8;
      lun = w.lun % 2 ^ 8;
      ch = w.ch % 2 ^ 8;
      rsv = 0;
    })

  -- The new line of `advance_write_pointer`; `wpp->curline->id` faults on a null pointer.
  unfoldable pub open_line : ConvFtl Q → IoType → WritePointer → Option (ConvFtl Q)
  open_line f io w = do
    ensure (ltb w.blk f.ssd.sp.blks_per_pl)
    let (line, f') = get_next_free_line f
    i ← line
    let blk = (f'.lm.lines i).id
    ensure (ltb blk f.ssd.sp.blks_per_pl)
    ensure (w.pl == 0)
    some (set_wp f' io (record w { curline = i; blk = blk }))

module _ {Q : Type 0} ⦃ops : QueueOps Q⦄ where
  -- "all pgs are still valid, move to full line list"
  unfoldable pub retire_full : ConvFtl Q → ℕ → Option (ConvFtl Q)
  retire_full f i = do
    ensure ((f.lm.lines i).ipc == 0)
    some (record f {
      lm = record (f.lm) {
        full_line_list = f.lm.full_line_list ++ (i ∷ []);
        full_line_cnt = add32 f.lm.full_line_cnt 1;
      };
    })

  -- "there must be some invalid pages in this line": it goes to the victim queue.
  unfoldable pub retire_victim : ConvFtl Q → ℕ → Option (ConvFtl Q)
  retire_victim f i = do
    ensure (ltb (f.lm.lines i).vpc f.ssd.sp.pgs_per_line)
    ensure (ltb 0 (f.lm.lines i).ipc)
    let (q, lines) = ops.insert f.lm.victim_line_pq f.lm.lines i
    some (record f {
      lm = record (f.lm) {
        victim_line_pq = q;
        lines = lines;
        victim_line_cnt = add32 f.lm.victim_line_cnt 1;
      };
    })

  -- "move current line to {victim,full} line list"
  unfoldable pub retire_line : ConvFtl Q → ℕ → Option (ConvFtl Q)
  retire_line f i =
      if (f.lm.lines i).vpc == f.ssd.sp.pgs_per_line then retire_full f i else retire_victim f i

  -- The rest of `advance_write_pointer` past each of its `goto out`, from the last one up.
  unfoldable pub next_line : ConvFtl Q → IoType → WritePointer → Option (ConvFtl Q)
  next_line f io w = do f' ← retire_line f w.curline; open_line f' io (record w { pg = 0 })

  unfoldable pub next_wordline : ConvFtl Q → IoType → WritePointer → Option (ConvFtl Q)
  next_wordline f io w =
      let pg = add32 w.pg f.ssd.sp.pgs_per_oneshotpg in
      if pg == f.ssd.sp.pgs_per_blk
      then next_line f io (record w { lun = 0; pg = pg })
      else some (set_wp f io (record w { lun = 0; pg = pg }))

  unfoldable pub next_lun : ConvFtl Q → IoType → WritePointer → Option (ConvFtl Q)
  next_lun f io w = do
    ensure (ltb w.lun f.ssd.sp.luns_per_ch)
    let lun = add32 w.lun 1
    if lun == f.ssd.sp.luns_per_ch
        then next_wordline f io (record w { ch = 0; lun = lun })
        else some (set_wp f io (record w { ch = 0; lun = lun }))

  unfoldable pub next_ch : ConvFtl Q → IoType → WritePointer → Option (ConvFtl Q)
  next_ch f io w = do
    ensure (ltb w.ch f.ssd.sp.nchs)
    let ch = add32 w.ch 1
    if ch == f.ssd.sp.nchs
        then next_lun f io (record w { ch = ch })
        else some (set_wp f io (record w { ch = ch }))

  -- `advance_write_pointer`
  unfoldable pub advance_write_pointer : ConvFtl Q → IoType → Option (ConvFtl Q)
  advance_write_pointer f io = do
    let w = get_wp f io
    ensure (ltb w.pg f.ssd.sp.pgs_per_blk)
    let pg = add32 w.pg 1
    if pg % f.ssd.sp.pgs_per_oneshotpg == 0
        then next_ch f io (record w { pg = sub32 pg f.ssd.sp.pgs_per_oneshotpg })
        else some (set_wp f io (record w { pg = pg }))
