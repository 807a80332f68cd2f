-- ===== src/Conv/Pages.antt =====
-- Page, block and line bookkeeping of conv_ftl.c: `mark_page_valid`, `mark_page_invalid`,
-- `mark_block_free`, `mark_line_free`.
use nvmevirt_learned_ftl.Prelude.{
  ℕ, ◌+◌, ◌-◌, Bool, true, false, Option, some, [], ◌∷◌, ◌++◌, ltb, leb, ◌==◌, ◌&&◌, ◌||◌, not,
  if◌then◌else◌, ◌>>=◌, ◌>>◌, ensure, update, add32, sub32, remove,
}
use nvmevirt_learned_ftl.Ssd.Params.{SsdParams}
use nvmevirt_learned_ftl.Ssd.Ppa.{Ppa, same_blk}
use nvmevirt_learned_ftl.Ssd.Nand.{Ssd, PgStatus, set_status, set_block}
use nvmevirt_learned_ftl.Conv.State.{
  set_maptbl_ent, set_rmap_ent, ConvFtl, LineMgmt, get_line, set_line,
}
use nvmevirt_learned_ftl.Conv.State.Queue.{QueueOps}

abbrev pub is_free : PgStatus → Bool
is_free PgStatus.free = true
is_free _ = false

abbrev pub is_valid : PgStatus → Bool
is_valid PgStatus.valid = true
is_valid _ = false

-- "update corresponding page status" and "block status" of `mark_page_invalid`
unfoldable pub invalidate_page : Ssd → Ppa → Option Ssd
invalidate_page s p = do
  let blk = s.blocks p
  ensure (is_valid (s.status p))
  ensure (ltb blk.ipc s.sp.pgs_per_blk)
  ensure (ltb 0 blk.vpc && leb blk.vpc s.sp.pgs_per_blk)
  some (record s {
    status = set_status s.status p PgStatus.invalid;
    blocks = set_block s.blocks p (record blk { ipc = blk.ipc + 1; vpc = blk.vpc - 1 });
  })

-- The same of `mark_page_valid`
unfoldable pub validate_page : Ssd → Ppa → Option Ssd
validate_page s p = do
  let blk = s.blocks p
  ensure (is_free (s.status p))
  ensure (ltb blk.vpc s.sp.pgs_per_blk)
  some (record s {
    status = set_status s.status p PgStatus.valid;
    blocks = set_block s.blocks p (record blk { vpc = blk.vpc + 1 });
  })

-- `mark_block_free`. The pages that the loop resets are those of the block below `pgs_per_blk`, and
-- there are no others. (`nsecs` and `npgs` are never changed, so their assertions are left out.)
unfoldable pub mark_block_free : Ssd → Ppa → Ssd
mark_block_free s p = record s {
  status = λ q. if same_blk p q && ltb q.pg s.sp.pgs_per_blk then PgStatus.free else s.status q;
  blocks =
      set_block s.blocks p (record { ipc = 0; vpc = 0; erase_cnt = (s.blocks p).erase_cnt + 1 });
}

module _ {Q : Type 0} ⦃ops : QueueOps Q⦄ where
  -- "Adjust the position of the victime line in the pq under over-writes"
  unfoldable pub lower_vpc : LineMgmt Q → ℕ → LineMgmt Q
  lower_vpc lm i =
      let line = lm.lines i in
      if line.pos == 0
      then record lm { lines = update lm.lines i (record line { vpc = line.vpc - 1 }) }
      else (let (q, lines) = ops.change_priority lm.victim_line_pq lm.lines (line.vpc - 1) i in
          record lm { victim_line_pq = q; lines = lines })

  -- `if (was_full_line)`: move line, "full" to "victim"
  unfoldable pub full_to_victim : LineMgmt Q → ℕ → LineMgmt Q
  full_to_victim lm i =
      let (q, lines) = ops.insert lm.victim_line_pq lm.lines i in
      record lm {
        full_line_list = remove i lm.full_line_list;
        full_line_cnt = sub32 lm.full_line_cnt 1;
        victim_line_pq = q;
        lines = lines;
        victim_line_cnt = add32 lm.victim_line_cnt 1;
      }

  -- "update corresponding line status" of `mark_page_invalid`
  unfoldable pub invalidate_line : SsdParams → LineMgmt Q → ℕ → Option (LineMgmt Q)
  invalidate_line spp lm i = do
    let line = lm.lines i
    let was_full_line = line.vpc == spp.pgs_per_line
    ensure (ltb line.ipc spp.pgs_per_line)
    ensure (not was_full_line || line.ipc == 0)
    ensure (ltb 0 line.vpc && leb line.vpc spp.pgs_per_line)
    let lm' =
        lower_vpc (record lm { lines = update lm.lines i (record line { ipc = line.ipc + 1 }) }) i
    some (if was_full_line then full_to_victim lm' i else lm')

  -- `mark_page_invalid`
  unfoldable pub mark_page_invalid : ConvFtl Q → Ppa → Option (ConvFtl Q)
  mark_page_invalid f p = do
    ssd ← invalidate_page f.ssd p
    lm ← invalidate_line f.ssd.sp f.lm p.blk
    some (record f { ssd = ssd; lm = lm })

module _ {Q : Type 0} where
  -- `mark_page_valid`
  unfoldable pub mark_page_valid : ConvFtl Q → Ppa → Option (ConvFtl Q)
  mark_page_valid f p = do
    ssd ← validate_page f.ssd p
    let line = get_line f p
    ensure (ltb line.vpc f.ssd.sp.pgs_per_line)
    some (set_line (record f { ssd = ssd }) p.blk (record line { vpc = line.vpc + 1 }))

  -- `mark_line_free`
  unfoldable pub mark_line_free : LineMgmt Q → ℕ → LineMgmt Q
  mark_line_free lm i = record lm {
    lines = update lm.lines i (record (lm.lines i) { ipc = 0; vpc = 0 });
    free_line_list = lm.free_line_list ++ (i ∷ []);
    free_line_cnt = add32 lm.free_line_cnt 1;
  }

  -- "update maptbl", "update rmap" and `mark_page_valid`, as the host's write and the collector's
  -- copy both do for a new page
  unfoldable pub take_page : ConvFtl Q → ℕ → Ppa → Option (ConvFtl Q)
  take_page f lpn ppa = do
    f1 ← set_maptbl_ent f lpn ppa
    f2 ← set_rmap_ent f1 lpn ppa
    mark_page_valid f2 ppa
