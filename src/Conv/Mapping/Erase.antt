-- ===== src/Conv/Mapping/Erase.antt =====
-- Erasing a block that has been copied (`mark_block_free`).
use nvmevirt_learned_ftl.Prelude.{ℕ, ◌<◌, ◌≡◌, true, false, Bool, arith, ◌&&◌, not}
use nvmevirt_learned_ftl.Ssd.Ppa.{Ppa, mapped_ppa, same_blk}
use nvmevirt_learned_ftl.Ssd.Nand.{PgStatus, Ssd}
use nvmevirt_learned_ftl.Conv.State.{ConvFtl}
use nvmevirt_learned_ftl.Conv.Pages.{mark_block_free}
use nvmevirt_learned_ftl.Conv.Mapping.{IsConsistent}

-- A page that is valid after the erasure was valid before, and is not in the block.
survives :
    (s : Ssd) (p q : Ppa)
    → q.pg < s.sp.pgs_per_blk
    → (mark_block_free s p).status q ≡ PgStatus.valid
    → (s.status q ≡ PgStatus.valid) × (same_blk p q ≡ false)
unfolding mark_block_free
survives s p q h v = ground arith

kept :
    (gone : Ppa → Bool) (p q : Ppa)
    → same_blk p q ≡ false
    → (gone q && not (same_blk p q)) ≡ false
    → gone q ≡ false
kept gone p q h g = ground arith

-- Where the tables are consistent and no mapped logical page in range lies in a block,
-- `mark_block_free` on that block keeps them consistent, and the pages of the block are no longer
-- gone.
pub mark_block_free-IsConsistent :
    {Q : Type 0} (gone : Ppa → Bool) (f : ConvFtl Q) (p : Ppa)
    → IsConsistent gone f
    → ((lpn : ℕ)
        → lpn < f.ssd.sp.tt_pgs
        → mapped_ppa (f.maptbl lpn) ≡ true
        → same_blk p (f.maptbl lpn) ≡ false)
    → IsConsistent (λ q. gone q && not (same_blk p q)) (record f { ssd = mark_block_free f.ssd p })
unfolding mark_block_free
mark_block_free-IsConsistent gone f p c out = record {
  maps = λ lpn hl m.
      (let old = c.maps lpn hl m in
        record {
          addr = record {
            range = record {
              ch_in = old.addr.range.ch_in;
              lun_in = old.addr.range.lun_in;
              pl_in = old.addr.range.pl_in;
              blk_in = old.addr.range.blk_in;
              pg_in = old.addr.range.pg_in;
            };
            plain = old.addr.plain;
          };
          is_valid = rw (out lpn hl m) old.is_valid;
          back = old.back;
        });
  owned = λ q a v g.
      (let (still, here) = survives f.ssd p q a.range.pg_in v in
        let o = c.owned q a still (kept gone p q here g) in
        record { in_range = o.in_range; forth = o.forth });
}
