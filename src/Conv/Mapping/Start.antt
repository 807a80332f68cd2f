-- ===== src/Conv/Mapping/Start.antt =====
-- The state that `conv_init_ftl` sets up.
use nvmevirt_learned_ftl.Prelude.{
  ℕ, zero, suc, ◌^◌, sub32, ◌+◌, ◌-◌, ◌≤◌, ◌<◌, ◌≡◌, refl, some, arith, [], ◌∷◌, ◌∙◌, sym, eq→==,
}
use nvmevirt_learned_ftl.Ssd.Params.{SsdParams}
use nvmevirt_learned_ftl.Ssd.Params.Geometry.{IsGeometry}
use nvmevirt_learned_ftl.Ssd.Ppa.Packing.{mapped-unmapped}
use nvmevirt_learned_ftl.Ssd.Ppa.{unmapped, invalid_lpn}
use nvmevirt_learned_ftl.Ssd.Nand.{PgStatus}
use nvmevirt_learned_ftl.Ssd.Nand
use nvmevirt_learned_ftl.Conv.State.{ConvFtl, ConvParams, WritePointer, set_wp}
use nvmevirt_learned_ftl.Conv.State.Pointer.{IsPointer}
use nvmevirt_learned_ftl.Conv.State.Queue.{QueueOps}
use nvmevirt_learned_ftl.Conv.Lines.{
  init_write_flow_control, pop_free, count_up, init_lines, get_next_free_line,
  prepare_write_pointer,
}
use nvmevirt_learned_ftl.Conv.Command.{conv_init_ftl}
use nvmevirt_learned_ftl.Conv.Mapping.{IsConsistent, none_gone}

-- Some page, block and die of each kind, and a line for either pointer.
pub record IsSized (s : SsdParams) : Type 0 where
  pub has_ch : 0 < s.nchs
  pub has_lun : 0 < s.luns_per_ch
  pub one_pl : s.pls_per_lun ≡ 1
  pub has_pg : 0 < s.pgs_per_blk
  pub has_lines : 2 ≤ s.blks_per_pl

-- A fresh partition: nothing is mapped, the host writes to line 0 and the collector to line 1.
pub record Fresh {Q : Type 0} (s : SsdParams) (f : ConvFtl Q) : Type 0 where
  pub consistent : IsConsistent none_gone f
  pub same_sp : f.ssd.sp ≡ s
  pub wp_in : IsPointer s f.wp
  pub gc_wp_in : IsPointer s f.gc_wp
  pub apart : (f.wp.curline ≡ 0) × (f.wp.blk ≡ 0) × (f.gc_wp.curline ≡ 1) × (f.gc_wp.blk ≡ 1)
  pub free_lines : f.lm.free_line_list ≡ count_up (s.blks_per_pl - 2) 2
  pub free_cnt : f.lm.free_line_cnt + 2 ≡ s.blks_per_pl

two_less : (n : ℕ) → suc (suc n) - 2 ≡ n
two_less n = omega arith

count_up-two : (n : ℕ) → 2 ≤ n → count_up n 0 ≡ 0 ∷ 1 ∷ count_up (n - 2) 2
unfolding count_up
count_up-two zero h = ground arith
count_up-two (suc zero) h = ground arith
count_up-two (suc (suc n)) h = rw (two_less n) refl

abbrev start_wp : ℕ → WritePointer
start_wp i = record { curline = i; ch = 0; lun = 0; pg = 0; blk = i; pl = 0 }

start_wp-IsPointer : (s : SsdParams) (i : ℕ) → IsSized s → i < 2 → IsPointer s (start_wp i)
start_wp-IsPointer s i h hi = record {
  ch_in = h.has_ch;
  lun_in = h.has_lun;
  pl_zero = refl;
  pl_in = rw h.one_pl (omega arith);
  blk_in = omega arith;
  pg_in = h.has_pg;
}

module _ {Q : Type 0} ⦃ops : QueueOps Q⦄ where
  abbrev pub fresh_ftl : ConvParams → SsdParams → ConvFtl Q
  fresh_ftl cpp s = record {
    ssd = Nand.init s;
    cp = cpp;
    maptbl = λ i. unmapped;
    rmap = λ i. invalid_lpn;
    wp = start_wp 0;
    gc_wp = start_wp 1;
    lm = record {
      lines = λ i. record { id = i; ipc = 0; vpc = 0; pos = 0 };
      free_line_list = count_up (s.blks_per_pl - 2) 2;
      victim_line_pq = ops.init s.tt_lines;
      full_line_list = [];
      tt_lines = s.blks_per_pl;
      free_line_cnt = sub32 (sub32 s.blks_per_pl 1) 1;
      victim_line_cnt = 0;
      full_line_cnt = 0;
    };
    wfc = init_write_flow_control s;
  }

  fresh_ftl-runs :
      (cpp : ConvParams) (s : SsdParams)
      → s.blks_per_pl ≡ s.tt_lines
      → 2 ≤ s.blks_per_pl
      → conv_init_ftl cpp (Nand.init s) ≡ some (fresh_ftl cpp s)
  unfolding conv_init_ftl init_lines prepare_write_pointer get_next_free_line set_wp Nand.init
      pop_free
  fresh_ftl-runs cpp s e h =
      rw (eq→== s.blks_per_pl s.tt_lines e, count_up-two s.blks_per_pl h) refl

  pub fresh_ftl-IsConsistent :
      (cpp : ConvParams) (s : SsdParams) → IsConsistent none_gone (fresh_ftl cpp s)
  unfolding Nand.init
  fresh_ftl-IsConsistent cpp s = record {
    maps = λ lpn hl m. ground (arith, mapped-unmapped);
    owned = λ p a v g. ground arith;
  }

  -- On a well-formed geometry with at least one channel, die and page, one plane a die, and 2 to
  -- 2^32 - 1 lines: `conv_init_ftl` returns a partition with consistent tables, the host's pointer
  -- on line 0, the collector's on line 1, both on pages of the array, and the other lines free and
  -- counted.
  pub conv_init_ftl-Fresh :
      (cpp : ConvParams) (s : SsdParams)
      → IsGeometry s
      → IsSized s
      → s.blks_per_pl < 2 ^ 32
      → (f : ConvFtl Q) × (conv_init_ftl cpp (Nand.init s) ≡ some f) × Fresh s f
  unfolding Nand.init
  conv_init_ftl-Fresh cpp s geo h small = (
    fresh_ftl cpp s,
    fresh_ftl-runs cpp s (sym (geo.lines ∙ rw h.one_pl (omega arith))) h.has_lines,
    record {
      consistent = fresh_ftl-IsConsistent cpp s;
      same_sp = refl;
      wp_in = start_wp-IsPointer s 0 h (omega arith);
      gc_wp_in = start_wp-IsPointer s 1 h (omega arith);
      apart = (refl, refl, refl, refl);
      free_lines = refl;
      free_cnt = omega arith;
    },
  )
