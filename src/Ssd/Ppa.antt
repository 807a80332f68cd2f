-- ===== src/Ssd/Ppa.antt =====
-- `struct ppa` (ssd.h): a physical page address, the union of its fields and of one 64-bit word.
pub mod Packing
use nvmevirt_learned_ftl.Prelude.{ℕ, ◌+◌, ◌-◌, ◌*◌, ◌/◌, ◌%◌, ◌^◌, Bool, ◌&&◌, not, ◌==◌}

-- the view `g`, from the low bits up
pub record Ppa : Type 0 where
  pub pg : ℕ
  pub blk : ℕ
  pub pl : ℕ
  pub lun : ℕ
  pub ch : ℕ
  pub rsv : ℕ

abbrev pub page_bits : ℕ
page_bits = 16

abbrev pub blk_bits : ℕ
blk_bits = 16

abbrev pub pl_bits : ℕ
pl_bits = 8

abbrev pub lun_bits : ℕ
lun_bits = 8

abbrev pub ch_bits : ℕ
ch_bits = 8

abbrev pub rsb_bits : ℕ
rsb_bits = 64 - (blk_bits + page_bits + pl_bits + lun_bits + ch_bits)

-- `UNMAPPED_PPA`, `INVALID_PPA` and `INVALID_LPN`: all bits set
abbrev pub unmapped_ppa : ℕ
unmapped_ppa = 2 ^ 64 - 1

abbrev pub invalid_lpn : ℕ
invalid_lpn = 2 ^ 64 - 1

-- the view `h.blk_in_ssd`
unfoldable pub blk_in_ssd : Ppa → ℕ
blk_in_ssd p = p.blk + 2 ^ 16 * (p.pl + 2 ^ 8 * (p.lun + 2 ^ 8 * p.ch))

-- The view `ppa`, as the compiler lays the fields out: no code of the program packs an address.
unfoldable pub word : Ppa → ℕ
unfolding blk_in_ssd
word p = p.pg + 2 ^ 16 * (blk_in_ssd p + 2 ^ 40 * p.rsv)

-- The fields of a word.
unfoldable pub of_word : ℕ → Ppa
of_word w = record {
  pg = w % 2 ^ 16;
  blk = w / 2 ^ 16 % 2 ^ 16;
  pl = w / 2 ^ 32 % 2 ^ 8;
  lun = w / 2 ^ 40 % 2 ^ 8;
  ch = w / 2 ^ 48 % 2 ^ 8;
  rsv = w / 2 ^ 56 % 2 ^ 8;
}

-- The entry that `init_maptbl` writes.
unfoldable pub unmapped : Ppa
unfolding of_word
unmapped = of_word unmapped_ppa

-- `mapped_ppa`
unfoldable pub mapped_ppa : Ppa → Bool
unfolding word
mapped_ppa p = not (word p == unmapped_ppa)

-- The page, the block and the die that an address selects: what `get_pg`, `get_blk` and `get_lun`
-- reach through the nested arrays.
unfoldable pub same_lun : Ppa → Ppa → Bool
same_lun p q = p.ch == q.ch && p.lun == q.lun

unfoldable pub same_blk : Ppa → Ppa → Bool
unfolding same_lun
same_blk p q = same_lun p q && (p.pl == q.pl && p.blk == q.blk)

unfoldable pub same_pg : Ppa → Ppa → Bool
unfolding same_blk
same_pg p q = same_blk p q && p.pg == q.pg
