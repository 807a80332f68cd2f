-- ===== src/Conv/State/Pointer.antt =====
-- Write pointers of conv_ftl.c as places in a line.
use nvmevirt_learned_ftl.Prelude.{ℕ, ◌+◌, ◌*◌, ◌/◌, ◌%◌, ◌^◌, ◌≤◌, ◌<◌, ◌≡◌}
use nvmevirt_learned_ftl.Ssd.Params.{SsdParams}
use nvmevirt_learned_ftl.Ssd.Ppa.{Ppa}
use nvmevirt_learned_ftl.Conv.State.{WritePointer}

-- The coordinates fit in the bits of a `struct ppa`.
pub record Fits (s : SsdParams) : Type 0 where
  pub chs_fit : s.nchs ≤ 2 ^ 8
  pub luns_fit : s.luns_per_ch ≤ 2 ^ 8
  pub pls_fit : s.pls_per_lun ≤ 2 ^ 8
  pub blks_fit : s.blks_per_pl ≤ 2 ^ 16
  pub pgs_fit : s.pgs_per_blk ≤ 2 ^ 16

-- A write pointer stands at a page of the array.
pub record IsPointer (s : SsdParams) (w : WritePointer) : Type 0 where
  pub ch_in : w.ch < s.nchs
  pub lun_in : w.lun < s.luns_per_ch
  pub pl_zero : w.pl ≡ 0
  pub pl_in : 0 < s.pls_per_lun
  pub blk_in : w.blk < s.blks_per_pl
  pub pg_in : w.pg < s.pgs_per_blk

-- The page at a write pointer.
abbrev pub page_at : WritePointer → Ppa
page_at w = record { pg = w.pg; blk = w.blk; pl = w.pl; lun = w.lun; ch = w.ch; rsv = 0 }

-- The place of a write pointer in its line: the pages of a wordline of one die come first, then the
-- dies of all channels, then the next wordline.
abbrev pub place : SsdParams → WritePointer → ℕ
place s w =
    ((w.pg / s.pgs_per_oneshotpg * s.luns_per_ch + w.lun) * s.nchs + w.ch) * s.pgs_per_oneshotpg
    + w.pg % s.pgs_per_oneshotpg
