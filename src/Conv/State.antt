-- ===== src/Conv/State.antt =====
-- The state of conv_ftl.h, and the mapping tables. A pointer to a line is its index in `lm->lines`.
pub mod Index
pub mod Pointer
pub mod Queue
use nvmevirt_learned_ftl.Prelude.{
  ℕ, ◌+◌, ◌-◌, ◌*◌, ◌/◌, ◌%◌, ◌^◌, Bool, true, false, Option, some, none, List, ltb, leb, ◌==◌,
  ◌&&◌, if◌then◌else◌, ◌>>=◌, ◌>>◌, ensure, update,
}
use nvmevirt_learned_ftl.Ssd.Params.{SsdParams}
use nvmevirt_learned_ftl.Ssd.Ppa.{Ppa}
use nvmevirt_learned_ftl.Ssd.Nand.{Ssd, Bus, Device}

-- `struct convparams`, less the two percentages, which only size the namespace.
pub record ConvParams : Type 0 where
  pub gc_thres_lines : ℕ
  pub gc_thres_lines_high : ℕ
  pub enable_gc_delay : Bool

-- `struct line`, less its list entry: the lists below hold the indices of their lines.
pub record Line : Type 0 where
  pub id : ℕ
  pub ipc : ℕ
  pub vpc : ℕ
  pub pos : ℕ

pub record WritePointer : Type 0 where
  pub curline : ℕ
  pub ch : ℕ
  pub lun : ℕ
  pub pg : ℕ
  pub blk : ℕ
  pub pl : ℕ

-- `struct line_mgmt`; `Q` is the type of the priority queue.
pub record LineMgmt (Q : Type 0) : Type 0 where
  pub lines : ℕ → Line
  pub free_line_list : List ℕ
  pub victim_line_pq : Q
  pub full_line_list : List ℕ
  pub tt_lines : ℕ
  pub free_line_cnt : ℕ
  pub victim_line_cnt : ℕ
  pub full_line_cnt : ℕ

pub record WriteFlowControl : Type 0 where
  pub write_credits : ℕ
  pub credits_to_refill : ℕ

-- `struct conv_ftl`: one partition.
pub record ConvFtl (Q : Type 0) : Type 0 where
  pub ssd : Ssd
  pub cp : ConvParams
  pub maptbl : ℕ → Ppa
  pub rmap : ℕ → ℕ
  pub wp : WritePointer
  pub gc_wp : WritePointer
  pub lm : LineMgmt Q
  pub wfc : WriteFlowControl

-- A partition with the link and the buffer that it shares with the others.
pub record Part (Q : Type 0) : Type 0 where
  pub bus : Bus
  pub ftl : ConvFtl Q

-- `USER_IO` and `GC_IO`
pub data IoType : Type 0 where
  user_io gc_io : IoType

-- The sum of `ppa2pgidx`, before its assertion.
unfoldable pub pgidx : SsdParams → Ppa → ℕ
pgidx spp p =
    p.ch * spp.pgs_per_ch
    + p.lun * spp.pgs_per_lun
    + p.pl * spp.pgs_per_pl
    + p.blk * spp.pgs_per_blk
    + p.pg

-- `valid_ppa`
unfoldable pub valid_ppa : SsdParams → Ppa → Bool
valid_ppa spp p =
    ltb p.ch spp.nchs
    && (ltb p.lun spp.luns_per_ch
        && (ltb p.pl spp.pls_per_lun && (ltb p.blk spp.blks_per_pl && ltb p.pg spp.pgs_per_blk)))

-- `last_pg_in_wordline`
pub last_pg_in_wordline : SsdParams → Ppa → Bool
last_pg_in_wordline spp p = p.pg % spp.pgs_per_oneshotpg == spp.pgs_per_oneshotpg - 1

module _ {Q : Type 0} where
  -- The partition as the back end sees it, and with the back end's answer put in.
  abbrev pub device : Part Q → Device
  device p = record { bus = p.bus; ssd = p.ftl.ssd }

  abbrev pub with_device : Part Q → Device → Part Q
  with_device p d = record { bus = d.bus; ftl = record (p.ftl) { ssd = d.ssd } }

  abbrev pub with_ftl : Part Q → ConvFtl Q → Part Q
  with_ftl p f = record p { ftl = f }

  -- `ppa2pgidx`
  unfoldable pub ppa2pgidx : ConvFtl Q → Ppa → Option ℕ
  ppa2pgidx f p = ensure (ltb (pgidx f.ssd.sp p) f.ssd.sp.tt_pgs) >> some (pgidx f.ssd.sp p)

  -- `get_maptbl_ent`
  abbrev pub get_maptbl_ent : ConvFtl Q → ℕ → Ppa
  get_maptbl_ent f lpn = f.maptbl lpn

  -- `set_maptbl_ent`
  unfoldable pub set_maptbl_ent : ConvFtl Q → ℕ → Ppa → Option (ConvFtl Q)
  set_maptbl_ent f lpn p =
      ensure (ltb lpn f.ssd.sp.tt_pgs) >> some (record f { maptbl = update f.maptbl lpn p })

  -- `get_rmap_ent`
  unfoldable pub get_rmap_ent : ConvFtl Q → Ppa → Option ℕ
  unfolding ppa2pgidx
  get_rmap_ent f p = ppa2pgidx f p >>= λ i. some (f.rmap i)

  -- `set_rmap_ent`
  unfoldable pub set_rmap_ent : ConvFtl Q → ℕ → Ppa → Option (ConvFtl Q)
  unfolding ppa2pgidx
  set_rmap_ent f lpn p = ppa2pgidx f p >>= λ i. some (record f { rmap = update f.rmap i lpn })

  -- `valid_lpn`
  abbrev pub valid_lpn : ConvFtl Q → ℕ → Bool
  valid_lpn f lpn = ltb lpn f.ssd.sp.tt_pgs

  -- `__get_wp`
  unfoldable pub get_wp : ConvFtl Q → IoType → WritePointer
  get_wp f user_io = f.wp
  get_wp f gc_io = f.gc_wp

  unfoldable pub set_wp : ConvFtl Q → IoType → WritePointer → ConvFtl Q
  set_wp f user_io w = record f { wp = w }
  set_wp f gc_io w = record f { gc_wp = w }

  -- `get_line`
  abbrev pub get_line : ConvFtl Q → Ppa → Line
  get_line f p = f.lm.lines p.blk

  abbrev pub set_line : ConvFtl Q → ℕ → Line → ConvFtl Q
  set_line f i l = record f { lm = record (f.lm) { lines = update f.lm.lines i l } }

  -- `should_gc` and `should_gc_high`
  unfoldable pub should_gc : ConvFtl Q → Bool
  should_gc f = leb f.lm.free_line_cnt f.cp.gc_thres_lines

  unfoldable pub should_gc_high : ConvFtl Q → Bool
  should_gc_high f = leb f.lm.free_line_cnt f.cp.gc_thres_lines_high
