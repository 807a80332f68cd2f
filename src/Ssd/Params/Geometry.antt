-- ===== src/Ssd/Params/Geometry.antt =====
-- How the counts that `ssd_init_params` derives fit together.
use nvmevirt_learned_ftl.Prelude.{
  ℕ, ◌*◌, ◌/◌, ◌%◌, ◌^◌, ◌<◌, ◌≡◌, ◌&&◌, ◌==◌, refl, some, arith, ensure, >>=-eq-some, some-eq,
  subst, ◌∙◌, sym, ap, u32, div_round_up,
}
use native.Mathlib.Nat.{div-eq_of_eq-mul_left}
use nvmevirt_learned_ftl.Ssd.Config.{Config}
use nvmevirt_learned_ftl.Ssd.Params.{SsdParams, ssd_init_params, layout_params, block_layout}

-- The relations between the fields on which the translation layers rely.
pub record IsGeometry (s : SsdParams) : Type 0 where
  pub pl_pgs : s.pgs_per_pl ≡ s.pgs_per_blk * s.blks_per_pl
  pub lun_pgs : s.pgs_per_lun ≡ s.pgs_per_pl * s.pls_per_lun
  pub ch_pgs : s.pgs_per_ch ≡ s.pgs_per_lun * s.luns_per_ch
  pub all_pgs : s.tt_pgs ≡ s.pgs_per_ch * s.nchs
  pub all_luns : s.tt_luns ≡ s.luns_per_ch * s.nchs
  pub line_blks : s.blks_per_line ≡ s.tt_luns
  pub line_pgs : s.pgs_per_line ≡ s.blks_per_line * s.pgs_per_blk
  pub lines : s.tt_lines ≡ s.blks_per_pl * s.pls_per_lun
  pub blk_pgs : s.pgs_per_blk ≡ s.pgs_per_oneshotpg * s.oneshotpgs_per_blk
  pub page_size : s.pgsz ≡ s.secsz * s.secs_per_pg

layout_params-IsGeometry :
    (c : Config) (nchs blk_size blks_per_pl : ℕ)
    → IsGeometry (layout_params c nchs blk_size blks_per_pl)
unfolding layout_params
layout_params-IsGeometry c nchs blk_size blks_per_pl = record {
  pl_pgs = refl;
  lun_pgs = refl;
  ch_pgs = refl;
  all_pgs = refl;
  all_luns = refl;
  line_blks = refl;
  line_pgs = refl;
  lines = refl;
  blk_pgs = refl;
  page_size = refl;
}

-- The lines partition the pages.
pub tt_pgs-lines : (s : SsdParams) → IsGeometry s → s.tt_pgs ≡ s.tt_lines * s.pgs_per_line
tt_pgs-lines s g =
    rw (g.all_pgs, g.ch_pgs, g.lun_pgs, g.pl_pgs, g.lines, g.line_pgs, g.line_blks, g.all_luns)
      (omega arith)

exact-div : (a b : ℕ) → 0 < b → a % b ≡ 0 → a ≡ a / b * b
exact-div a b h e = grind arith

-- (a / b) * (b / p) is a / p when every step divides.
div-mul-div : (a b p : ℕ) → 0 < p → 0 < b → a % b ≡ 0 → b % p ≡ 0 → a / b * (b / p) ≡ a / p
div-mul-div a b p hp hb ea eb = sym (
    div-eq_of_eq-mul_left hp
      (exact-div a b hb ea ∙ ap (λ x. a / b * x) (exact-div b p hp eb) ∙ omega arith))

-- A flash page is a whole number of pages, and a block a whole number of flash pages.
layout_params-flash :
    (c : Config) (nchs blk_size blks_per_pl : ℕ)
    → let s = layout_params c nchs blk_size blks_per_pl in
      0 < s.pgsz
      → 0 < c.flash_page_size
      → c.oneshot_page_size % c.flash_page_size ≡ 0
      → c.flash_page_size % (2 ^ c.lba_bits * (4096 / 2 ^ c.lba_bits)) ≡ 0
      → s.flashpgs_per_blk * s.pgs_per_flashpg ≡ s.pgs_per_blk
unfolding layout_params
layout_params-flash c nchs blk_size blks_per_pl hp hf e1 e2 =
    let n = u32 (div_round_up blk_size c.oneshot_page_size) in
    let p = 2 ^ c.lba_bits * (4096 / 2 ^ c.lba_bits) in
    let q = ap (λ x. x * n) (div-mul-div c.oneshot_page_size c.flash_page_size p hp hf e1 e2) in
    omega (arith, q)

layout_params-nchs :
    (c : Config) (nchs blk_size blks_per_pl nparts : ℕ) {n : ℕ}
    → nchs * nparts ≡ n
    → (layout_params c nchs blk_size blks_per_pl).nchs * nparts ≡ n
unfolding layout_params
layout_params-nchs c nchs blk_size blks_per_pl nparts h = h

ensured : (a : ℕ) {u : Unit {0}} → ensure (a == 0) ≡ some u → a ≡ 0
ensured a e = ground arith

ensured_right : (a b : ℕ) {u : Unit {0}} → ensure (a == 0 && b == 0) ≡ some u → b ≡ 0
ensured_right a b e = ground arith

-- With some partitions, a positive flash page size and a positive page size: when `ssd_init_params`
-- returns, the counts that it derives are well-formed (planes, dies and channels add up to the
-- whole array), the lines make up all pages, the flash pages of a block make up the block, and the
-- partitions share out all channels.
pub ssd_init_params-IsGeometry :
    (c : Config) (capacity nparts : ℕ) {s : SsdParams}
    → 0 < nparts
    → 0 < c.flash_page_size
    → 0 < s.pgsz
    → ssd_init_params c capacity nparts ≡ some s
    → IsGeometry s
      × (s.tt_pgs ≡ s.tt_lines * s.pgs_per_line)
      × (s.flashpgs_per_blk * s.pgs_per_flashpg ≡ s.pgs_per_blk)
      × (s.nchs * nparts ≡ c.nand_channels)
unfolding ssd_init_params
ssd_init_params-IsGeometry c capacity nparts {s} hn hf hp e =
    let nchs = c.nand_channels / nparts in
    let pgsz = 2 ^ c.lba_bits * (4096 / 2 ^ c.lba_bits) in
    let (u, e1, r1) = >>=-eq-some (ensure (c.nand_channels % nparts == 0)) _ e in
    let (l, e2, r2) = >>=-eq-some (block_layout c (capacity / nparts) nchs) _ r1 in
    let (v, e3, r3) =
      >>=-eq-some (ensure (c.oneshot_page_size % pgsz == 0 && c.flash_page_size % pgsz == 0)) _
        r2 in
    let (w, e4, r4) = >>=-eq-some (ensure (c.oneshot_page_size % c.flash_page_size == 0)) _ r3 in
    let q : layout_params c nchs l.0 l.1 ≡ s = some-eq r4 in
    let g = layout_params-IsGeometry c nchs l.0 l.1 in
    (
      subst IsGeometry q g,
      tt_pgs-lines s (subst IsGeometry q g),
      subst (λ t. 0 < t.pgsz → t.flashpgs_per_blk * t.pgs_per_flashpg ≡ t.pgs_per_blk) q
          (λ h.
            layout_params-flash c nchs l.0 l.1 h hf (ensured _ e4)
              (ensured_right (c.oneshot_page_size % pgsz) (c.flash_page_size % pgsz) e3))
          hp,
      subst (λ t. t.nchs * nparts ≡ c.nand_channels) q
          (layout_params-nchs c nchs l.0 l.1 nparts
            (sym (exact-div c.nand_channels nparts hn (ensured _ e1)))),
    )
