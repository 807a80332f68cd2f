-- ===== src/Ssd/Params.antt =====
-- `struct ssdparams` (ssd.h) and `ssd_init_params` (ssd.c).
-- The fields of C type `int` are read as non-negative numbers: their products are written without a
-- wrap, since signed overflow has no meaning in C. Conversions to `int` keep 32 bits.
pub mod Geometry
use nvmevirt_learned_ftl.Prelude.{
  ℕ, ◌+◌, ◌*◌, ◌/◌, ◌%◌, ◌^◌, ◌≡◌, Bool, Option, some, none, ◌&&◌, ltb, ◌==◌, if◌then◌else◌, ◌>>=◌,
  ◌>>◌, ensure, u32, div_round_up,
}
use nvmevirt_learned_ftl.Ssd.Config.{Config}

-- `enum { CELL_TYPE_LSB, CELL_TYPE_MSB, CELL_TYPE_CSB, MAX_CELL_TYPES }` indexes the two tables.
pub record SsdParams : Type 0 where
  pub secsz : ℕ
  pub secs_per_pg : ℕ
  pub pgsz : ℕ
  pub pgs_per_flashpg : ℕ
  pub flashpgs_per_blk : ℕ
  pub pgs_per_oneshotpg : ℕ
  pub oneshotpgs_per_blk : ℕ
  pub pgs_per_blk : ℕ
  pub blks_per_pl : ℕ
  pub pls_per_lun : ℕ
  pub luns_per_ch : ℕ
  pub nchs : ℕ
  pub cell_mode : ℕ
  pub write_unit_size : ℕ
  pub write_early_completion : ℕ
  pub pg_4kb_rd_lat : ℕ → ℕ
  pub pg_rd_lat : ℕ → ℕ
  pub pg_wr_lat : ℕ
  pub blk_er_lat : ℕ
  pub max_ch_xfer_size : ℕ
  pub fw_4kb_rd_lat : ℕ
  pub fw_rd_lat : ℕ
  pub fw_wbuf_lat0 : ℕ
  pub fw_wbuf_lat1 : ℕ
  pub fw_ch_xfer_lat : ℕ
  pub ch_bandwidth : ℕ
  pub pcie_bandwidth : ℕ
  pub secs_per_blk : ℕ
  pub secs_per_pl : ℕ
  pub secs_per_lun : ℕ
  pub secs_per_ch : ℕ
  pub tt_secs : ℕ
  pub pgs_per_pl : ℕ
  pub pgs_per_lun : ℕ
  pub pgs_per_ch : ℕ
  pub tt_pgs : ℕ
  pub blks_per_lun : ℕ
  pub blks_per_ch : ℕ
  pub tt_blks : ℕ
  pub secs_per_line : ℕ
  pub pgs_per_line : ℕ
  pub blks_per_line : ℕ
  pub tt_lines : ℕ
  pub pls_per_ch : ℕ
  pub tt_pls : ℕ
  pub tt_luns : ℕ
  pub write_buffer_size : ℕ

-- A table of one entry for each cell type; an index past the table is out of bounds in C.
abbrev per_cell : ℕ → ℕ → ℕ → ℕ → ℕ
per_cell lsb msb csb i = if i == 0 then lsb else if i == 1 then msb else if i == 2 then csb else 0

-- `blk_size` and `spp->blks_per_pl`: one of the two is configured and gives the other.
unfoldable pub block_layout : Config → ℕ → ℕ → Option (ℕ × ℕ)
block_layout c capacity nchs =
    if ltb 0 c.blks_per_pln
    then some (
      div_round_up capacity (c.blks_per_pln * c.plns_per_lun * c.luns_per_nand_ch * nchs),
      c.blks_per_pln,
    )
    else do
      ensure (ltb 0 c.blk_size)
      some (
        c.blk_size,
        u32 (div_round_up capacity (c.blk_size * c.plns_per_lun * c.luns_per_nand_ch * nchs)),
      )

-- The fields that the body of `ssd_init_params` derives from the layout.
unfoldable pub layout_params : Config → ℕ → ℕ → ℕ → SsdParams
layout_params c nchs blk_size blks_per_pl =
    let secsz = 2 ^ c.lba_bits in
    let secs_per_pg = 4096 / 2 ^ c.lba_bits in
    let pgsz = secsz * secs_per_pg in
    let pgs_per_oneshotpg = c.oneshot_page_size / pgsz in
    let oneshotpgs_per_blk = u32 (div_round_up blk_size c.oneshot_page_size) in
    let pgs_per_flashpg = c.flash_page_size / pgsz in
    let flashpgs_per_blk = c.oneshot_page_size / c.flash_page_size * oneshotpgs_per_blk in
    let pgs_per_blk = pgs_per_oneshotpg * oneshotpgs_per_blk in
    let secs_per_blk = secs_per_pg * pgs_per_blk in
    let secs_per_pl = secs_per_blk * blks_per_pl in
    let secs_per_lun = secs_per_pl * c.plns_per_lun in
    let secs_per_ch = secs_per_lun * c.luns_per_nand_ch in
    let pgs_per_pl = pgs_per_blk * blks_per_pl in
    let pgs_per_lun = pgs_per_pl * c.plns_per_lun in
    let pgs_per_ch = pgs_per_lun * c.luns_per_nand_ch in
    let blks_per_lun = blks_per_pl * c.plns_per_lun in
    let blks_per_ch = blks_per_lun * c.luns_per_nand_ch in
    let pls_per_ch = c.plns_per_lun * c.luns_per_nand_ch in
    let tt_luns = c.luns_per_nand_ch * nchs in
    let pgs_per_line = tt_luns * pgs_per_blk in
    record {
      secsz = secsz;
      secs_per_pg = secs_per_pg;
      pgsz = pgsz;
      pgs_per_flashpg = pgs_per_flashpg;
      flashpgs_per_blk = flashpgs_per_blk;
      pgs_per_oneshotpg = pgs_per_oneshotpg;
      oneshotpgs_per_blk = oneshotpgs_per_blk;
      pgs_per_blk = pgs_per_blk;
      blks_per_pl = blks_per_pl;
      pls_per_lun = c.plns_per_lun;
      luns_per_ch = c.luns_per_nand_ch;
      nchs = nchs;
      cell_mode = c.cell_mode;
      write_unit_size = c.write_unit_size;
      write_early_completion = c.write_early_completion;
      pg_4kb_rd_lat =
          per_cell c.nand_4kb_read_latency_lsb c.nand_4kb_read_latency_msb
            c.nand_4kb_read_latency_csb;
      pg_rd_lat = per_cell c.nand_read_latency_lsb c.nand_read_latency_msb c.nand_read_latency_csb;
      pg_wr_lat = c.nand_prog_latency;
      blk_er_lat = c.nand_erase_latency;
      max_ch_xfer_size = c.max_ch_xfer_size;
      fw_4kb_rd_lat = c.fw_4kb_read_latency;
      fw_rd_lat = c.fw_read_latency;
      fw_wbuf_lat0 = c.fw_wbuf_latency0;
      fw_wbuf_lat1 = c.fw_wbuf_latency1;
      fw_ch_xfer_lat = c.fw_ch_xfer_latency;
      ch_bandwidth = c.nand_channel_bandwidth;
      pcie_bandwidth = c.pcie_bandwidth;
      secs_per_blk = secs_per_blk;
      secs_per_pl = secs_per_pl;
      secs_per_lun = secs_per_lun;
      secs_per_ch = secs_per_ch;
      tt_secs = secs_per_ch * nchs;
      pgs_per_pl = pgs_per_pl;
      pgs_per_lun = pgs_per_lun;
      pgs_per_ch = pgs_per_ch;
      tt_pgs = pgs_per_ch * nchs;
      blks_per_lun = blks_per_lun;
      blks_per_ch = blks_per_ch;
      tt_blks = blks_per_ch * nchs;
      secs_per_line = pgs_per_line * secs_per_pg;
      pgs_per_line = pgs_per_line;
      blks_per_line = tt_luns;
      tt_lines = blks_per_lun;
      pls_per_ch = pls_per_ch;
      tt_pls = pls_per_ch * nchs;
      tt_luns = tt_luns;
      write_buffer_size = c.global_wb_size;
    }

-- `ssd_init_params`. The capacity that it prints at the end has no effect and is left out.
unfoldable pub ssd_init_params : Config → ℕ → ℕ → Option SsdParams
ssd_init_params c capacity nparts = do
  let pgsz = 2 ^ c.lba_bits * (4096 / 2 ^ c.lba_bits)
  ensure (c.nand_channels % nparts == 0)
  let nchs = c.nand_channels / nparts
  layout ← block_layout c (capacity / nparts) nchs
  ensure (c.oneshot_page_size % pgsz == 0 && c.flash_page_size % pgsz == 0)
  ensure (c.oneshot_page_size % c.flash_page_size == 0)
  some (layout_params c nchs layout.0 layout.1)
