-- ===== src/Ssd/Nand/Programs.antt =====
-- A series of program commands on the array: each one returns, while the times stay far from the
-- limit of 64 bits.
use nvmevirt_learned_ftl.Prelude.{
  ℕ, true, ◌+◌, ◌^◌, ◌≤◌, ◌<◌, ◌≡◌, refl, arith, max, some, add64, false, ◌==◌, ◌&&◌, Bool-cases,
  inl, inr, ne→==, ◌∙◌,
}
use nvmevirt_learned_ftl.Ssd.Params.{SsdParams}
use nvmevirt_learned_ftl.Ssd.Ppa.{word, unmapped_ppa, Ppa}
use nvmevirt_learned_ftl.Ssd.Nand.{
  set_avail, Device, NandCmd, NandOp, set_lun, get_lun, nand_write, nand_op, advance_nand, in_array,
}
use nvmevirt_learned_ftl.Ssd.Nand.Timing.{IsDevice, channel-Transferred}

-- The links are in order, and every die is free by `limit`.
pub record IsFreeBy (sp : SsdParams) (limit : ℕ) (d : Device) : Type 0 where
  pub in_order : IsDevice d
  pub sp_same : d.ssd.sp ≡ sp
  pub free_by : (ch lun : ℕ) → (d.ssd.luns ch lun).next_lun_avail_time ≤ limit

set_avail-IsFreeBy :
    {sp : SsdParams} {limit : ℕ} (d : Device) (p : Ppa) (t : ℕ)
    → IsFreeBy sp limit d
    → t ≤ limit
    → IsFreeBy sp limit (set_avail d p t)
unfolding set_lun
set_avail-IsFreeBy d p t h l = record {
  in_order = record { channels_ok = h.in_order.channels_ok; link_ok = h.in_order.link_ok };
  sp_same = h.sp_same;
  free_by = λ ch lun. elim (Bool-cases (p.ch == ch && p.lun == lun)) [
    | inl here ↦ rw here l
    | inr there ↦ rw there (h.free_by ch lun)
  ];
}

-- What a program command leaves: later than its start, within 2^34 ns of the limit.
pub record Ran (sp : SsdParams) (limit stime : ℕ) (r : ℕ × Device) : Type 0 where
  pub after_start : stime ≤ r.0
  pub soon : r.0 ≤ limit + 2 ^ 34
  pub device_after : IsFreeBy sp (limit + 2 ^ 34) r.1

abbrev pub program : ℕ → ℕ → Ppa → NandCmd
program size stime p = record {
  cmd = NandOp.write;
  xfer_size = size;
  stime = stime;
  interleave_pci_dma = false;
  ppa = p;
}

module _ (clock : ℕ → ℕ) {sp : SsdParams} {limit : ℕ} where
  nand_write-Ran :
      (d : Device) (c : NandCmd) (stime : ℕ)
      → IsFreeBy sp limit d
      → limit < 2 ^ 62
      → stime ≤ limit
      → sp.pg_wr_lat < 2 ^ 32
      → (r : ℕ × Device) × (nand_write clock d c stime ≡ some r) × Ran sp limit stime r
  unfolding nand_write
  nand_write-Ran d c stime h lt ls lat =
      let t : ℕ = max (get_lun d.ssd c.ppa).next_lun_avail_time stime in
      let f = h.free_by c.ppa.ch c.ppa.lun in
      let (r, e, s) = channel-Transferred clock d c.ppa t c.xfer_size h.in_order (omega arith) in
      let u : ℕ = add64 r.0 d.ssd.sp.pg_wr_lat in
      let short : d.ssd.sp.pg_wr_lat < 2 ^ 32 = rw (h.sp_same) lat in
      let wide : u ≡ r.0 + d.ssd.sp.pg_wr_lat = omega (arith, s.soon) in
      let later : IsFreeBy sp (limit + 2 ^ 34) r.1 = record {
        in_order = s.device_ok;
        sp_same = s.same_sp ∙ h.sp_same;
        free_by = λ ch lun. rw (s.same_luns) (let g = h.free_by ch lun in omega arith);
      } in
      (
        (u, set_avail r.1 c.ppa u),
        rw e refl,
        record {
          after_start = omega (arith, s.later, wide);
          soon = omega (arith, s.soon, wide);
          device_after = set_avail-IsFreeBy r.1 c.ppa u later (omega (arith, s.soon, wide));
        },
      )

  -- A program command with a start time returns.
  pub advance_nand-Ran :
      (d : Device) (size stime : ℕ) (p : Ppa)
      → 0 < stime
      → IsFreeBy sp limit d
      → limit < 2 ^ 62
      → stime ≤ limit
      → sp.pg_wr_lat < 2 ^ 32
      → in_array sp p ≡ true
      → (r : ℕ × Device) × (advance_nand clock d (program size stime p) ≡ some r)
        × Ran sp limit stime r
  unfolding advance_nand nand_op
  advance_nand-Ran d size stime p pos h lt ls lat inside =
      let c : NandCmd = program size stime p in
      let begun : (stime == 0) ≡ false = ne→== stime 0 (λ z. omega arith) in
      elim (Bool-cases (word p == unmapped_ppa)) [
        | inl nowhere ↦ (
          (stime, d),
          rw (begun, nowhere) refl,
          record {
            after_start = omega arith;
            soon = omega arith;
            device_after = record {
              in_order = h.in_order;
              sp_same = h.sp_same;
              free_by = λ ch lun. let g = h.free_by ch lun in omega arith;
            };
          },
        )
        | inr somewhere ↦
            let (r, e, q) = nand_write-Ran d c stime h lt ls lat in
            let here : in_array d.ssd.sp p ≡ true = rw h.sp_same inside in
            (r, rw (begun, somewhere, here) e, q)
      ]
