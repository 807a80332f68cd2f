-- ===== src/Ssd/Nand/Same.antt =====
-- The parameters of the array do not change as commands run on it.
use nvmevirt_learned_ftl.Prelude.{
  ℕ, ◌&&◌, ◌>>◌, ensure-eq-some, zero, suc, ◌-◌, min, false, ◌≡◌, refl, ◌∙◌, sym, ap, arith, some,
  ◌==◌, ◌>>=◌, >>=-eq-some, some-eq, Bool-cases, inl, inr, ensure, ltb,
}
use nvmevirt_learned_ftl.Ssd.Ppa.{word, unmapped_ppa}
use nvmevirt_learned_ftl.Ssd.Nand.{
  Device, NandCmd, NandOp, advance_channel, after_channel, read_transfer, nand_read, nand_write,
  nand_wait, nand_op, advance_nand, start, has_cells, in_array,
}

module _ (clock : ℕ → ℕ) where
  pub advance_channel-sp :
      (d : Device) (c : NandCmd) (t n : ℕ) {r : ℕ × Device}
      → advance_channel clock d c.ppa t n ≡ some r
      → r.1.ssd.sp ≡ d.ssd.sp
  unfolding advance_channel
  advance_channel-sp d c t n e = ground arith

  after_channel-sp :
      (c : NandCmd) (t n : ℕ) (d : Device) {r : ℕ × Device}
      → after_channel clock c t n d ≡ some r
      → r.1.ssd.sp ≡ d.ssd.sp
  unfolding after_channel
  after_channel-sp c t n d e = ground arith

  read_transfer-next :
      (fuel : ℕ) (c : NandCmd) (t u n : ℕ) (d : Device)
      → (n == 0) ≡ false
      → read_transfer clock (suc fuel) c t u n d ≡ (
          advance_channel clock d c.ppa t (min n d.ssd.sp.max_ch_xfer_size) >>= λ r.
          after_channel clock c r.0 (min n d.ssd.sp.max_ch_xfer_size) r.1 >>= λ k.
          read_transfer clock fuel c r.0 k.0 (n - min n d.ssd.sp.max_ch_xfer_size) k.1)
  unfolding read_transfer
  read_transfer-next fuel c t u n d h = rw h refl

  read_transfer-sp :
      (fuel : ℕ) (c : NandCmd) (t u n : ℕ) (d : Device) {r : ℕ × ℕ × Device}
      → read_transfer clock fuel c t u n d ≡ some r
      → r.2.ssd.sp ≡ d.ssd.sp
  unfolding read_transfer
  read_transfer-sp zero c t u n d e = ground arith
  read_transfer-sp (suc fuel) c t u n d e = elim (Bool-cases (n == 0)) [
    | inl z ↦ ground arith
    | inr p ↦
        let m = min n d.ssd.sp.max_ch_xfer_size in
        let (x, e1, e2) =
          >>=-eq-some (advance_channel clock d c.ppa t m) _
            (sym (read_transfer-next fuel c t u n d p) ∙ e) in
        let (k, e3, e4) = >>=-eq-some (after_channel clock c x.0 m x.1) _ e2 in
        read_transfer-sp fuel c x.0 k.0 (n - m) k.1 e4
        ∙ after_channel-sp c x.0 m x.1 e3
        ∙ advance_channel-sp d c t m e1
  ]

  nand_read-sp :
      (d : Device) (c : NandCmd) (t : ℕ) {r : ℕ × Device}
      → nand_read clock d c t ≡ some r
      → r.1.ssd.sp ≡ d.ssd.sp
  unfolding nand_read
  nand_read-sp d c t e =
      let (_, _, e1) = >>=-eq-some (ensure (has_cells d.ssd.sp && ltb 0 c.xfer_size)) _ e in
      let (k, e2, e3) = >>=-eq-some (read_transfer clock c.xfer_size c _ 0 c.xfer_size d) _ e1 in
      ap (λ x. x.1.ssd.sp) (sym (some-eq e3)) ∙ read_transfer-sp c.xfer_size c _ 0 c.xfer_size d e2

  nand_op-sp :
      (op : NandOp) (d : Device) (c : NandCmd) (t : ℕ) {r : ℕ × Device}
      → nand_op clock op d c t ≡ some r
      → r.1.ssd.sp ≡ d.ssd.sp
  unfolding nand_op nand_write nand_wait
  nand_op-sp NandOp.read d c t e = nand_read-sp d c t e
  nand_op-sp NandOp.write d c t e =
      let (k, e1, e2) = >>=-eq-some (advance_channel clock d c.ppa _ c.xfer_size) _ e in
      ap (λ x. x.1.ssd.sp) (sym (some-eq e2)) ∙ advance_channel-sp d c _ c.xfer_size e1
  nand_op-sp NandOp.erase d c t e = ground arith
  nand_op-sp NandOp.nop d c t e = ground arith

  -- A command on the array leaves its parameters as they were.
  pub advance_nand-sp :
      (d : Device) (c : NandCmd) {r : ℕ × Device}
      → advance_nand clock d c ≡ some r
      → r.1.ssd.sp ≡ d.ssd.sp
  unfolding advance_nand
  advance_nand-sp d c {r} e = elim (Bool-cases (word c.ppa == unmapped_ppa)) [
    | inl nowhere ↦ ground arith
    | inr somewhere ↦
        let op = nand_op clock c.cmd (start clock d c).1 c (start clock d c).0 in
        let run : (ensure (in_array d.ssd.sp c.ppa) >> op) ≡ some r = sym (rw somewhere refl) ∙ e in
        let (_, e1) = ensure-eq-some (in_array d.ssd.sp c.ppa) op run in
        nand_op-sp c.cmd (start clock d c).1 c (start clock d c).0 e1 ∙ ground arith
  ]
