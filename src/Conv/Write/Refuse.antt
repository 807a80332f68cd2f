-- ===== src/Conv/Write/Refuse.antt =====
-- What `conv_write` leaves when it refuses a command.
use nvmevirt_learned_ftl.Prelude.{
  ℕ, ◌≤◌, ◌-◌, ◌<◌, ◌/◌, true, false, lt→ltb, ◌≡◌, ◌≢◌, refl, arith, some, leb, ltb, some-eq,
  Bool-cases, inl, inr, ap, sym, ◌∙◌,
}
use nvmevirt_learned_ftl.Ssd.Buffer.{Buffer, allocate}
use nvmevirt_learned_ftl.Ssd.Buffer.Laws.{IsBuffer, allocate_lem}
use nvmevirt_learned_ftl.Conv.State.Queue.{QueueOps}
use nvmevirt_learned_ftl.Conv.Namespace.{Request, Namespace, refused, io_bytes, end_lpn}
use nvmevirt_learned_ftl.Conv.Write.{buffered_write, admit_write, conv_write}

not-below : (n : ℕ) → ltb n n ≡ false
not-below n = ground arith

module _ {Q : Type 0} ⦃ops : QueueOps Q⦄ (clock : ℕ → ℕ) where
  buffered_write-done :
      (lba_bits : ℕ) (ns : Namespace Q) (req : Request) {ns' : Namespace Q}
      → buffered_write clock lba_bits ns req ≢ some (refused, ns')
  unfolding buffered_write
  buffered_write-done lba_bits ns req e = ground arith

  -- Where the allocation gives all, the write goes on.
  admit_write-fits :
      (lba_bits : ℕ) (ns : Namespace Q) (req : Request) (b : Buffer)
      → allocate ns.bus.write_buffer (io_bytes lba_bits req) ≡ some (io_bytes lba_bits req, b)
      → admit_write clock lba_bits ns req
        ≡ buffered_write clock lba_bits
            (record ns { bus = record (ns.bus) { write_buffer = b } })
            req
  unfolding admit_write
  admit_write-fits lba_bits ns req b a = rw (a, not-below (io_bytes lba_bits req)) refl

  -- Where it gives nothing, the command is refused and nothing has changed.
  admit_write-full :
      (lba_bits : ℕ) (ns : Namespace Q) (req : Request)
      → 0 < io_bytes lba_bits req
      → allocate ns.bus.write_buffer (io_bytes lba_bits req) ≡ some (0, ns.bus.write_buffer)
      → admit_write clock lba_bits ns req ≡ some (refused, ns)
  unfolding admit_write
  admit_write-full lba_bits ns req pos a = rw (a, lt→ltb 0 (io_bytes lba_bits req) pos) refl

  admit_write-refused :
      (lba_bits : ℕ) (ns : Namespace Q) (req : Request) {ns' : Namespace Q}
      → IsBuffer ns.bus.write_buffer
      → io_bytes lba_bits req ≤ ns.bus.write_buffer.size
      → admit_write clock lba_bits ns req ≡ some (refused, ns')
      → ns' ≡ ns
  admit_write-refused lba_bits ns req {ns'} h fits e =
      let n : ℕ = io_bytes lba_bits req in
      let a = allocate_lem ns.bus.write_buffer n h fits in
      elim (Bool-cases (leb n ns.bus.write_buffer.remaining)) [
        | inl fit ↦
            let b : Buffer = record (ns.bus.write_buffer) {
              remaining = ns.bus.write_buffer.remaining - n;
            } in
            absurd (
              buffered_write-done lba_bits _ req {ns' = ns'}
                (sym (admit_write-fits lba_bits ns req b (a ∙ rw fit refl)) ∙ e))
        | inr full ↦ sym (
            ap (λ x. x.1)
              (some-eq
                (sym (admit_write-full lba_bits ns req (ground arith) (a ∙ rw full refl)) ∙ e)))
      ]

  out_of_range :
      (lba_bits : ℕ) (ns : Namespace Q) (req : Request)
      → leb (ns.ftls 0).ssd.sp.tt_pgs (end_lpn (ns.ftls 0).ssd.sp req / ns.nr_parts) ≡ true
      → conv_write clock lba_bits ns req ≡ some (refused, ns)
  unfolding conv_write
  out_of_range lba_bits ns req e = rw e refl

  within_range :
      (lba_bits : ℕ) (ns : Namespace Q) (req : Request)
      → leb (ns.ftls 0).ssd.sp.tt_pgs (end_lpn (ns.ftls 0).ssd.sp req / ns.nr_parts) ≡ false
      → conv_write clock lba_bits ns req ≡ admit_write clock lba_bits ns req
  unfolding conv_write
  within_range lba_bits ns req e = rw e refl

  -- With a write buffer in order that is large enough when empty for the command: if `conv_write`
  -- refuses the command, for its range or for want of buffer, the namespace is as it was.
  pub conv_write-refused :
      (lba_bits : ℕ) (ns : Namespace Q) (req : Request) {ns' : Namespace Q}
      → IsBuffer ns.bus.write_buffer
      → io_bytes lba_bits req ≤ ns.bus.write_buffer.size
      → conv_write clock lba_bits ns req ≡ some (refused, ns')
      → ns' ≡ ns
  conv_write-refused lba_bits ns req h fits e =
      elim (Bool-cases
        (leb (ns.ftls 0).ssd.sp.tt_pgs (end_lpn (ns.ftls 0).ssd.sp req / ns.nr_parts))) [
          | inl out ↦ sym (ap (λ x. x.1) (some-eq (sym (out_of_range lba_bits ns req out) ∙ e)))
          | inr in_range ↦
              admit_write-refused lba_bits ns req h fits
                (sym (within_range lba_bits ns req in_range) ∙ e)
        ]
