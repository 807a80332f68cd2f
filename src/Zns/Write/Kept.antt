-- ===== src/Zns/Write/Kept.antt =====
-- `__zns_write` keeps every zone and every counter in order, and follows the state diagram.
use nvmevirt_learned_ftl.Prelude.{
  ℕ, ◌+◌, ◌^◌, ◌≤◌, ◌<◌, true, ◌≡◌, ◌≢◌, ◌⊎◌, refl, sym, ◌∙◌, ap, arith, inl, inr, subst,
}
use nvmevirt_learned_ftl.Zns.State.{ZnsFtl, Status, success}
use nvmevirt_learned_ftl.Zns.Place.{check_boundary_error}
use nvmevirt_learned_ftl.Zns.Write.{take_zone, settle, increase_write_ptr, advance_zone}
use nvmevirt_learned_ftl.Zns.Write.Steps.{
  take_zone-Moves, take_zone-⟶, take_zone-refused, take_zone-open, increase_write_ptr-Moves,
  increase_write_ptr-⟶,
}
use nvmevirt_learned_ftl.Zns.Layout.{check_boundary_error_lem}
use nvmevirt_learned_ftl.Zns.Diagram.{◌⟶◌}
use nvmevirt_learned_ftl.Zns.Accounts.{IsZoned, open_state}
use nvmevirt_learned_ftl.Zns.Accounts.Kept.{Moves}
use nvmevirt_learned_ftl.Zns.Onward.{Onward, Onward-trans, Onward-refl, Moves-Onward}

-- A write to a zone of the namespace, of as many sectors as a command can name
pub record IsRange (f : ZnsFtl) (zid nr_lba : ℕ) : Type 0 where
  pub in_range : zid < f.zp.nr_zones
  pub some_lba : 0 < nr_lba
  pub few_lbas : nr_lba ≤ 2 ^ 16

-- Refused by a check, or taken to the switch with a range that starts at the write pointer and is in
-- one zone.
pub advance_zone-cases :
    (lba_bits : ℕ) (f : ZnsFtl) (zid slba nr_lba : ℕ) {st : Status} {g : ZnsFtl}
    → advance_zone lba_bits f zid slba nr_lba ≡ (st, g)
    → ((g ≡ f) × (st ≢ success))
      ⊎ ((slba ≡ (f.zone_descs zid).wp)
          × (check_boundary_error f slba nr_lba ≡ true)
          × ((st, g) ≡ settle zid nr_lba (take_zone (f.zone_descs zid).state f zid slba)))
unfolding advance_zone
advance_zone-cases lba_bits f zid slba nr_lba e = ground arith

pub settle-cases :
    (zid nr_lba : ℕ) (r : Status × ZnsFtl)
    → ((r.0 ≡ success) × (settle zid nr_lba r ≡ (success, increase_write_ptr r.1 zid nr_lba)))
      ⊎ ((r.0 ≢ success) × (settle zid nr_lba r ≡ r))
unfolding settle
settle-cases zid nr_lba r = ground arith

module _ {leaked : ℕ} (f : ZnsFtl) (h : IsZoned leaked f) (zid nr_lba : ℕ)
    (k : IsRange f zid nr_lba) where
  -- The range that the checks let through ends in the zone.
  room :
      (slba : ℕ)
      → slba ≡ (f.zone_descs zid).wp
      → check_boundary_error f slba nr_lba ≡ true
      → (f.zone_descs zid).wp < (f.zone_descs zid).zslba + (f.zone_descs zid).zone_capacity
      → (f.zone_descs zid).wp + nr_lba ≤ (f.zone_descs zid).zslba + (f.zone_descs zid).zone_capacity
  room slba at b before =
      let z = h.zones zid k.in_range in
      let s = h.layout.start zid k.in_range in
      let c = h.layout.capacity zid k.in_range in
      let from = z.from_start in
      let e =
        check_boundary_error_lem f h.layout zid slba nr_lba k.in_range (omega arith) (omega arith)
          k.some_lba k.few_lbas b in
      omega arith

  -- The zone was taken, and its write pointer moves on.
  increase-Onward :
      (slba : ℕ) (g : ZnsFtl)
      → take_zone (f.zone_descs zid).state f zid slba ≡ (success, g)
      → slba ≡ (f.zone_descs zid).wp
      → check_boundary_error f slba nr_lba ≡ true
      → Onward leaked f (increase_write_ptr g zid nr_lba)
  increase-Onward slba g e at b =
      let s = (f.zone_descs zid).state in
      let t = k.in_range in
      let m : Moves 0 zid f g =
        subst (λ r. Moves 0 zid f r.1) e (take_zone-Moves f h zid t s slba refl) in
      let p : s ⟶ (g.zone_descs zid).state =
        subst (λ r. s ⟶ (r.1.zone_descs zid).state) e (take_zone-⟶ f h zid t s slba refl) in
      let (is_open, wp_same, _) = take_zone-open f h zid t s slba g refl e in
      let o = Moves-Onward h zid t m p in
      let l : zid < g.zp.nr_zones = subst (λ z. zid < z.nr_zones) (sym m.zp_same) t in
      let fits = room slba at b (taken_room g m is_open wp_same) in
      let i =
        increase_write_ptr-Moves g o.zoned zid l nr_lba is_open
          (rw (wp_same, m.start_same, m.capacity_same) fits) in
      Onward-trans o
        (Moves-Onward o.zoned zid l i (increase_write_ptr-⟶ g o.zoned zid l nr_lba is_open))
    where
      taken_room :
          (g : ZnsFtl)
          → Moves 0 zid f g
          → open_state (g.zone_descs zid).state ≡ true
          → (g.zone_descs zid).wp ≡ (f.zone_descs zid).wp
          → (f.zone_descs zid).wp < (f.zone_descs zid).zslba + (f.zone_descs zid).zone_capacity
      taken_room g m o w =
          let r = m.zone.active_has_room (ground arith) in
          subst (λ n. n < (f.zone_descs zid).zslba + (f.zone_descs zid).zone_capacity) w
            (rw (sym m.start_same, sym m.capacity_same) r)

  settle-Onward :
      (slba : ℕ) (r : Status × ZnsFtl)
      → take_zone (f.zone_descs zid).state f zid slba ≡ r
      → slba ≡ (f.zone_descs zid).wp
      → check_boundary_error f slba nr_lba ≡ true
      → Onward leaked f (settle zid nr_lba r).1
  settle-Onward slba r e at b = elim (settle-cases zid nr_lba r) [
    | inl (ok, q) ↦ rw q (increase-Onward slba r.1 (e ∙ ap (λ st. (st, r.1)) ok) at b)
    | inr (ne, q) ↦
        let s = (f.zone_descs zid).state in
        let same =
          take_zone-refused f h zid k.in_range s slba (λ st. ne (ap (λ x. x.0) (sym e) ∙ st)) in
        subst (Onward leaked f) (sym (ap (λ x. x.1) (q ∙ sym e) ∙ same)) (Onward-refl h)
  ]

  pub advance_zone-Onward :
      (lba_bits slba : ℕ) {r : Status × ZnsFtl}
      → advance_zone lba_bits f zid slba nr_lba ≡ r
      → Onward leaked f r.1
  advance_zone-Onward lba_bits slba {r} e = elim (advance_zone-cases lba_bits f zid slba nr_lba e) [
    | inl (same, _) ↦ subst (Onward leaked f) (sym same) (Onward-refl h)
    | inr (at, b, q) ↦
        subst (Onward leaked f) (sym (ap (λ x. x.1) q)) (settle-Onward slba _ refl at b)
  ]
