-- ===== src/Zns/Zrwa/Kept.antt =====
-- `__zns_write_zrwa` keeps every zone and every counter in order, and follows the state diagram.
use nvmevirt_learned_ftl.Prelude.{
  ℕ, ◌<◌, ◌≡◌, refl, sym, ◌∙◌, ap, arith, some, true, false, not, ◌==◌, inl, inr, subst, Bool-cases,
  ◌>>=◌, ◌>>◌, ensure, >>=-eq-some, ensure-eq-some, some-eq, update,
}
use nvmevirt_learned_ftl.Ssd.Nand.{zrwa_buffer}
use nvmevirt_learned_ftl.Zns.State.{
  ZnsFtl, Status, success, ZoneState, open_zone, acquire_zone_resource, change_zone_state,
}
use nvmevirt_learned_ftl.Zns.Place.{allocate_at}
use nvmevirt_learned_ftl.Zns.Write.{is_success}
use nvmevirt_learned_ftl.Zns.Write.Timed.{allocate_at-SameZones}
use nvmevirt_learned_ftl.Zns.Zrwa.{open_area, take_area}
use nvmevirt_learned_ftl.Zns.Diagram.{◌⟶◌, edges}
use nvmevirt_learned_ftl.Zns.Accounts.{IsZoned, open_state}
use nvmevirt_learned_ftl.Zns.Accounts.Kept.{Moves, open-IsShare, active-IsShare, area-IsShare}
use nvmevirt_learned_ftl.Zns.Onward.{
  Onward, Onward-refl, Onward-trans, Moves-Onward, SameZones, SameZones-Onward,
}

-- Zone `zid` is open after a change that kept its write pointer.
pub record Opened (zid : ℕ) (f g : ZnsFtl) : Type 0 where
  pub opened : open_state (g.zone_descs zid).state ≡ true
  pub wp_same : (g.zone_descs zid).wp ≡ (f.zone_descs zid).wp

module _ {leaked : ℕ} (f : ZnsFtl) (h : IsZoned leaked f) (zid : ℕ) (l : zid < f.zp.nr_zones) where
  opened_closed : ZnsFtl
  unfolding acquire_zone_resource change_zone_state
  opened_closed = change_zone_state (acquire_zone_resource f open_zone).1 zid ZoneState.opened_impl

  opened_closed-Moves :
      (f.zone_descs zid).state ≡ ZoneState.closed
      → (acquire_zone_resource f open_zone).0 ≡ true
      → Moves 0 zid f opened_closed
  unfolding opened_closed acquire_zone_resource change_zone_state update
  opened_closed-Moves e q =
      let o = open-IsShare f h zid l in
      let a = active-IsShare f h zid l in
      let r = area-IsShare f h zid l in let z = h.zones zid l in ground arith

  opened_closed-⟶ :
      (f.zone_descs zid).state ≡ ZoneState.closed
      → (f.zone_descs zid).state ⟶ (opened_closed.zone_descs zid).state
  unfolding opened_closed change_zone_state update
  opened_closed-⟶ e = grind (arith, edges)

  -- What the switch leaves
  pub record Taken (r : Status × ZnsFtl) : Type 0 where
    pub on : Onward leaked f r.1
    pub taken : is_success r.0 ≡ true → Opened zid f r.1

  stays : (st : Status) → is_success st ≡ false → Taken (st, f)
  stays st e = record { on = Onward-refl h; taken = λ q. cc }

  open_area-acquired :
      {r : Status × ZnsFtl}
      → (acquire_zone_resource f open_zone).0 ≡ true
      → open_area f zid ≡ some r
      → (a : ℕ × ZnsFtl) × (allocate_at
            (acquire_zone_resource f open_zone).1
            (zrwa_buffer zid)
            f.zp.zrwa_size
          ≡ some a)
        × ((success, change_zone_state a.1 zid ZoneState.opened_impl) ≡ r)
  unfolding open_area
  open_area-acquired {r} q e =
      let f' = (acquire_zone_resource f open_zone).1 in
      let opened : (allocate_at f' (zrwa_buffer zid) f.zp.zrwa_size >>= λ a.
      ensure (not (a.0 == 0)) >> some (success, change_zone_state (a.1) zid ZoneState.opened_impl))
          ≡ some r =
        sym (rw q refl) ∙ e in
      let (a, e1, e2) = >>=-eq-some (allocate_at f' (zrwa_buffer zid) f.zp.zrwa_size) _ opened in
      let (_, e3) = ensure-eq-some (not (a.0 == 0)) _ e2 in (a, e1, some-eq e3)

  open_area-unacquired :
      {r : Status × ZnsFtl}
      → (acquire_zone_resource f open_zone).0 ≡ false
      → open_area f zid ≡ some r
      → (is_success r.0 ≡ false) × (r.1 ≡ f)
  unfolding open_area acquire_zone_resource
  open_area-unacquired q e = ground arith

  same_after :
      (g k : ZnsFtl)
      → SameZones g k
      → SameZones
          (change_zone_state g zid ZoneState.opened_impl)
          (change_zone_state k zid ZoneState.opened_impl)
  unfolding change_zone_state
  same_after g k s = record {
    zp_same = s.zp_same;
    sp_same = s.sp_same;
    descs_same =
        ap (λ d. update d zid (record (d zid) { state = ZoneState.opened_impl })) s.descs_same;
    infos_same = s.infos_same;
  }

  opened_closed-Opened : (k : ZnsFtl) → SameZones opened_closed k → Opened zid f k
  unfolding opened_closed change_zone_state acquire_zone_resource update
  opened_closed-Opened k s = record {
    opened = rw (s.descs_same) (ground arith);
    wp_same = rw (s.descs_same) (ground arith);
  }

  open_area-Taken :
      {r : Status × ZnsFtl}
      → (f.zone_descs zid).state ≡ ZoneState.closed
      → open_area f zid ≡ some r
      → Taken r
  unfolding opened_closed
  open_area-Taken {r} c e = elim (Bool-cases (acquire_zone_resource f open_zone).0) [
    | inl q ↦
        let (a, e1, e2) = open_area-acquired q e in
        let same : SameZones opened_closed (change_zone_state (a.1) zid ZoneState.opened_impl) =
          same_after _ (a.1) (allocate_at-SameZones _ (zrwa_buffer zid) f.zp.zrwa_size e1) in
        let o = Moves-Onward h zid l (opened_closed-Moves c q) (opened_closed-⟶ c) in
        subst Taken e2 (record {
          on = Onward-trans o (SameZones-Onward o.zoned same);
          taken = λ _. opened_closed-Opened _ same;
        })
    | inr q ↦
        let (ne, same) = open_area-unacquired q e in
        record { on = subst (Onward leaked f) (sym same) (Onward-refl h); taken = λ t. cc }
  ]

  pub take_area-Taken :
      (s : ZoneState) {r : Status × ZnsFtl}
      → (f.zone_descs zid).state ≡ s
      → (f.zone_descs zid).zrwav ≡ true
      → take_area s f zid ≡ some r
      → Taken r
  unfolding take_area
  take_area-Taken ZoneState.closed c v e = open_area-Taken c e
  take_area-Taken ZoneState.empty c v e =
      let p = (h.zones zid l).empty_plain c in absurd (true_false (sym v ∙ p))
    where
      true_false : true ≡ false → ⊥
      true_false q = cc
  take_area-Taken ZoneState.opened_impl c v e =
      subst Taken (some-eq e)
        (record { on = Onward-refl h; taken = λ _. record { opened = rw c refl; wp_same = refl } })
  take_area-Taken ZoneState.opened_expl c v e =
      subst Taken (some-eq e)
        (record { on = Onward-refl h; taken = λ _. record { opened = rw c refl; wp_same = refl } })
  take_area-Taken ZoneState.full c v e = subst Taken (some-eq e) (stays _ refl)
  take_area-Taken ZoneState.read_only c v e = subst Taken (some-eq e) (stays _ refl)
  take_area-Taken ZoneState.offline c v e = subst Taken (some-eq e) (stays _ refl)
