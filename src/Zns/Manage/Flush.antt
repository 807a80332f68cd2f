-- ===== src/Zns/Manage/Flush.antt =====
-- What the explicit flush of a random write area does to its zone and to the counters.
use nvmevirt_learned_ftl.Prelude.{
  ℕ, ◌+◌, ◌≤◌, ◌<◌, true, ◌≡◌, ◌≢◌, refl, sym, ◌∙◌, ap, arith, update, some, inl, inr, subst, ◌⊎◌,
}
use nvmevirt_learned_ftl.Zns.State.{
  ZoneState, ZnsFtl, release_zone_resource, change_zone_state, Status, success,
}
use nvmevirt_learned_ftl.Zns.Manage.{flush_in, flush_to, flush_full, flush_explicit_zrwa, zrwa_end}
use nvmevirt_learned_ftl.Zns.Diagram.{◌⟶◌, stay, edges}
use nvmevirt_learned_ftl.Zns.Layout.{zone_to_slba_lem, zone_end}
use nvmevirt_learned_ftl.Zns.Accounts.{IsZoned}
use nvmevirt_learned_ftl.Zns.Accounts.Kept.{
  Moves, Moves-refl, open-IsShare, active-IsShare, area-IsShare,
}

module _ {leaked : ℕ} (f : ZnsFtl) (h : IsZoned leaked f) (zid : ℕ) (l : zid < f.zp.nr_zones) where
  flush_in-Moves :
      (s : ZoneState) (slba : ℕ)
      → (f.zone_descs zid).state ≡ s
      → (f.zone_descs zid).zrwav ≡ true
      → (f.zone_descs zid).wp ≤ slba
      → slba < (f.zone_descs zid).zslba + (f.zone_descs zid).zone_capacity
      → Moves 0 zid f (flush_in s f zid slba).1
  unfolding flush_in flush_to flush_full release_zone_resource change_zone_state update
  flush_in-Moves s slba e v from to =
      let o = open-IsShare f h zid l in
      let a = active-IsShare f h zid l in
      let r = area-IsShare f h zid l in
      let z = h.zones zid l in
      let st = h.layout.start zid l in
      let c = h.layout.capacity zid l in
      let b = zone_to_slba_lem f h.layout zid l in let w = zone_end f h.layout zid l in ground arith

  -- It refuses, or the address is in the area and the switch runs.
  flush_explicit_zrwa-cases :
      (slba : ℕ) {st : Status} {g : ZnsFtl}
      → flush_explicit_zrwa f zid slba ≡ some (st, g)
      → ((g ≡ f) × (st ≢ success))
        ⊎ (((st, g) ≡ flush_in (f.zone_descs zid).state f zid slba)
            × ((f.zone_descs zid).zrwav ≡ true)
            × ((f.zone_descs zid).wp ≤ slba)
            × (slba ≤ zrwa_end f zid))
  unfolding flush_explicit_zrwa
  flush_explicit_zrwa-cases slba e = ground arith

  in_area :
      (slba : ℕ)
      → slba ≤ zrwa_end f zid
      → slba < (f.zone_descs zid).zslba + (f.zone_descs zid).zone_capacity
  unfolding zrwa_end
  in_area slba to =
      let st = h.layout.start zid l in
      let c = h.layout.capacity zid l in
      let b = zone_to_slba_lem f h.layout zid l in
      let w = zone_end f h.layout zid l in let n = h.layout.some_lbas in ground arith

  pub flush_explicit_zrwa-Moves :
      (slba : ℕ) {st : Status} {g : ZnsFtl}
      → flush_explicit_zrwa f zid slba ≡ some (st, g)
      → Moves 0 zid f g
  flush_explicit_zrwa-Moves slba e = elim (flush_explicit_zrwa-cases slba e) [
    | inl (same, _) ↦ subst (Moves 0 zid f) (sym same) (Moves-refl f zid h l)
    | inr (q, v, from, to) ↦
        subst (Moves 0 zid f) (sym (ap (λ x. x.1) q))
          (flush_in-Moves (f.zone_descs zid).state slba refl v from (in_area slba to))
  ]

  flush_in-⟶ :
      (s : ZoneState) (slba : ℕ)
      → (f.zone_descs zid).state ≡ s
      → s ⟶ ((flush_in s f zid slba).1.zone_descs zid).state
  unfolding flush_in flush_to flush_full release_zone_resource change_zone_state update
  flush_in-⟶ s slba e = grind (arith, edges)

  flush_in-refused :
      (s : ZoneState) (slba : ℕ)
      → (flush_in s f zid slba).0 ≢ success
      → (flush_in s f zid slba).1 ≡ f
  unfolding flush_in
  flush_in-refused s slba e = ground arith

  pub flush_explicit_zrwa-⟶ :
      (slba : ℕ) {st : Status} {g : ZnsFtl}
      → flush_explicit_zrwa f zid slba ≡ some (st, g)
      → (f.zone_descs zid).state ⟶ (g.zone_descs zid).state
  flush_explicit_zrwa-⟶ slba e = elim (flush_explicit_zrwa-cases slba e) [
    | inl (same, _) ↦ rw same stay
    | inr (q, _, _, _) ↦ rw (ap (λ x. x.1) q) (flush_in-⟶ (f.zone_descs zid).state slba refl)
  ]

  pub flush_explicit_zrwa-refused :
      (slba : ℕ) {st : Status} {g : ZnsFtl}
      → flush_explicit_zrwa f zid slba ≡ some (st, g)
      → st ≢ success
      → g ≡ f
  flush_explicit_zrwa-refused slba e ne = elim (flush_explicit_zrwa-cases slba e) [
    | inl (same, _) ↦ same
    | inr (q, _, _, _) ↦
        ap (λ x. x.1) q
        ∙ flush_in-refused (f.zone_descs zid).state slba (λ s. ne (ap (λ x. x.0) q ∙ s))
  ]
