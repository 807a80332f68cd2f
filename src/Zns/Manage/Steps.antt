-- ===== src/Zns/Manage/Steps.antt =====
-- What each zone management action does to its zone and to the counters.
use nvmevirt_learned_ftl.Prelude.{ℕ, ◌<◌, Bool, ◌≡◌, ◌≢◌, arith, update}
use nvmevirt_learned_ftl.Zns.State.{
  ZoneState, ZnsFtl, release_zone_resource, acquire_zone_resource, change_zone_state, success,
}
use nvmevirt_learned_ftl.Zns.Manage.{
  close_in, finish_in, open_in, open_empty, reopen, attach_zrwa, release_active, reset_in,
  reset_full, reset_contents, offline_in,
}
use nvmevirt_learned_ftl.Zns.Diagram.{◌⟶◌, edges}
use nvmevirt_learned_ftl.Zns.Accounts.{IsZoned}
use nvmevirt_learned_ftl.Zns.Accounts.Kept.{Moves, open-IsShare, active-IsShare, area-IsShare}

module _ {leaked : ℕ} (f : ZnsFtl) (h : IsZoned leaked f) (zid : ℕ) (l : zid < f.zp.nr_zones) where
  pub close_in-Moves :
      (s : ZoneState) → (f.zone_descs zid).state ≡ s → Moves 0 zid f (close_in s f zid).1
  unfolding close_in release_zone_resource change_zone_state update
  close_in-Moves s e =
      let o = open-IsShare f h zid l in
      let a = active-IsShare f h zid l in
      let r = area-IsShare f h zid l in let z = h.zones zid l in ground arith

  pub close_in-⟶ :
      (s : ZoneState)
      → (f.zone_descs zid).state ≡ s
      → s ⟶ ((close_in s f zid).1.zone_descs zid).state
  unfolding close_in release_zone_resource change_zone_state update
  close_in-⟶ s e = grind (arith, edges)

  pub close_in-refused : (s : ZoneState) → (close_in s f zid).0 ≢ success → (close_in s f zid).1 ≡ f
  unfolding close_in release_zone_resource change_zone_state update
  close_in-refused s e =
      let o = open-IsShare f h zid l in let a = active-IsShare f h zid l in ground arith

  pub finish_in-Moves :
      (s : ZoneState) → (f.zone_descs zid).state ≡ s → Moves 0 zid f (finish_in s f zid).1
  unfolding finish_in release_active release_zone_resource change_zone_state update
  finish_in-Moves s e =
      let o = open-IsShare f h zid l in
      let a = active-IsShare f h zid l in
      let r = area-IsShare f h zid l in let z = h.zones zid l in ground arith

  pub finish_in-⟶ :
      (s : ZoneState)
      → (f.zone_descs zid).state ≡ s
      → s ⟶ ((finish_in s f zid).1.zone_descs zid).state
  unfolding finish_in release_active release_zone_resource change_zone_state update
  finish_in-⟶ s e = grind (arith, edges)

  pub finish_in-refused :
      (s : ZoneState) → (finish_in s f zid).0 ≢ success → (finish_in s f zid).1 ≡ f
  unfolding finish_in release_active release_zone_resource change_zone_state update
  finish_in-refused s e =
      let o = open-IsShare f h zid l in let a = active-IsShare f h zid l in ground arith

  pub open_in-Moves :
      (s : ZoneState) (zrwa : Bool)
      → (f.zone_descs zid).state ≡ s
      → Moves 0 zid f (open_in s f zid zrwa).1
  unfolding open_in open_empty reopen attach_zrwa acquire_zone_resource change_zone_state update
  open_in-Moves s zrwa e =
      let o = open-IsShare f h zid l in
      let a = active-IsShare f h zid l in
      let r = area-IsShare f h zid l in
      let z = h.zones zid l in
      let c = h.layout.capacity zid l in let n = h.layout.some_lbas in ground arith

  pub open_in-⟶ :
      (s : ZoneState) (zrwa : Bool)
      → (f.zone_descs zid).state ≡ s
      → s ⟶ ((open_in s f zid zrwa).1.zone_descs zid).state
  unfolding open_in open_empty reopen attach_zrwa acquire_zone_resource change_zone_state update
  open_in-⟶ s zrwa e = grind (arith, edges)

  pub open_in-refused :
      (s : ZoneState) (zrwa : Bool)
      → (open_in s f zid zrwa).0 ≢ success
      → (open_in s f zid zrwa).1 ≡ f
  unfolding open_in open_empty reopen attach_zrwa acquire_zone_resource change_zone_state update
  open_in-refused s zrwa e =
      let o = open-IsShare f h zid l in let a = active-IsShare f h zid l in ground arith

  pub reset_in-Moves :
      (s : ZoneState) → (f.zone_descs zid).state ≡ s → Moves 0 zid f (reset_in s f zid).1
  unfolding reset_in reset_full reset_contents release_active release_zone_resource
      change_zone_state update
  reset_in-Moves s e =
      let o = open-IsShare f h zid l in
      let a = active-IsShare f h zid l in
      let r = area-IsShare f h zid l in let z = h.zones zid l in ground arith

  pub reset_in-⟶ :
      (s : ZoneState)
      → (f.zone_descs zid).state ≡ s
      → s ⟶ ((reset_in s f zid).1.zone_descs zid).state
  unfolding reset_in reset_full reset_contents release_active release_zone_resource
      change_zone_state update
  reset_in-⟶ s e = grind (arith, edges)

  pub reset_in-refused : (s : ZoneState) → (reset_in s f zid).0 ≢ success → (reset_in s f zid).1 ≡ f
  unfolding reset_in reset_full reset_contents release_active release_zone_resource
      change_zone_state update
  reset_in-refused s e =
      let o = open-IsShare f h zid l in let a = active-IsShare f h zid l in ground arith

  pub offline_in-Moves :
      (s : ZoneState) → (f.zone_descs zid).state ≡ s → Moves 0 zid f (offline_in s f zid).1
  unfolding offline_in change_zone_state update
  offline_in-Moves s e =
      let o = open-IsShare f h zid l in
      let a = active-IsShare f h zid l in
      let r = area-IsShare f h zid l in let z = h.zones zid l in ground arith

  pub offline_in-⟶ :
      (s : ZoneState)
      → (f.zone_descs zid).state ≡ s
      → s ⟶ ((offline_in s f zid).1.zone_descs zid).state
  unfolding offline_in change_zone_state update
  offline_in-⟶ s e = grind (arith, edges)

  pub offline_in-refused :
      (s : ZoneState) → (offline_in s f zid).0 ≢ success → (offline_in s f zid).1 ≡ f
  unfolding offline_in change_zone_state update
  offline_in-refused s e =
      let o = open-IsShare f h zid l in let a = active-IsShare f h zid l in ground arith
