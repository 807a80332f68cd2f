-- ===== src/Zns/Write/Steps.antt =====
-- What a write at the write pointer does to its zone and to the counters.
use nvmevirt_learned_ftl.Prelude.{ℕ, ◌+◌, ◌≤◌, ◌<◌, true, ◌&&◌, ◌≡◌, ◌≢◌, arith, update, ◌==◌}
use nvmevirt_learned_ftl.Zns.State.{
  ZoneState, ZoneDescriptor, ZnsFtl, success, release_zone_resource, acquire_zone_resource,
  change_zone_state,
}
use nvmevirt_learned_ftl.Zns.Write.{take_zone, open_implicitly, increase_write_ptr}
use nvmevirt_learned_ftl.Zns.Diagram.{◌⟶◌, edges}
use nvmevirt_learned_ftl.Zns.Layout.{zone_to_slba_lem, zone_end}
use nvmevirt_learned_ftl.Zns.Accounts.{IsZoned, open_state}
use nvmevirt_learned_ftl.Zns.Accounts.Count.{weight}
use nvmevirt_learned_ftl.Zns.Accounts.Kept.{Moves, open-IsShare, active-IsShare, area-IsShare}

-- The random write areas that filling a zone leaves counted: `__increase_write_ptr` gives none back.
abbrev pub leak : ZoneDescriptor → ℕ → ℕ
leak z nr_lba = weight (z.zrwav && z.wp + nr_lba == z.zslba + z.zone_capacity)

module _ {leaked : ℕ} (f : ZnsFtl) (h : IsZoned leaked f) (zid : ℕ) (l : zid < f.zp.nr_zones) where
  pub take_zone-Moves :
      (s : ZoneState) (slba : ℕ)
      → (f.zone_descs zid).state ≡ s
      → Moves 0 zid f (take_zone s f zid slba).1
  unfolding take_zone open_implicitly acquire_zone_resource change_zone_state update
  take_zone-Moves s slba e =
      let o = open-IsShare f h zid l in
      let a = active-IsShare f h zid l in
      let r = area-IsShare f h zid l in
      let z = h.zones zid l in
      let c = h.layout.capacity zid l in let n = h.layout.some_lbas in ground arith

  pub take_zone-⟶ :
      (s : ZoneState) (slba : ℕ)
      → (f.zone_descs zid).state ≡ s
      → s ⟶ ((take_zone s f zid slba).1.zone_descs zid).state
  unfolding take_zone open_implicitly acquire_zone_resource change_zone_state update
  take_zone-⟶ s slba e = grind (arith, edges)

  pub take_zone-refused :
      (s : ZoneState) (slba : ℕ)
      → (take_zone s f zid slba).0 ≢ success
      → (take_zone s f zid slba).1 ≡ f
  unfolding take_zone open_implicitly acquire_zone_resource
  take_zone-refused s slba e =
      let o = open-IsShare f h zid l in let a = active-IsShare f h zid l in ground arith

  -- Where the switch breaks, the zone is open, with its write pointer and its flag as they were.
  pub take_zone-open :
      (s : ZoneState) (slba : ℕ) (g : ZnsFtl)
      → (f.zone_descs zid).state ≡ s
      → take_zone s f zid slba ≡ (success, g)
      → (open_state (g.zone_descs zid).state ≡ true)
        × ((g.zone_descs zid).wp ≡ (f.zone_descs zid).wp)
        × ((g.zone_descs zid).zrwav ≡ (f.zone_descs zid).zrwav)
  unfolding take_zone open_implicitly acquire_zone_resource change_zone_state update
  take_zone-open s slba g e q = ground arith

  pub increase_write_ptr-Moves :
      (nr_lba : ℕ)
      → open_state (f.zone_descs zid).state ≡ true
      → (f.zone_descs zid).wp + nr_lba ≤ (f.zone_descs zid).zslba + (f.zone_descs zid).zone_capacity
      → Moves (leak (f.zone_descs zid) nr_lba) zid f (increase_write_ptr f zid nr_lba)
  unfolding increase_write_ptr release_zone_resource change_zone_state update
  increase_write_ptr-Moves nr_lba e to =
      let o = open-IsShare f h zid l in
      let a = active-IsShare f h zid l in
      let r = area-IsShare f h zid l in
      let z = h.zones zid l in
      let st = h.layout.start zid l in
      let c = h.layout.capacity zid l in
      let b = zone_to_slba_lem f h.layout zid l in let w = zone_end f h.layout zid l in ground arith

  pub increase_write_ptr-⟶ :
      (nr_lba : ℕ)
      → open_state (f.zone_descs zid).state ≡ true
      → (f.zone_descs zid).state ⟶ ((increase_write_ptr f zid nr_lba).zone_descs zid).state
  unfolding increase_write_ptr release_zone_resource change_zone_state update
  increase_write_ptr-⟶ nr_lba e = grind (arith, edges)
