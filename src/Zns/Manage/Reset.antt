-- ===== src/Zns/Manage/Reset.antt =====
-- What a reset achieves.
use nvmevirt_learned_ftl.Prelude.{
  ℕ, ◌+◌, ◌*◌, ◌≤◌, ◌<◌, false, Bool, ◌≡◌, ◌≢◌, refl, sym, ap, subst, arith, some, update, fill,
  lt→ltb,
}
use nvmevirt_learned_ftl.Zns.State.{
  ZoneState, read_only, offline, empty, ZnsFtl, success, zone_to_slba, zone_lbas, change_zone_state,
}
use nvmevirt_learned_ftl.Zns.Manage.{
  reset_zone, reset_in, reset_full, reset_contents, act, zmgmt_send_one, zmgmt_send,
}
use nvmevirt_learned_ftl.Zns.Accounts.{IsZoned}
use nvmevirt_learned_ftl.Zns.Layout.{lba_to_zone-zone_to_slba}

-- Zone `zid` is as new: empty, with its write pointer at its start, no random write area, and zeros for
-- its bytes.
pub record IsBlank (zid : ℕ) (g : ZnsFtl) : Type 0 where
  pub empty_state : (g.zone_descs zid).state ≡ empty
  pub at_start : (g.zone_descs zid).wp ≡ (g.zone_descs zid).zslba
  pub plain : (g.zone_descs zid).zrwav ≡ false
  pub zeros :
      (i : ℕ)
      → zid * g.zp.zone_size ≤ i
      → i < zid * g.zp.zone_size + g.zp.zone_size
      → g.storage i ≡ 0

reset_in_success :
    (f : ZnsFtl) (zid : ℕ) (s : ZoneState)
    → s ≢ read_only
    → s ≢ offline
    → (reset_in s f zid).0 ≡ success
unfolding reset_in
reset_in_success f zid s a b = ground arith

reset_full-IsBlank : (f : ZnsFtl) (zid : ℕ) → IsBlank zid (reset_full f zid)
unfolding reset_full reset_contents change_zone_state update fill
reset_full-IsBlank f zid = record {
  empty_state = ground arith;
  at_start = ground arith;
  plain = ground arith;
  zeros = λ i from to. ground arith;
}

-- Every reset that succeeds ends in the blanking of the zone.
reset_in-reset_full :
    (f : ZnsFtl) (zid : ℕ) (s : ZoneState)
    → s ≢ read_only
    → s ≢ offline
    → (k : ZnsFtl) × ((reset_in s f zid).1 ≡ reset_full k zid)
unfolding reset_in
reset_in-reset_full f zid ZoneState.empty a b = (_, refl)
reset_in-reset_full f zid ZoneState.opened_impl a b = (_, refl)
reset_in-reset_full f zid ZoneState.opened_expl a b = (_, refl)
reset_in-reset_full f zid ZoneState.closed a b = (_, refl)
reset_in-reset_full f zid ZoneState.full a b = (_, refl)
reset_in-reset_full f zid ZoneState.read_only a b = absurd (a refl)
reset_in-reset_full f zid ZoneState.offline a b = absurd (b refl)

-- On a zoned state in order, a reset of any sector of a zone that is neither read-only nor offline
-- returns with success, and the zone is blank: empty, with its write pointer at its start, no
-- random write area, and zeros for its bytes.
pub zmgmt_send-IsBlank :
    {leaked : ℕ} (f : ZnsFtl) (zid k : ℕ) (option : Bool)
    → IsZoned leaked f
    → zid < f.zp.nr_zones
    → k < zone_lbas f
    → (f.zone_descs zid).state ≢ read_only
    → (f.zone_descs zid).state ≢ offline
    → (g : ZnsFtl) × (zmgmt_send f false (zone_to_slba f zid + k) reset_zone option
        ≡ some (success, g))
      × IsBlank zid g
unfolding zmgmt_send zmgmt_send_one act
zmgmt_send-IsBlank f zid k option h l lk a b =
    let s = (f.zone_descs zid).state in
    let home = lba_to_zone-zone_to_slba f h.layout zid l k lk in
    let (j, e) = reset_in-reset_full f zid s a b in
    let ok = reset_in_success f zid s a b in
    (
      (reset_in s f zid).1,
      rw (home, lt→ltb zid f.zp.nr_zones l) (ap (λ st. some (st, (reset_in s f zid).1)) ok),
      subst (IsBlank zid) (sym e) (reset_full-IsBlank j zid),
    )
