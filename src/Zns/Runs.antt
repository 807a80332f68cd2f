-- ===== src/Zns/Runs.antt =====
-- Series of commands on a zoned namespace.
use nvmevirt_learned_ftl.Prelude.{ℕ, ◌+◌, ◌<◌, ◌≡◌, ◌≢◌, refl, Bool, true, false, some, arith}
use nvmevirt_learned_ftl.Zns.State.{
  ZoneState, empty, read_only, offline, ZnsFtl, success, zone_lbas, zone_to_slba,
}
use nvmevirt_learned_ftl.Zns.Accounts.{IsZoned}
use nvmevirt_learned_ftl.Zns.Diagram.{
  ◌⟶◌, ◌⟶*◌, here, then, stay, write_first, write_again, open_first, open_again, make_explicit,
  close, finish_empty, fill_up, reset_active, clear_full, retire,
}
use nvmevirt_learned_ftl.Zns.Onward.{Onward, Onward-refl, Onward-trans}
use nvmevirt_learned_ftl.Zns.Zrwa.Whole.{IsArea}
use nvmevirt_learned_ftl.Zns.Command.{Command, Answer, proc_nvme_io_cmd}
use nvmevirt_learned_ftl.Zns.Kept.{IsCommand, proc_nvme_io_cmd-Onward}
use nvmevirt_learned_ftl.Zns.Manage.{reset_zone, zmgmt_send}
use nvmevirt_learned_ftl.Zns.Manage.Reset.{IsBlank, zmgmt_send-IsBlank}

-- `f` becomes `g` by a series of commands, each of which returned.
pub data Reaches (clock : ℕ → ℕ) (lba_bits : ℕ) : ZnsFtl → ZnsFtl → Type 0 where
  done : {f : ZnsFtl} → Reaches clock lba_bits f f
  next :
      {f g : ZnsFtl} {a : Answer} (c : Command)
      → IsCommand c
      → proc_nvme_io_cmd clock lba_bits f c ≡ some a
      → Reaches clock lba_bits a.ftl g
      → Reaches clock lba_bits f g

-- The states that a zone can still be reset from
abbrev pub usable : ZoneState → Bool
usable ZoneState.read_only = false
usable ZoneState.offline = false
usable _ = true

⟶-usable : {s t : ZoneState} → s ⟶ t → usable s ≡ true → usable t ≡ true
⟶-usable stay u = u
⟶-usable retire u = cc
⟶-usable write_first u = refl
⟶-usable write_again u = refl
⟶-usable open_first u = refl
⟶-usable open_again u = refl
⟶-usable make_explicit u = refl
⟶-usable (close _) u = refl
⟶-usable finish_empty u = refl
⟶-usable (fill_up _) u = refl
⟶-usable (reset_active _) u = refl
⟶-usable clear_full u = refl

⟶*-usable : {s t : ZoneState} → s ⟶* t → usable s ≡ true → usable t ≡ true
⟶*-usable here u = u
⟶*-usable (then e p) u = ⟶*-usable p (⟶-usable e u)

usable-ne : (s : ZoneState) → usable s ≡ true → (s ≢ read_only) × (s ≢ offline)
usable-ne s u = ground arith

module _ {clock : ℕ → ℕ} {lba_bits : ℕ} where
  Reaches-Onward :
      {f g : ZnsFtl}
      → Reaches clock lba_bits f g
      → {leaked : ℕ} → IsZoned leaked f
      → IsArea f
      → Onward leaked f g
  Reaches-Onward done h area = Onward-refl h
  Reaches-Onward (next {f} c k e p) h area =
      let on = proc_nvme_io_cmd-Onward clock lba_bits f c h area k e in
      let area' : IsArea _ = record {
        granules = rw (on.zp_same) area.granules;
        area_word = rw (on.zp_same) area.area_word;
      } in
      Onward-trans on (Reaches-Onward p on.zoned area')

  -- From a zoned state in order with a zone that is empty, with a flush granularity that is at most
  -- the area and an area below 2^31 sectors: after any series of commands that returned, with
  -- lengths of writes of 16 bits and addresses below 2^63, a reset of any sector of that zone
  -- returns with success, and the zone is blank.
  pub Reaches-IsBlank :
      {leaked : ℕ} {f g : ZnsFtl} (zid k : ℕ) (option : Bool)
      → IsZoned leaked f
      → IsArea f
      → (f.zone_descs zid).state ≡ empty
      → Reaches clock lba_bits f g
      → zid < g.zp.nr_zones
      → k < zone_lbas g
      → (h : ZnsFtl) × (zmgmt_send g false (zone_to_slba g zid + k) reset_zone option
          ≡ some (success, h))
        × IsBlank zid h
  Reaches-IsBlank {g = g} zid k option h area e p l lk =
      let on = Reaches-Onward p h area in
      let u = usable-ne (g.zone_descs zid).state (⟶*-usable (on.paths zid) (rw e refl)) in
      zmgmt_send-IsBlank g zid k option on.zoned l lk u.0 u.1
