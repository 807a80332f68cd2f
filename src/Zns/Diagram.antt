-- ===== src/Zns/Diagram.antt =====
-- The state diagram of a zone.
use nvmevirt_learned_ftl.Prelude.{◌≡◌, true}
use nvmevirt_learned_ftl.Zns.State.{
  ZoneState, empty, opened_impl, opened_expl, closed, read_only, full, offline,
}
use nvmevirt_learned_ftl.Zns.Accounts.{active_state, open_state}

-- The edges that commands follow; a command that is refused stays.
infix 40 ◌⟶◌ ◌⟶*◌
pub data ◌⟶◌ : ZoneState → ZoneState → Type 0 where
  stay : {s : ZoneState} → s ⟶ s
  write_first : empty ⟶ opened_impl
  write_again : closed ⟶ opened_impl
  open_first : empty ⟶ opened_expl
  open_again : closed ⟶ opened_expl
  make_explicit : opened_impl ⟶ opened_expl
  close : {s : ZoneState} → open_state s ≡ true → s ⟶ closed
  finish_empty : empty ⟶ full
  fill_up : {s : ZoneState} → active_state s ≡ true → s ⟶ full
  reset_active : {s : ZoneState} → active_state s ≡ true → s ⟶ empty
  clear_full : full ⟶ empty
  retire : read_only ⟶ offline

pub data ◌⟶*◌ : ZoneState → ZoneState → Type 0 where
  here : {s : ZoneState} → s ⟶* s
  then : {s t u : ZoneState} → s ⟶ t → t ⟶* u → s ⟶* u

pub ruleset edges = (
  stay, write_first, write_again, open_first, open_again, make_explicit, close, finish_empty,
  fill_up, reset_active, clear_full, retire,
)
