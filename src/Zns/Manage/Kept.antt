-- ===== src/Zns/Manage/Kept.antt =====
-- Zone management keeps every zone and every counter in order, and follows the state diagram.
use nvmevirt_learned_ftl.Prelude.{
  ℕ, zero, suc, ◌+◌, ◌<◌, Bool, true, false, ◌≡◌, ◌≢◌, refl, ◌∙◌, ap, arith, some, inl, inr, subst,
  >>=-eq-some, some-eq, ◌⊎◌,
}
use nvmevirt_learned_ftl.Zns.State.{ZnsFtl, Status, success, lba_to_zone, zone_to_slba}
use nvmevirt_learned_ftl.Zns.Manage.{
  Action, close_zone, finish_zone, open_zone_, reset_zone, offline_zone, flush_expl_zrwa, other,
  act, zmgmt_send_one, send_all, zmgmt_send,
}
use nvmevirt_learned_ftl.Zns.Manage.Steps
use nvmevirt_learned_ftl.Zns.Manage.Flush
use nvmevirt_learned_ftl.Zns.Diagram.{◌⟶◌, stay}
use nvmevirt_learned_ftl.Zns.Accounts.{IsZoned}
use nvmevirt_learned_ftl.Zns.Accounts.Kept.{Moves, Moves-refl, Moves-IsZoned}

-- What a command did to the state: it changed one zone along an edge of the diagram, with the
-- counters, and nothing if it was refused.
pub record Acts (zid : ℕ) (f : ZnsFtl) (r : Status × ZnsFtl) : Type 0 where
  pub moves : Moves 0 zid f r.1
  pub edge : (f.zone_descs zid).state ⟶ (r.1.zone_descs zid).state
  pub refused : r.0 ≢ success → r.1 ≡ f

module _ {leaked : ℕ} (f : ZnsFtl) (h : IsZoned leaked f) (zid : ℕ) (l : zid < f.zp.nr_zones)
    (slba : ℕ) (option : Bool) where
  act-Acts : (a : Action) {r : Status × ZnsFtl} → act a f zid slba option ≡ some r → Acts zid f r
  unfolding act
  act-Acts close_zone e = subst (Acts zid f) (some-eq e) (record {
    moves = Steps.close_in-Moves f h zid l _ refl;
    edge = Steps.close_in-⟶ f h zid l _ refl;
    refused = Steps.close_in-refused f h zid l _;
  })
  act-Acts finish_zone e = subst (Acts zid f) (some-eq e) (record {
    moves = Steps.finish_in-Moves f h zid l _ refl;
    edge = Steps.finish_in-⟶ f h zid l _ refl;
    refused = Steps.finish_in-refused f h zid l _;
  })
  act-Acts open_zone_ e = subst (Acts zid f) (some-eq e) (record {
    moves = Steps.open_in-Moves f h zid l _ option refl;
    edge = Steps.open_in-⟶ f h zid l _ option refl;
    refused = Steps.open_in-refused f h zid l _ option;
  })
  act-Acts reset_zone e = subst (Acts zid f) (some-eq e) (record {
    moves = Steps.reset_in-Moves f h zid l _ refl;
    edge = Steps.reset_in-⟶ f h zid l _ refl;
    refused = Steps.reset_in-refused f h zid l _;
  })
  act-Acts offline_zone e = subst (Acts zid f) (some-eq e) (record {
    moves = Steps.offline_in-Moves f h zid l _ refl;
    edge = Steps.offline_in-⟶ f h zid l _ refl;
    refused = Steps.offline_in-refused f h zid l _;
  })
  act-Acts flush_expl_zrwa e = record {
    moves = Flush.flush_explicit_zrwa-Moves f h zid l slba e;
    edge = Flush.flush_explicit_zrwa-⟶ f h zid l slba e;
    refused = Flush.flush_explicit_zrwa-refused f h zid l slba e;
  }
  act-Acts other e =
      subst (Acts zid f) (some-eq e)
        (record { moves = Moves-refl f zid h l; edge = stay; refused = λ _. refl })

-- `__zmgmt_send` does not fault on the address of a zone of the namespace, or it did not return.
pub zmgmt_send_one-within :
    (f : ZnsFtl) (slba : ℕ) (a : Action) (option : Bool) {r : Status × ZnsFtl}
    → zmgmt_send_one f slba a option ≡ some r
    → (lba_to_zone f slba < f.zp.nr_zones) × (act a f (lba_to_zone f slba) slba option ≡ some r)
unfolding zmgmt_send_one
zmgmt_send_one-within f slba a option e = ground arith

-- On a zoned state in order, a zone management action that returns changes one zone at most, the
-- one of its address, along an edge of the state diagram; each counter moves by what that zone
-- takes and gives back, and no random write area is leaked; and if the status is not success,
-- nothing has changed.
pub zmgmt_send_one-Acts :
    {leaked : ℕ} (f : ZnsFtl) (slba : ℕ) (a : Action) (option : Bool) {r : Status × ZnsFtl}
    → IsZoned leaked f
    → zmgmt_send_one f slba a option ≡ some r
    → Acts (lba_to_zone f slba) f r
zmgmt_send_one-Acts f slba a option h e =
    let w = zmgmt_send_one-within f slba a option e in
    act-Acts f h (lba_to_zone f slba) w.0 slba option a w.1

zmgmt_send_one-IsZoned :
    {leaked : ℕ} (f : ZnsFtl) (slba : ℕ) (a : Action) (option : Bool) {r : Status × ZnsFtl}
    → IsZoned leaked f
    → zmgmt_send_one f slba a option ≡ some r
    → IsZoned (leaked + 0) r.1
zmgmt_send_one-IsZoned f slba a option {r} h e =
    let w = zmgmt_send_one-within f slba a option e in
    Moves-IsZoned f h (lba_to_zone f slba) w.0 r.1 (zmgmt_send_one-Acts f slba a option h e).moves

send_all-IsZoned :
    {leaked : ℕ} (n zid : ℕ) (f : ZnsFtl) (a : Action) (option : Bool) {g : ZnsFtl}
    → IsZoned leaked f
    → send_all n zid f a option ≡ some g
    → IsZoned leaked g
unfolding send_all
send_all-IsZoned zero zid f a option h e = subst (IsZoned _) (some-eq e) h
send_all-IsZoned {leaked} (suc n) zid f a option h e =
    let (r, e1, e2) = >>=-eq-some (zmgmt_send_one f (zone_to_slba f zid) a option) _ e in
    let z = zmgmt_send_one-IsZoned f (zone_to_slba f zid) a option h e1 in
    send_all-IsZoned n (suc zid) r.1 a option (subst (λ k. IsZoned k r.1) (omega arith) z) e2

pub send-cases :
    (f : ZnsFtl) (select_all : Bool) (slba : ℕ) (a : Action) (option : Bool) {r : Status × ZnsFtl}
    → zmgmt_send f select_all slba a option ≡ some r
    → (send_all f.zp.nr_zones 0 f a option ≡ some r.1) ⊎ (zmgmt_send_one f slba a option ≡ some r)
unfolding zmgmt_send
send-cases f true slba a option e =
    let (g, e1, e2) = >>=-eq-some (send_all f.zp.nr_zones 0 f a option) _ e in
    inl (e1 ∙ ap (λ x. some x.1) (some-eq e2))
send-cases f false slba a option e = inr e

-- A zone management command that returns, for one zone or for all of them, keeps the zoned state in
-- order, with as many leaked random write areas as before.
pub zmgmt_send-IsZoned :
    {leaked : ℕ} (f : ZnsFtl) (select_all : Bool) (slba : ℕ) (a : Action) (option : Bool)
    {r : Status × ZnsFtl}
    → IsZoned leaked f
    → zmgmt_send f select_all slba a option ≡ some r
    → IsZoned leaked r.1
zmgmt_send-IsZoned {leaked} f select_all slba a option {r} h e =
    elim (send-cases f select_all slba a option e) [
      | inl all ↦ send_all-IsZoned f.zp.nr_zones 0 f a option h all
      | inr one ↦
          let z = zmgmt_send_one-IsZoned f slba a option h one in
          subst (λ k. IsZoned k r.1) (omega arith) z
    ]
