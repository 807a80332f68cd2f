-- ===== src/Zns/Kept.antt =====
-- Every command of the zoned namespace keeps its state in order, and moves zones along the diagram.
use nvmevirt_learned_ftl.Prelude.{
  ℕ, zero, suc, ◌^◌, ◌<◌, ◌≡◌, refl, sym, ◌∙◌, some, true, Bool, inl, inr, subst, Bool-cases, ltb,
  >>=-eq-some, ensure-eq-some, some-eq,
}
use nvmevirt_learned_ftl.Ssd.Nand.{next_idle_time, advance_pcie}
use nvmevirt_learned_ftl.Zns.State.{
  ZnsFtl, Status, lba_to_zone, lpn_to_zone, lba_to_lpn, zone_to_slba,
}
use nvmevirt_learned_ftl.Zns.Place.{RwCommand, Outcome}
use nvmevirt_learned_ftl.Zns.Write.{write_zone}
use nvmevirt_learned_ftl.Zns.Write.Whole.{write_zone-Onward}
use nvmevirt_learned_ftl.Zns.Write.Timed.{read_runs-sp}
use nvmevirt_learned_ftl.Zns.Zrwa.{write_zrwa}
use nvmevirt_learned_ftl.Zns.Zrwa.Whole.{IsArea, write_zrwa-Onward}
use nvmevirt_learned_ftl.Zns.Read.{read_runs, zns_read}
use nvmevirt_learned_ftl.Zns.Manage.{Action, zmgmt_send_one, send_all, zmgmt_send}
use nvmevirt_learned_ftl.Zns.Manage.Kept.{zmgmt_send_one-within, zmgmt_send_one-Acts, send-cases}
use nvmevirt_learned_ftl.Zns.Layout.{page_zone}
use nvmevirt_learned_ftl.Zns.Accounts.{IsZoned}
use nvmevirt_learned_ftl.Zns.Onward.{
  Onward, Onward-refl, Onward-trans, Moves-Onward, SameZones, SameZones-Onward,
}
use nvmevirt_learned_ftl.Zns.Command.{
  Command, rw_write, rw_read, flush, other, mgmt_send, mgmt_recv, Answer, zns_write, zns_flush,
  proc_nvme_io_cmd,
}

-- The bounds on a command: its length has 16 bits, and its address does not wrap.
abbrev pub IsCommand : Command → Type 0
IsCommand (rw_write cmd) = (cmd.length < 2 ^ 16) × (cmd.slba < 2 ^ 63)
IsCommand _ = Unit {0}

send_one-Onward :
    {leaked : ℕ} (f : ZnsFtl) (slba : ℕ) (a : Action) (option : Bool) {r : Status × ZnsFtl}
    → IsZoned leaked f
    → zmgmt_send_one f slba a option ≡ some r
    → Onward leaked f r.1
send_one-Onward f slba a option h e =
    let acts = zmgmt_send_one-Acts f slba a option h e in
    let (l, _) = zmgmt_send_one-within f slba a option e in
    Moves-Onward h (lba_to_zone f slba) l acts.moves acts.edge

send_all-Onward :
    (n zid : ℕ) {leaked : ℕ} (f : ZnsFtl) (a : Action) (option : Bool) {g : ZnsFtl}
    → IsZoned leaked f
    → send_all n zid f a option ≡ some g
    → Onward leaked f g
unfolding send_all
send_all-Onward zero zid {leaked} f a option h e =
    subst (Onward leaked f) (some-eq e) (Onward-refl h)
send_all-Onward (suc n) zid f a option h e =
    let (r, e1, e2) = >>=-eq-some (zmgmt_send_one f (zone_to_slba f zid) a option) _ e in
    let on = send_one-Onward f (zone_to_slba f zid) a option h e1 in
    Onward-trans on (send_all-Onward n (suc zid) r.1 a option on.zoned e2)

send-Onward :
    {leaked : ℕ} (f : ZnsFtl) (select_all : Bool) (slba : ℕ) (a : Action) (option : Bool)
    {r : Status × ZnsFtl}
    → IsZoned leaked f
    → zmgmt_send f select_all slba a option ≡ some r
    → Onward leaked f r.1
send-Onward f select_all slba a option h e = elim (send-cases f select_all slba a option e) [
  | inl all ↦ send_all-Onward f.zp.nr_zones 0 f a option h all
  | inr one ↦ send_one-Onward f slba a option h one
]

module _ (clock : ℕ → ℕ) where
  zns_write-Onward :
      {leaked : ℕ} (lba_bits : ℕ) (f : ZnsFtl) (cmd : RwCommand) {o : Outcome}
      → IsZoned leaked f
      → IsArea f
      → cmd.length < 2 ^ 16
      → cmd.slba < 2 ^ 63
      → zns_write clock lba_bits f cmd ≡ some o
      → Onward leaked f o.ftl
  unfolding zns_write
  zns_write-Onward lba_bits f cmd {o} h area short low q =
      let zid = lpn_to_zone f (lba_to_lpn f cmd.slba) in
      let (_, q1) = ensure-eq-some (ltb zid f.zp.nr_zones) _ q in
      elim (Bool-cases (f.zone_descs zid).zrwav) [
        | inl v ↦
            let t : write_zrwa clock lba_bits f cmd ≡ some o = sym (rw v refl) ∙ q1 in
            let v' : (f.zone_descs (lba_to_zone f cmd.slba)).zrwav ≡ true =
              subst (λ z. (f.zone_descs z).zrwav ≡ true) (page_zone f h.layout cmd.slba) v in
            write_zrwa-Onward clock lba_bits f cmd h area short low v' t
        | inr v ↦
            let t : write_zone clock lba_bits f cmd ≡ some o = sym (rw v refl) ∙ q1 in
            write_zone-Onward clock lba_bits f cmd h short t
      ]

  pub zns_read-SameZones :
      (lba_bits : ℕ) (f : ZnsFtl) (cmd : RwCommand) {o : Outcome}
      → zns_read clock lba_bits f cmd ≡ some o
      → SameZones f o.ftl
  unfolding zns_read
  zns_read-SameZones lba_bits f cmd q =
      let zid = lpn_to_zone f (lba_to_lpn f cmd.slba) in
      let (_, q1) = ensure-eq-some (ltb zid f.zp.nr_zones) _ q in
      let (r, e1, q2) = >>=-eq-some (read_runs clock _ f _ _ _ _) _ q1 in
      let (t, _, q3) = >>=-eq-some (advance_pcie clock r.0.bus r.1 _) _ q2 in
      subst (λ o. SameZones f o.ftl) (some-eq q3)
        (record {
          zp_same = refl;
          sp_same = read_runs-sp clock _ f _ _ _ _ e1;
          descs_same = refl;
          infos_same = refl;
        })

  zns_flush-SameZones : (f : ZnsFtl) → SameZones f (zns_flush clock f).1
  unfolding zns_flush next_idle_time
  zns_flush-SameZones f = record {
    zp_same = refl;
    sp_same = refl;
    descs_same = refl;
    infos_same = refl;
  }

  -- From a zoned state in order, with an area parameter pair whose flush granularity is at most the
  -- area and whose area is below 2^31 sectors, and for a write with a length of 16 bits and an
  -- address below 2^63: a command of any kind that returns leaves the state in order (each resource
  -- counter is the number of zones that hold the resource, with some leaked random write areas on
  -- top, and within its total; each write pointer is in its zone, and before the end of an active
  -- one), and every zone has moved along edges of the state diagram.
  pub proc_nvme_io_cmd-Onward :
      {leaked : ℕ} (lba_bits : ℕ) (f : ZnsFtl) (c : Command) {a : Answer}
      → IsZoned leaked f
      → IsArea f
      → IsCommand c
      → proc_nvme_io_cmd clock lba_bits f c ≡ some a
      → Onward leaked f a.ftl
  unfolding proc_nvme_io_cmd
  proc_nvme_io_cmd-Onward {leaked} lba_bits f (rw_write cmd) h area k q =
      let (o, e1, e2) = >>=-eq-some (zns_write clock lba_bits f cmd) _ q in
      subst (λ x. Onward leaked f x.ftl) (some-eq e2)
        (zns_write-Onward lba_bits f cmd h area k.0 k.1 e1)
  proc_nvme_io_cmd-Onward {leaked} lba_bits f (rw_read cmd) h area k q =
      let (o, e1, e2) = >>=-eq-some (zns_read clock lba_bits f cmd) _ q in
      subst (λ x. Onward leaked f x.ftl) (some-eq e2)
        (SameZones-Onward h (zns_read-SameZones lba_bits f cmd e1))
  proc_nvme_io_cmd-Onward {leaked} lba_bits f (flush t) h area k q =
      subst (λ x. Onward leaked f x.ftl) (some-eq q) (SameZones-Onward h (zns_flush-SameZones f))
  proc_nvme_io_cmd-Onward {leaked} lba_bits f (mgmt_send t all slba action option) h area k q =
      let (r, e1, e2) = >>=-eq-some (zmgmt_send f all slba action option) _ q in
      subst (λ x. Onward leaked f x.ftl) (some-eq e2) (send-Onward f all slba action option h e1)
  proc_nvme_io_cmd-Onward {leaked} lba_bits f (mgmt_recv t cmd) h area k q =
      subst (λ x. Onward leaked f x.ftl) (some-eq q) (Onward-refl h)
  proc_nvme_io_cmd-Onward {leaked} lba_bits f (other t) h area k q =
      subst (λ x. Onward leaked f x.ftl) (some-eq q) (Onward-refl h)
