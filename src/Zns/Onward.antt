-- ===== src/Zns/Onward.antt =====
-- How commands take the zoned state on: it stays in order, and zones move along the diagram.
use nvmevirt_learned_ftl.Prelude.{ℕ, ◌+◌, ◌<◌, ◌≡◌, refl, ◌∙◌, arith, subst, eq-cases, inl, inr}
use nvmevirt_learned_ftl.Zns.State.{ZoneState, ZnsFtl}
use nvmevirt_learned_ftl.Zns.Diagram.{◌⟶◌, ◌⟶*◌, here, then}
use nvmevirt_learned_ftl.Zns.Accounts.{IsZoned}
use nvmevirt_learned_ftl.Zns.Accounts.Kept.{Moves, Moves-IsZoned}

pub ⟶*_trans : {s t u : ZoneState} → s ⟶* t → t ⟶* u → s ⟶* u
⟶*_trans here q = q
⟶*_trans (then e p) q = then e (⟶*_trans p q)

pub record Onward (leaked : ℕ) (f g : ZnsFtl) : Type 0 where
  pub more : ℕ
  pub zoned : IsZoned (leaked + more) g
  pub zp_same : g.zp ≡ f.zp
  pub sp_same : g.device.ssd.sp ≡ f.device.ssd.sp
  pub paths : (j : ℕ) → (f.zone_descs j).state ⟶* (g.zone_descs j).state

pub Onward-trans :
    {leaked : ℕ} {f g k : ZnsFtl} (p : Onward leaked f g)
    → Onward (leaked + p.more) g k
    → Onward leaked f k
Onward-trans {leaked} {k = k} p q = record {
  more = p.more + q.more;
  zoned = subst (λ n. IsZoned n k) (omega arith) q.zoned;
  zp_same = q.zp_same ∙ p.zp_same;
  sp_same = q.sp_same ∙ p.sp_same;
  paths = λ j. ⟶*_trans (p.paths j) (q.paths j);
}

-- A change of what zones do not depend on: buffers, times, and stored bytes.
pub record SameZones (f g : ZnsFtl) : Type 0 where
  pub zp_same : g.zp ≡ f.zp
  pub sp_same : g.device.ssd.sp ≡ f.device.ssd.sp
  pub descs_same : g.zone_descs ≡ f.zone_descs
  pub infos_same : g.res_infos ≡ f.res_infos

pub SameZones-IsZoned :
    {leaked : ℕ} (f g : ZnsFtl) → IsZoned leaked f → SameZones f g → IsZoned leaked g
SameZones-IsZoned f g h s = record {
  layout = record {
    some_lbas = rw (s.zp_same, s.sp_same) h.layout.some_lbas;
    fits = rw (s.zp_same, s.sp_same) h.layout.fits;
    whole_pages = rw (s.zp_same, s.sp_same) h.layout.whole_pages;
    start = rw (s.zp_same, s.sp_same, s.descs_same) h.layout.start;
    capacity = rw (s.zp_same, s.sp_same, s.descs_same) h.layout.capacity;
  };
  zones = rw (s.zp_same, s.descs_same) h.zones;
  accounted = record {
    opened = rw (s.zp_same, s.descs_same, s.infos_same) h.accounted.opened;
    activated = rw (s.zp_same, s.descs_same, s.infos_same) h.accounted.activated;
    areas = rw (s.zp_same, s.descs_same, s.infos_same) h.accounted.areas;
    open_within = rw (s.infos_same) h.accounted.open_within;
    active_within = rw (s.infos_same) h.accounted.active_within;
    areas_within = rw (s.infos_same) h.accounted.areas_within;
    open_word = rw (s.infos_same) h.accounted.open_word;
    active_word = rw (s.infos_same) h.accounted.active_word;
    areas_word = rw (s.infos_same) h.accounted.areas_word;
  };
}

module _ {leaked : ℕ} {f : ZnsFtl} (h : IsZoned leaked f) where
  pub SameZones-Onward : {g : ZnsFtl} → SameZones f g → Onward leaked f g
  SameZones-Onward {g} s = record {
    more = 0;
    zoned = subst (λ n. IsZoned n g) (omega arith) (SameZones-IsZoned f g h s);
    zp_same = s.zp_same;
    sp_same = s.sp_same;
    paths = λ j. rw (s.descs_same) here;
  }

  pub Onward-refl : Onward leaked f f
  Onward-refl =
      SameZones-Onward
        (record { zp_same = refl; sp_same = refl; descs_same = refl; infos_same = refl })

  pub Moves-Onward :
      {lost : ℕ} {g : ZnsFtl} (zid : ℕ)
      → zid < f.zp.nr_zones
      → Moves lost zid f g
      → (f.zone_descs zid).state ⟶ (g.zone_descs zid).state
      → Onward leaked f g
  Moves-Onward {lost} {g} zid l m e = record {
    more = lost;
    zoned = Moves-IsZoned f h zid l g m;
    zp_same = m.zp_same;
    sp_same = m.sp_same;
    paths = λ j. elim (eq-cases j zid) [
      | inl q ↦ rw q (then e here)
      | inr ne ↦ rw (m.others j ne) here
    ];
  }
