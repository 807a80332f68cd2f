-- ===== src/Zns/Accounts/Kept.antt =====
-- A change of one zone that moves the counters by what the zone takes and gives back keeps them
-- right.
use nvmevirt_learned_ftl.Prelude.{
  ℕ, ◌+◌, ◌^◌, ◌≤◌, ◌<◌, Bool, ◌≡◌, ◌≢◌, sym, ◌∙◌, ap, arith, eq-cases, inl, inr, subst,
}
use nvmevirt_learned_ftl.Zns.State.{ZoneDescriptor, ZnsFtl, ResourceInfo}
use nvmevirt_learned_ftl.Zns.Accounts.{is_open, is_active, holds_zrwa, IsZone, IsAccounted, IsZoned}
use nvmevirt_learned_ftl.Zns.Accounts.Count.{weight, count, count-moves, count-has}

-- The counter `i` becomes `j` as the share of a zone goes from `a` to `b`; `lost` more are taken.
pub record Shifts (lost : ℕ) (i : ResourceInfo) (a b : Bool) (j : ResourceInfo) : Type 0 where
  pub total_same : j.total_cnt ≡ i.total_cnt
  pub shift : j.acquired_cnt + weight a ≡ i.acquired_cnt + weight b + lost
  pub within : j.acquired_cnt ≤ j.total_cnt

-- What one zone sees of the counters before it changes.
pub record IsShare (i : ResourceInfo) (a : Bool) : Type 0 where
  pub held : weight a ≤ i.acquired_cnt
  pub within : i.acquired_cnt ≤ i.total_cnt
  pub word : i.total_cnt < 2 ^ 32

-- Zone `zid` goes from one descriptor in order to another, and the rest of the state follows.
pub record Moves (lost : ℕ) (zid : ℕ) (f g : ZnsFtl) : Type 0 where
  pub zp_same : g.zp ≡ f.zp
  pub sp_same : g.device.ssd.sp ≡ f.device.ssd.sp
  pub others : (j : ℕ) → j ≢ zid → g.zone_descs j ≡ f.zone_descs j
  pub start_same : (g.zone_descs zid).zslba ≡ (f.zone_descs zid).zslba
  pub capacity_same : (g.zone_descs zid).zone_capacity ≡ (f.zone_descs zid).zone_capacity
  pub zone : IsZone (g.zone_descs zid)
  pub open_shifts :
      Shifts 0 f.res_infos.open_
        (is_open (f.zone_descs zid))
        (is_open (g.zone_descs zid))
        g.res_infos.open_
  pub active_shifts :
      Shifts 0 f.res_infos.active
        (is_active (f.zone_descs zid))
        (is_active (g.zone_descs zid))
        g.res_infos.active
  pub area_shifts :
      Shifts lost f.res_infos.zrwa
        (holds_zrwa (f.zone_descs zid))
        (holds_zrwa (g.zone_descs zid))
        g.res_infos.zrwa

pub Moves-refl :
    {leaked : ℕ} (f : ZnsFtl) (zid : ℕ) → IsZoned leaked f → zid < f.zp.nr_zones → Moves 0 zid f f
Moves-refl f zid h l = let z = h.zones zid l in let a = h.accounted in ground arith

module _ {leaked : ℕ} (f : ZnsFtl) (h : IsZoned leaked f) (zid : ℕ) (l : zid < f.zp.nr_zones) where
  pub open-IsShare : IsShare f.res_infos.open_ (is_open (f.zone_descs zid))
  open-IsShare =
      let c = count-has is_open f.zone_descs f.zp.nr_zones zid l in
      record {
        held = rw (h.accounted.opened) c;
        within = h.accounted.open_within;
        word = h.accounted.open_word;
      }

  pub active-IsShare : IsShare f.res_infos.active (is_active (f.zone_descs zid))
  active-IsShare =
      let c = count-has is_active f.zone_descs f.zp.nr_zones zid l in
      record {
        held = rw (h.accounted.activated) c;
        within = h.accounted.active_within;
        word = h.accounted.active_word;
      }

  pub area-IsShare : IsShare f.res_infos.zrwa (holds_zrwa (f.zone_descs zid))
  area-IsShare =
      let c = count-has holds_zrwa f.zone_descs f.zp.nr_zones zid l in
      let e = h.accounted.areas in
      record {
        held = omega arith;
        within = h.accounted.areas_within;
        word = h.accounted.areas_word;
      }

  module _ {lost : ℕ} (g : ZnsFtl) (m : Moves lost zid f g) where
    recount :
        (p : ZoneDescriptor → Bool) (i j : ResourceInfo) (k e : ℕ)
        → i.acquired_cnt ≡ count p f.zone_descs f.zp.nr_zones + k
        → Shifts e i (p (f.zone_descs zid)) (p (g.zone_descs zid)) j
        → j.acquired_cnt ≡ count p g.zone_descs g.zp.nr_zones + (k + e)
    recount p i j k e old s =
        let c = count-moves p f.zone_descs g.zone_descs f.zp.nr_zones zid l m.others in
        let sh = s.shift in rw (m.zp_same) (omega arith)

    pub Moves-IsAccounted : IsAccounted (leaked + lost) g
    Moves-IsAccounted =
        let a = h.accounted in
        let o =
          recount is_open f.res_infos.open_ g.res_infos.open_ 0 0 (omega arith) m.open_shifts in
        let c =
          recount is_active f.res_infos.active g.res_infos.active 0 0 (omega arith)
            m.active_shifts in
        record {
          opened = omega arith;
          activated = omega arith;
          areas =
              recount holds_zrwa f.res_infos.zrwa g.res_infos.zrwa leaked lost a.areas
                m.area_shifts;
          open_within = m.open_shifts.within;
          active_within = m.active_shifts.within;
          areas_within = m.area_shifts.within;
          open_word = rw (m.open_shifts.total_same) a.open_word;
          active_word = rw (m.active_shifts.total_same) a.active_word;
          areas_word = rw (m.area_shifts.total_same) a.areas_word;
        }

    -- A field that the change keeps in zone `zid` is kept in every zone.
    every :
        (field : ZoneDescriptor → ℕ)
        → field (g.zone_descs zid) ≡ field (f.zone_descs zid)
        → (j : ℕ) → field (g.zone_descs j) ≡ field (f.zone_descs j)
    every field e j = elim (eq-cases j zid) [ inl q ↦ rw q e | inr ne ↦ ap field (m.others j ne) ]

    pub Moves-IsZoned : IsZoned (leaked + lost) g
    Moves-IsZoned = record {
      layout = record {
        some_lbas = rw (m.zp_same, m.sp_same) h.layout.some_lbas;
        fits = rw (m.zp_same, m.sp_same) h.layout.fits;
        whole_pages = rw (m.zp_same, m.sp_same) h.layout.whole_pages;
        start = λ j lj.
            every (λ z. z.zslba) m.start_same j
            ∙ rw (m.zp_same, m.sp_same)
                (h.layout.start j (subst (λ p. j < p.nr_zones) m.zp_same lj));
        capacity = λ j lj.
            every (λ z. z.zone_capacity) m.capacity_same j
            ∙ rw (m.zp_same, m.sp_same)
                (h.layout.capacity j (subst (λ p. j < p.nr_zones) m.zp_same lj));
      };
      zones = λ j lj. elim (eq-cases j zid) [
        | inl q ↦ rw q m.zone
        | inr ne ↦
            subst IsZone (sym (m.others j ne))
              (h.zones j (subst (λ p. j < p.nr_zones) m.zp_same lj))
      ];
      accounted = Moves-IsAccounted;
    }
