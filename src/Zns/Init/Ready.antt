-- ===== src/Zns/Init/Ready.antt =====
-- The namespace that `zns_init_namespace` makes is in order.
use nvmevirt_learned_ftl.Prelude.{
  ℕ, zero, suc, ◌*◌, ◌/◌, ◌^◌, ◌<◌, ◌≡◌, refl, sym, arith, false, Bool,
}
use nvmevirt_learned_ftl.Ssd.Nand.{Device}
use nvmevirt_learned_ftl.Zns.State.{ZoneDescriptor, ZnsParams}
use nvmevirt_learned_ftl.Zns.Accounts.{is_open, is_active, holds_zrwa, IsZoned}
use nvmevirt_learned_ftl.Zns.Accounts.Count.{count}
use nvmevirt_learned_ftl.Zns.Init.{init_descriptor, init_resource, zns_init_ftl}

count-none :
    (p : ZoneDescriptor → Bool) (zones : ℕ → ZoneDescriptor) (n : ℕ)
    → ((i : ℕ) → p (zones i) ≡ false)
    → count p zones n ≡ 0
unfolding count
count-none p zones zero h = refl
count-none p zones (suc n) h = let ih = count-none p zones n h in rw (ih, h n) refl

-- Where the sector size is that of the build, a zone has some sectors and is made of whole pages,
-- there are fewer than 2^32 zones and their sectors can be counted in 32 bits: `zns_init_ftl` sets
-- up a zoned state in order, with no random write area leaked.
pub zns_init_ftl-IsZoned :
    (lba_bits : ℕ) (zp : ZnsParams) (d : Device) (storage : ℕ → ℕ)
    → d.ssd.sp.secsz ≡ 2 ^ lba_bits
    → 0 < zp.zone_size / d.ssd.sp.secsz
    → zp.nr_zones * (zp.zone_size / d.ssd.sp.secsz) < 2 ^ 32
    → zp.nr_zones < 2 ^ 32
    → zp.zone_size / d.ssd.sp.secsz ≡ d.ssd.sp.secs_per_pg * (zp.zone_size / d.ssd.sp.pgsz)
    → IsZoned 0 (zns_init_ftl lba_bits zp d storage)
unfolding zns_init_ftl init_descriptor init_resource
zns_init_ftl-IsZoned lba_bits zp d storage sector lbas fits word pages = record {
  layout = record {
    some_lbas = lbas;
    fits = fits;
    whole_pages = pages;
    start = λ zid l. rw sector refl;
    capacity = λ zid l. rw sector refl;
  };
  zones = λ zid l. record {
    from_start = omega arith;
    to_end = omega arith;
    active_has_room = λ e. cc;
    empty_at_start = λ _. refl;
    empty_plain = λ _. refl;
  };
  accounted =
      let none_open = count-none is_open (init_descriptor lba_bits zp) zp.nr_zones (λ i. refl) in
      let none_active =
        count-none is_active (init_descriptor lba_bits zp) zp.nr_zones (λ i. refl) in
      let none_area = count-none holds_zrwa (init_descriptor lba_bits zp) zp.nr_zones (λ i. refl) in
      record {
        opened = sym none_open;
        activated = sym none_active;
        areas = rw none_area refl;
        open_within = omega arith;
        active_within = omega arith;
        areas_within = omega arith;
        open_word = word;
        active_word = word;
        areas_word = word;
      };
}
