-- ===== src/Zns/Write/Replies.antt =====
-- `__zns_write` returns once its part of the buffer is there, where no divisor is 0.
use nvmevirt_learned_ftl.Prelude.{
  ℕ, suc, true, ◌+◌, ◌-◌, ◌*◌, ◌/◌, ◌%◌, ◌^◌, ◌≤◌, ◌<◌, ◌≡◌, refl, sym, ◌∙◌, arith, some,
  Bool-cases, inl, inr, subst, lt→ltb, add64, mul64, div_round_up, kb,
}
use native.Mathlib.Nat.{mul-pos, div-lt_iff_lt-mul, lt-div-mul-add, mul-le-mul_left}
use nvmevirt_learned_ftl.Ssd.Params.{SsdParams}
use nvmevirt_learned_ftl.Ssd.Channel.Request.{request-Served}
use nvmevirt_learned_ftl.Ssd.Nand.{
  Device, Bus, BufferId, in_array, advance_pcie, advance_write_buffer,
}
use nvmevirt_learned_ftl.Ssd.Nand.Programs.{IsFreeBy}
use nvmevirt_learned_ftl.Ssd.Channel.Ring.{IsChannel}
use nvmevirt_learned_ftl.Zns.State.{
  ZnsFtl, Status, success, lba_to_lpn, zone_to_elpn, zone_pgs, zone_lbas, lpn_to_zone, zone_to_slpn,
  die_to_channel, die_to_lun, ZoneState, acquire_zone_resource, release_zone_resource,
  change_zone_state,
}
use nvmevirt_learned_ftl.Zns.Place.{
  RwCommand, Outcome, has_places, lpn_to_ppa, replied, nr_lbas, last_lba, completion,
}
use nvmevirt_learned_ftl.Zns.Place.Bounds.{IsStriped, lpn_to_ppa-InRange}
use nvmevirt_learned_ftl.Zns.Write.{
  is_success, advance_zone, take_zone, settle, open_implicitly, increase_write_ptr, write_timing,
  buffered_write,
}
use nvmevirt_learned_ftl.Zns.Write.Runs.{IsPacedBy, write_runs-IsPacedBy}

-- The firmware's part of the time of a write
abbrev pub firmware_delay : SsdParams → ℕ → ℕ
firmware_delay spp size = spp.fw_wbuf_lat0 + spp.fw_wbuf_lat1 * div_round_up size (kb 4)

-- The times are far below the limit of 64 bits: the dies are free, and the command starts, by `limit`.
pub record IsTimely (limit size : ℕ) (d : Device) (cmd : RwCommand) : Type 0 where
  pub free : IsFreeBy d.ssd.sp limit d
  pub early : limit < 2 ^ 60
  pub started : 0 < cmd.nsecs_start
  pub by_limit : cmd.nsecs_start ≤ limit
  pub short_delay : firmware_delay d.ssd.sp size < 2 ^ 60
  pub short_write : d.ssd.sp.pg_wr_lat < 2 ^ 32
  pub some_secs : 0 < d.ssd.sp.secs_per_pg
  pub short : cmd.length < 2 ^ 16
  pub low : cmd.slba < 2 ^ 62

-- The divisors of `__lpn_to_ppa` and of the alignment check are positive, and the dies of the array
-- are whole groups, one for each zone in turn.
pub record IsDivisible (f : ZnsFtl) : Type 0 where
  pub striped : IsStriped f
  pub few_dies : f.zp.dies_per_zone < 2 ^ 16
  pub some_zone_pgs : 0 < zone_pgs f
  pub some_zone_lbas : 0 < zone_lbas f
  pub some_unit : 0 < f.device.ssd.sp.write_unit_size

-- A range covers no more pages than sectors.
pages-le : (a k s : ℕ) → 0 < s → (a + k) / s ≤ a / s + k
pages-le a k s p =
    let b = lt-div-mul-add {a = a} p in
    let c = mul-le-mul_left k (one p) in
    let d : (a + k) / s < a / s + k + 1 =
      (div-lt_iff_lt-mul p).1 (spread (a / s) s k a b (omega arith)) in
    omega arith
  where
    one : {n : ℕ} → 0 < n → 1 ≤ n
    one h = omega arith

    spread : (q s k a : ℕ) → a < q * s + s → k ≤ k * s → a + k < (q + k + 1) * s
    spread q s k a h l = omega arith

module _ (clock : ℕ → ℕ) where
  link-Served :
      (spp : SsdParams) (b : Bus) (start size : ℕ)
      → IsChannel b.pcie
      → start < 2 ^ 60
      → firmware_delay spp size < 2 ^ 60
      → (r : ℕ × Bus) × (advance_write_buffer clock spp b start size ≡ some r)
        × (start ≤ r.0)
        × (r.0 < start + firmware_delay spp size + 2 ^ 33)
        × IsChannel r.1.pcie
  unfolding advance_write_buffer advance_pcie
  link-Served spp b start size h early short =
      let m = spp.fw_wbuf_lat1 * div_round_up size (kb 4) in
      let t =
        add64 (add64 start spp.fw_wbuf_lat0) (mul64 spp.fw_wbuf_lat1 (div_round_up size (kb 4))) in
      let whole : t ≡ start + firmware_delay spp size = sums start spp.fw_wbuf_lat0 m early short in
      let (r, e, s) = request-Served b.pcie (clock b.ticks) t size h (omega arith) in
      let later = s.later in
      let soon = s.soon in
      (
        (r.0, record b { pcie = r.1; ticks = suc b.ticks }),
        rw e refl,
        omega arith,
        omega arith,
        s.valid,
      )
    where
      sums :
          (a b m : ℕ) → a < 2 ^ 60 → b + m < 2 ^ 60 → add64 (add64 a b) (m % 2 ^ 64) ≡ a + (b + m)
      sums a b m la lb = omega arith

  -- The timing of an admitted write returns, with success.
  write_timing-replies :
      (lba_bits limit : ℕ) (f : ZnsFtl) (b : BufferId) (zid : ℕ) (cmd : RwCommand)
      → IsTimely limit (nr_lbas cmd * 2 ^ lba_bits) f.device cmd
      → has_places f ≡ true
      → ((lpn : ℕ) → in_array f.device.ssd.sp (lpn_to_ppa f lpn) ≡ true)
      → (o : Outcome) × (write_timing clock lba_bits f b zid cmd ≡ some o)
        × (t : ℕ) × (o.reply ≡ replied success t)
        × (cmd.nsecs_start ≤ t)
  unfolding write_timing lba_to_lpn
  write_timing-replies lba_bits limit f b zid cmd h places inside =
      let spp = f.device.ssd.sp in
      let d = f.device in
      let size = nr_lbas cmd * 2 ^ lba_bits in
      let early = h.early in
      let by_limit = h.by_limit in
      let delay = h.short_delay in
      let started = h.started in
      let short = h.short in
      let low = h.low in
      let (w, e, later, soon, link) =
        link-Served spp d.bus cmd.nsecs_start size h.free.in_order.link_ok (omega arith) delay in
      let slpn = lba_to_lpn f cmd.slba in
      let elpn = lba_to_lpn f (last_lba cmd.slba (nr_lbas cmd)) in
      let last : last_lba cmd.slba (nr_lbas cmd) ≡ cmd.slba + cmd.length = omega arith in
      let few = pages-le cmd.slba cmd.length spp.secs_per_pg h.some_secs in
      let few_pages : elpn + 1 - slpn ≤ 2 ^ 16 = rw last (omega arith) in
      let m = limit + 2 ^ 60 + 2 ^ 33 in
      let paced : IsPacedBy spp m w.0 (record d { bus = w.1 }, w.0) = record {
        device_free = record {
          in_order = record { channels_ok = h.free.in_order.channels_ok; link_ok = link };
          sp_same = refl;
          free_by = λ ch lun. let g = h.free.free_by ch lun in omega arith;
        };
        from_start = omega arith;
        soon = omega arith;
      } in
      let (r, q, p) =
        write_runs-IsPacedBy clock f b cmd.sq_id w.0 (omega arith) h.short_write inside
          (elpn + 1 - slpn) m (zone_to_elpn f zid) slpn elpn (record d { bus = w.1 }, w.0) places
          (omega arith) paced (omega arith) in
      let t = completion spp cmd r.1 w.0 in
      let from = p.from_start in
      (
        record { reply = replied success t; cmd = cmd; ftl = record f { device = r.0 } },
        rw (e, q) refl,
        t,
        refl,
        ground arith,
      )

-- The checks and the switch do not touch the device.
increase_write_ptr-device :
    (f : ZnsFtl) (zid nr_lba : ℕ) → (increase_write_ptr f zid nr_lba).device ≡ f.device
unfolding increase_write_ptr release_zone_resource change_zone_state
increase_write_ptr-device f zid nr_lba = ground arith

settle-device : (zid nr_lba : ℕ) (r : Status × ZnsFtl) → (settle zid nr_lba r).1.device ≡ r.1.device
unfolding settle
settle-device zid nr_lba r = let i = increase_write_ptr-device r.1 zid nr_lba in ground arith

take_zone-device :
    (s : ZoneState) (f : ZnsFtl) (zid slba : ℕ) → (take_zone s f zid slba).1.device ≡ f.device
unfolding take_zone open_implicitly acquire_zone_resource change_zone_state
take_zone-device s f zid slba = ground arith

-- Nor do they touch the parameters that place the pages.
increase_write_ptr-zp : (f : ZnsFtl) (zid nr_lba : ℕ) → (increase_write_ptr f zid nr_lba).zp ≡ f.zp
unfolding increase_write_ptr release_zone_resource change_zone_state
increase_write_ptr-zp f zid nr_lba = ground arith

settle-zp : (zid nr_lba : ℕ) (r : Status × ZnsFtl) → (settle zid nr_lba r).1.zp ≡ r.1.zp
unfolding settle
settle-zp zid nr_lba r = let i = increase_write_ptr-zp r.1 zid nr_lba in ground arith

take_zone-zp : (s : ZoneState) (f : ZnsFtl) (zid slba : ℕ) → (take_zone s f zid slba).1.zp ≡ f.zp
unfolding take_zone open_implicitly acquire_zone_resource change_zone_state
take_zone-zp s f zid slba = ground arith

advance_zone-zp :
    (lba_bits : ℕ) (f : ZnsFtl) (zid slba nr_lba : ℕ)
    → (advance_zone lba_bits f zid slba nr_lba).1.zp ≡ f.zp
unfolding advance_zone
advance_zone-zp lba_bits f zid slba nr_lba =
    let t = take_zone (f.zone_descs zid).state f zid slba in
    let e = settle-zp zid nr_lba t ∙ take_zone-zp (f.zone_descs zid).state f zid slba in
    ground arith

-- Every page of a striped array lies in it.
lpn-in_array :
    (f : ZnsFtl) (lpn : ℕ)
    → IsStriped f
    → f.zp.dies_per_zone < 2 ^ 16
    → in_array f.device.ssd.sp (lpn_to_ppa f lpn) ≡ true
lpn-in_array f lpn h few =
    let r = lpn_to_ppa-InRange f lpn h few in ground (arith, r.ch_in, r.lun_in)

-- So no divisor of `__lpn_to_ppa` is 0.
IsDivisible-places : (f : ZnsFtl) → IsDivisible f → has_places f ≡ true
IsDivisible-places f h =
    let s = h.striped in
    let dies : 0 < f.device.ssd.sp.tt_luns = rw s.grouped (mul-pos s.some_groups s.some_dies) in
    ground (arith, dies, s.some_dies, s.some_pages, s.some_channels, h.some_zone_pgs)

places-same :
    (f g : ZnsFtl) → g.device ≡ f.device → g.zp ≡ f.zp → has_places f ≡ true → has_places g ≡ true
places-same f g d z h = rw (d, z) h

lpn_to_ppa-same :
    (f g : ZnsFtl) (lpn : ℕ)
    → g.device ≡ f.device
    → g.zp ≡ f.zp
    → lpn_to_ppa g lpn ≡ lpn_to_ppa f lpn
unfolding lpn_to_ppa lpn_to_zone zone_to_slpn die_to_channel die_to_lun
lpn_to_ppa-same f g lpn d z = rw (d, z) refl

advance_zone-device :
    (lba_bits : ℕ) (f : ZnsFtl) (zid slba nr_lba : ℕ)
    → (advance_zone lba_bits f zid slba nr_lba).1.device ≡ f.device
unfolding advance_zone
advance_zone-device lba_bits f zid slba nr_lba =
    let t = take_zone (f.zone_descs zid).state f zid slba in
    let e = settle-device zid nr_lba t ∙ take_zone-device (f.zone_descs zid).state f zid slba in
    ground arith

module _ (clock : ℕ → ℕ) where
  -- On a device whose links are in order and whose dies are free by a limit below 2^60, with
  -- latencies in bounds, some sectors in a page, a positive `write_unit_size`, some pages and
  -- sectors in a zone, and a striped array (its dies are whole groups of a positive `dies_per_zone`
  -- below 2^16, a wordline has some pages and no more than a block, there are channels, planes and
  -- blocks, and coordinates fit in an address): a write to a zone of the namespace, of up to 2^16
  -- sectors, below address 2^62, that starts by that limit and after time 0 is answered, once its
  -- part of the buffer is there, at a time not before its start; the loop over its pages ends
  -- within its fuel, and every page that it programs lies in the array.
  pub buffered_write-replies :
      (lba_bits limit : ℕ) (f : ZnsFtl) (b : BufferId) (zid : ℕ) (cmd : RwCommand)
      → zid < f.zp.nr_zones
      → IsDivisible f
      → IsTimely limit (nr_lbas cmd * 2 ^ lba_bits) f.device cmd
      → (o : Outcome) × (buffered_write clock lba_bits f b zid cmd ≡ some o)
        × (st : Status) × (t : ℕ) × (o.reply ≡ replied st t)
        × (cmd.nsecs_start ≤ t)
  unfolding buffered_write
  buffered_write-replies lba_bits limit f b zid cmd zone_in ok_geo h =
      let r = advance_zone lba_bits f zid cmd.slba (nr_lbas cmd) in
      let same = advance_zone-device lba_bits f zid cmd.slba (nr_lbas cmd) in
      let unit = lt→ltb 0 f.device.ssd.sp.write_unit_size ok_geo.some_unit in
      elim (Bool-cases (is_success r.0)) [
        | inl ok ↦
            let timely : IsTimely limit (nr_lbas cmd * 2 ^ lba_bits) r.1.device cmd =
              subst (λ d. IsTimely limit (nr_lbas cmd * 2 ^ lba_bits) d cmd) (sym same) h in
            let (o, e, t, q, l) =
              write_timing-replies clock lba_bits limit r.1 b zid cmd timely
                (places-same f r.1 same (advance_zone-zp lba_bits f zid cmd.slba (nr_lbas cmd))
                  (IsDivisible-places f ok_geo))
                (λ lpn.
                  rw
                    (
                      lpn_to_ppa-same f r.1 lpn same
                          (advance_zone-zp lba_bits f zid cmd.slba (nr_lbas cmd)),
                      same,
                    )
                    (lpn-in_array f lpn ok_geo.striped ok_geo.few_dies)) in
            (o, rw (unit, ok) e, success, t, q, l)
        | inr ne ↦ (
          record { reply = replied r.0 cmd.nsecs_start; cmd = cmd; ftl = r.1 },
          rw (unit, ne) refl,
          r.0,
          cmd.nsecs_start,
          refl,
          omega arith,
        )
      ]
