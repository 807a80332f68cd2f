-- ===== src/Zns/Init.antt =====
-- The initial state of zns_ftl.c: `__init_descriptor`, `__init_resource`, `zns_init_params`,
-- `zns_init_ftl` and `zns_init_namespace`, which makes the only partition.
pub mod Ready
use nvmevirt_learned_ftl.Prelude.{
  ℕ, ◌+◌, ◌*◌, ◌/◌, ◌%◌, ◌^◌, Bool, false, Option, none, some, ◌==◌, ◌>>=◌, ◌>>◌, ensure, u32,
}
use nvmevirt_learned_ftl.Ssd.Config.{Config}
use nvmevirt_learned_ftl.Ssd.Params.{SsdParams, ssd_init_params}
use nvmevirt_learned_ftl.Ssd.Buffer
use nvmevirt_learned_ftl.Ssd.Nand.{Device, init, init_bus}
use nvmevirt_learned_ftl.Zns.State.{
  ZoneState, ZoneDescriptor, ZnsParams, Resources, ResourceInfo, ZnsFtl,
}

-- `zns_init_params`; its assertions need a zone size that is not 0.
unfoldable pub zns_init_params : Config → SsdParams → ℕ → Option ZnsParams
zns_init_params c spp capacity = do
  let nr_zones = u32 (capacity / c.zone_size)
  ensure (capacity % c.zone_size == 0)
  ensure (c.zone_size % spp.pgsz == 0)
  some (record {
    nr_zones = nr_zones;
    nr_active_zones = nr_zones;
    nr_open_zones = nr_zones;
    dies_per_zone = c.dies_per_zone;
    zone_size = c.zone_size;
    zone_wb_size = c.zone_wb_size;
    nr_zrwa_zones = c.max_zrwa_zones;
    zrwafg_size = c.zrwafg_size;
    zrwa_size = c.zrwa_size;
    zrwa_buffer_size = c.zrwa_buffer_size;
    lbas_per_zrwafg = c.zrwafg_size / spp.secsz;
    lbas_per_zrwa = c.zrwa_size / spp.secsz;
  })

-- The loop of `__init_descriptor` at index `i`: `zslba` has been increased `i` times.
unfoldable pub init_descriptor : ℕ → ZnsParams → ℕ → ZoneDescriptor
init_descriptor lba_bits zp i =
    let lbas = zp.zone_size / 2 ^ lba_bits in
    record {
      state = ZoneState.empty;
      zrwav = false;
      zone_capacity = lbas;
      zslba = i * lbas;
      wp = i * lbas;
    }

-- `__init_resource`: every kind has as many as there are zones.
unfoldable pub init_resource : ZnsParams → Resources
init_resource zp =
    let info : ResourceInfo = record { acquired_cnt = 0; total_cnt = zp.nr_zones } in
    record { active = info; open_ = info; zrwa = info }

-- `zns_init_ftl`. The buffers that `__init_descriptor` makes only for a size other than 0 are not used
-- for size 0. The storage has what was there before.
unfoldable pub zns_init_ftl : ℕ → ZnsParams → Device → (ℕ → ℕ) → ZnsFtl
unfolding init_descriptor init_resource
zns_init_ftl lba_bits zp d storage = record {
  device = d;
  zp = zp;
  res_infos = init_resource zp;
  zone_descs = init_descriptor lba_bits zp;
  zone_write_buffer = λ i. Buffer.init zp.zone_wb_size;
  zrwa_buffers = λ i. Buffer.init zp.zrwa_buffer_size;
  storage = storage;
}

-- `zns_init_namespace`
unfoldable pub zns_init_namespace : Config → ℕ → (ℕ → ℕ) → Option ZnsFtl
unfolding zns_init_ftl
zns_init_namespace c size storage = do
  spp ← ssd_init_params c size 1
  zp ← zns_init_params c spp size
  some (zns_init_ftl c.lba_bits zp (record { bus = init_bus spp; ssd = init spp }) storage)
