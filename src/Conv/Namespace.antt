-- ===== src/Conv/Namespace.antt =====
-- A namespace of conv_ftl.c: the partitions and the bus that they share, and its commands.
use nvmevirt_learned_ftl.Prelude.{ℕ, ◌+◌, ◌*◌, ◌/◌, ◌%◌, ◌^◌, Bool, ◌==◌, update, add64, sub64}
use nvmevirt_learned_ftl.Ssd.Params.{SsdParams}
use nvmevirt_learned_ftl.Ssd.Nand.{Bus}
use nvmevirt_learned_ftl.Conv.State.{ConvFtl, Part}

-- The fields of `struct nvme_rw_command` and of the request that the layer reads.
pub record Request : Type 0 where
  pub slba : ℕ
  pub length : ℕ
  pub control : ℕ
  pub sq_id : ℕ
  pub nsecs_start : ℕ

-- `struct nvmev_ns` with the partitions of `ns->ftls`
pub record Namespace (Q : Type 0) : Type 0 where
  pub nr_parts : ℕ
  pub bus : Bus
  pub ftls : ℕ → ConvFtl Q

-- `struct nvmev_result` with status NVME_SC_SUCCESS, the only one of this layer, or the handler's
-- `return false`.
pub data Reply : Type 0 where
  done : ℕ → Reply
  refused : Reply

-- `cmd->rw.control & NVME_RW_FUA`
abbrev pub fua : Request → Bool
fua r = r.control / 2 ^ 14 % 2 == 1

abbrev pub start_lpn : SsdParams → Request → ℕ
start_lpn spp r = r.slba / spp.secs_per_pg

abbrev pub end_lpn : SsdParams → Request → ℕ
end_lpn spp r = sub64 (add64 r.slba (r.length + 1)) 1 / spp.secs_per_pg

-- `LBA_TO_BYTE(nr_lba)`; `lba_bits` is the build's.
abbrev pub io_bytes : ℕ → Request → ℕ
io_bytes lba_bits r = (r.length + 1) * 2 ^ lba_bits

module _ {Q : Type 0} where
  abbrev pub part : Namespace Q → ℕ → Part Q
  part ns i = record { bus = ns.bus; ftl = ns.ftls i }

  abbrev pub set_part : Namespace Q → ℕ → Part Q → Namespace Q
  set_part ns i p = record ns { bus = p.bus; ftls = update ns.ftls i p.ftl }
