-- ===== src/Io/Transfer.antt =====
-- The copy between the pages of the host and the storage: `__do_perform_io` and
-- `__do_perform_io_using_dma` (io.c). A copy is kept as its direction, where
-- the storage starts, and the list of its pieces.
pub mod Tiles
pub mod Merge
pub mod Same
use nvmevirt_learned_ftl.Prelude.{
  ℕ, zero, suc, ◌+◌, ◌-◌, ◌*◌, ◌/◌, ◌%◌, ◌^◌, min, Bool, true, false, Option, none, some, List, [],
  ◌∷◌, ltb, ◌==◌, if◌then◌else◌, ◌>>=◌, add64, sub32, mul64, ensure, ◌>>◌,
}

-- `nvme_cmd_write`, `nvme_cmd_zone_append`, `nvme_cmd_read`, and the other opcodes
pub data IoOpcode : Type 0 where
  write zone_append read other : IoOpcode

-- `struct nvme_rw_command`, less what io.c does not read; `command_id` and `nsid` stand in the same
-- place in every command.
pub record IoCommand : Type 0 where
  pub opcode : IoOpcode
  pub command_id : ℕ
  pub nsid : ℕ
  pub prp1 : ℕ
  pub prp2 : ℕ
  pub slba : ℕ
  pub length : ℕ

-- `PAGE_SIZE`, of 2 ^ `PAGE_SHIFT` bytes
abbrev pub page_size : ℕ
page_size = 4096

-- The memory of the host, which is not part of the program: whether a page frame is known to the
-- kernel (`pfn_valid`), and the 64-bit word that stands at a physical address; and where the storage
-- lies in it: the physical address behind `nvmev_vdev->ns[nsid].mapped`, and `config.storage_start`.
pub record Host : Type 0 where
  pub pfn_valid : ℕ → Bool
  pub load : ℕ → ℕ
  pub mapped : ℕ → ℕ
  pub storage_start : ℕ

-- A piece of the copy: an address of the host, an offset from the start of the storage, and its bytes
pub record Piece : Type 0 where
  pub host : ℕ
  pub offset : ℕ
  pub size : ℕ

-- The way that the data goes: a write or a zone append copies to the storage, a read to the host, and
-- for another opcode the loops copy nothing.
pub data Direction : Type 0 where
  to_storage to_host nowhere : Direction

unfoldable pub direction_of : IoOpcode → Direction
direction_of write = to_storage
direction_of zone_append = to_storage
direction_of read = to_host
direction_of other = nowhere

-- A copy, with the address of the host's memory from which the offsets of its pieces count
pub record Transfer : Type 0 where
  pub direction : Direction
  pub storage : ℕ
  pub pieces : List Piece

-- `nsid` of `__do_perform_io`
abbrev pub ns_index : IoCommand → ℕ
ns_index cmd = sub32 cmd.nsid 1

-- Where the mapping of an address starts: `kmap_atomic_pfn` maps the page, `memremap` maps from the
-- address itself.
unfoldable pub mapped_at : Host → ℕ → ℕ
mapped_at h paddr = if h.pfn_valid (paddr / page_size) then paddr / page_size * page_size else paddr

-- The list of addresses that `prp2` points to. The offset in the page is added in bytes to what
-- `kmap_atomic_pfn` gives, and in entries of 8 bytes to what `memremap` gives.
unfoldable pub prp_list : Host → ℕ → ℕ
prp_list h paddr =
    if h.pfn_valid (paddr / page_size)
    then paddr / page_size * page_size + paddr % page_size
    else paddr + 8 * (paddr % page_size)

-- The address of piece `prp_offs`, counted from 1. Where the pieces go on after the second with no
-- list (`chained`), the code reads through a null pointer.
unfoldable pub prp_at : Host → IoCommand → Bool → ℕ → Option ℕ
unfolding prp_list
prp_at h cmd chained prp_offs =
    if prp_offs == 1
    then some cmd.prp1
    else if chained
    then some (h.load (prp_list h cmd.prp2 + 8 * (prp_offs - 2)))
    else if prp_offs == 2
    then some cmd.prp2
    else none

-- `io_size` of a piece
unfoldable pub piece_size : ℕ → ℕ → ℕ
piece_size remaining paddr =
    let io_size = min remaining page_size in
    let mem_offs = paddr % page_size in
    if ltb page_size (io_size + mem_offs) then page_size - mem_offs else io_size

-- The variables of the loops
pub record Copying : Type 0 where
  pub prp_offs : ℕ
  pub chained : Bool
  pub remaining : ℕ
  pub offset : ℕ

-- The start of a round of either loop over the addresses
unfoldable pub next_prp : Copying → Copying
next_prp s =
    let prp_offs = s.prp_offs + 1 in
    record s {
      prp_offs = prp_offs;
      chained = if prp_offs == 2 then ltb page_size s.remaining else s.chained;
    }

unfoldable pub took : ℕ → Copying → Copying
took io_size s = record s { remaining = s.remaining - io_size; offset = add64 s.offset io_size }

unfoldable pub piece_at : Host → Copying → ℕ → Piece
unfolding mapped_at piece_size
piece_at h s paddr = record {
  host = mapped_at h paddr + paddr % page_size;
  offset = s.offset;
  size = piece_size s.remaining paddr;
}

-- The `while` loop of `__do_perform_io`. Each round takes a byte at least.
unfoldable pub copy_pieces : ℕ → Host → IoCommand → Copying → Option (List Piece)
unfolding next_prp prp_at piece_size took piece_at
copy_pieces zero h cmd s = if s.remaining == 0 then some [] else none
copy_pieces (suc n) h cmd s =
    let s1 = next_prp s in
    let rest = prp_at h cmd s1.chained s1.prp_offs >>= λ paddr.
    copy_pieces n h cmd (took (piece_size s.remaining paddr) s1) >>= λ ps.
    some (piece_at h s paddr ∷ ps) in
    if s.remaining == 0 then some [] else rest

abbrev pub copy_start : ℕ → ℕ → Copying
copy_start offset length = record {
  prp_offs = 0;
  chained = false;
  remaining = length;
  offset = offset;
}

-- `__cmd_io_offset` and `__cmd_io_size`
unfoldable pub cmd_io_offset : ℕ → IoCommand → ℕ
cmd_io_offset lba_bits cmd = mul64 cmd.slba (2 ^ lba_bits)

unfoldable pub cmd_io_size : ℕ → IoCommand → ℕ
cmd_io_size lba_bits cmd = (cmd.length + 1) * 2 ^ lba_bits

-- `__do_perform_io`, whose offsets count from the mapping of the namespace
unfoldable pub do_perform_io : ℕ → Host → IoCommand → Option Transfer
unfolding direction_of copy_pieces cmd_io_offset cmd_io_size
do_perform_io lba_bits h cmd =
    let length = cmd_io_size lba_bits cmd in
    copy_pieces length h cmd (copy_start (cmd_io_offset lba_bits cmd) length) >>= λ ps.
    some (record {
      direction = direction_of cmd.opcode;
      storage = h.mapped (ns_index cmd);
      pieces = ps;
    })

-- The static array `paddr_list`, of which index 0 is not used; a write past its end is a fault.
abbrev pub paddr_list_length : ℕ
paddr_list_length = 513

-- The loop of `__do_perform_io_using_dma` that fills `paddr_list`
unfoldable pub list_pages : ℕ → Host → IoCommand → Copying → Option (List ℕ)
unfolding next_prp prp_at piece_size took
list_pages zero h cmd s = if s.remaining == 0 then some [] else none
list_pages (suc n) h cmd s =
    let s1 = next_prp s in
    let rest =
      ensure (ltb s1.prp_offs paddr_list_length)
      >> (prp_at h cmd s1.chained s1.prp_offs >>= λ paddr.
          list_pages n h cmd (took (piece_size s.remaining paddr) s1) >>= λ ps.
          some (paddr ∷ ps)) in
    if s.remaining == 0 then some [] else rest

-- The `for` loop over the addresses that follow one another: how much they add, and what is left
unfoldable pub adjacent : ℕ → List ℕ → ℕ × List ℕ
adjacent paddr [] = (0, [])
adjacent paddr (p ∷ ps) =
    let rest = adjacent p ps in
    if p == paddr + page_size then (page_size + rest.0, rest.1) else (0, p ∷ ps)

-- A run of adjacent pages, and the loop of `__do_perform_io_using_dma` that transfers. Past the end of the addresses the static
-- array of the code has zeros.
unfoldable pub dma_run : List ℕ → ℕ × ℕ × List ℕ
unfolding adjacent
dma_run [] = (0, 0, [])
dma_run (p ∷ ps) = let run = adjacent p ps in (p, run.0, run.1)

unfoldable pub dma_size : ℕ → ℕ → ℕ → ℕ
unfolding piece_size
dma_size remaining paddr more = min remaining (piece_size remaining paddr + more)

unfoldable pub dma_pieces : ℕ → List ℕ → ℕ → ℕ → Option (List Piece)
unfolding dma_run dma_size
dma_pieces zero pages remaining offset = if remaining == 0 then some [] else none
dma_pieces (suc n) pages remaining offset =
    let (paddr, more, left) = dma_run pages in
    let io_size = dma_size remaining paddr more in
    let piece : Piece = record { host = paddr; offset = offset; size = io_size } in
    let rest =
      dma_pieces n left (remaining - io_size) (add64 offset io_size) >>= λ ps. some (piece ∷ ps) in
    if remaining == 0 then some [] else rest

-- `__do_perform_io_using_dma`, whose offsets count from `storage_start` for every namespace
unfoldable pub do_perform_io_using_dma : ℕ → Host → IoCommand → Option Transfer
unfolding direction_of list_pages dma_pieces cmd_io_offset cmd_io_size
do_perform_io_using_dma lba_bits h cmd =
    let length = cmd_io_size lba_bits cmd in
    let offset = cmd_io_offset lba_bits cmd in
    list_pages length h cmd (copy_start offset length) >>= λ pages.
    dma_pieces length pages length offset >>= λ ps.
    some (record { direction = direction_of cmd.opcode; storage = h.storage_start; pieces = ps })
