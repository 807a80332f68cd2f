-- ===== src/Io/Tests/Copies.antt =====
-- Copies of concrete commands.
use nvmevirt_learned_ftl.Prelude.{◌≡◌, refl, true, some, List, [], ◌∷◌, ◌==◌, if◌then◌else◌, arith}
use nvmevirt_learned_ftl.Io.Transfer.{
  Host, IoCommand, IoOpcode, Piece, Transfer, Direction, do_perform_io, do_perform_io_using_dma,
  cmd_io_size, cmd_io_offset,
}
use nvmevirt_learned_ftl.Io.Transfer.Tiles.{Tiles, do_perform_io-Tiles}
use nvmevirt_learned_ftl.Io.Transfer.Merge.{bytes}
use nvmevirt_learned_ftl.Io.Transfer.Same.{do_perform_io_using_dma-same}

-- All pages are known, and the list at 40960 names pages 6 and 7.
abbrev host : Host
host = record {
  pfn_valid = λ f. true;
  load = λ a. if a == 40960 then 24576 else 28672;
  mapped = λ n. 1048576;
  storage_start = 1048576;
}

-- A write of 24 sectors over pages 5, 6 and 7
abbrev write_command : IoCommand
write_command = record {
  opcode = IoOpcode.write;
  command_id = 1;
  nsid = 1;
  prp1 = 20480;
  prp2 = 40960;
  slba = 3;
  length = 23;
}

-- A read of 8 sectors from the middle of page 5 to that of page 6
abbrev read_command : IoCommand
read_command = record {
  opcode = IoOpcode.read;
  command_id = 1;
  nsid = 1;
  prp1 = 20580;
  prp2 = 24576;
  slba = 3;
  length = 7;
}

do_perform_io-Tiles_example :
    (t : Transfer) × (do_perform_io 9 host read_command ≡ some t)
    × Tiles (cmd_io_offset 9 read_command) (cmd_io_size 9 read_command) t.pieces
unfolding cmd_io_offset cmd_io_size
do_perform_io-Tiles_example =
    do_perform_io-Tiles host (λ f. refl) read_command 9 (omega arith) (omega arith)
      (λ h. omega arith)

abbrev pieces : List Piece
pieces =
    record { host = 20480; offset = 1536; size = 4096 }
    ∷ record { host = 24576; offset = 5632; size = 4096 }
    ∷ record { host = 28672; offset = 9728; size = 4096 }
    ∷ []

-- The write as the page copy makes it
abbrev whole : Transfer
whole = record { direction = Direction.to_storage; storage = 1048576; pieces = pieces }

copied : do_perform_io 9 host write_command ≡ some whole
unfolding do_perform_io
copied = refl

-- The DMA transfer makes one piece of the three.
merged :
    do_perform_io_using_dma 9 host write_command
    ≡ some (record whole { pieces = record { host = 20480; offset = 1536; size = 12288 } ∷ [] })
unfolding do_perform_io_using_dma
merged = refl

do_perform_io_using_dma-same_example :
    (u : Transfer) × (do_perform_io_using_dma 9 host write_command ≡ some u)
    × (u.direction ≡ Direction.to_storage)
    × (u.storage ≡ 1048576)
    × (bytes u.pieces ≡ bytes pieces)
unfolding cmd_io_offset cmd_io_size
do_perform_io_using_dma-same_example =
    do_perform_io_using_dma-same host (λ f. refl) write_command 9 whole copied refl (omega arith)
      (omega arith) (omega arith)
