-- ===== src/Conv/Tests/Refusal.antt =====
-- A write of one page on a namespace whose write buffer is full.
use nvmevirt_learned_ftl.Prelude.{ℕ, ◌+◌, ◌≡◌, refl, arith, List}
use nvmevirt_learned_ftl.Ssd.Params.{layout_params}
use nvmevirt_learned_ftl.Ssd.Nand
use nvmevirt_learned_ftl.Ssd.Nand.{init_bus}
use nvmevirt_learned_ftl.Ssd.Buffer.{allocate}
use nvmevirt_learned_ftl.Conv.Namespace.{Request, Namespace}
use nvmevirt_learned_ftl.Conv.Write.{conv_write, admit_write}
use nvmevirt_learned_ftl.Conv.Write.Refuse.{conv_write-refused}
use nvmevirt_learned_ftl.Conv.Tests.{sorted_queue, small, fresh}

abbrev full : Namespace (List (ℕ × ℕ))
full = record {
  nr_parts = 1;
  bus = record (init_bus small) { write_buffer = record { size = 65536; remaining = 0 } };
  ftls = λ i. fresh;
}

abbrev one_block : Request
one_block = record { slba = 8; length = 0; control = 0; sq_id = 1; nsecs_start = 1000 }

conv_write-refused_example : full ≡ full
unfolding conv_write admit_write allocate layout_params Nand.init
conv_write-refused_example =
    conv_write-refused (λ n. 4000 + n) 9 full one_block
      (record { within = omega arith; small = omega arith }) (omega arith) refl
