-- ===== src/Simple/Tests.antt =====
-- The simple layer with four I/O units of 4096 bytes.
use nvmevirt_learned_ftl.Prelude.{
  ℕ, ◌+◌, ◌*◌, ◌/◌, ◌%◌, ◌-◌, ◌^◌, ◌≡◌, refl, arith, max, some, update, ◌>>=◌,
}
use nvmevirt_learned_ftl.Simple.{
  UnitConfig, UnitOpcode, costs, unit_round, unit_rounds, schedule_io_units,
}
use nvmevirt_learned_ftl.Simple.Rounds.{rounds, schedule_io_units_lem}

abbrev four_units : UnitConfig
four_units = record {
  nr_io_units = 4;
  io_unit_shift = 12;
  write_delay = 10;
  write_time = 100;
  write_trailing = 5;
  read_delay = 8;
  read_time = 80;
  read_trailing = 0;
}

-- The second unit is busy until 700.
abbrev busy : ℕ → ℕ
busy = update (λ i. 0) 1 700

-- Three units' worth of a write from the second unit on
schedule_io_units_lem_example :
    (r : ℕ × (ℕ → ℕ)) × (schedule_io_units 9 four_units busy UnitOpcode.write 8 12288 500 ≡ some r)
    × (r.0
        ≡ max 500 (busy (8 / 2 ^ (12 - 9) % 4))
          + (costs four_units UnitOpcode.write).delay
          + rounds (2 ^ 12) 12288 * (costs four_units UnitOpcode.write).latency)
unfolding update costs rounds
schedule_io_units_lem_example =
    schedule_io_units_lem 9 four_units busy UnitOpcode.write 8 12288 500 (omega arith) (omega arith)
      (omega arith) (omega arith)

write_test :
    (schedule_io_units 9 four_units busy UnitOpcode.write 8 12288 500 >>= λ r. some r.0) ≡ some 1010
unfolding schedule_io_units unit_rounds unit_round update costs
write_test = refl
