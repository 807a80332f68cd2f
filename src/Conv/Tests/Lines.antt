-- ===== src/Conv/Tests/Lines.antt =====
-- Write pointers and page indices on the small array.
use nvmevirt_learned_ftl.Prelude.{◌≡◌, ◌⊎◌, refl, arith, true, some}
use nvmevirt_learned_ftl.Ssd.Params.{layout_params}
use nvmevirt_learned_ftl.Ssd.Ppa.{same_pg}
use nvmevirt_learned_ftl.Conv.State.{WritePointer, user_io, get_wp, set_wp}
use nvmevirt_learned_ftl.Conv.State.Pointer.{page_at}
use nvmevirt_learned_ftl.Conv.State.Index.{InRange, pgidx-injective}
use nvmevirt_learned_ftl.Ssd.Nand
use nvmevirt_learned_ftl.Conv.Lines.{advance_write_pointer, next_ch}
use nvmevirt_learned_ftl.Conv.Lines.Order.{InLine, AtEnd, advance_write_pointer_lem}
use nvmevirt_learned_ftl.Conv.Mapping.Remap.{page_at-IsAddr}
use nvmevirt_learned_ftl.Conv.Tests.{
  sorted_queue, small, small-IsGeometry, small-Fits, at_pg, at_pg-IsPointer, fresh,
}

advance_write_pointer_lem_example :
    ((v : WritePointer) × InLine (set_wp fresh user_io (at_pg 0 3)) user_io v)
    ⊎ AtEnd (set_wp fresh user_io (at_pg 0 3)) user_io
unfolding layout_params get_wp set_wp Nand.init
advance_write_pointer_lem_example =
    advance_write_pointer_lem (set_wp fresh user_io (at_pg 0 3)) user_io small-IsGeometry small-Fits
      (omega arith) (at_pg-IsPointer 0 3 (omega arith) (omega arith))

-- The last page of the first wordline of a die is followed by the first one of the next channel.
next_channel_test :
    advance_write_pointer (set_wp fresh user_io (at_pg 0 3)) user_io
    ≡ some (set_wp fresh user_io (record (at_pg 0 0) { ch = 1 }))
unfolding advance_write_pointer next_ch layout_params get_wp set_wp Nand.init
next_channel_test = refl

third-InRange : InRange small (page_at (at_pg 2 7))
third-InRange =
    (page_at-IsAddr small (at_pg 2 7) (at_pg-IsPointer 2 7 (omega arith) (omega arith))).range

pgidx-injective_example : same_pg (page_at (at_pg 2 7)) (page_at (at_pg 2 7)) ≡ true
pgidx-injective_example =
    pgidx-injective small (page_at (at_pg 2 7)) (page_at (at_pg 2 7)) small-IsGeometry third-InRange
      third-InRange refl
