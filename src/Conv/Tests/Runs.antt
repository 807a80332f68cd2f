-- ===== src/Conv/Tests/Runs.antt =====
-- A host write runs on the small array.
use nvmevirt_learned_ftl.Prelude.{ℕ, ◌≡◌, refl, arith, List, some, update, remove}
use nvmevirt_learned_ftl.Ssd.Params.{layout_params}
use nvmevirt_learned_ftl.Ssd.Ppa.{
  Ppa, same_pg, same_blk, same_lun, mapped_ppa, word, blk_in_ssd, unmapped, of_word,
}
use nvmevirt_learned_ftl.Conv.State.{
  get_wp, set_maptbl_ent, set_rmap_ent, ppa2pgidx, pgidx, ConvFtl, set_wp,
}
use nvmevirt_learned_ftl.Conv.State.Pointer.{page_at}
use nvmevirt_learned_ftl.Ssd.Nand
use nvmevirt_learned_ftl.Ssd.Nand.{set_status, set_block}
use nvmevirt_learned_ftl.Conv.Write.{write_remap, give_up}
use nvmevirt_learned_ftl.Conv.Pages.{
  mark_page_invalid, invalidate_page, invalidate_line, lower_vpc, full_to_victim, take_page,
  mark_page_valid, validate_page,
}
use nvmevirt_learned_ftl.Conv.Lines.{get_new_page, count_up, init_write_flow_control}
use nvmevirt_learned_ftl.Conv.Mapping.{none_gone}
use nvmevirt_learned_ftl.Conv.Mapping.Remap.{Remapped}
use nvmevirt_learned_ftl.Conv.Mapping.Runs.{
  QueueLaws, IsCounted, HasRoom, IsBlockwise, write_remap_runs,
}
use nvmevirt_learned_ftl.Conv.Tests.{
  sorted_queue, small-IsGeometry, small-Fits, at_pg, at_pg-IsPointer, due, due-IsConsistent,
}

sorted_queue-QueueLaws : QueueLaws sorted_queue
unfolding sorted_queue update
sorted_queue-QueueLaws = record {
  insert_keeps = λ q lines i j. ground arith;
  change_sets = λ q lines v i. ground arith;
  change_keeps = λ q lines v i j ne. ground arith;
}

due-IsBlockwise : IsBlockwise due.ssd
unfolding layout_params write_remap give_up mapped_ppa word blk_in_ssd unmapped of_word
    mark_page_invalid invalidate_page invalidate_line lower_vpc full_to_victim get_new_page get_wp
    take_page set_maptbl_ent set_rmap_ent ppa2pgidx pgidx mark_page_valid validate_page set_status
    set_block Nand.init update same_pg same_blk same_lun remove init_write_flow_control count_up
    set_wp sorted_queue
due-IsBlockwise p q e = ground arith

due-IsCounted : IsCounted due (page_at (at_pg 0 0))
unfolding layout_params write_remap give_up mapped_ppa word blk_in_ssd unmapped of_word
    mark_page_invalid invalidate_page invalidate_line lower_vpc full_to_victim get_new_page get_wp
    take_page set_maptbl_ent set_rmap_ent ppa2pgidx pgidx mark_page_valid validate_page set_status
    set_block Nand.init update same_pg same_blk same_lun remove init_write_flow_control count_up
    set_wp sorted_queue
due-IsCounted = record {
  blk_ipc = omega arith;
  blk_vpc = omega arith;
  blk_vpc_le = omega arith;
  line_ipc = omega arith;
  line_vpc = omega arith;
  line_vpc_le = omega arith;
  full_clean = λ e. refl;
}

due-HasRoom : HasRoom due (page_at (at_pg 0 1))
unfolding layout_params write_remap give_up mapped_ppa word blk_in_ssd unmapped of_word
    mark_page_invalid invalidate_page invalidate_line lower_vpc full_to_victim get_new_page get_wp
    take_page set_maptbl_ent set_rmap_ent ppa2pgidx pgidx mark_page_valid validate_page set_status
    set_block Nand.init update same_pg same_blk same_lun remove init_write_flow_control count_up
    set_wp sorted_queue
due-HasRoom = record { is_free = refl; blk_vpc = omega arith; line_vpc = omega arith }

write_remap_runs_example :
    (r : Ppa × ConvFtl (List (ℕ × ℕ))) × (write_remap due 5 ≡ some r)
    × Remapped none_gone 5 (page_at (at_pg 0 1)) due r.1
unfolding layout_params write_remap give_up mapped_ppa word blk_in_ssd unmapped of_word
    mark_page_invalid invalidate_page invalidate_line lower_vpc full_to_victim get_new_page get_wp
    take_page set_maptbl_ent set_rmap_ent ppa2pgidx pgidx mark_page_valid validate_page set_status
    set_block Nand.init update same_pg same_blk same_lun remove init_write_flow_control count_up
    set_wp
write_remap_runs_example =
    write_remap_runs sorted_queue-QueueLaws none_gone due 5 small-IsGeometry small-Fits
      (at_pg-IsPointer 0 1 (omega arith) (omega arith)) due-IsConsistent (omega arith)
      due-IsBlockwise (λ m. due-IsCounted) due-HasRoom
