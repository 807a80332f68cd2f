-- ===== src/Conv/Tests.antt =====
-- The FTL of conv_ftl.c on a small array.
mod Lines
mod Erasing
mod Refusal
mod Runs
use nvmevirt_learned_ftl.Prelude.{
  ℕ, ◌+◌, ◌<◌, ◌≡◌, ◌≢◌, ◌⊎◌, refl, arith, true, false, Bool, List, [], ◌∷◌, ◌++◌, Option, some,
  none, leb, ltb, ◌==◌, if◌then◌else◌, update, remove,
}
use nvmevirt_learned_ftl.Ssd.Config.{Config, samsung_970pro}
use nvmevirt_learned_ftl.Ssd.Params.{SsdParams, layout_params}
use nvmevirt_learned_ftl.Ssd.Params.Geometry.{IsGeometry}
use nvmevirt_learned_ftl.Ssd.Ppa.{
  Ppa, same_pg, same_blk, same_lun, mapped_ppa, word, blk_in_ssd, unmapped, of_word,
}
use nvmevirt_learned_ftl.Conv.State.{
  get_wp, get_rmap_ent, set_maptbl_ent, set_rmap_ent, ppa2pgidx, pgidx, ConvFtl, Line, WritePointer,
  user_io, gc_io, set_wp,
}
use nvmevirt_learned_ftl.Conv.State.Queue.{QueueOps}
use nvmevirt_learned_ftl.Conv.State.Pointer.{Fits, IsPointer, page_at}
use nvmevirt_learned_ftl.Ssd.Nand
use nvmevirt_learned_ftl.Ssd.Nand.{set_status, set_block}
use nvmevirt_learned_ftl.Conv.Command.{conv_params, conv_init_ftl}
use nvmevirt_learned_ftl.Conv.Write.{write_remap, give_up}
use nvmevirt_learned_ftl.Conv.Gc.{gc_remap}
use nvmevirt_learned_ftl.Conv.Pages.{
  mark_page_invalid, invalidate_page, invalidate_line, lower_vpc, full_to_victim, take_page,
  mark_page_valid, validate_page,
}
use nvmevirt_learned_ftl.Conv.Lines.{get_new_page, count_up, init_write_flow_control}
use nvmevirt_learned_ftl.Conv.Mapping.{IsConsistent, none_gone}
use nvmevirt_learned_ftl.Conv.Mapping.Start.{
  fresh_ftl, fresh_ftl-IsConsistent, conv_init_ftl-Fresh, Fresh, IsSized,
}
use nvmevirt_learned_ftl.Conv.Mapping.Moves.{set_wp-IsConsistent}
use nvmevirt_learned_ftl.Conv.Mapping.Remap.{
  page_at-IsAddr, Remapped, write_remap-Remapped, gc_remap-Remapped,
}

-- Two channels of two dies of four blocks, each of two wordlines of four pages.
abbrev pub small : SsdParams
small =
    layout_params (record samsung_970pro { oneshot_page_size = 16384; flash_page_size = 8192 }) 2
      32768 4

-- A queue that keeps its lines sorted, the least priority first.
abbrev sorted : List (ℕ × ℕ) → ℕ × ℕ → List (ℕ × ℕ)
sorted [] x = x ∷ []
sorted (y ∷ ys) x = let rest = sorted ys x in if leb x.0 y.0 then x ∷ y ∷ ys else y ∷ rest

abbrev dropped : List (ℕ × ℕ) → ℕ → List (ℕ × ℕ)
dropped [] i = []
dropped (y ∷ ys) i = let rest = dropped ys i in if y.1 == i then ys else y ∷ rest

abbrev top : List (ℕ × ℕ) → Option ℕ
top [] = none
top (y ∷ ys) = some y.1

abbrev below : List (ℕ × ℕ) → List (ℕ × ℕ)
below [] = []
below (y ∷ ys) = ys

instance pub sorted_queue : QueueOps (List (ℕ × ℕ))
sorted_queue = record {
  init = λ n. [];
  insert =
      λ q lines i. (sorted q ((lines i).vpc, i), update lines i (record (lines i) { pos = 1 }));
  change_priority =
      λ q lines v i. (sorted (dropped q i) (v, i), update lines i (record (lines i) { vpc = v }));
  peek = top;
  pop = λ q lines. (below q, lines);
}

-- `layout_params` keeps the relations of the fields.
pub small-IsGeometry : IsGeometry small
unfolding layout_params
small-IsGeometry = record {
  pl_pgs = refl;
  lun_pgs = refl;
  ch_pgs = refl;
  all_pgs = refl;
  all_luns = refl;
  line_blks = refl;
  line_pgs = refl;
  lines = refl;
  blk_pgs = refl;
  page_size = refl;
}

pub small-Fits : Fits small
unfolding layout_params
small-Fits = record {
  chs_fit = omega arith;
  luns_fit = omega arith;
  pls_fit = omega arith;
  blks_fit = omega arith;
  pgs_fit = omega arith;
}

small-IsSized : IsSized small
unfolding layout_params
small-IsSized = record {
  has_ch = omega arith;
  has_lun = omega arith;
  one_pl = refl;
  has_pg = omega arith;
  has_lines = omega arith;
}

abbrev pub at_pg : ℕ → ℕ → WritePointer
at_pg line pg = record { curline = line; ch = 0; lun = 0; pg = pg; blk = line; pl = 0 }

pub at_pg-IsPointer : (line pg : ℕ) → line < 4 → pg < 8 → IsPointer small (at_pg line pg)
unfolding layout_params
at_pg-IsPointer line pg hl hp = record {
  ch_in = omega arith;
  lun_in = omega arith;
  pl_zero = refl;
  pl_in = omega arith;
  blk_in = omega arith;
  pg_in = omega arith;
}

conv_init_ftl-Fresh_example :
    (f : ConvFtl (List (ℕ × ℕ))) × (conv_init_ftl conv_params (Nand.init small) ≡ some f)
    × Fresh small f
unfolding layout_params
conv_init_ftl-Fresh_example =
    conv_init_ftl-Fresh conv_params small small-IsGeometry small-IsSized (omega arith)

-- The partition at its start, after a write of page 5, and when the next write is due.
abbrev pub fresh : ConvFtl (List (ℕ × ℕ))
fresh = fresh_ftl conv_params small

abbrev pub result : Option (Ppa × ConvFtl (List (ℕ × ℕ))) → ConvFtl (List (ℕ × ℕ))
result (some r) = r.1
result none = fresh

abbrev pub written : ConvFtl (List (ℕ × ℕ))
written = result (write_remap fresh 5)

pub written-Remapped : Remapped none_gone 5 (page_at (at_pg 0 0)) fresh written
unfolding layout_params write_remap give_up mapped_ppa word blk_in_ssd unmapped of_word
    mark_page_invalid invalidate_page invalidate_line lower_vpc full_to_victim get_new_page get_wp
    take_page set_maptbl_ent set_rmap_ent ppa2pgidx pgidx mark_page_valid validate_page set_status
    set_block Nand.init update same_pg same_blk same_lun remove init_write_flow_control count_up
    set_wp
written-Remapped =
    write_remap-Remapped none_gone fresh 5 small-IsGeometry small-Fits
      (at_pg-IsPointer 0 0 (omega arith) (omega arith)) (fresh_ftl-IsConsistent conv_params small)
      (omega arith) refl

-- The host's pointer has moved on.
abbrev pub due : ConvFtl (List (ℕ × ℕ))
due = set_wp written user_io (at_pg 0 1)

pub due-IsConsistent : IsConsistent none_gone due
due-IsConsistent =
    set_wp-IsConsistent none_gone written user_io (at_pg 0 1) written-Remapped.consistent

-- Page 5 is written again: its old page is given up.
write_remap-Remapped_example :
    Remapped none_gone 5 (page_at (at_pg 0 1)) due (result (write_remap due 5))
unfolding layout_params write_remap give_up mapped_ppa word blk_in_ssd unmapped of_word
    mark_page_invalid invalidate_page invalidate_line lower_vpc full_to_victim get_new_page get_wp
    take_page set_maptbl_ent set_rmap_ent ppa2pgidx pgidx mark_page_valid validate_page set_status
    set_block Nand.init update same_pg same_blk same_lun remove init_write_flow_control count_up
    set_wp
write_remap-Remapped_example =
    write_remap-Remapped none_gone due 5 small-IsGeometry small-Fits
      (at_pg-IsPointer 0 1 (omega arith) (omega arith)) due-IsConsistent (omega arith) refl

-- The collector copies the page of page 5.
gc_remap-Remapped_example :
    Remapped
      (λ p. same_pg (page_at (at_pg 0 0)) p)
      5
      (page_at (at_pg 1 0))
      due
      (result (gc_remap due (page_at (at_pg 0 0))))
unfolding layout_params write_remap give_up mapped_ppa word blk_in_ssd unmapped of_word
    mark_page_invalid invalidate_page invalidate_line lower_vpc full_to_victim get_new_page get_wp
    take_page set_maptbl_ent set_rmap_ent ppa2pgidx pgidx mark_page_valid validate_page set_status
    set_block Nand.init update same_pg same_blk same_lun remove init_write_flow_control count_up
    set_wp gc_remap get_rmap_ent
gc_remap-Remapped_example =
    gc_remap-Remapped none_gone due (page_at (at_pg 0 0)) small-IsGeometry small-Fits
      (at_pg-IsPointer 1 0 (omega arith) (omega arith)) due-IsConsistent
      (page_at-IsAddr small (at_pg 0 0) (at_pg-IsPointer 0 0 (omega arith) (omega arith))) refl refl
      refl
