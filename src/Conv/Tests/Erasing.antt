-- ===== src/Conv/Tests/Erasing.antt =====
-- The block of a copied page is erased.
use nvmevirt_learned_ftl.Prelude.{ℕ, ◌≡◌, ◌∙◌, ap, eq-cases, inl, inr, ◌&&◌, not, false}
use nvmevirt_learned_ftl.Ssd.Ppa.{same_blk, same_lun, unmapped, of_word}
use nvmevirt_learned_ftl.Conv.Mapping.{IsConsistent}
use nvmevirt_learned_ftl.Conv.State.Pointer.{page_at}
use nvmevirt_learned_ftl.Conv.Pages.{mark_block_free}
use nvmevirt_learned_ftl.Conv.Mapping.Erase.{mark_block_free-IsConsistent}
use nvmevirt_learned_ftl.Conv.Tests.{at_pg, written, written-Remapped}

outside : (lpn : ℕ) → same_blk (page_at (at_pg 1 0)) (written.maptbl lpn) ≡ false
unfolding same_blk same_lun unmapped of_word
outside lpn = elim (eq-cases lpn 5) [
  | inl e ↦
      ap (λ l. same_blk (page_at (at_pg 1 0)) (written.maptbl l)) e
      ∙ ap (same_blk (page_at (at_pg 1 0))) written-Remapped.moved
  | inr ne ↦ ap (same_blk (page_at (at_pg 1 0))) (written-Remapped.others lpn ne)
]

mark_block_free-IsConsistent_example :
    IsConsistent
      (λ q. false && not (same_blk (page_at (at_pg 1 0)) q))
      (record written { ssd = mark_block_free written.ssd (page_at (at_pg 1 0)) })
mark_block_free-IsConsistent_example =
    mark_block_free-IsConsistent (λ p. false) written (page_at (at_pg 1 0))
      written-Remapped.consistent (λ lpn hl m. outside lpn)
