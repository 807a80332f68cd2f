-- ===== src/Io/Queue/Enter.antt =====
-- A free entry of a worker is taken, filled and put in the waiting list.
use nvmevirt_learned_ftl.Prelude.{
  ℕ, ◌<◌, ◌≡◌, ◌≢◌, refl, sym, ap, ◌∙◌, some, none, List, [], ◌∷◌, arith, update, update_self,
}
use mathlib.Core.Path.{fun_ext}
use nvmevirt_learned_ftl.Io.State.{IoWork, IoWorker, nil}
use nvmevirt_learned_ftl.Io.Queue.{allocate_entry, insert_req_sorted}
use nvmevirt_learned_ftl.Io.Queue.Lists.{count}
use nvmevirt_learned_ftl.Io.Queue.Links.{Nexts-frame, Prevs-frame}
use nvmevirt_learned_ftl.Io.Queue.Order.{IsOrdered, place, place-IsOrdered, IsOrdered-same}
use nvmevirt_learned_ftl.Io.Queue.Parts.{Parts}
use nvmevirt_learned_ftl.Io.Queue.Find.{due}
use nvmevirt_learned_ftl.Io.Queue.Linked.{SameWork}
use nvmevirt_learned_ftl.Io.Queue.Insert.{insert_req_sorted-Parts}

-- A worker in order: its lists hold each entry once, and the waiting ones are in the order in which
-- they are due.
pub record InOrder (w : IoWorker) (waiting free : List ℕ) : Type 0 where
  pub parts : Parts w [] waiting free
  pub order : IsOrdered (due w) waiting

-- The worker after the entry is taken and filled, before it is put in the list
abbrev pub filled : IoWorker → ℕ → ℕ → IoWork → IoWorker
filled w e next work = record w { free_seq = next; work_queue = update w.work_queue e work }

pub allocate_entry-more :
    {w : IoWorker} {e y : ℕ} {waiting free : List ℕ}
    → Parts w [] waiting (e ∷ y ∷ free)
    → allocate_entry w ≡ some (some (e, record w { free_seq = y }))
unfolding allocate_entry count
allocate_entry-more {w} {e} {y} p = ground (arith, p.whole y, p.free_nexts.0, p.free_head)

-- With one free entry left, none is given.
pub allocate_entry-last :
    {w : IoWorker} {e : ℕ} {waiting : List ℕ}
    → Parts w [] waiting (e ∷ [])
    → allocate_entry w ≡ some none
unfolding allocate_entry
allocate_entry-last p = ground (arith, p.free_nexts.0, p.free_head)

module _ {w : IoWorker} {e y : ℕ} {waiting free : List ℕ}
    (p : Parts w [] waiting (e ∷ y ∷ free)) where
  waiting-ne : (i : ℕ) → 0 < count i waiting → e ≢ i
  unfolding count
  waiting-ne i k q = ground (arith, p.whole e, ap (λ a. count a waiting) q)

  free-ne : (i : ℕ) → 0 < count i (y ∷ free) → e ≢ i
  unfolding count
  free-ne i k q = ground (arith, p.whole e, ap (λ a. count a (y ∷ free)) q)

  filled-Parts : (work : IoWork) → Parts (filled w e y work) (e ∷ []) waiting (y ∷ free)
  unfolding update count
  filled-Parts work =
      let w' = filled w e y work in
      record {
        nexts =
            Nexts-frame w.work_queue w'.work_queue waiting nil p.nexts
              (λ i k. ground (arith, waiting-ne i k));
        prevs =
            Prevs-frame w.work_queue w'.work_queue nil waiting p.prevs
              (λ i k. ground (arith, waiting-ne i k));
        head = p.head;
        tail = p.tail;
        free_nexts =
            Nexts-frame w.work_queue w'.work_queue (y ∷ free) nil p.free_nexts.1
              (λ i k. ground (arith, free-ne i k));
        free_head = refl;
        free_tail = p.free_tail;
        some_free = omega arith;
        whole = λ i. omega (arith, p.whole i);
      }

  filled-order :
      (work : IoWork) → IsOrdered (due w) waiting → IsOrdered (due (filled w e y work)) waiting
  unfolding update
  filled-order work =
      IsOrdered-same (due w) (due (filled w e y work)) waiting
        (λ i k. ground (arith, waiting-ne i k))

pub SameWork-due : {w w' : IoWorker} → SameWork w w' → due w' ≡ due w
SameWork-due {w} {w'} s = fun_ext (λ i.
    let target = ap (λ (x : IoWork). x.nsecs_target) (s.work i) in
    let latest = s.latest in ground arith)

-- A filled entry goes where it is due, and the others keep their order.
pub insert_req_sorted-InOrder :
    {w : IoWorker} {e y : ℕ} {waiting free : List ℕ} (work : IoWork)
    → InOrder w waiting (e ∷ y ∷ free)
    → work.next ≡ nil
    → work.prev ≡ nil
    → (w' : IoWorker) × (insert_req_sorted e work.nsecs_target (filled w e y work) ≡ some w')
      × InOrder w' (place (due w') e waiting) (y ∷ free)
      × SameWork (filled w e y work) w'
insert_req_sorted-InOrder {w} {e} {y} {waiting} {free} work h next prev =
    let v = filled w e y work in
    let same : v.work_queue e ≡ work = update_self w.work_queue e work in
    let order = filled-order h.parts work h.order in
    let (w', run, parts, kept) =
      insert_req_sorted-Parts (filled-Parts h.parts work) order
        (ap (λ (x : IoWork). x.next) same ∙ next) (ap (λ (x : IoWork). x.prev) same ∙ prev) in
    let key = SameWork-due kept in
    (
      w',
      ap (λ (x : IoWork). insert_req_sorted e x.nsecs_target v) (sym same) ∙ run,
      record { parts = rw key parts; order = rw key (place-IsOrdered (due v) e waiting order) },
      kept,
    )
