-- ===== src/Conv/State/Queue.antt =====
-- The priority queue of victim lines. pqueue/ is a copy of another project's library: the code's
-- calls of it are operations here, on the queue and on the lines that it holds pointers to. The
-- callbacks of conv_ftl.c give a line's `vpc` as its priority (the least first) and keep its place
-- in `pos`.
use nvmevirt_learned_ftl.Prelude.{ℕ, ◌≡◌, Option}
use nvmevirt_learned_ftl.Conv.State.{Line}

pub record QueueOps (Q : Type 0) : Type 0 where
  -- `pqueue_init`
  pub init : ℕ → Q
  -- `pqueue_insert`
  pub insert : Q → (ℕ → Line) → ℕ → Q × (ℕ → Line)
  -- `pqueue_change_priority`: the queue, the lines, the new priority, the line
  pub change_priority : Q → (ℕ → Line) → ℕ → ℕ → Q × (ℕ → Line)
  -- `pqueue_peek`
  pub peek : Q → Option ℕ
  -- `pqueue_pop`, whose result the code does not use
  pub pop : Q → (ℕ → Line) → Q × (ℕ → Line)

-- A line after an operation of the queue, which may have moved it: only `pos` may differ.
pub record SameLine (l m : Line) : Type 0 where
  pub same_id : m.id ≡ l.id
  pub same_ipc : m.ipc ≡ l.ipc
  pub same_vpc : m.vpc ≡ l.vpc
