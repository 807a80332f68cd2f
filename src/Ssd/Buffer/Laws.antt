-- ===== src/Ssd/Buffer/Laws.antt =====
-- What the write buffer promises its clients.
use nvmevirt_learned_ftl.Prelude.{
  ℕ, ◌+◌, ◌-◌, ◌^◌, ◌≤◌, ◌<◌, ◌≡◌, ◌⊎◌, some, arith, leb, if◌then◌else◌,
}
use nvmevirt_learned_ftl.Ssd.Buffer.{Buffer, allocate, release}

pub record IsBuffer (b : Buffer) : Type 0 where
  pub within : b.remaining ≤ b.size
  pub small : b.size < 2 ^ 32

-- From a buffer in order, an allocation of no more than its size takes all that was asked for when
-- that much remains, and nothing, with the buffer as it was, when it does not.
pub allocate_lem :
    (b : Buffer) (n : ℕ)
    → IsBuffer b
    → n ≤ b.size
    → allocate b n ≡ (
        if leb n b.remaining
        then some (n, record b { remaining = b.remaining - n })
        else some (0, b))
unfolding allocate
allocate_lem b n h hn = ground arith

-- From a buffer in order, an allocation that returns leaves a buffer in order with as much less
-- remaining as it took, which is what was asked for or nothing, and releasing what it took restores
-- the buffer.
pub release-allocate :
    (b : Buffer) (n : ℕ) {c : Buffer} {m : ℕ}
    → IsBuffer b
    → allocate b n ≡ some (m, c)
    → IsBuffer c × (release c m ≡ b) × (c.remaining + m ≡ b.remaining) × (n ≡ m ⊎ m ≡ 0)
unfolding allocate release
release-allocate b n h e = ground arith
