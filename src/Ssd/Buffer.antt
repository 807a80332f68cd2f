-- ===== src/Ssd/Buffer.antt =====
-- `struct buffer` and the `buffer_*` functions (ssd.h, ssd.c). Each runs under the buffer's lock, so
-- a call is one step.
pub mod Laws
use nvmevirt_learned_ftl.Prelude.{
  ℕ, ◌-◌, ◌%◌, ◌^◌, Bool, true, Option, some, ltb, leb, if◌then◌else◌, ◌>>=◌, ◌>>◌, ensure, add64,
}

pub record Buffer : Type 0 where
  pub size : ℕ
  pub remaining : ℕ

unfoldable pub init : ℕ → Buffer
init size = record { size = size; remaining = size }

-- `buffer_allocate`: all of `size` or nothing; the result is cut to `uint32_t`.
unfoldable pub allocate : Buffer → ℕ → Option (ℕ × Buffer)
allocate buf size = do
  ensure (leb size buf.size)
  let taken = if ltb buf.remaining size then 0 else size
  some (taken % 2 ^ 32, record buf { remaining = buf.remaining - taken })

unfoldable pub release : Buffer → ℕ → Buffer
release buf size = record buf { remaining = add64 buf.remaining size }

unfoldable pub refill : Buffer → Buffer
refill buf = record buf { remaining = buf.size }
