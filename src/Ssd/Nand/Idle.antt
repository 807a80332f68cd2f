-- ===== src/Ssd/Nand/Idle.antt =====
-- `ssd_next_idle_time`: when every die of the array has finished.
use nvmevirt_learned_ftl.Prelude.{
  ℕ, zero, suc, ◌+◌, ◌≤◌, ◌<◌, ◌≡◌, refl, arith, max, inl, inr, eq-cases,
}
use nvmevirt_learned_ftl.Ssd.Nand.{Ssd, Device, lun_idle_time, ch_idle_time, next_idle_time}

module _ (s : Ssd) where
  abbrev avail : ℕ → ℕ → ℕ
  avail ch j = (s.luns ch j).next_lun_avail_time

  lun_idle-le : (ch n j latest : ℕ) → latest ≤ lun_idle_time s ch n j latest
  unfolding lun_idle_time
  lun_idle-le ch zero j latest = omega arith
  lun_idle-le ch (suc n) j latest =
      omega (arith, lun_idle-le ch n (j + 1) (max latest (avail ch j)))

  lun_idle-covers :
      (ch n j latest k : ℕ) → j ≤ k → k < j + n → avail ch k ≤ lun_idle_time s ch n j latest
  unfolding lun_idle_time
  lun_idle-covers ch zero j latest k hj hk = omega arith
  lun_idle-covers ch (suc n) j latest k hj hk = elim (eq-cases k j) [
    | inl e ↦ rw e (omega (arith, lun_idle-le ch n (j + 1) (max latest (avail ch j))))
    | inr ne ↦ lun_idle-covers ch n (j + 1) (max latest (avail ch j)) k (omega arith) (omega arith)
  ]

  ch_idle-le : (n i latest : ℕ) → latest ≤ ch_idle_time s n i latest
  unfolding ch_idle_time
  ch_idle-le zero i latest = omega arith
  ch_idle-le (suc n) i latest = omega (
    arith,
    lun_idle-le i s.sp.luns_per_ch 0 latest,
    ch_idle-le n (i + 1) (lun_idle_time s i s.sp.luns_per_ch 0 latest),
  )

  ch_idle-covers :
      (n i latest c k : ℕ)
      → i ≤ c
      → c < i + n
      → k < s.sp.luns_per_ch
      → avail c k ≤ ch_idle_time s n i latest
  unfolding ch_idle_time
  ch_idle-covers zero i latest c k hi hc hk = omega arith
  ch_idle-covers (suc n) i latest c k hi hc hk =
      let next = lun_idle_time s i s.sp.luns_per_ch 0 latest in
      elim (eq-cases c i) [
        | inl e ↦ rw e (
            omega (
              arith,
              ch_idle-le n (i + 1) next,
              lun_idle-covers i s.sp.luns_per_ch 0 latest k (omega arith) (omega arith),
            ))
        | inr ne ↦ ch_idle-covers n (i + 1) next c k (omega arith) (omega arith) hk
      ]

  lun_idle-below :
      (ch n j latest b : ℕ)
      → latest ≤ b
      → ((k : ℕ) → k < j + n → avail ch k ≤ b)
      → lun_idle_time s ch n j latest ≤ b
  unfolding lun_idle_time
  lun_idle-below ch zero j latest b hl h = hl
  lun_idle-below ch (suc n) j latest b hl h =
      lun_idle-below ch n (j + 1) (max latest (avail ch j)) b (omega (arith, h j))
        (λ k hk. h k (omega arith))

  ch_idle-below :
      (n i latest b : ℕ)
      → latest ≤ b
      → ((c k : ℕ) → c < i + n → k < s.sp.luns_per_ch → avail c k ≤ b)
      → ch_idle_time s n i latest ≤ b
  unfolding ch_idle_time
  ch_idle-below zero i latest b hl h = hl
  ch_idle-below (suc n) i latest b hl h =
      ch_idle-below n (i + 1) (lun_idle_time s i s.sp.luns_per_ch 0 latest) b
        (lun_idle-below i s.sp.luns_per_ch 0 latest b hl
          (λ k hk. h i k (omega arith) (omega arith)))
        (λ c k hc hk. h c k (omega arith) hk)

-- A time is when the array is idle, seen at `now`: from `now` on and from the end of every die's
-- work on, and no later than that asks for.
pub record IsIdleTime (s : Ssd) (now t : ℕ) : Type 0 where
  pub from_now : now ≤ t
  pub covers :
      (c k : ℕ) → c < s.sp.nchs → k < s.sp.luns_per_ch → (s.luns c k).next_lun_avail_time ≤ t
  pub least :
      (b : ℕ)
      → now ≤ b
      → ((c k : ℕ) → c < s.sp.nchs → k < s.sp.luns_per_ch → (s.luns c k).next_lun_avail_time ≤ b)
      → t ≤ b

-- `ssd_next_idle_time` returns the least time that is neither before the clock's reading nor before
-- the end of the work of any die, and leaves the array as it is.
pub next_idle_time_lem :
    (clock : ℕ → ℕ) (d : Device)
    → IsIdleTime d.ssd (clock d.bus.ticks) (next_idle_time clock d).0
      × ((next_idle_time clock d).1.ssd ≡ d.ssd)
unfolding next_idle_time
next_idle_time_lem clock d = (
  record {
    from_now = ch_idle-le d.ssd d.ssd.sp.nchs 0 (clock d.bus.ticks);
    covers = λ c k hc hk.
        ch_idle-covers d.ssd d.ssd.sp.nchs 0 (clock d.bus.ticks) c k (omega arith) (omega arith) hk;
    least = λ b hb h.
        ch_idle-below d.ssd d.ssd.sp.nchs 0 (clock d.bus.ticks) b hb
          (λ c k hc hk. h c k (omega arith) hk);
  },
  refl,
)
