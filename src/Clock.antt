-- ===== src/Clock.antt =====
-- time.cpp: the difference of two readings of the clock, and the count of ticks. The arithmetic of
-- doubles is a parameter.
pub mod Tests
use diamond_apparatus.Base.{
  ℕ, ◌+◌, ◌-◌, ◌*◌, ◌<◌, ◌≤◌, refl, ◌∙◌, ◌%◌, ◌^◌, ◌≡◌, Bool-cases, inl, inr, ltb, arith,
  if◌then◌else◌, zero, suc, ap,
}
use diamond_apparatus.Base.Int.{ℤ, pos, negsuc, sub_ℕ}

-- timespec; the clock is monotonic and does not go below 0.
pub record Timespec : Type 0 where
  pub tv_sec : ℕ
  pub tv_nsec : ℕ

abbrev pub second : ℕ
second = 1_000_000_000

-- `temp`: whole seconds, which may be negative, and the nanoseconds behind them.
unfoldable pub difference : Timespec → Timespec → ℤ × ℕ
difference start end =
    if ltb end.tv_nsec start.tv_nsec
    then (sub_ℕ end.tv_sec (start.tv_sec + 1), second + end.tv_nsec - start.tv_nsec)
    else (sub_ℕ end.tv_sec start.tv_sec, end.tv_nsec - start.tv_nsec)

-- What double arithmetic does, on bit patterns: the conversion of a whole number, `*`, `+`, and the
-- constant 1e-9.
pub record Doubles : Type 0 where
  pub of_long : ℤ → ℕ
  pub mul : ℕ → ℕ → ℕ
  pub add : ℕ → ℕ → ℕ
  pub nano : ℕ

-- The statics of the file. What clock_gettime() reads is an argument.
pub record Time : Type 0 where
  pub progstart : Timespec
  pub ticksctr : ℕ

unfoldable pub init : Timespec → Time → Time
init reading time = record time { progstart = reading }

module _ (fl : Doubles) where
  -- `t += ns*1e-9`
  abbrev pub seconds : ℤ × ℕ → ℕ
  seconds (s, ns) = fl.add (fl.of_long s) (fl.mul (fl.of_long (pos ns)) fl.nano)

  unfoldable pub time_diff : Timespec → Timespec → ℕ
  time_diff start end = seconds (difference start end)

  unfoldable pub now : Timespec → Time → ℕ
  now reading time = time_diff time.progstart reading

abbrev pub ticks : Time → ℕ
ticks time = time.ticksctr

unfoldable pub tick : Time → Time
tick time = record time { ticksctr = (time.ticksctr + 1) % 2 ^ 32 }

-- A number of ticks.
unfoldable pub ticked : ℕ → Time → Time
ticked zero time = time
ticked (suc k) time = ticked k (tick time)

ticked-ticks :
    (k : ℕ) (time : Time) → ticks time < 2 ^ 32 → ticks (ticked k time) ≡ (ticks time + k) % 2 ^ 32
unfolding ticked tick
ticked-ticks zero time small = omega (arith, small)
ticked-ticks (suc k) time small =
    ticked-ticks k (tick time) (unfold tick in omega arith) ∙ (unfold tick in omega arith)

ticked-progstart : (k : ℕ) (time : Time) → (ticked k time).progstart ≡ time.progstart
unfolding ticked tick
ticked-progstart zero time = refl
ticked-progstart (suc k) time = ticked-progstart k (tick time)

-- The pair whose second part is the rest of a second, for readings that do not go back.
difference-later :
    (start end : Timespec)
    → start.tv_nsec < second
    → end.tv_nsec < second
    → start.tv_sec * second + start.tv_nsec ≤ end.tv_sec * second + end.tv_nsec
    → (s : ℕ) × (ns : ℕ) × (difference start end ≡ (pos s, ns))
      × (ns < second)
      × (end.tv_sec * second + end.tv_nsec
          ≡ start.tv_sec * second + start.tv_nsec + s * second + ns)
unfolding difference
difference-later start end small small' later = elim (Bool-cases (ltb end.tv_nsec start.tv_nsec)) [
  | inl e ↦ (
    end.tv_sec - (start.tv_sec + 1),
    second + end.tv_nsec - start.tv_nsec,
    ground (arith, e, later),
    ground (arith, e),
    ground (arith, e, later),
  )
  | inr e ↦ (
    end.tv_sec - start.tv_sec,
    end.tv_nsec - start.tv_nsec,
    ground (arith, e, later),
    ground (arith, e),
    ground (arith, e, later),
  )
]

-- Behind init() and any number of ticks, for readings with fewer nanoseconds than a second has, of a
-- clock that does not go back: now() is the double that the conversions, the product with 1e-9 and
-- the sum make of the whole seconds since init() and the nanoseconds behind them, which are fewer
-- than a second has and make up with the seconds exactly the time between the readings; and ticks()
-- is the count before and the number of ticks, modulo 2^32.
pub now-init_ticked :
    (fl : Doubles) (start reading : Timespec) (time : Time) (k : ℕ)
    → start.tv_nsec < second
    → reading.tv_nsec < second
    → start.tv_sec * second + start.tv_nsec ≤ reading.tv_sec * second + reading.tv_nsec
    → ticks time < 2 ^ 32
    → (s : ℕ) × (ns : ℕ) × (now fl reading (ticked k (init start time))
        ≡ fl.add (fl.of_long (pos s)) (fl.mul (fl.of_long (pos ns)) fl.nano))
      × (ns < second)
      × (reading.tv_sec * second + reading.tv_nsec
          ≡ start.tv_sec * second + start.tv_nsec + s * second + ns)
      × (ticks (ticked k (init start time)) ≡ (ticks time + k) % 2 ^ 32)
unfolding now init time_diff
now-init_ticked fl start reading time k small small' later counted =
    let (s, ns, e, rest, sum) = difference-later start reading small small' later in
    (
      s,
      ns,
      ap (λ t. seconds fl (difference t reading)) (ticked-progstart k (init start time))
          ∙ ap (seconds fl) e,
      rest,
      sum,
      ticked-ticks k (init start time) counted,
    )
