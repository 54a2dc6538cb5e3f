-- ===== src/Clock/Tests.antt =====
-- A difference across the end of a second.
use diamond_apparatus.Base.{ℕ, ◌<◌, ◌+◌, ◌*◌, ◌%◌, ◌^◌, ◌≡◌, arith}
use diamond_apparatus.Base.Int.{ℤ, pos, negsuc}
use diamond_apparatus.Clock.{
  Timespec, second, Doubles, Time, init, now, ticks, ticked, now-init_ticked,
}

abbrev early : Timespec
early = record { tv_sec = 3; tv_nsec = 900_000_000 }

abbrev late : Timespec
late = record { tv_sec = 5; tv_nsec = 100_000_000 }

abbrev ticking : Time
ticking = record { progstart = late; ticksctr = 4_294_967_295 }

abbrev as_nat : ℤ → ℕ
as_nat (pos n) = n
as_nat (negsuc n) = 0

-- Doubles that are whole numbers of nanoseconds.
abbrev whole : Doubles
whole = record { of_long = as_nat; mul = λ x y. x * y; add = λ x y. x * second + y; nano = 1 }

now-init_ticked_example :
    (s : ℕ) × (ns : ℕ) × (now whole late (ticked 3 (init early ticking))
      ≡ whole.add (whole.of_long (pos s)) (whole.mul (whole.of_long (pos ns)) whole.nano))
    × (ns < second)
    × (5 * second + 100_000_000 ≡ 3 * second + 900_000_000 + s * second + ns)
    × (ticks (ticked 3 (init early ticking)) ≡ (4_294_967_295 + 3) % 2 ^ 32)
now-init_ticked_example =
    now-init_ticked whole early late ticking 3 (omega arith) (omega arith) (omega arith)
      (omega arith)
