-- ===== src/Time.antt =====
-- `timespec_from_nsec` and `timespec_from_msec` of src/utils.h, and the sleep of the main loop,
-- `set_sleep_to_next_platform_event` of src/wayland_display.cc.
mod Examples
use flutter_embedder_wayland.Base.{
  ℕ, zero, suc, ◌+◌, ◌-◌, ◌*◌, ◌/◌, ◌%◌, ◌^◌, ◌≤◌, ◌<◌, ◌≡◌, refl, arith, ltb, leb, ◌==◌,
  if◌then◌else◌,
}
use flutter_embedder_wayland.Base.Int.{ℤ, pos, negsuc, neg_of}

pub record Timespec : Type 0 where
  pub tv_sec : ℤ
  pub tv_nsec : ℤ

-- Division and remainder of C++ round towards zero.
abbrev div_trunc : ℤ → ℕ → ℤ
div_trunc (pos n) d = pos (n / d)
div_trunc (negsuc n) d = neg_of (suc n / d)

abbrev mod_trunc : ℤ → ℕ → ℤ
mod_trunc (pos n) d = pos (n % d)
mod_trunc (negsuc n) d = neg_of (suc n % d)

abbrev mul_pos : ℤ → ℕ → ℤ
mul_pos (pos n) d = pos (n * d)
mul_pos (negsuc n) d = neg_of (suc n * d)

-- NSEC_PER_SEC
abbrev pub nsec_per_sec : ℕ
nsec_per_sec = 1_000_000_000

unfoldable pub timespec_from_nsec : ℤ → Timespec
timespec_from_nsec b = record {
  tv_sec = div_trunc b nsec_per_sec;
  tv_nsec = mod_trunc b nsec_per_sec;
}

unfoldable pub timespec_from_msec : ℤ → Timespec
unfolding timespec_from_nsec
timespec_from_msec b = timespec_from_nsec (mul_pos b 1_000_000)

-- A `uint64_t` in an `int64_t`.
abbrev to_i64 : ℕ → ℤ
to_i64 n = if ltb n (2 ^ 63) then pos n else neg_of (2 ^ 64 - n)

-- {LONG_MAX, 0}: no timeout.
abbrev pub forever : Timespec
forever = record { tv_sec = pos (2 ^ 63 - 1); tv_nsec = pos 0 }

unfoldable pub set_sleep_to_next_platform_event : ℕ → ℕ → Timespec
unfolding timespec_from_nsec
set_sleep_to_next_platform_event timestamp now =
    if timestamp == 0
    then forever
    else timespec_from_nsec (to_i64 (if leb now timestamp then timestamp - now else 0))

-- The length of a time that is not negative, in nanoseconds.
abbrev pub IsLong : Timespec → ℕ → Type 0
IsLong t n =
    (s : ℕ) × (r : ℕ) × (t ≡ record { tv_sec = pos s; tv_nsec = pos r })
    × (s * nsec_per_sec + r ≡ n)
    × (r < nsec_per_sec)

-- The conversion of a time that is not negative keeps its length, with less than a second in
-- `tv_nsec`.
timespec_from_nsec_lem : (n : ℕ) → IsLong (timespec_from_nsec (pos n)) n
unfolding timespec_from_nsec
timespec_from_nsec_lem n = (n / nsec_per_sec, n % nsec_per_sec, refl, omega arith, omega arith)

pub timespec_from_msec_lem : (n : ℕ) → IsLong (timespec_from_msec (pos n)) (n * 1_000_000)
unfolding timespec_from_msec
timespec_from_msec_lem n = timespec_from_nsec_lem (n * 1_000_000)

-- For the time of a next event that is not 0 and fits an `int64_t`, the timeout is the time up to
-- the event, and 0 if that has passed.
sleep_to_event :
    (timestamp now : ℕ)
    → 0 < timestamp
    → timestamp < 2 ^ 63
    → IsLong (set_sleep_to_next_platform_event timestamp now) (timestamp - now)
unfolding set_sleep_to_next_platform_event
sleep_to_event timestamp now h fits =
    ground (arith, timespec_from_nsec_lem (timestamp - now), timespec_from_nsec_lem 0)
