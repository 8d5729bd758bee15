-- ===== src/Switchboard/Limiter.antt =====
-- internal/switchboard/router.go: the byte-rate limiter of a pipe. A time is a number of
-- nanoseconds; the clock is read before each call and handed to it.
use vivary.Prelude.{
  ℕ, ◌+◌, ◌-◌, ◌*◌, ◌%◌, ◌^◌, ◌≤◌, ◌<◌, ◌≡◌, Bool, true, false, arith, leb, if◌then◌else◌,
}
use native.Mathlib.Nat.{mod-eq_of_lt}

abbrev pub second : ℕ
second = 1000 * 1000 * 1000

pub record ByteRateLimiter : Type 0 where
  pub window_start : ℕ
  pub bytes_in_window : ℕ
  pub limit_per_sec : ℕ

unfoldable pub new_byte_rate_limiter : ℕ → ℕ → ByteRateLimiter
new_byte_rate_limiter now bytes_per_sec = record {
  window_start = now;
  bytes_in_window = 0;
  limit_per_sec = bytes_per_sec;
}

-- A window that is a second old is left.
abbrev roll : ℕ → ByteRateLimiter → ByteRateLimiter
roll now l =
    if leb (l.window_start + second) now
    then record l { window_start = now; bytes_in_window = 0 }
    else l

abbrev charge : ℕ → ByteRateLimiter → ByteRateLimiter
charge n l = record l { bytes_in_window = (l.bytes_in_window + n) % 2 ^ 64 }

-- `Allow`: the answer, and the limiter afterwards
unfoldable pub allow : ℕ → ℕ → ByteRateLimiter → Bool × ByteRateLimiter
allow now n l = let l' = charge n (roll now l) in (leb l'.bytes_in_window l'.limit_per_sec, l')

-- What may still be admitted before the time `stop`.
unfoldable pub room : ℕ → ByteRateLimiter → ℕ
room stop l =
    (l.limit_per_sec - l.bytes_in_window)
    + (if leb stop (l.window_start + second) then 0 else l.limit_per_sec)

-- the bytes of a call that was answered
abbrev pub admitted : ℕ → Bool → ℕ
admitted n true = n
admitted n false = 0

-- A call at a time within the last second before `stop` takes what it admits out of the room.
pub allow-room :
    (stop now n : ℕ) (l : ByteRateLimiter)
    → now < stop
    → stop ≤ now + second
    → l.bytes_in_window + n < 2 ^ 64
    → admitted n (allow now n l).0 + room stop (allow now n l).1 ≤ room stop l
unfolding allow room
allow-room stop now n l early late fits = ground (
  arith,
  mod-eq_of_lt {n = l.bytes_in_window + n} {m = 2 ^ 64},
  mod-eq_of_lt {n = n} {m = 2 ^ 64},
)

pub room-le : (stop : ℕ) (l : ByteRateLimiter) → room stop l ≤ 2 * l.limit_per_sec
unfolding room
room-le stop l = ground arith

pub allow-limit :
    (now n : ℕ) (l : ByteRateLimiter) → (allow now n l).1.limit_per_sec ≡ l.limit_per_sec
unfolding allow
allow-limit now n l = ground arith

pub allow-bytes :
    (now n : ℕ) (l : ByteRateLimiter)
    → l.bytes_in_window + n < 2 ^ 64
    → (allow now n l).1.bytes_in_window ≤ l.bytes_in_window + n
unfolding allow
allow-bytes now n l fits = ground (
  arith,
  mod-eq_of_lt {n = l.bytes_in_window + n} {m = 2 ^ 64},
  mod-eq_of_lt {n = n} {m = 2 ^ 64},
)
