-- ===== src/Time.antt =====
-- The `time` crate and the platform clock, which are not part of the repository: what the code
-- calls, with the documented behaviour that it relies on. An instant is the number of nanoseconds
-- since the Unix epoch, a `std::time::Duration` a number of nanoseconds.
use opensaml_rs.Prelude.{ℕ, ◌+◌, ◌*◌, ◌≡◌, Option, none, some, Text, ltb, if◌then◌else◌}
use opensaml_rs.Prelude.Int.{ℤ, pos, negsuc, ◌+ℤ◌, ◌-ℤ◌}

pub record TimeCrate : Type 0 where
  -- `OffsetDateTime::parse(value, &Rfc3339)`
  pub parse_rfc3339 : Text → Option ℤ
  -- `time::Duration::try_from(std::time::Duration)`
  pub duration_try_from : ℕ → Option ℕ
  -- `OffsetDateTime::checked_add` and `checked_sub`, `none` out of the supported range.
  pub checked_add : ℤ → ℤ → Option ℤ
  pub checked_sub : ℤ → ℤ → Option ℤ
  -- `SystemTime::checked_add` and `checked_sub` of the platform.
  pub system_checked_add : ℤ → ℕ → Option ℤ
  pub system_checked_sub : ℤ → ℕ → Option ℤ
  -- A result is the exact one.
  pub duration_try_from_exact : (n : ℕ) {m : ℕ} → duration_try_from n ≡ some m → m ≡ n
  pub checked_add_exact : (t d : ℤ) {u : ℤ} → checked_add t d ≡ some u → u ≡ t +ℤ d
  pub checked_sub_exact : (t d : ℤ) {u : ℤ} → checked_sub t d ≡ some u → u ≡ t -ℤ d
  pub system_checked_add_exact :
      (t : ℤ) (d : ℕ) {u : ℤ} → system_checked_add t d ≡ some u → u ≡ t +ℤ pos d
  pub system_checked_sub_exact :
      (t : ℤ) (d : ℕ) {u : ℤ} → system_checked_sub t d ≡ some u → u ≡ t -ℤ pos d

-- `Duration::milliseconds(i64)`, which cannot overflow.
abbrev pub milliseconds : ℤ → ℤ
milliseconds (pos n) = pos (n * 1000000)
milliseconds (negsuc n) = negsuc (n * 1000000 + 999999)

-- `std::time::Duration::from_millis(u64)`
abbrev pub from_millis : ℕ → ℕ
from_millis n = n * 1000000

-- `std::time::Duration::checked_add`: whole seconds are a `u64`.
abbrev pub duration_checked_add : ℕ → ℕ → Option ℕ
duration_checked_add a b =
    if ltb (a + b) (18446744073709551616 * 1000000000) then some (a + b) else none

-- A clock of unlimited range that reads one text as an instant: the assumptions can be met.
pub some_exact : (t d : ℤ) {u : ℤ} → some (t +ℤ d) ≡ some u → u ≡ t +ℤ d
some_exact t d h = cc

pub some_exact_sub : (t d : ℤ) {u : ℤ} → some (t -ℤ d) ≡ some u → u ≡ t -ℤ d
some_exact_sub t d h = cc

pub some_exact_ℕ : (n : ℕ) {m : ℕ} → some n ≡ some m → m ≡ n
some_exact_ℕ n h = cc

abbrev pub unlimited : (Text → Option ℤ) → TimeCrate
unlimited parse = record {
  parse_rfc3339 = parse;
  duration_try_from = λ n. some n;
  checked_add = λ t d. some (t +ℤ d);
  checked_sub = λ t d. some (t -ℤ d);
  system_checked_add = λ t d. some (t +ℤ pos d);
  system_checked_sub = λ t d. some (t -ℤ pos d);
  duration_try_from_exact = λ n e. some_exact_ℕ n e;
  checked_add_exact = λ t d e. some_exact t d e;
  checked_sub_exact = λ t d e. some_exact_sub t d e;
  system_checked_add_exact = λ t d e. some_exact t (pos d) e;
  system_checked_sub_exact = λ t d e. some_exact_sub t (pos d) e;
}
