-- ===== src/Limiter.antt =====
-- The login rate limiter of server/internal/httpapi/auth.go.
pub mod Blocks
use openwrt_rmm.Base.{
  ℕ, ◌+◌, String, Bool, true, false, not, ◌||◌, Option, none, some, List, [], ◌∷◌, length,
  delete_where, find_where, ltb, if◌then◌else◌, ◌==◌,
}

-- loginAttempt, under its key
pub record LoginAttempt : Type 0 where
  pub key : String
  pub count : ℕ
  pub reset_time : ℕ

pub record LoginRateLimiter : Type 0 where
  pub limit : ℕ
  pub window : ℕ
  pub attempts : List LoginAttempt

abbrev pub has_key : String → LoginAttempt → Bool
has_key key a = a.key == key

-- now.After(resetTime)
abbrev pub is_over : ℕ → LoginAttempt → Bool
is_over now a = ltb a.reset_time now

abbrev pub with_attempts : List LoginAttempt → LoginRateLimiter → LoginRateLimiter
with_attempts as' l = record l { attempts = as' }

allow_attempt : ℕ → String → LoginRateLimiter → Option LoginAttempt → Bool × LoginRateLimiter
allow_attempt now key l none = (true, l)
allow_attempt now key l (some a) =
    if is_over now a
    then (true, with_attempts (delete_where (has_key key) l.attempts) l)
    else (ltb a.count l.limit, l)

-- Allow
unfoldable pub allow : ℕ → String → LoginRateLimiter → Bool × LoginRateLimiter
unfolding allow_attempt
allow now key l = allow_attempt now key l (find_where (has_key key) l.attempts)

failed_attempt : ℕ → String → ℕ → Option LoginAttempt → LoginAttempt
failed_attempt now key window none = record { key = key; count = 1; reset_time = now + window }
failed_attempt now key window (some a) =
    if is_over now a
    then record { key = key; count = 1; reset_time = now + window }
    else record { key = key; count = a.count + 1; reset_time = a.reset_time }

set_attempt : LoginAttempt → List LoginAttempt → List LoginAttempt
set_attempt a [] = a ∷ []
set_attempt a (x ∷ xs) = let rest = set_attempt a xs in if x.key == a.key then a ∷ xs else x ∷ rest

-- A table of more than 1024 keys is swept.
sweep : ℕ → List LoginAttempt → List LoginAttempt
sweep now xs = if ltb 1024 (length xs) then delete_where (is_over now) xs else xs

-- Fail
unfoldable pub fail : ℕ → String → LoginRateLimiter → LoginRateLimiter
unfolding failed_attempt set_attempt sweep
fail now key l =
    let swept = sweep now l.attempts in
    with_attempts
      (set_attempt (failed_attempt now key l.window (find_where (has_key key) swept)) swept) l

-- Success
unfoldable pub succeed : String → LoginRateLimiter → LoginRateLimiter
succeed key l = with_attempts (delete_where (has_key key) l.attempts) l
