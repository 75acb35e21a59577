-- ===== src/Limiter/Blocks.antt =====
-- When the login rate limiter refuses, server/internal/httpapi/auth.go.
use openwrt_rmm.Base.{
  ℕ, suc, ◌+◌, ◌≤◌, String, ◌≡◌, refl, ap, inl, inr, Bool, false, none, some, List, [], ◌∷◌, arith,
  All, length, delete_where, find_where, ltb, eq_iff, Bool-cases,
}
use openwrt_rmm.Limiter.{
  LoginAttempt, LoginRateLimiter, has_key, is_over, allow, allow_attempt, fail, failed_attempt,
  set_attempt, sweep,
}

find_where-delete_where :
    (p q : LoginAttempt → Bool) (xs : List LoginAttempt) (a : LoginAttempt)
    → find_where p xs ≡ some a
    → q a ≡ false
    → find_where p (delete_where q xs) ≡ some a
find_where-delete_where p q [] a h n = cc
find_where-delete_where p q (x ∷ xs) a h n = elim (Bool-cases (p x)) [
  | inl t ↦
      let same : x ≡ a = ground arith in
      let kept : q x ≡ false = rw same n in rw (kept, t) (ap some same)
  | inr f ↦ elim (Bool-cases (q x)) [
    | inl d ↦ rw d (find_where-delete_where p q xs a (ground arith) n)
    | inr k ↦ rw (k, f) (find_where-delete_where p q xs a (ground arith) n)
  ]
]

find_where-delete_where-none :
    (p q : LoginAttempt → Bool) (xs : List LoginAttempt)
    → find_where p xs ≡ none
    → find_where p (delete_where q xs) ≡ none
find_where-delete_where-none p q [] h = refl
find_where-delete_where-none p q (x ∷ xs) h = ground (arith, find_where-delete_where-none p q xs)

find_where-set_attempt :
    (key : String) (a : LoginAttempt) (xs : List LoginAttempt)
    → a.key ≡ key
    → find_where (has_key key) (set_attempt a xs) ≡ some a
unfolding set_attempt
find_where-set_attempt key a [] e = ground (arith, eq_iff a.key key)
find_where-set_attempt key a (x ∷ xs) e = ground (
  arith,
  eq_iff a.key key,
  eq_iff x.key a.key,
  eq_iff x.key key,
  find_where-set_attempt key a xs e,
)

find_where-sweep :
    (now : ℕ) (key : String) (xs : List LoginAttempt) (a : LoginAttempt)
    → find_where (has_key key) xs ≡ some a
    → is_over now a ≡ false
    → find_where (has_key key) (sweep now xs) ≡ some a
unfolding sweep
find_where-sweep now key xs a h n = elim (Bool-cases (ltb 1024 (length xs))) [
  | inl t ↦ rw t (find_where-delete_where (has_key key) (is_over now) xs a h n)
  | inr f ↦ rw f h
]

find_where-sweep-none :
    (now : ℕ) (key : String) (xs : List LoginAttempt)
    → find_where (has_key key) xs ≡ none
    → find_where (has_key key) (sweep now xs) ≡ none
unfolding sweep
find_where-sweep-none now key xs h = elim (Bool-cases (ltb 1024 (length xs))) [
  | inl t ↦ rw t (find_where-delete_where-none (has_key key) (is_over now) xs h)
  | inr f ↦ rw f h
]

-- The failures of one key at the given times, the first of them first.
unfoldable pub fail_all : String → List ℕ → LoginRateLimiter → LoginRateLimiter
fail_all key [] l = l
fail_all key (t ∷ ts) l = fail_all key ts (fail t key l)

fail_first :
    (t : ℕ) (key : String) (l : LoginRateLimiter)
    → find_where (has_key key) l.attempts ≡ none
    → find_where (has_key key) (fail t key l).attempts
      ≡ some (record { key = key; count = 1; reset_time = t + l.window })
unfolding fail failed_attempt
fail_first t key l h =
    rw (find_where-sweep-none t key l.attempts h)
      (find_where-set_attempt key _ (sweep t l.attempts) refl)

fail_again :
    (t : ℕ) (key : String) (l : LoginRateLimiter) (n reset : ℕ)
    → find_where (has_key key) l.attempts
      ≡ some (record { key = key; count = n; reset_time = reset })
    → t ≤ reset
    → find_where (has_key key) (fail t key l).attempts
      ≡ some (record { key = key; count = n + 1; reset_time = reset })
unfolding fail failed_attempt
fail_again t key l n reset h le =
    let in_time : ltb reset t ≡ false = ground arith in
    rw (find_where-sweep t key l.attempts _ h in_time, in_time)
      (find_where-set_attempt key _ (sweep t l.attempts) refl)

fail_all-count :
    (key : String) (ts : List ℕ) (l : LoginRateLimiter) (n reset m : ℕ)
    → find_where (has_key key) l.attempts
      ≡ some (record { key = key; count = n; reset_time = reset })
    → All (λ t. t ≤ reset) ts
    → m ≡ n + length ts
    → find_where (has_key key) (fail_all key ts l).attempts
      ≡ some (record { key = key; count = m; reset_time = reset })
unfolding fail_all
fail_all-count key [] l n reset m h le e = let same : m ≡ n = omega (arith, e) in rw same h
fail_all-count key (t ∷ ts) l n reset m h le e =
    fail_all-count key ts (fail t key l) (n + 1) reset m (fail_again t key l n reset h le.0) le.1
      (omega (arith, e))

limit-fail : (t : ℕ) (key : String) (l : LoginRateLimiter) → (fail t key l).limit ≡ l.limit
unfolding fail
limit-fail t key l = refl

limit-fail_all :
    (key : String) (ts : List ℕ) (l : LoginRateLimiter) → (fail_all key ts l).limit ≡ l.limit
unfolding fail_all fail
limit-fail_all key [] l = refl
limit-fail_all key (t ∷ ts) l = limit-fail_all key ts (fail t key l)

-- When a key without failures fails at some times, all within the window that the first failure
-- opens, then up to the end of that window it is let through exactly while the failures are fewer
-- than the limit, and asking changes nothing.
pub allow-fail_all :
    (key : String) (t : ℕ) (ts : List ℕ) (now : ℕ) (l : LoginRateLimiter)
    → find_where (has_key key) l.attempts ≡ none
    → All (λ u. u ≤ t + l.window) ts
    → now ≤ t + l.window
    → allow now key (fail_all key (t ∷ ts) l)
      ≡ (ltb (suc (length ts)) l.limit, fail_all key (t ∷ ts) l)
unfolding allow allow_attempt fail_all
allow-fail_all key t ts now l fresh le last =
    let found =
      fail_all-count key ts (fail t key l) 1 (t + l.window) (suc (length ts))
        (fail_first t key l fresh) le (omega arith) in
    let in_time : ltb (t + l.window) now ≡ false = ground arith in
    rw (found, in_time, limit-fail_all key ts (fail t key l)) (rw (limit-fail t key l) refl)
