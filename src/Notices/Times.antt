-- ===== src/Notices/Times.antt =====
-- The retry delays and the quiet hours, server/internal/httpapi/notifications.go.
use Prim.Native.Nat.pow
use openwrt_rmm.Base.{
  ℕ, zero, suc, ◌+◌, ◌-◌, ◌*◌, ◌%◌, ◌^◌, ◌≤◌, ◌<◌, ◌≡◌, refl, sym, ap, ◌∙◌, ◌≢◌, ◌↔◌, inl, inr,
  true, false, arith, ltb, if◌then◌else◌, Bool-cases,
}
use openwrt_rmm.Notices.{retry_loop, notification_retry_delay, in_quiet_hours}

-- The minutes from one minute of the day to another, past midnight if need be.
abbrev pub minutes_until : ℕ → ℕ → ℕ
minutes_until start minute = (minute + 1440 - start) % 1440

-- With different ends within a day, a minute of the day is in the quiet hours exactly when it
-- comes, counted from their start, before their end.
pub in_quiet_hours_iff :
    (minute start end : ℕ)
    → minute < 1440
    → start < 1440
    → end < 1440
    → start ≢ end
    → (in_quiet_hours minute start end ≡ true)
      ↔ (minutes_until start minute < minutes_until start end)
unfolding in_quiet_hours
in_quiet_hours_iff minute start end m s e ne = ground arith

abbrev cap : ℕ → ℕ
cap d = if ltb 1800 d then 1800 else d

doubled : (d n : ℕ) → d * 2 ^ suc n ≡ d * 2 * 2 ^ n
doubled d n = rw (pow.suc 2 n) (swapped d (2 ^ n))
  where
    swapped : (d p : ℕ) → d * (p * 2) ≡ d * 2 * p
    swapped d p = omega arith

pow_positive : (n : ℕ) → 1 ≤ 2 ^ n
pow_positive zero = omega arith
pow_positive (suc n) = rw (pow.suc 2 n) (omega (arith, pow_positive n))

grows : (d p : ℕ) → 1 ≤ p → d ≤ d * p
grows d zero h = omega arith
grows d (suc p) h = omega arith

retry_loop-large : (n d : ℕ) → 1800 ≤ d → retry_loop n d ≡ d
unfolding retry_loop
retry_loop-large zero d h = refl
retry_loop-large (suc n) d h =
    let big : ltb d 1800 ≡ false = ground arith in rw big (retry_loop-large n d h)

cap-large : (d e : ℕ) → 1800 ≤ d → d ≤ e → cap d ≡ cap e
cap-large d e h k = ground arith

retry_loop-cap : (n d : ℕ) → cap (retry_loop n d) ≡ cap (d * 2 ^ n)
unfolding retry_loop
retry_loop-cap zero d = let e : d * 2 ^ 0 ≡ d = omega arith in ap cap (sym e)
retry_loop-cap (suc n) d = elim (Bool-cases (ltb d 1800)) [
  | inl t ↦ rw t (retry_loop-cap n (d * 2) ∙ ap cap (sym (doubled d n)))
  | inr f ↦
      let large : 1800 ≤ d = ground arith in
      rw f (
        ap cap (retry_loop-large n d large)
        ∙ cap-large d (d * 2 ^ suc n) large (grows d (2 ^ suc n) (pow_positive (suc n))))
]

-- The delay that follows the failed attempt of the given number is half a minute, doubled for each
-- attempt after the first, and half an hour at most.
pub notification_retry_delay-doubles :
    (attempt : ℕ)
    → notification_retry_delay attempt
      ≡ (let delay = 30 * 2 ^ (attempt - 1) in if ltb 1800 delay then 1800 else delay)
unfolding notification_retry_delay
notification_retry_delay-doubles attempt = retry_loop-cap (attempt - 1) 30
