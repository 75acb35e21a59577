-- ===== src/Notices/Deliveries/Phases.antt =====
-- What the queue of notifications promises of one of them: a machine of phases that the operations
-- of server/internal/store/notifications.go refine.
use openwrt_rmm.Base.{ℕ, suc, ◌+◌, ◌-◌, ◌≤◌, ◌<◌, ◌≡◌, true, Option, some, arith}
use openwrt_rmm.Notices.Deliveries.{
  Delivery, DeliveryStatus, queued, retry, sending, free_by, is_over,
}

-- With `left` attempts to come: waiting for an instant, or taken up until an instant; or over.
pub data Phase : Type 0 where
  waiting : (left : ℕ) (due : Option ℕ) → Phase
  taken : (left : ℕ) (until : Option ℕ) → Phase
  over : Phase

-- Who acts: a worker that claims, with a lease until an instant, or one that reports the status of
-- its attempt and when the next is due.
pub data Act : Type 0 where
  claiming : (until : ℕ) → Act
  reporting : DeliveryStatus → (next : Option ℕ) → Act

-- What an act may do at the time `now`. Only a claim begins an attempt, on a notification that is
-- due or whose lease has lapsed, and only with an attempt left; only a claim gives up, with no
-- attempt left and no lease that runs. Only a report ends an attempt: for good, or until the next.
pub data Step (now : ℕ) : Act → Phase → Phase → Type 0 where
  begin :
      {n m : ℕ} {due : Option ℕ} {until : ℕ}
      → n ≡ suc m
      → free_by due now ≡ true
      → now < until
      → Step now (claiming until) (waiting n due) (taken m (some until))
  begin_again :
      {n m : ℕ} {t until : ℕ}
      → n ≡ suc m
      → t ≤ now
      → now < until
      → Step now (claiming until) (taken n (some t)) (taken m (some until))
  give_up :
      {n : ℕ} {due : Option ℕ} {until : ℕ} → n ≡ 0 → Step now (claiming until) (waiting n due) over
  give_up_taken :
      {n : ℕ} {t : Option ℕ} {until : ℕ}
      → n ≡ 0
      → free_by t now ≡ true
      → Step now (claiming until) (taken n t) over
  finish :
      {n : ℕ} {t next : Option ℕ} {status : DeliveryStatus}
      → is_over status ≡ true
      → Step now (reporting status next) (taken n t) over
  put_back :
      {n : ℕ} {t next : Option ℕ} → Step now (reporting retry next) (taken n t) (waiting n next)

-- The steps of one act. A lease is in the future, so that a claim begins one attempt at most.
pub data Steps (now : ℕ) (a : Act) : Phase → Phase → Type 0 where
  here : {p : Phase} → Steps now a p p
  step : {p q r : Phase} → Step now a p q → Steps now a q r → Steps now a p r

unfoldable pub phase_for : DeliveryStatus → ℕ → Option ℕ → Option ℕ → Phase
phase_for queued left due t = waiting left due
phase_for retry left due t = waiting left due
phase_for sending left due t = taken left t
phase_for _ left due t = over

-- The phase of a row.
unfoldable pub phase_of : Delivery → Phase
unfolding phase_for
phase_of d =
    phase_for d.status (d.max_attempts - d.attempt_count) d.next_attempt_at d.lease_expires_at

begins : {now : ℕ} {a : Act} {p q : Phase} → Step now a p q → ℕ
begins (begin e d u) = 1
begins (begin_again e t u) = 1
begins _ = 0

-- How many attempts the steps begin.
unfoldable pub attempts : {now : ℕ} {a : Act} {p q : Phase} → Steps now a p q → ℕ
unfolding begins
attempts here = 0
attempts (step s j) = begins s + attempts j

abbrev pub left_of : Phase → ℕ
left_of (waiting n due) = n
left_of (taken n t) = n
left_of over = 0

begins-left :
    {now : ℕ} {a : Act} {p q : Phase} (s : Step now a p q) → begins s + left_of q ≤ left_of p
unfolding begins
begins-left (begin e d u) = omega (arith, e)
begins-left (begin_again e t u) = omega (arith, e)
begins-left (finish e) = omega arith
begins-left put_back = omega arith
begins-left (give_up e) = omega arith
begins-left (give_up_taken e f) = omega arith

-- Steps begin no more attempts than there are left.
pub attempts-left :
    {now : ℕ} {a : Act} {p q : Phase} (j : Steps now a p q) → attempts j + left_of q ≤ left_of p
unfolding attempts
attempts-left here = omega arith
attempts-left (step s j) = omega (arith, begins-left s, attempts-left j)
