-- ===== src/Notices/Deliveries/Moves.antt =====
-- The steps that the updates of a row of the queue are, server/internal/store/notifications.go.
use openwrt_rmm.Base.{◌<◌, ℕ, suc, ◌+◌, ◌-◌, String, ◌≡◌, refl, true, Option, none, some, arith}
use openwrt_rmm.Notices.Deliveries.{
  Delivery, DeliveryStatus, queued, retry, sending, sent, dead_letter, failed, is_sending, lapsed,
  exhausted, bury, claimable, take_up, completes, completed_row,
}
use openwrt_rmm.Notices.Deliveries.Phases.{
  Phase, claiming, reporting, Step, taken, over, begin, begin_again, finish, put_back, give_up,
  give_up_taken, phase_of, phase_for,
}

pub bury-Step :
    (now until : ℕ) (r : Delivery)
    → exhausted now r ≡ true
    → Step now (claiming until) (phase_of r) (phase_of (bury now r))
unfolding phase_of phase_for
bury-Step now until r h = go r.status refl
  where
    go : (s : DeliveryStatus) → r.status ≡ s → Step now (claiming until) (phase_of r) over
    go retry e = rw e (give_up (ground (arith, rw e at h)))
    go sending e = rw e (give_up_taken (ground (arith, rw e at h)) (ground (arith, rw e at h)))
    go queued e = ground (arith, rw e at h)
    go sent e = ground (arith, rw e at h)
    go dead_letter e = ground (arith, rw e at h)
    go failed e = ground (arith, rw e at h)

pub take_up-Step :
    (now lease : ℕ) (r : Delivery)
    → now < lease
    → claimable now r ≡ true
    → Step now (claiming lease) (phase_of r) (phase_of (take_up now lease r))
unfolding phase_of phase_for
take_up-Step now lease r le h = go r.status refl
  where
    next : Phase
    next = taken (r.max_attempts - (r.attempt_count + 1)) (some lease)

    lapse :
        (t : Option ℕ)
        → lapsed t now ≡ true
        → r.max_attempts - r.attempt_count ≡ suc (r.max_attempts - (r.attempt_count + 1))
        → Step now (claiming lease) (taken (r.max_attempts - r.attempt_count) t) next
    lapse none k e = ground arith
    lapse (some t) k e = begin_again e (ground (arith, k)) le

    go : (s : DeliveryStatus) → r.status ≡ s → Step now (claiming lease) (phase_of r) next
    go queued e = rw e (begin (ground (arith, rw e at h)) (ground (arith, rw e at h)) le)
    go retry e = rw e (begin (ground (arith, rw e at h)) (ground (arith, rw e at h)) le)
    go sending e =
        rw e (lapse r.lease_expires_at (ground (arith, rw e at h)) (ground (arith, rw e at h)))
    go sent e = ground (arith, rw e at h)
    go dead_letter e = ground (arith, rw e at h)
    go failed e = ground (arith, rw e at h)

pub completed_row-Step :
    (now : ℕ) (status : DeliveryStatus) (error : String) (next : Option ℕ) (r : Delivery)
    → completes status ≡ true
    → is_sending r.status ≡ true
    → Step now
        (reporting status next)
        (phase_of r)
        (phase_of (completed_row now status error next r))
unfolding phase_of phase_for
completed_row-Step now status error next r ok' h = go r.status refl status ok'
  where
    go :
        (s : DeliveryStatus)
        → r.status ≡ s
        → (status : DeliveryStatus) → completes status ≡ true
        → Step now (reporting status next) (phase_of r) (
            phase_for status
              (r.max_attempts - r.attempt_count)
              (elim status [ sent ↦ none | _ ↦ next ])
              none)
    go sending e sent k = rw e (finish refl)
    go sending e dead_letter k = rw e (finish refl)
    go sending e retry k = rw e put_back
    go sending e queued k = ground arith
    go sending e sending k = ground arith
    go sending e failed k = ground arith
    go queued e status k = ground (arith, rw e at h)
    go retry e status k = ground (arith, rw e at h)
    go sent e status k = ground (arith, rw e at h)
    go dead_letter e status k = ground (arith, rw e at h)
    go failed e status k = ground (arith, rw e at h)
