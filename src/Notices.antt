-- ===== src/Notices.antt =====
-- The times of notifications, server/internal/httpapi/notifications.go.
pub mod Times
pub mod Deliveries
use openwrt_rmm.Base.{
  ℕ, zero, suc, ◌+◌, ◌-◌, ◌*◌, String, Bool, true, false, not, ◌&&◌, ◌||◌, Option, none, some, leb,
  ltb, eqb, if◌then◌else◌, ◌==◌,
}

-- notificationRetryDelay, in seconds: the loop doubles while the attempt is not reached and the
-- delay is below half an hour.
retry_loop : ℕ → ℕ → ℕ
retry_loop zero delay = delay
retry_loop (suc n) delay = retry_loop n (if ltb delay 1800 then delay * 2 else delay)

unfoldable pub notification_retry_delay : ℕ → ℕ
unfolding retry_loop
notification_retry_delay attempt =
    let delay = retry_loop (attempt - 1) 30 in if ltb 1800 delay then 1800 else delay

-- model.NotificationSettings, with the times as package time reads them: the local minute of the
-- day that an instant has in the time zone, and the parsed "15:04" texts.
pub record NotificationSettings : Type 0 where
  pub alerts_paused_until : Option ℕ
  pub quiet_hours_enabled : Bool
  pub local_minute : Option (ℕ → ℕ)
  pub quiet_hours_start : Option ℕ
  pub quiet_hours_end : Option ℕ

abbrev pub paused : Option ℕ → ℕ → Bool
paused none now = false
paused (some t) now = ltb now t

unfoldable pub in_quiet_hours : ℕ → ℕ → ℕ → Bool
in_quiet_hours minute start end =
    if eqb start end
    then true
    else if ltb start end
    then leb start minute && ltb minute end
    else leb start minute || ltb minute end

quiet_at : Option (ℕ → ℕ) → Option ℕ → Option ℕ → ℕ → Bool
quiet_at (some local) (some start) (some end) now = in_quiet_hours (local now) start end
quiet_at _ _ _ now = false

-- notificationQuietNow
unfoldable pub notification_quiet_now : NotificationSettings → ℕ → Bool
unfolding quiet_at
notification_quiet_now s now =
    paused s.alerts_paused_until now
    || (s.quiet_hours_enabled && quiet_at s.local_minute s.quiet_hours_start s.quiet_hours_end now)

-- model.DeviceNotificationSettings
pub record DeviceNotificationSettings : Type 0 where
  pub enabled : Bool
  pub paused_until : Option ℕ
  pub notify_resolved : Bool
  pub notify_critical : Bool
  pub notify_warning : Bool

-- deviceNotificationEnabled
unfoldable pub device_notification_enabled : DeviceNotificationSettings → String → String → ℕ → Bool
device_notification_enabled s severity event now =
    if not s.enabled || paused s.paused_until now
    then false
    else if event == "resolved"
    then s.notify_resolved
    else if severity == "critical"
    then s.notify_critical
    else s.notify_warning
