-- ===== src/Rollouts.antt =====
-- The staged agent updates: agent_rollouts, agent_rollout_devices and management_rollout_guards,
-- server/internal/store/rollout_waves.go and sqlite.go.
pub mod Pause
pub mod Guard
pub mod Batch
pub mod Report
pub mod Status
