-- ===== src/Daemon/Fleet/Phases.antt =====
-- A phase from its test.
use kata_operator.Base.{◌≡◌, refl, true, ◌||◌, ◌⊎◌, inl, inr}
use kata_operator.Daemon.Fleet.{
  Phase, idle, running, ready, complete, failed, is_idle, is_running, is_ready, is_failed,
}

pub phase-idle : (p : Phase) → is_idle p ≡ true → p ≡ idle
phase-idle idle h = refl
phase-idle running h = cc
phase-idle ready h = cc
phase-idle complete h = cc
phase-idle failed h = cc

pub phase-running : (p : Phase) → is_running p ≡ true → p ≡ running
phase-running idle h = cc
phase-running running h = refl
phase-running ready h = cc
phase-running complete h = cc
phase-running failed h = cc

pub phase-ready : (p : Phase) → is_ready p ≡ true → p ≡ ready
phase-ready idle h = cc
phase-ready running h = cc
phase-ready ready h = refl
phase-ready complete h = cc
phase-ready failed h = cc

pub phase-failed : (p : Phase) → is_failed p ≡ true → p ≡ failed
phase-failed idle h = cc
phase-failed running h = cc
phase-failed ready h = cc
phase-failed complete h = cc
phase-failed failed h = refl

-- what a restart finds
pub restarts : (p : Phase) → (is_running p || is_failed p) ≡ true → (p ≡ running) ⊎ (p ≡ failed)
restarts idle h = cc
restarts running h = inl refl
restarts ready h = cc
restarts complete h = cc
restarts failed h = inr refl
