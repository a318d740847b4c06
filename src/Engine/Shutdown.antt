-- ===== src/Engine/Shutdown.antt =====
-- crates/workflow_engine/src/engine.rs: `ShutdownSignal`. The clones of a signal and its trigger share
-- one cell of a watch channel, which is given here as the contents that the calls read and write.
use tianshu_rs.Base.{Bool, true, false}

-- `watch::channel(false)`, for `manual` and for `shutdown_signal`
unfoldable pub manual : Bool
manual = false

unfoldable pub is_shutdown_requested : Bool → Bool
is_shutdown_requested cell = cell

-- `shutdown`: `sender.send(true)`
unfoldable pub shutdown : Bool → Bool
shutdown cell = true

-- What happens to the task of `shutdown_signal`: nothing, or SIGINT or SIGTERM arrives.
pub data Arrival : Type 0 where
  quiet ctrl_c sigterm : Arrival

-- the task ends with the first signal
unfoldable pub signalled : Arrival → Bool → Bool
unfolding shutdown
signalled quiet cell = cell
signalled ctrl_c cell = shutdown cell
signalled sigterm cell = shutdown cell
