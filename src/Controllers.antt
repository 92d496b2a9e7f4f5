-- ===== src/Controllers.antt =====
-- pkg/controllers: the reconcilers of the two kinds of objects. What is shared here is the part of the
-- controller runtime's types that they use.
pub mod Policy
pub mod Config
pub mod Trigger
use dra_driver_ovsdpdk_upstr.Base.{ℕ, String}

-- `ctrl.Request`
pub record Request : Type 0 where
  pub name : String
  pub namespace : String

-- `ctrl.Result`, with the delay in seconds
pub record ReconcileResult : Type 0 where
  pub requeue_after : ℕ

-- `ctrl.Result{}`
abbrev pub done : ReconcileResult
done = record { requeue_after = 0 }
