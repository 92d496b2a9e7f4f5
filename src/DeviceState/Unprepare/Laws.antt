-- ===== src/DeviceState/Unprepare/Laws.antt =====
-- Clean-up tries everything: the world that it leaves and the error that it returns.
use dra_driver_ovsdpdk_upstr.Base.{
  String, ◌≡◌, refl, ◌≢◌, ◌↔◌, inl, inr, true, Option, none, some, List, [], ◌∷◌, ◌++◌, Result, ok,
  err, panic, Error, Result-cases, error_of, of_error, join_errors, join_error, is_port_not_found,
  Exec, arith,
}
use dra_driver_ovsdpdk_upstr.Api.{PreparedDevice}
use dra_driver_ovsdpdk_upstr.Backend.{Backend, attempt}
use dra_driver_ovsdpdk_upstr.DeviceState.Unprepare.{
  port_errors, dir_errors, wrapped, unprepare_device, unprepare_each, rollback,
  unprepare_resource_claim,
}

-- The calls of the clean-up end without a run-time panic.
pub record NeverPanics {W : Type 0} (b : Backend W) : Type 0 where
  pub remove_dir : (path : String) (w : W) → (b.remove_socket_dir path w).0 ≢ panic
  pub delete_port : (bridge port : String) (w : W) → (b.delete_port bridge port w).0 ≢ panic
  pub delete_spec : (uid : String) (w : W) → (b.delete_claim_spec_file uid w).0 ≢ panic

pub attempt_lem :
    {W : Type 0} (m : Exec W (Unit {0})) (w : W)
    → (m w).0 ≢ panic
    → attempt m w ≡ (ok (error_of (m w).0), (m w).1)
unfolding attempt
attempt_lem m w h = elim (Result-cases (m w).0) [
  | inl (a, e) ↦ ground (arith, e)
  | inr (inl (x, e)) ↦ ground (arith, e)
  | inr (inr e) ↦ absurd (h e)
]

pub attempt_ok :
    {W : Type 0} (m : Exec W (Unit {0})) (w : W) {a : Unit {0}}
    → (m w).0 ≡ ok a
    → attempt m w ≡ (ok none, (m w).1)
unfolding attempt
attempt_ok m w e = rw e

pub attempt_err :
    {W : Type 0} (m : Exec W (Unit {0})) (w : W) {x : Error}
    → (m w).0 ≡ err x
    → attempt m w ≡ (ok (some x), (m w).1)
unfolding attempt
attempt_err m w e = rw e

pub attempt_panic :
    {W : Type 0} (m : Exec W (Unit {0})) (w : W) → (m w).0 ≡ panic → attempt m w ≡ (panic, (m w).1)
unfolding attempt
attempt_panic m w e = rw e

module _ {W : Type 0} (b : Backend W) where
  -- The worlds after each step of the clean-up of a device.
  abbrev pub without_spec : PreparedDevice → W → W
  without_spec pd w = (b.delete_claim_spec_file pd.claim.uid w).1

  abbrev pub without_port : PreparedDevice → W → W
  without_port pd w = (b.delete_port pd.bridge_name pd.ovs_port_name (without_spec pd w)).1

  abbrev pub without_device : PreparedDevice → W → W
  without_device pd w = (b.remove_socket_dir pd.mount.host_dir (without_port pd w)).1

  unfoldable pub without_devices : List PreparedDevice → W → W
  without_devices [] w = w
  without_devices (pd ∷ pds) w = without_devices pds (without_device pd w)

  abbrev port_result : PreparedDevice → W → Result (Unit {0})
  port_result pd w = (b.delete_port pd.bridge_name pd.ovs_port_name (without_spec pd w)).0

  abbrev dir_result : PreparedDevice → W → Result (Unit {0})
  dir_result pd w = (b.remove_socket_dir pd.mount.host_dir (without_port pd w)).0

module _ {W : Type 0} (b : Backend W) (safe : NeverPanics b) where
  unprepare_device_lem :
      (pd : PreparedDevice) (w : W)
      → unprepare_device b pd w ≡ (
        of_error (
            join_errors (
              port_errors (error_of (port_result b pd w))
              ++ dir_errors (error_of (dir_result b pd w)))),
        without_device b pd w,
      )
  unfolding unprepare_device
  unprepare_device_lem pd w = rw (
    attempt_lem (b.delete_claim_spec_file pd.claim.uid) w (safe.delete_spec _ _),
    attempt_lem (b.delete_port pd.bridge_name pd.ovs_port_name) (without_spec b pd w)
        (safe.delete_port _ _ _),
    attempt_lem (b.remove_socket_dir pd.mount.host_dir) (without_port b pd w) (safe.remove_dir _ _),
  )

  -- The port is gone: the deletion succeeded, or the port was not found.
  abbrev pub IsGone : Result (Unit {0}) → Type 0
  IsGone (ok _) = Unit
  IsGone (err e) = is_port_not_found e ≡ true
  IsGone panic = ⊥

  abbrev pub IsClean : PreparedDevice → W → Type 0
  IsClean pd w = IsGone (port_result b pd w) × (dir_result b pd w ≡ ok tt)

  pub AreClean : List PreparedDevice → W → Type 0
  AreClean [] w = Unit
  AreClean (pd ∷ pds) w = IsClean pd w × AreClean pds (without_device b pd w)

  -- The error list is empty exactly after a clean removal.
  errors_iff :
      (p r : Result (Unit {0}))
      → p ≢ panic
      → r ≢ panic
      → (of_error (join_errors (port_errors (error_of p) ++ dir_errors (error_of r))) ≡ ok tt)
        ↔ (IsGone p × (r ≡ ok tt))
  unfolding join_errors port_errors dir_errors
  errors_iff (ok _) (ok _) hp hr = (λ _. (tt, refl), λ _. refl)
  errors_iff (ok _) (err e) hp hr = (λ h. cc, λ h. cc)
  errors_iff (err e) (ok _) hp hr = (λ h. (ground arith, refl), λ h. ground arith)
  errors_iff (err e) (err f) hp hr = (λ h. absurd (ground arith), λ h. cc)
  errors_iff panic r hp hr = absurd (hp refl)
  errors_iff p panic hp hr = absurd (hr refl)

  device-IsClean :
      (pd : PreparedDevice) (w : W) → ((unprepare_device b pd w).0 ≡ ok tt) ↔ IsClean pd w
  device-IsClean pd w = rw (unprepare_device_lem pd w) (
      errors_iff (port_result b pd w) (dir_result b pd w) (safe.delete_port _ _ _)
        (safe.remove_dir _ _))

  device-ne-panic : (pd : PreparedDevice) (w : W) → (unprepare_device b pd w).0 ≢ panic
  device-ne-panic pd w = rw (unprepare_device_lem pd w) (of_error-ne-panic _)
    where
      of_error-ne-panic : (o : Option Error) → of_error o ≢ panic
      of_error-ne-panic none = λ h. cc
      of_error-ne-panic (some e) = λ h. cc

  -- The errors of a clean-up of several devices, in order.
  pub clean_up_errors : String → List PreparedDevice → W → List Error
  clean_up_errors text [] w = []
  clean_up_errors text (pd ∷ pds) w =
      wrapped text (error_of (unprepare_device b pd w).0)
      ++ clean_up_errors text pds (without_device b pd w)

  pub unprepare_each_lem :
      (text : String) (pds : List PreparedDevice) (w : W)
      → unprepare_each b text pds w ≡ (ok (clean_up_errors text pds w), without_devices b pds w)
  unfolding unprepare_each without_devices clean_up_errors
  unprepare_each_lem text [] w = refl
  unprepare_each_lem text (pd ∷ pds) w = rw (
    attempt_lem (unprepare_device b pd) w (device-ne-panic pd w),
    unprepare_device_lem pd w,
    unprepare_each_lem text pds (without_device b pd w),
  )

  no_errors_iff :
      (text : String) (pds : List PreparedDevice) (w : W)
      → (clean_up_errors text pds w ≡ []) ↔ AreClean pds w
  unfolding clean_up_errors AreClean wrapped
  no_errors_iff text [] w = (λ _. tt, λ _. refl)
  no_errors_iff text (pd ∷ pds) w = elim (Result-cases (unprepare_device b pd w).0) [
    | inl (t, e) ↦
        rw (e, clean_up_errors)
          (
            λ h. ((device-IsClean pd w).0 e, (no_errors_iff text pds _).0 h),
            λ a. (no_errors_iff text pds _).1 a.1,
          )
    | inr (inl (x, e)) ↦ rw (e, clean_up_errors) (λ h. cc, λ a. cc (e, (device-IsClean pd w).1 a.0))
    | inr (inr e) ↦ absurd (device-ne-panic pd w e)
  ]

  -- Where the calls do not panic, `UnprepareResourceClaim` deletes the CDI spec, the port and the socket
  -- directory of each device, one after the other, whatever fails on the way; and it returns no error
  -- exactly if for each device the port was deleted or not found, and the directory was removed. (A CDI
  -- spec that is left is no error.)
  pub unprepare_resource_claim_lem :
      (pds : List PreparedDevice) (w : W)
      → ((unprepare_resource_claim b pds w).1 ≡ without_devices b pds w)
        × (((unprepare_resource_claim b pds w).0 ≡ ok tt) ↔ AreClean pds w)
  unfolding unprepare_resource_claim join_errors
  unprepare_resource_claim_lem pds w =
      rw (unprepare_each_lem "unprepare failed: %w" pds w) (
        refl,
        (λ h. (no_errors_iff _ pds w).0 (join_nil _ h), λ a. rw ((no_errors_iff _ pds w).1 a)),
      )
    where
      join_nil : (es : List Error) → of_error (join_errors es) ≡ ok tt → es ≡ []
      join_nil [] h = refl
      join_nil (e ∷ es) h = cc

  -- Where the calls do not panic, a rollback cleans up all devices too, and its error joins the first
  -- one and those of the clean-up.
  pub rollback_lem :
      {A : Type 0} (e : Error) (pds : List PreparedDevice) (w : W)
      → rollback b {A = A} e pds w ≡ (
        err (join_error e (clean_up_errors "rollback unprepare failed: %w" pds w)),
        without_devices b pds w,
      )
  unfolding rollback
  rollback_lem e pds w = rw (unprepare_each_lem "rollback unprepare failed: %w" pds w)
