-- ===== src/DeviceState/Prepare/Steps.antt =====
-- What each call of the interfaces does to the set of directories and ports.
use dra_driver_ovsdpdk_upstr.Base.{
  String, ◌≡◌, sym, ◌∙◌, subst, ◌⊎◌, inl, inr, Option, is_ok, Bool-cases, List, [], ◌∷◌, err, Error,
  arith,
}
use dra_driver_ovsdpdk_upstr.Api.{PreparedDevice, OvsPortParams, VhostUserSpec}
use dra_driver_ovsdpdk_upstr.Backend.{Backend, is_deleted}
use dra_driver_ovsdpdk_upstr.DeviceState.Unprepare.Laws.{
  without_spec, without_port, without_device, without_devices,
}
use dra_driver_ovsdpdk_upstr.DeviceState.Prepare.View.{
  View, Tracks, Within, DirOf, PortOf, or_settle, or_push, DirCanStay, PortCanStay,
}

module _ {W : Type 0} (b : Backend W) (v : View W) (t : Tracks b v) (start : W) where
  module _ (D : String → Type 0) (P : String → String → Type 0) (w : W) where
    pub create_dir_ok :
        (p : String) (spec : Option VhostUserSpec)
        → v.IsDir p
        → Within b v start D P w
        → Within b v start (λ q. (p ≡ q) ⊎ D q) P (b.create_socket_dir p spec w).1
    create_dir_ok p spec dir h = record {
      dirs = λ q is has. or_push (elim (t.create_dir p spec w q dir is has) [
        | inl before ↦ inl (h.dirs q is before)
        | inr (same, why) ↦ inr same
      ]);
      ports = λ br n has. h.ports br n (sym (t.create_dir-port p spec w br n) ∙ has);
    }

    pub create_dir_err :
        (p : String) (spec : Option VhostUserSpec) (e : Error)
        → v.IsDir p
        → (b.create_socket_dir p spec w).0 ≡ err e
        → Within b v start D P w
        → Within b v start D P (b.create_socket_dir p spec w).1
    create_dir_err p spec e dir failed h = record {
      dirs = λ q is has. elim (t.create_dir p spec w q dir is has) [
        | inl before ↦ h.dirs q is before
        | inr (same, inl done) ↦ absurd (ground (arith, failed, done))
        | inr (same, inr stays) ↦ inl (inr (subst (DirCanStay b) same stays))
      ];
      ports = λ br n has. h.ports br n (sym (t.create_dir-port p spec w br n) ∙ has);
    }

    pub create_port_ok :
        (bridge port socket : String) (params : OvsPortParams)
        → Within b v start D P w
        → Within b v start D
            (λ br n. ((bridge ≡ br) × (port ≡ n)) ⊎ P br n)
            (b.create_port bridge port socket params w).1
    create_port_ok bridge port socket params h = record {
      dirs = λ q is has. h.dirs q is (sym (t.create_port-dir bridge port socket params w q) ∙ has);
      ports = λ br n has. or_push (elim (t.create_port bridge port socket params w br n has) [
        | inl before ↦ inl (h.ports br n before)
        | inr (same, names, done) ↦ inr (same, names)
      ]);
    }

    pub create_port_err :
        (bridge port socket : String) (params : OvsPortParams) (e : Error)
        → (b.create_port bridge port socket params w).0 ≡ err e
        → Within b v start D P w
        → Within b v start D P (b.create_port bridge port socket params w).1
    create_port_err bridge port socket params e failed h = record {
      dirs = λ q is has. h.dirs q is (sym (t.create_port-dir bridge port socket params w q) ∙ has);
      ports = λ br n has. elim (t.create_port bridge port socket params w br n has) [
        | inl before ↦ h.ports br n before
        | inr (same, names, done) ↦ absurd (ground (arith, failed, done))
      ];
    }

    pub create_spec :
        (pds : List PreparedDevice)
        → Within b v start D P w
        → Within b v start D P (b.create_claim_spec_file pds w).1
    create_spec pds h = record {
      dirs = λ q is has. h.dirs q is (sym (t.create_spec-dir pds w q) ∙ has);
      ports = λ br n has. h.ports br n (sym (t.create_spec-port pds w br n) ∙ has);
    }

    delete_spec :
        (uid : String)
        → Within b v start D P w
        → Within b v start D P (b.delete_claim_spec_file uid w).1
    delete_spec uid h = record {
      dirs = λ q is has. h.dirs q is (sym (t.delete_spec-dir uid w q) ∙ has);
      ports = λ br n has. h.ports br n (sym (t.delete_spec-port uid w br n) ∙ has);
    }

    pub remove_dir :
        (p : String)
        → Within b v start (λ q. (p ≡ q) ⊎ D q) P w
        → Within b v start D P (b.remove_socket_dir p w).1
    remove_dir p h = record {
      dirs = λ q is has.
          or_settle
            (λ same. elim (Bool-cases (is_ok (b.remove_socket_dir p w).0)) [
              | inl done ↦ absurd (cc (t.remove_dir_gone p w done, same, has))
              | inr not_done ↦ inr (subst (DirCanStay b) same (w, not_done))
            ])
            (h.dirs q is (t.remove_dir p w q has));
      ports = λ br n has. h.ports br n (sym (t.remove_dir-port p w br n) ∙ has);
    }

    delete_port :
        (bridge port : String)
        → Within b v start D (λ br n. ((bridge ≡ br) × (port ≡ n)) ⊎ P br n) w
        → Within b v start D P (b.delete_port bridge port w).1
    delete_port bridge port h = record {
      dirs = λ q is has. h.dirs q is (sym (t.delete_port-dir bridge port w q) ∙ has);
      ports = λ br n has.
          or_settle
            (λ same. elim (Bool-cases (is_deleted (b.delete_port bridge port w).0)) [
              | inl done ↦ absurd (cc (t.delete_port_gone bridge port w done, same.0, same.1, has))
              | inr not_done ↦ inr (
                  subst (λ x. PortCanStay b x n) same.0
                    (subst (PortCanStay b bridge) same.1 (w, not_done)))
            ])
            (h.ports br n (t.delete_port bridge port w br n has));
    }

  without_device-Within :
      (pd : PreparedDevice) (pds : List PreparedDevice) (w : W)
      → Within b v start (DirOf (pd ∷ pds)) (PortOf (pd ∷ pds)) w
      → Within b v start (DirOf pds) (PortOf pds) (without_device b pd w)
  without_device-Within pd pds w h =
      remove_dir (DirOf pds) (PortOf pds) (without_port b pd w) pd.mount.host_dir (
        delete_port (DirOf (pd ∷ pds)) (PortOf pds) (without_spec b pd w) pd.bridge_name
          pd.ovs_port_name (delete_spec (DirOf (pd ∷ pds)) (PortOf (pd ∷ pds)) w pd.claim.uid h))

  -- A clean-up takes away all that its devices name.
  pub without_devices-Within :
      (pds : List PreparedDevice) (w : W)
      → Within b v start (DirOf pds) (PortOf pds) w
      → Within b v start (DirOf []) (PortOf []) (without_devices b pds w)
  unfolding without_devices
  without_devices-Within [] w h = h
  without_devices-Within (pd ∷ pds) w h =
      without_devices-Within pds (without_device b pd w) (without_device-Within pd pds w h)
