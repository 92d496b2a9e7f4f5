-- ===== src/Command/Cleanup.antt =====
-- What `run` has started, when it ends.
use dra_driver_ovsdpdk_upstr.Base.{
  String, ◌≡◌, refl, ◌∙◌, inl, inr, Option, none, some, List, ◌∷◌, Error, Option-cases,
}
use dra_driver_ovsdpdk_upstr.Driver.Publish.{Config}
use dra_driver_ovsdpdk_upstr.Command.{
  Flags, Parts, Ending, context_done, manager_exited, or_return, deferring, driver_plugin_path,
  driver_config, cancel_on, wait_for_end, with_policy_controller, with_driver, with_manager,
  with_cdi, with_ovs, with_directories, with_plugin_path, with_signals, run,
}

-- What runs until it is ended.
pub data Part : Type 0 where
  ovs_client manager driver : Part

module _ {W : Type 0} (opened : W → List Part) where
  -- A call that leaves open what is open.
  abbrev pub Keeps : {A : Type 0} → (W → A × W) → Type 0
  Keeps m = (w : W) → opened (m w).1 ≡ opened w

  -- A call that opens a part, or fails and opens nothing.
  abbrev pub Opens : Part → (W → Option Error × W) → Type 0
  Opens part m =
      (w : W)
      → ((m w).0 ≡ none → opened (m w).1 ≡ part ∷ opened w)
        × ((e : Error) → (m w).0 ≡ some e → opened (m w).1 ≡ opened w)

  -- A call that ends the part that was opened last.
  abbrev pub Ends : Part → (W → W) → Type 0
  Ends part m = (w : W) (rest : List Part) → opened w ≡ part ∷ rest → opened (m w) ≡ rest

  abbrev pub KeepsState : (W → W) → Type 0
  KeepsState m = (w : W) → opened (m w) ≡ opened w

  -- What the parts promise.
  pub record Promises (parts : Parts W) : Type 0 where
    pub notify_context : KeepsState parts.notify_context
    pub stop_notify : KeepsState parts.stop_notify
    pub mkdir_all : (p : String) → Keeps (parts.mkdir_all p)
    pub new_ovs_client : (d : String) → Opens ovs_client (parts.new_ovs_client d)
    pub close_ovs_client : Ends ovs_client parts.close_ovs_client
    pub new_cdi : (d : String) → Keeps (parts.new_cdi d)
    pub new_manager : Opens manager parts.new_manager
    pub stop_all : Ends manager parts.stop_all
    pub new_device_state : KeepsState parts.new_device_state
    pub new_driver : (c : Config) → Opens driver (parts.new_driver c)
    pub stop_driver : Ends driver parts.stop_driver
    pub setup_policy_controller : (n ns : String) → Keeps (parts.setup_policy_controller n ns)
    pub setup_config_controller : (n : String) → Keeps (parts.setup_config_controller n)
    pub wait : Keeps parts.wait
    pub cancel : (e : Error) → KeepsState (parts.cancel e)
    pub cause : Keeps parts.cause

  return-Keeps :
      (text : String) (m rest : W → Option Error × W)
      → Keeps m
      → Keeps rest
      → Keeps (or_return text m rest)
  return-Keeps text m rest km kr w = elim (Option-cases (m w).0) [
    | inl e ↦ rw (e, or_return) (kr (m w).1 ∙ km w)
    | inr (x, e) ↦ rw (e, or_return) (km w)
  ]

  bracket-Keeps :
      (text : String) (part : Part) (m rest : W → Option Error × W) (cleanup : W → W)
      → Opens part m
      → Ends part cleanup
      → Keeps rest
      → Keeps (or_return text m (deferring cleanup rest))
  bracket-Keeps text part m rest cleanup opens ends kr w = elim (Option-cases (m w).0) [
    | inl e ↦ rw (e, or_return) (ends (rest (m w).1).1 (opened w) (kr (m w).1 ∙ (opens w).0 e))
    | inr (x, e) ↦ rw (e, or_return) ((opens w).1 x e)
  ]

  module _ (parts : Parts W) (flags : Flags) (p : Promises parts) where
    cancel_on-Keeps : (ending : Ending) → KeepsState (cancel_on parts flags ending)
    unfolding cancel_on
    cancel_on-Keeps context_done w = refl
    cancel_on-Keeps (manager_exited none) w = refl
    cancel_on-Keeps (manager_exited (some e)) w = p.cancel _ w

    wait_for_end-Keeps : Keeps (wait_for_end parts flags)
    unfolding wait_for_end
    wait_for_end-Keeps w =
        let (ending, w₁) = parts.wait w in
        p.cause (parts.stop_notify (cancel_on parts flags ending w₁))
        ∙ p.stop_notify (cancel_on parts flags ending w₁)
        ∙ cancel_on-Keeps ending w₁
        ∙ p.wait w

    with_driver-Keeps : Keeps (with_driver parts flags)
    unfolding with_driver with_policy_controller
    with_driver-Keeps =
        return-Keeps "setup controller: %w"
          (parts.setup_policy_controller flags.node_name flags.namespace)
          (with_policy_controller parts flags)
          (p.setup_policy_controller flags.node_name flags.namespace)
          (return-Keeps "setup config controller: %w"
            (parts.setup_config_controller flags.config_name) (wait_for_end parts flags)
            (p.setup_config_controller flags.config_name) wait_for_end-Keeps)

    with_manager-Keeps : Keeps (with_manager parts flags)
    unfolding with_manager
    with_manager-Keeps w =
        bracket-Keeps "create DRA driver: %w" driver (parts.new_driver (driver_config parts flags))
          (with_driver parts flags) parts.stop_driver (p.new_driver (driver_config parts flags))
          p.stop_driver with_driver-Keeps (parts.new_device_state w)
        ∙ p.new_device_state w

    with_ovs-Keeps : Keeps (with_ovs parts flags)
    unfolding with_ovs with_cdi
    with_ovs-Keeps =
        return-Keeps "create DRI Handler: %w" (parts.new_cdi flags.cdi_root) (with_cdi parts flags)
          (p.new_cdi flags.cdi_root)
          (bracket-Keeps "create device plugin manager: %w" manager parts.new_manager
            (with_manager parts flags) parts.stop_all p.new_manager p.stop_all with_manager-Keeps)

    with_signals-Keeps : Keeps (with_signals parts flags)
    unfolding with_signals with_plugin_path with_directories
    with_signals-Keeps =
        return-Keeps "create driver plugin path %q: %w" (parts.mkdir_all (driver_plugin_path flags))
          (with_plugin_path parts flags) (p.mkdir_all (driver_plugin_path flags))
          (return-Keeps "create CDI root %q: %w" (parts.mkdir_all flags.cdi_root)
            (with_directories parts flags) (p.mkdir_all flags.cdi_root)
            (bracket-Keeps "create OVS client: %w" ovs_client
              (parts.new_ovs_client flags.ovs_run_dir) (with_ovs parts flags) parts.close_ovs_client
              (p.new_ovs_client flags.ovs_run_dir) p.close_ovs_client with_ovs-Keeps))

    -- However a run ends, at whatever step it fails, it has ended what it started, in the reverse order,
    -- and nothing else, if each part's end ends the part that was started last, and nothing else starts
    -- or ends a part.
    pub run_ends_what_it_starts : (w : W) → opened (run parts flags w).1 ≡ opened w
    unfolding run
    run_ends_what_it_starts w =
        p.stop_notify (with_signals parts flags (parts.notify_context w)).1
        ∙ with_signals-Keeps (parts.notify_context w)
        ∙ p.notify_context w
