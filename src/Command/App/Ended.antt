-- ===== src/Command/App/Ended.antt =====
-- What the program has started, when it ends.
use dra_driver_ovsdpdk_upstr.Base.{
  String, ◌≡◌, refl, ap, ◌∙◌, Option, none, some, List, [], ◌∷◌, Error, ◌⊎◌, inl, inr, Option-cases,
}
use dra_driver_ovsdpdk_upstr.Command.{Parts, run}
use dra_driver_ovsdpdk_upstr.Command.Cleanup.{
  Part, Keeps, KeepsState, Promises, run_ends_what_it_starts,
}
use dra_driver_ovsdpdk_upstr.Command.Options.{Flag, PFlag}
use dra_driver_ovsdpdk_upstr.Command.App.{
  Settings, App, KubeClientConfig, RestConfig, ManagerOptions, Libraries, or_report,
  manager_options, rest_config, new_core_client, before, with_client, with_config, action, new_app,
  exit_with, main,
}

-- What the command line asks for: to stop, as for the text of help or an unknown flag, or to run with
-- settings, and the arguments that are no flags.
pub data Outcome (F : Type 0) : Type 0 where
  stopped : Option Error → Outcome F
  parsed : Settings F → List String → Outcome F

module _ {W F V : Type 0} (opened : W → List Part) where
  abbrev pub after_parse : App W F V → Outcome F × W → Option Error × W
  after_parse app (stopped r, w) = (r, w)
  after_parse app (parsed settings left, w) =
      let (failed, w') = app.before left w in
      elim failed [ some e ↦ (some e, w') | none ↦ app.action settings w' ]

  -- The library of the command line reads the flags, which starts nothing, and then calls `Before` and,
  -- where that returns no error, `Action`.
  pub record RunsApp (run_app : App W F V → List String → W → Option Error × W) : Type 0 where
    pub parse : List (Flag F V) → List String → W → Outcome F × W
    pub parse-Keeps :
        (flags : List (Flag F V)) (args : List String) → Keeps opened (parse flags args)
    pub runs :
        (app : App W F V) (args : List String) (w : W)
        → run_app app args w ≡ after_parse app (parse app.flags args w)

sum-cases : {A B : Type 0} (r : A ⊎ B) → ((a : A) × (r ≡ inl a)) ⊎ ((b : B) × (r ≡ inr b))
sum-cases (inl a) = inl (a, refl)
sum-cases (inr b) = inr (b, refl)

module _ {W F G H K M : Type 0} (opened : W → List Part) (libs : Libraries W F G H K M) where
  -- The libraries start and end no part.
  pub record StartNothing : Type 0 where
    pub apply_logging : Keeps opened libs.apply_logging
    pub set_logger : KeepsState opened libs.set_logger
    pub in_cluster_config : Keeps opened libs.in_cluster_config
    pub new_for_config : (cfg : RestConfig G H) → Keeps opened (libs.new_for_config cfg)
    pub new_manager :
        (cfg : RestConfig G H) (opts : ManagerOptions) → Keeps opened (libs.new_manager cfg opts)
    pub report : (e : Error) → KeepsState opened (libs.report e)

  report-Keeps :
      {A : Type 0} (text : String) (m : W → (Error ⊎ A) × W) (rest : A → W → Option Error × W)
      → Keeps opened m
      → ((a : A) → Keeps opened (rest a))
      → Keeps opened (or_report text m rest)
  report-Keeps text m rest km kr w = elim (sum-cases (m w).0) [
    | inl (e, is) ↦ rw (is, or_report) (km w)
    | inr (a, is) ↦ rw (is, or_report) (kr a (m w).1 ∙ km w)
  ]

  module _ (quiet : StartNothing) where
    rest_config-Keeps : (k : KubeClientConfig F) → Keeps opened (rest_config libs k)
    unfolding rest_config
    rest_config-Keeps k = quiet.in_cluster_config

    new_core_client-Keeps : (k : KubeClientConfig F) → Keeps opened (new_core_client libs k)
    unfolding new_core_client
    new_core_client-Keeps k w = elim (sum-cases (rest_config libs k w).0) [
      | inl (e, is) ↦ rw (is, new_core_client) (rest_config-Keeps k w)
      | inr (cfg, is) ↦
          rw (is, new_core_client)
            (quiet.new_for_config cfg (rest_config libs k w).1 ∙ rest_config-Keeps k w)
    ]

    before-Keeps : (args : List String) → Keeps opened (before libs args)
    unfolding before
    before-Keeps (_ ∷ _) w = refl
    before-Keeps [] w = elim (Option-cases (libs.apply_logging w).0) [
      | inl is ↦ rw (is, before) (quiet.set_logger (libs.apply_logging w).1 ∙ quiet.apply_logging w)
      | inr (e, is) ↦ rw (is, before) (quiet.apply_logging w)
    ]

    exit_with-Keeps : (r : Option Error) (w : W) → opened (exit_with libs r w).1 ≡ opened w
    unfolding exit_with
    exit_with-Keeps none w = refl
    exit_with-Keeps (some e) w = quiet.report e w

    module _ (parts : K → M → Parts W)
        (promises : (k : K) (m : M) → Promises opened (parts k m)) where
      with_client-Keeps :
          (settings : Settings F) (cfg : RestConfig G H) (client : K)
          → Keeps opened (with_client libs parts settings cfg client)
      unfolding with_client
      with_client-Keeps settings cfg client =
          let opts = manager_options settings.flags.namespace in
          report-Keeps "create controller manager: %v" (libs.new_manager cfg opts)
            (λ mgr. run (parts client mgr) settings.flags) (quiet.new_manager cfg opts)
            (λ mgr.
              run_ends_what_it_starts opened (parts client mgr) settings.flags
                (promises client mgr))

      action-Keeps : (settings : Settings F) → Keeps opened (action libs parts settings)
      unfolding action with_config
      action-Keeps settings =
          let k = settings.kube_client_config in
          report-Keeps "create REST config: %v" (rest_config libs k)
            (with_config libs parts settings) (rest_config-Keeps k)
            (λ cfg.
              report-Keeps "create client: %v" (new_core_client libs k)
                (with_client libs parts settings cfg) (new_core_client-Keeps k)
                (with_client-Keeps settings cfg))

      module _ {V : Type 0} (five : F) (added : List (PFlag V)) (gates : V)
          (known : List String) where
        after_parse-Keeps :
            (outcome : Outcome F) (w : W)
            → opened (after_parse opened (new_app libs parts five added gates known) (outcome, w)).1
              ≡ opened w
        unfolding new_app
        after_parse-Keeps (stopped r) w = refl
        after_parse-Keeps (parsed settings left) w = elim (Option-cases (before libs left w).0) [
          | inl is ↦
              rw (is, after_parse)
                (action-Keeps settings (before libs left w).1 ∙ before-Keeps left w)
          | inr (e, is) ↦ rw (is, after_parse) (before-Keeps left w)
        ]

        -- Whatever the command line and however the program ends, at whatever step it fails, it has ended
        -- what it started, in the reverse order, and nothing else, if each part's end ends the part that
        -- was started last, nothing else starts or ends a part, and the library of the command line only
        -- reads the flags and calls `Before` and `Action`.
        pub main_ends_what_it_starts :
            (run_app : App W F V → List String → W → Option Error × W)
            → RunsApp opened run_app
            → (args : List String) (w : W)
            → opened (main libs run_app (new_app libs parts five added gates known) args w).1
              ≡ opened w
        unfolding main
        main_ends_what_it_starts run_app runs args w =
            let app = new_app libs parts five added gates known in
            let (outcome, w₁) = runs.parse app.flags args w in
            exit_with-Keeps (run_app app args w).0 (run_app app args w).1
            ∙ ap (λ r. opened r.1) (runs.runs app args w)
            ∙ after_parse-Keeps outcome w₁
            ∙ runs.parse-Keeps app.flags args w
