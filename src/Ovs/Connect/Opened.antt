-- ===== src/Ovs/Connect/Opened.antt =====
-- How `New` of pkg/ovs/client.go ends.
use dra_driver_ovsdpdk_upstr.Base.{
  ℕ, zero, suc, ◌<◌, String, ◌≡◌, refl, ap, ◌∷◌, wrapping, concat, ◌∙◌, inl, inr, Bool, true, false,
  Option, none, some, List, [], Result, ok, err, panic, Error, Result-cases, Option-cases, arith,
}
use dra_driver_ovsdpdk_upstr.Base.Keeps.{bind-Keeps}
use dra_driver_ovsdpdk_upstr.Base.FilePath
use dra_driver_ovsdpdk_upstr.Ovs.Monitor.{OvsClient}
use dra_driver_ovsdpdk_upstr.Ovs.Connect.{
  Condition, Library, conditions, new_ovs_client, paused, connected, round, connect_loop,
  start_monitor, monitored, after_loop, connect_and_start, prepare_client, new,
}

module _ {W : Type 0} (lib : Library W) where
  -- `n` attempts to connect fail, after each of which the pause ends without the context being done, and
  -- the next one connects.
  abbrev pub Tries : ℕ → W → W → Type 0
  Tries zero w w' = lib.connect w ≡ (ok tt, w')
  Tries (suc n) w w' =
      (e : Error) × ((lib.connect w).0 ≡ err e)
      × ((lib.pause (lib.connect w).1).0 ≡ none)
      × Tries n (lib.pause (lib.connect w).1).1 w'

  loop_ends :
      (n fuel : ℕ) (w w' : W)
      → n < fuel
      → Tries n w w'
      → connect_loop lib fuel w ≡ (some (ok tt), w')
  unfolding connect_loop round connected paused
  loop_ends n zero w w' lt on = absurd (ground arith)
  loop_ends zero (suc fuel) w w' lt on =
      let once : round lib w ≡ (some (ok tt), w') = rw (on, round) refl in
      rw (ap (λ s. s.0) once, connect_loop) (ap (λ s. (some (ok tt), s.1)) once)
  loop_ends (suc n) (suc fuel) w w' lt (e, failed, goes_on, later) =
      let later_w = (lib.pause (lib.connect w).1).1 in
      let once : round lib w ≡ (none, later_w) = rw (failed, goes_on, round, paused) refl in
      rw (ap (λ s. s.0) once, connect_loop)
        (ap (λ s. connect_loop lib fuel s.1) once ∙ loop_ends n fuel later_w w' (omega arith) later)

  -- If the client of the library can be made, some number of attempts to connect fail, the context is not
  -- done in the pause after each, and the next attempt connects, then `New` makes exactly these attempts,
  -- starts the goroutine that handles events, hands its callbacks to the cache, asks for the monitor of
  -- the DPDK bridges and interfaces, and returns the client if it gets that.
  pub new_connects :
      (n fuel : ℕ) (run_dir : String) (w₀ w₁ w₂ w₃ w₄ : W)
      → n < fuel
      → lib.new_client_db_model w₀ ≡ (ok tt, w₁)
      → lib.new_ovsdb_client (concat ("unix:" ∷ FilePath.join (run_dir ∷ "db.sock" ∷ []) ∷ [])) w₁
        ≡ (ok tt, w₂)
      → Tries n w₂ w₃
      → lib.monitor
          (record { table = "Bridge"; field = "datapath_type"; value = "netdev" }
            ∷ record { table = "Interface"; field = "type"; value = "dpdk" }
            ∷ [])
          (lib.add_event_handler (lib.start_events new_ovs_client w₃))
        ≡ (ok tt, w₄)
      → new lib fuel run_dir w₀ ≡ (some (ok (lib.current w₄)), w₄)
  unfolding new connect_and_start prepare_client after_loop start_monitor monitored
  new_connects n fuel run_dir w₀ w₁ w₂ w₃ w₄ lt modelled made on last =
      let prepared : prepare_client lib run_dir w₀ ≡ (ok tt, w₂) =
        rw (modelled, prepare_client) (rw made refl) in
      let looped : connect_loop lib fuel w₂ ≡ (some (ok tt), w₃) = loop_ends n fuel w₂ w₃ lt on in
      let ended : after_loop lib (ok tt) w₃ ≡ (ok (lib.current w₄), w₄) =
        rw (last, after_loop, start_monitor) refl in
      let began : new lib fuel run_dir w₀
          ≡ connect_and_start lib fuel (prepare_client lib run_dir w₀).1 =
        rw (ap (λ x. x.0) prepared, new) refl in
      let after : connect_and_start lib fuel w₂
          ≡ (let s = after_loop lib (ok tt) (connect_loop lib fuel w₂).1 in (some s.0, s.1)) =
        rw (ap (λ x. x.0) looped, connect_and_start) refl in
      began
      ∙ ap (λ x. connect_and_start lib fuel x.1) prepared
      ∙ after
      ∙ ap (λ x. let s = after_loop lib (ok tt) x.1 in (some s.0, s.1)) looped
      ∙ ap (λ s. (some s.0, s.1)) ended

  -- Whether the client is open: connected, and not disconnected since. What the library promises of it.
  pub record KeepsTrack (opened : W → Bool) : Type 0 where
    pub connect_ok : (w : W) → (lib.connect w).0 ≡ ok tt → opened (lib.connect w).1 ≡ true
    pub connect_err :
        (w : W) (e : Error) → (lib.connect w).0 ≡ err e → opened (lib.connect w).1 ≡ opened w
    pub disconnect : (w : W) → opened (lib.disconnect w) ≡ false
    pub pause : (w : W) → opened (lib.pause w).1 ≡ opened w
    pub start_events : (c : OvsClient) (w : W) → opened (lib.start_events c w) ≡ opened w
    pub add_event_handler : (w : W) → opened (lib.add_event_handler w) ≡ opened w
    pub monitor : (cs : List Condition) (w : W) → opened (lib.monitor cs w).1 ≡ opened w
    pub new_client_db_model : (w : W) → opened (lib.new_client_db_model w).1 ≡ opened w
    pub new_ovsdb_client :
        (endpoint : String) (w : W) → opened (lib.new_ovsdb_client endpoint w).1 ≡ opened w

  module _ (opened : W → Bool) (k : KeepsTrack opened) where
    -- A client is open; without one, none is.
    abbrev pub Ended : Option (Result OvsClient) → W → Type 0
    Ended none w = opened w ≡ false
    Ended (some (ok c)) w = opened w ≡ true
    Ended (some (err e)) w = opened w ≡ false
    Ended (some panic) w = Unit

    abbrev LoopEnded : Option (Result (Unit {0})) → W → Type 0
    LoopEnded none w = opened w ≡ false
    LoopEnded (some (ok _)) w = opened w ≡ true
    LoopEnded (some (err e)) w = opened w ≡ false
    LoopEnded (some panic) w = Unit

    paused-LoopEnded :
        (o : Option Error) (w : W) → opened w ≡ false → let s = paused lib o w in LoopEnded s.0 s.1
    unfolding paused
    paused-LoopEnded none w h = h
    paused-LoopEnded (some e) w h = k.disconnect w

    round-LoopEnded : (w : W) → opened w ≡ false → let s = round lib w in LoopEnded s.0 s.1
    unfolding round connected
    round-LoopEnded w h = elim (Result-cases (lib.connect w).0) [
      | inl (tt, e) ↦ rw (e, round) (k.connect_ok w e)
      | inr (inl (x, e)) ↦
          let failed = (lib.connect w).1 in
          rw (e, round)
            (paused-LoopEnded (lib.pause failed).0 (lib.pause failed).1
              (k.pause failed ∙ k.connect_err w x e ∙ h))
      | inr (inr e) ↦ rw (e, round) tt
    ]

    loop-LoopEnded :
        (fuel : ℕ) (w : W) → opened w ≡ false → let s = connect_loop lib fuel w in LoopEnded s.0 s.1
    unfolding connect_loop
    loop-LoopEnded zero w h = h
    loop-LoopEnded (suc fuel) w h =
        let one = round-LoopEnded w h in
        elim (Option-cases (round lib w).0) [
          | inl e ↦ rw (e, connect_loop) (loop-LoopEnded fuel (round lib w).1 (rw e at one))
          | inr (r, e) ↦ rw (e, connect_loop) (rw e at one)
        ]

    monitored-Ended :
        (r : Result (Unit {0})) (w : W)
        → opened w ≡ true
        → let s = monitored lib r w in Ended (some s.0) s.1
    unfolding monitored
    monitored-Ended (ok _) w h = h
    monitored-Ended (err e) w h = k.disconnect w
    monitored-Ended panic w h = tt

    after_loop-Ended :
        (r : Result (Unit {0})) (w : W)
        → LoopEnded (some r) w
        → let s = after_loop lib r w in Ended (some s.0) s.1
    unfolding after_loop start_monitor
    after_loop-Ended (ok _) w h =
        let s = start_monitor lib (lib.start_events new_ovs_client w) in
        monitored-Ended s.0 s.1 (
          k.monitor conditions (lib.add_event_handler (lib.start_events new_ovs_client w))
          ∙ k.add_event_handler (lib.start_events new_ovs_client w)
          ∙ k.start_events new_ovs_client w
          ∙ h)
    after_loop-Ended (err e) w h = h
    after_loop-Ended panic w h = tt

    -- However many attempts `New` makes: if it returns a client, the client is open; if it returns an
    -- error, or still tries, the client is not open, also where it was before the error.
    pub new-Ended :
        (fuel : ℕ) (run_dir : String) (w : W)
        → opened w ≡ false
        → let s = new lib fuel run_dir w in Ended s.0 s.1
    unfolding new connect_and_start prepare_client
    new-Ended fuel run_dir w h =
        let start = (prepare_client lib run_dir w).1 in
        let kept : opened start ≡ false =
          bind-Keeps opened (wrapping "build OVSDB client model: %w" lib.new_client_db_model)
            (λ a. wrapping "create OVSDB client: %w" (
              lib.new_ovsdb_client
                (concat ("unix:" ∷ FilePath.join (run_dir ∷ "db.sock" ∷ []) ∷ []))))
            k.new_client_db_model (λ a. k.new_ovsdb_client _) w
          ∙ h in
        let looped = loop-LoopEnded fuel start kept in
        elim (Result-cases (prepare_client lib run_dir w).0) [
          | inr (inl (x, e)) ↦ rw (e, new) kept
          | inr (inr e) ↦ rw (e, new) tt
          | inl (a, e) ↦ elim (Option-cases (connect_loop lib fuel start).0) [
            | inl e' ↦ rw (e, e', new, connect_and_start) (rw e' at looped)
            | inr (r, e') ↦
                rw (e, e', new, connect_and_start)
                  (after_loop-Ended r (connect_loop lib fuel start).1 (rw e' at looped))
          ]
        ]
