-- ===== src/Controllers/Trigger.antt =====
-- `SetupWithManager` of pkg/controllers/controller_ovsdpdkresourcepolicy.go: what asks for a
-- reconciliation. The watches of policies and of nodes pass a predicate and go to the work queue of the
-- controller runtime; a bridge event goes through a channel that holds one event.
use dra_driver_ovsdpdk_upstr.Base.{
  String, ◌≡◌, refl, Bool, true, false, List, [], ◌∷◌, ◌++◌, length, ltb, if◌then◌else◌, ◌==◌,
}
use dra_driver_ovsdpdk_upstr.Controllers.{Request}
use dra_driver_ovsdpdk_upstr.Ovs.Monitor.{BridgeEvent}

-- The channel's events all carry the same object, so an event is this constructor.
pub data GenericEvent : Type 0 where
  sync_event : GenericEvent

-- What happens: an object of a namespace changes, a node changes, OVS reports a bridge, or the
-- controller reads the channel.
pub data Signal : Type 0 where
  policy_changed node_changed : String → Signal
  bridge_changed : BridgeEvent → Signal
  channel_read : Signal

-- `mapFn`: every change asks for the same request.
abbrev pub map_fn : String → Request
map_fn namespace = record { name = "resource-policy-sync"; namespace = namespace }

-- `select { case triggerChan <- …: default: }` on a channel of capacity 1
unfoldable pub trigger : BridgeEvent → List GenericEvent → List GenericEvent
trigger ev ch = if ltb (length ch) 1 then ch ++ sync_event ∷ [] else ch

module _ (node_name namespace : String) where
  asks : Bool → List Request
  asks true = map_fn namespace ∷ []
  asks false = []

  read_channel : List GenericEvent → List Request × List GenericEvent
  unfolding asks
  read_channel [] = (asks false, [])
  read_channel (ev ∷ ch) = (asks true, ch)

  -- The requests that a signal puts into the work queue, and the channel.
  signalled : Signal → List GenericEvent → List Request × List GenericEvent
  unfolding trigger read_channel
  signalled (policy_changed ns) ch = (asks (ns == namespace), ch)
  signalled (node_changed name) ch = (asks (name == node_name), ch)
  signalled (bridge_changed ev) ch = ([], trigger ev ch)
  signalled channel_read ch = read_channel ch

  -- A sequence of signals, with all requests in order.
  unfoldable pub run : List Signal → List GenericEvent → List Request × List GenericEvent
  unfolding signalled
  run [] ch = ([], ch)
  run (sig ∷ sigs) ch =
      let (now, ch') = signalled sig ch in let (later, ch'') = run sigs ch' in (now ++ later, ch'')

  -- The specification: a flag that a bridge event sets, and that reading clears and turns into a request.
  abbrev pub flag_step : Signal → Bool → List Request × Bool
  flag_step (policy_changed ns) dirty =
      (if ns == namespace then map_fn namespace ∷ [] else [], dirty)
  flag_step (node_changed name) dirty =
      (if name == node_name then map_fn namespace ∷ [] else [], dirty)
  flag_step (bridge_changed ev) dirty = ([], true)
  flag_step channel_read dirty = (if dirty then map_fn namespace ∷ [] else [], false)

  abbrev pub flag_run : List Signal → Bool → List Request × Bool
  flag_run [] dirty = ([], dirty)
  flag_run (sig ∷ sigs) dirty =
      let (now, dirty') = flag_step sig dirty in
      let (later, dirty'') = flag_run sigs dirty' in (now ++ later, dirty'')

  abbrev pub waiting : Bool → List GenericEvent
  waiting true = sync_event ∷ []
  waiting false = []

  asks-if : (b : Bool) → asks b ≡ (if b then map_fn namespace ∷ [] else [])
  unfolding asks
  asks-if true = refl
  asks-if false = refl

  step_refines :
      (sig : Signal) (dirty : Bool)
      → signalled sig (waiting dirty) ≡ ((flag_step sig dirty).0, waiting (flag_step sig dirty).1)
  unfolding signalled trigger read_channel asks
  step_refines (policy_changed ns) dirty = rw (asks-if (ns == namespace)) refl
  step_refines (node_changed name) dirty = rw (asks-if (name == node_name)) refl
  step_refines (bridge_changed ev) true = refl
  step_refines (bridge_changed ev) false = refl
  step_refines channel_read true = refl
  step_refines channel_read false = refl

  -- The channel of one event behaves as a flag, whatever happens in whatever order: a bridge event sets
  -- it, and the controller's next read clears it and asks for one reconciliation if it was set. So no
  -- bridge event is lost, and events between two reads ask for one reconciliation together.
  pub run_refines :
      (sigs : List Signal) (dirty : Bool)
      → run sigs (waiting dirty) ≡ ((flag_run sigs dirty).0, waiting (flag_run sigs dirty).1)
  unfolding run
  run_refines [] dirty = refl
  run_refines (sig ∷ sigs) dirty =
      rw (step_refines sig dirty, run, run_refines sigs (flag_step sig dirty).1) refl
