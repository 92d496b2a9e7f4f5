-- ===== src/Ovs/Monitor/Channel.antt =====
-- What the channel of interface events holds and loses.
use Prim.Native.Nat.{◌≤◌}
use mathlib.Core.List.{append-nil, append_assoc}
use dra_driver_ovsdpdk_upstr.Base.{
  String, ◌≡◌, refl, sym, ap, ◌∙◌, Option, none, some, List, [], ◌∷◌, ◌++◌, ℤ, Exec, length,
  length-append, take, take-all, take-room, take-append_take, map, arith,
}
use dra_driver_ovsdpdk_upstr.Ovs.Client.{OvsdbClient}
use dra_driver_ovsdpdk_upstr.Ovs.{Notifier, IfaceEvent}
use dra_driver_ovsdpdk_upstr.Ovs.Monitor.{
  BridgeEvent, CacheEvent, add_bridge, delete_bridge, add_interface, delete_interface, other_table,
  OvsClient, Action, report, handle, send, iface_event, send_some, handle_cache_event, receive_from,
  receive, run,
}

send-bounds : (ev : IfaceEvent) (ch : List IfaceEvent) → length ch ≤ 16 → length (send ev ch) ≤ 16
unfolding send
send-bounds ev ch h = ground (arith, length-append ch (ev ∷ []))

send_some-bounds :
    (o : Option IfaceEvent) (ch : List IfaceEvent) → length ch ≤ 16 → length (send_some o ch) ≤ 16
unfolding send_some
send_some-bounds none ch h = h
send_some-bounds (some ev) ch h = send-bounds ev ch h

abbrev pub to_list {ℓ} : {A : Type ℓ} → Option A → List A
to_list none = []
to_list (some x) = x ∷ []

-- The events that the rows of a burst make.
abbrev pub iface_events : List CacheEvent → List IfaceEvent
iface_events [] = []
iface_events (e ∷ es) = to_list (iface_event e) ++ iface_events es

send_some-take :
    (o : Option IfaceEvent) (ch : List IfaceEvent)
    → length ch ≤ 16
    → send_some o ch ≡ take 16 (ch ++ to_list o)
unfolding send_some send
send_some-take none ch h = rw (append-nil ch, take-all 16 ch h) refl
send_some-take (some ev) ch h = sym (take-room 16 ch ev h)

-- The channel after a callback of the cache, and after a turn of the goroutine.
cache-iface_ch :
    {S : Type 0} (bridge_notifier : Option (BridgeEvent → S → S)) (e : CacheEvent) (c : OvsClient)
    (s : S)
    → (handle_cache_event bridge_notifier e c s).0.iface_ch ≡ send_some (iface_event e) c.iface_ch
unfolding handle_cache_event send_some iface_event
cache-iface_ch n (add_bridge br) c s = refl
cache-iface_ch n (delete_bridge br) c s = refl
cache-iface_ch n (add_interface i) c s = refl
cache-iface_ch n (delete_interface i) c s = refl
cache-iface_ch n other_table c s = refl

abbrev pub tail {ℓ} : {A : Type ℓ} → List A → List A
tail [] = []
tail (x ∷ xs) = xs

tail-bounds : (ch : List IfaceEvent) → length ch ≤ 16 → length (tail ch) ≤ 16
tail-bounds [] h = h
tail-bounds (ev ∷ ch) h = ground (arith, h)

module _ {S Op Res : Type 0} (client : OvsdbClient S Op Res)
    (bridge_notifier : Option (BridgeEvent → S → S)) (notifier : Option (Notifier S))
    (numa : String → Exec S ℤ) where
  receive-iface_ch :
      (ch : List IfaceEvent) (c : OvsClient) (s : S)
      → c.iface_ch ≡ ch
      → (receive_from client notifier numa ch c s).0.iface_ch ≡ tail ch
  unfolding receive_from
  receive-iface_ch [] c s e = e
  receive-iface_ch (ev ∷ ch) c s e = refl

  -- However the threads take their turns, the channel holds at most sixteen events.
  pub run_bounds :
      (acts : List Action) (c : OvsClient) (s : S)
      → length c.iface_ch ≤ 16
      → length (run client bridge_notifier notifier numa acts c s).0.iface_ch ≤ 16
  unfolding run receive
  run_bounds [] c s h = h
  run_bounds (report e ∷ rest) c s h =
      run_bounds rest _ _
        (rw (cache-iface_ch bridge_notifier e c s) (send_some-bounds (iface_event e) c.iface_ch h))
  run_bounds (handle ∷ rest) c s h =
      run_bounds rest _ _ (rw (receive-iface_ch c.iface_ch c s refl) (tail-bounds c.iface_ch h))

  -- What the cache reports before the goroutine takes its turn fills the channel up to sixteen events,
  -- in the order of the reports, and every event after them is lost.
  pub burst-take :
      (es : List CacheEvent) (c : OvsClient) (s : S)
      → length c.iface_ch ≤ 16
      → (run client bridge_notifier notifier numa (map report es) c s).0.iface_ch
        ≡ take 16 (c.iface_ch ++ iface_events es)
  unfolding run
  burst-take [] c s h = rw (append-nil c.iface_ch, take-all 16 c.iface_ch h) refl
  burst-take (e ∷ es) c s h =
      let next = handle_cache_event bridge_notifier e c s in
      let later = burst-take es next.0 next.1 (
        rw (cache-iface_ch bridge_notifier e c s)
          (send_some-bounds (iface_event e) c.iface_ch h)) in
      let here =
        rw (cache-iface_ch bridge_notifier e c s, send_some-take (iface_event e) c.iface_ch h) at
          later in
      here
      ∙ take-append_take 16 (c.iface_ch ++ to_list (iface_event e)) (iface_events es)
      ∙ ap (take 16) (append_assoc c.iface_ch (to_list (iface_event e)) (iface_events es))
