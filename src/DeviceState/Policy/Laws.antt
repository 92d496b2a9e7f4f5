-- ===== src/DeviceState/Policy/Laws.antt =====
-- Which bridges `UpdatePolicyDevices` accepts, and what it leaves.
use dra_driver_ovsdpdk_upstr.Base.{
  ◌≤◌, String, ◌≡◌, refl, subst, ◌∙◌, ◌⊎◌, inl, inr, false, Option, none, some, List, [], ◌∷◌, ℤ,
  pos, negsuc, Error, Result, ok, err, panic, Result-cases, Bool-cases, wrap_result, if◌then◌else◌,
  ◌==◌, eq_iff, All, arith,
}
use dra_driver_ovsdpdk_upstr.Base.Map
use dra_driver_ovsdpdk_upstr.Base.Map.{Map, get-put}
use dra_driver_ovsdpdk_upstr.Api.{BridgeSpec}
use dra_driver_ovsdpdk_upstr.DeviceState.Policy.{
  DeviceState, AllocatableDevice, AllocatableDevices, RepublishCallback, bridge_to_device,
  add_devices, compute_allocatable_devices, update_bridges, check_bridges, republish,
  update_policy_devices,
}

abbrev pub MtuIsValid : Option ℤ → Type 0
MtuIsValid none = Unit
MtuIsValid (some (pos mtu)) = (68 ≤ mtu) × (mtu ≤ 65535)
MtuIsValid (some (negsuc _)) = ⊥

-- No name stands twice.
abbrev pub AreDistinct : List BridgeSpec → Type 0
AreDistinct [] = Unit
AreDistinct (b ∷ bs) = All (λ c. (b.name == c.name) ≡ false) bs × AreDistinct bs

abbrev pub AreAcceptable : List BridgeSpec → Type 0
AreAcceptable bs = AreDistinct bs × All (λ b. MtuIsValid b.mtu) bs

abbrev Unseen : Map (Unit {0}) → List BridgeSpec → Type 0
Unseen seen bs = All (λ b. Map.get seen b.name ≡ none) bs

-- A later name is new after `b` exactly if it was new before and is not the name of `b`.
Unseen-put :
    (seen : Map (Unit {0})) (b : BridgeSpec) (bs : List BridgeSpec)
    → Unseen (Map.put seen b.name tt) bs
    → Unseen seen bs × All (λ c. (b.name == c.name) ≡ false) bs
Unseen-put seen b [] u = (tt, tt)
Unseen-put seen b (c ∷ cs) u =
    let later = Unseen-put seen b cs u.1 in
    let one = u.0 in
    (
      (ground (arith, get-put seen b.name tt c.name), later.0),
      (ground (arith, get-put seen b.name tt c.name), later.1),
    )

put-Unseen :
    (seen : Map (Unit {0})) (b : BridgeSpec) (bs : List BridgeSpec)
    → Unseen seen bs
    → All (λ c. (b.name == c.name) ≡ false) bs
    → Unseen (Map.put seen b.name tt) bs
put-Unseen seen b [] u ne = tt
put-Unseen seen b (c ∷ cs) u ne =
    let one = u.0 in
    let other = ne.0 in
    (ground (arith, get-put seen b.name tt c.name), put-Unseen seen b cs u.1 ne.1)

mtu_ok :
    (b : BridgeSpec) (bs : List BridgeSpec) (seen : Map (Unit {0}))
    → check_bridges (b ∷ bs) seen ≡ ok tt
    → (Map.get seen b.name ≡ none)
      × MtuIsValid b.mtu
      × (check_bridges bs (Map.put seen b.name tt) ≡ ok tt)
unfolding check_bridges
mtu_ok b bs seen h = ground arith

check_sound :
    (bs : List BridgeSpec) (seen : Map (Unit {0}))
    → check_bridges bs seen ≡ ok tt
    → Unseen seen bs × AreAcceptable bs
check_sound [] seen h = (tt, (tt, tt))
check_sound (b ∷ bs) seen h =
    let (new, mtu, rest) = mtu_ok b bs seen h in
    let (unseen, acceptable) = check_sound bs (Map.put seen b.name tt) rest in
    let (unseen', new_names) = Unseen-put seen b bs unseen in
    ((new, unseen'), ((new_names, acceptable.0), (mtu, acceptable.1)))

check_complete :
    (bs : List BridgeSpec) (seen : Map (Unit {0}))
    → Unseen seen bs
    → AreAcceptable bs
    → check_bridges bs seen ≡ ok tt
unfolding check_bridges
check_complete [] seen u a = refl
check_complete (b ∷ bs) seen u a =
    let rest =
      check_complete bs (Map.put seen b.name tt) (put-Unseen seen b bs u.1 a.0.0) (a.0.1, a.1.1) in
    let new = u.0 in let mtu = a.1.0 in ground (arith, rest)

nothing_seen : (bs : List BridgeSpec) → Unseen [] bs
unfolding Map.get
nothing_seen [] = tt
nothing_seen (b ∷ bs) = (refl, nothing_seen bs)

check-ne-panic : (bs : List BridgeSpec) (seen : Map (Unit {0})) → check_bridges bs seen ≡ panic → ⊥
unfolding check_bridges
check-ne-panic [] seen h = cc
check-ne-panic (b ∷ bs) seen h = ground (arith, check-ne-panic bs (Map.put seen b.name tt))

pub check_decides :
    (bs : List BridgeSpec)
    → ((check_bridges bs [] ≡ ok tt) × AreAcceptable bs)
      ⊎ ((e : Error) × (check_bridges bs [] ≡ err e) × ¬ AreAcceptable bs)
check_decides bs = elim (Result-cases (check_bridges bs [])) [
  | inl (tt, e) ↦ inl (e, (check_sound bs [] e).1)
  | inr (inl (x, e)) ↦ inr (x, e, λ a. cc (e, check_complete bs [] (nothing_seen bs) a))
  | inr (inr e) ↦ absurd (check-ne-panic bs [] e)
]

-- The bridge that a name stands for in a policy.
unfoldable pub find_bridge : String → List BridgeSpec → Option BridgeSpec
find_bridge name [] = none
find_bridge name (b ∷ bs) = if b.name == name then some b else find_bridge name bs

abbrev pub to_device : Option BridgeSpec → Option AllocatableDevice
to_device none = none
to_device (some b) = some (bridge_to_device b)

or_before : Option BridgeSpec → Option AllocatableDevice → Option AllocatableDevice
or_before (some b) before = some (bridge_to_device b)
or_before none before = before

pub absent :
    (name : String) (bs : List BridgeSpec)
    → All (λ c. (name == c.name) ≡ false) bs
    → find_bridge name bs ≡ none
unfolding find_bridge
absent name [] h = refl
absent name (b ∷ bs) h =
    let one = h.0 in ground (arith, absent name bs h.1, eq_iff name b.name, eq_iff b.name name)

get-add_devices :
    (bs : List BridgeSpec) (devices : AllocatableDevices) (name : String)
    → AreDistinct bs
    → Map.get (add_devices devices bs) name ≡ or_before (find_bridge name bs) (Map.get devices name)
unfolding add_devices find_bridge or_before
get-add_devices [] devices name d = refl
get-add_devices (b ∷ bs) devices name d = elim (Bool-cases (b.name == name)) [
  | inl same ↦
      get-add_devices bs (Map.put devices b.name (bridge_to_device b)) name d.1
      ∙ rw (
        absent name bs
            (subst (λ n. All (λ c. (n == c.name) ≡ false) bs) ((eq_iff b.name name).0 same) d.0),
        get-put devices b.name (bridge_to_device b) name,
        same,
      )
  | inr other ↦
      get-add_devices bs (Map.put devices b.name (bridge_to_device b)) name d.1
      ∙ ground (arith, other, get-put devices b.name (bridge_to_device b) name)
]

-- After an accepted update a name stands for the device of the bridge of that name, if there is one.
get-compute :
    (bs : List BridgeSpec) (name : String)
    → AreDistinct bs
    → Map.get (compute_allocatable_devices bs) name ≡ to_device (find_bridge name bs)
unfolding compute_allocatable_devices Map.get or_before
get-compute bs name d = get-add_devices bs [] name d ∙ drop_empty (find_bridge name bs)
  where
    drop_empty : (o : Option BridgeSpec) → or_before o (Map.get [] name) ≡ to_device o
    drop_empty none = refl
    drop_empty (some b) = refl

module _ {W : Type 0} where
  -- The callback, if there is one, ran in the world `w` on the devices `a`.
  abbrev pub Republished :
      Option (RepublishCallback W) → AllocatableDevices → W → Result (Unit {0}) → W → Type 0
  Republished none a w r w' = (r ≡ ok tt) × (w' ≡ w)
  Republished (some callback) a w r w' =
      (r ≡ wrap_result "republish callback: %w" (callback a w).0) × (w' ≡ (callback a w).1)

  republish-Republished :
      (callback : Option (RepublishCallback W)) (d : DeviceState) (w : W)
      → Republished callback d.allocatable w (republish callback d w).0 (republish callback d w).1.1
  unfolding republish
  republish-Republished none d w = (refl, refl)
  republish-Republished (some callback) d w = (refl, refl)

  republish_keeps :
      (callback : Option (RepublishCallback W)) (d : DeviceState) (w : W)
      → (republish callback d w).1.0 ≡ d
  unfolding republish
  republish_keeps none d w = refl
  republish_keeps (some callback) d w = refl

module _ {W : Type 0} (callback : Option (RepublishCallback W)) (bs : List BridgeSpec)
    (d : DeviceState) (w : W) where
  abbrev pub Updated : Result (Unit {0}) → DeviceState → W → Type 0
  Updated r d' w' =
      AreAcceptable bs
      × ((name : String) → Map.get d'.allocatable name ≡ to_device (find_bridge name bs))
      × (d'.vhost_user_config ≡ d.vhost_user_config)
      × Republished callback d'.allocatable w r w'

  abbrev pub Refused : Result (Unit {0}) → DeviceState → W → Type 0
  Refused r d' w' = (e : Error) × ¬ AreAcceptable bs × (r ≡ err e) × (d' ≡ d) × (w' ≡ w)

  -- `UpdatePolicyDevices` accepts the bridges exactly if no name stands twice and each MTU lies between
  -- 68 and 65535. It then offers for each name the device of its bridge and for other names none, keeps
  -- the vhost-user configuration, and returns what the callback returns, wrapped; the new devices stay
  -- where the callback fails. Otherwise it returns an error and changes nothing.
  pub update_policy_devices_lem :
      let s = update_policy_devices callback bs (d, w) in
      Updated s.0 s.1.0 s.1.1 ⊎ Refused s.0 s.1.0 s.1.1
  unfolding update_policy_devices
  update_policy_devices_lem = elim (check_decides bs) [
    | inl (e, a) ↦
        rw (e, update_policy_devices)
          (inl (
            a,
            λ name. rw (republish_keeps callback (update_bridges bs d) w) (get-compute bs name a.0),
            rw (republish_keeps callback (update_bridges bs d) w),
            rw (republish_keeps callback (update_bridges bs d) w)
                (republish-Republished callback (update_bridges bs d) w),
          ))
    | inr (x, e, a) ↦ rw (e, update_policy_devices) (inr (x, a, refl, refl, refl))
  ]
