-- ===== src/Examples/Nodes.antt =====
-- A node in memory, on concrete inputs: an operating system whose state says which directories exist,
-- and an OVSDB whose state says which ports are on which bridge and where a port's UUID is its name.
use dra_driver_ovsdpdk_upstr.Base.{
  String, ◌≡◌, refl, subst, ◌⊎◌, inl, inr, Bool, true, false, ◌&&◌, none, some, List, [], ◌∷◌, ◌++◌,
  pos, Result, ok, err, Exec, if◌then◌else◌, ◌==◌, eq_iff, Bool-cases, concat, not_found, arith,
}
use dra_driver_ovsdpdk_upstr.DeviceState.Prepare.View.{Tracks}
use dra_driver_ovsdpdk_upstr.Cdi.{CdiCache}
use dra_driver_ovsdpdk_upstr.SocketFs.{Os}
use dra_driver_ovsdpdk_upstr.SocketFs.Dirs.{OsRuns}
use dra_driver_ovsdpdk_upstr.Ovs.Client.{OvsdbClient, Port, Mutator, insert, delete, first_uuid}
use dra_driver_ovsdpdk_upstr.Ovs.Client.Ports.{OvsdbRuns, rejected}
use dra_driver_ovsdpdk_upstr.Wiring.{wired}
use dra_driver_ovsdpdk_upstr.Wiring.Tracked.{node_view, wired-Tracks}
use dra_driver_ovsdpdk_upstr.Examples.Memory.{unmarshal}

abbrev pub Files : Type 0
Files = String → Bool

abbrev pub os : Os Files
os = record {
  mkdir_all = λ p mode s. (ok tt, λ q. if p == q then true else s q);
  chmod = λ p mode s. (ok tt, s);
  remove_all = λ p s. (ok tt, λ q. if p == q then false else s q);
  chown = λ p u g s. (ok tt, s);
  set_xattr = λ p k v s. (ok tt, s);
  lookup_user = λ n s. (ok "107", s);
  lookup_group = λ n s. (err not_found, s);
  atoi = λ t. ok (pos 107);
  look_path = λ p s. (ok p, s);
  command = λ args s. (ok tt, s);
}

made :
    (p q : String) (s : Files)
    → (if p == q then true else s q) ≡ true
    → (s q ≡ true) ⊎ ((p ≡ q) × (false ≡ false))
made p q s h = elim (Bool-cases (p == q)) [
  | inl same ↦ inr ((eq_iff p q).0 same, refl)
  | inr other ↦ inl (rw other at h)
]

abbrev pub has_dir : Files → String → Bool
has_dir s = s

pub os-OsRuns : (IsDir : String → Type 0) → OsRuns os IsDir has_dir
os-OsRuns IsDir = record {
  mkdir_all = λ p mode s q dir is h. made p q s h;
  remove_gone = λ p s done. ground (arith, eq_iff p p);
  remove_all = λ p s q h. ground arith;
  chmod = λ p mode s. refl;
  chown = λ p u g s. refl;
  set_xattr = λ p k v s. refl;
  lookup_user = λ n s. refl;
  lookup_group = λ n s. refl;
  look_path = λ n s. refl;
  command = λ args s. refl;
}

pub data Op : Type 0 where
  new_interface : Op
  new_port : String → Op
  mutate : String → Mutator → List String → Op
  select : String → Op

abbrev pub Ports : Type 0
Ports = String → String → Bool

abbrev pub is_pair : String → String → String → String → Bool
is_pair bridge name br n = bridge == br && name == n

abbrev pub changed : List Op → Ports → Ports
changed (new_interface ∷ new_port name ∷ mutate bridge insert uuids ∷ []) s =
    λ br n. if is_pair bridge name br n then true else s br n
changed (mutate bridge delete (uuid ∷ []) ∷ []) s =
    λ br n. if is_pair bridge uuid br n then false else s br n
changed _ s = s

abbrev pub transact : List Op → Exec Ports (List (Unit {0}))
transact ops s = (ok [], changed ops s)

abbrev pub port : String → Port
port name = record { uuid = name; name = name; tag = none; interfaces = []; external_ids = [] }

abbrev pub selected : List Op → List Port
selected (select name ∷ []) = port name ∷ []
selected _ = []

abbrev pub select_results : List Op → List (Unit {0}) → Result (List Port)
select_results ops rs = ok (selected ops)

abbrev pub client : OvsdbClient Ports Op (Unit {0})
client = record {
  create_interface = λ i. ok (new_interface ∷ []);
  create_port = λ p. ok (new_port p.name ∷ []);
  mutate_ports = λ b k ports. ok (mutate b k ports ∷ []);
  select_port_named = λ n. ok (select n ∷ []);
  select_ports_with_iface = λ u. ok [];
  transact = transact;
  operation_errors = λ rs ops. none;
  select_results = select_results;
  get_bridge = λ n s. (err not_found, s);
  bridges_with_port = λ u s. (ok [], s);
}

-- No port has the empty name.
abbrev pub has_port : Ports → String → String → Bool
has_port s br n = if n == "" then false else s br n

inserted :
    (bridge name br n : String) (s : Ports)
    → (if n == "" then false else if is_pair bridge name br n then true else s br n) ≡ true
    → (has_port s br n ≡ true) ⊎ ((bridge ≡ br) × (name ≡ n) × (false ≡ false))
inserted bridge name br n s h = elim (Bool-cases (is_pair bridge name br n)) [
  | inl same ↦
      inr (
        (eq_iff bridge br).0 (ground (arith, same)),
        (eq_iff name n).0 (ground (arith, same)),
        refl,
      )
  | inr other ↦ inl (rw other at h)
]

abbrev pub uuid_of : Ports → String → String
uuid_of s n = n

abbrev HasIfAdded : String → String → String → String → Ports → List Op → Type 0
HasIfAdded bridge name br n s ops =
    has_port (transact ops s).1 br n ≡ true
    → (has_port s br n ≡ true)
      ⊎ ((bridge ≡ br) × (name ≡ n) × (rejected client (transact ops s).0 ops ≡ false))

port_added :
    (bridge name uuid br n : String) (s : Ports) (a b c : List Op)
    → new_interface ∷ [] ≡ a
    → new_port name ∷ [] ≡ b
    → mutate bridge insert (uuid ∷ []) ∷ [] ≡ c
    → HasIfAdded bridge name br n s ((a ++ b) ++ c)
port_added bridge name uuid br n s a b c ea eb ec =
    let joined : new_interface ∷ new_port name ∷ mutate bridge insert (uuid ∷ []) ∷ []
        ≡ (a ++ b) ++ c =
      rw (← ea, ← eb, ← ec) refl in
    subst (HasIfAdded bridge name br n s) joined (inserted bridge name br n s)

found :
    (n : String) (ops : List Op) (rs : List (Unit {0})) (ports : List Port)
    → select n ∷ [] ≡ ops
    → select_results ops rs ≡ ok ports
    → first_uuid ports ≡ n
unfolding first_uuid
found n ops rs ports e ep =
    let here : ok (port n ∷ []) ≡ ok ports = rw (← e) at ep in
    subst (λ ps. first_uuid ps ≡ n) {x = port n ∷ []} {y = ports} (cc here) refl

deleted :
    (bridge uuid br n : String) (s : Ports)
    → has_port (transact (mutate bridge delete (uuid ∷ []) ∷ []) s).1 br n ≡ true
    → has_port s br n ≡ true
deleted bridge uuid br n s h = ground arith

pub client-OvsdbRuns : OvsdbRuns client has_port uuid_of
client-OvsdbRuns = record {
  insert_port = λ i p bridge a b c s br n ea eb ec.
      port_added bridge p.name p.uuid br n s a b c (cc ea) (cc eb) (cc ec);
  select_keeps = λ n ops s e.
      subst (λ o. (has_port (transact o s).1 ≡ has_port s) × (uuid_of (transact o s).1 ≡ uuid_of s))
        {x = select n ∷ []} {y = ops} (cc e) (refl, refl);
  selected = λ n ops rs ports s e et ep. found n ops rs ports (cc e) ep;
  absent = λ s br n e. ground (arith, eq_iff n "");
  delete_gone = λ bridge n ops s e done.
      subst (λ o. has_port (transact o s).1 bridge n ≡ false)
        {x = mutate bridge delete (n ∷ []) ∷ []} {y = ops} (cc e)
        (ground (arith, eq_iff bridge bridge, eq_iff n n));
  delete_adds_none = λ bridge uuid ops s br n e.
      subst (λ o. has_port (transact o s).1 br n ≡ true → has_port s br n ≡ true)
        {x = mutate bridge delete (uuid ∷ []) ∷ []} {y = ops} (cc e) (deleted bridge uuid br n s);
}

-- The CDI cache counts nothing.
abbrev pub cache : CdiCache (Unit {0})
cache = record {
  qualified_name = λ vendor class name. concat (vendor ∷ "/" ∷ class ∷ "=" ∷ name ∷ []);
  transient_spec_name = λ vendor class name. name;
  write_spec = λ spec name w. (ok tt, w);
  remove_spec = λ name w. (ok tt, w);
}

abbrev pub key : String
key = "resource.kubernetes.io/pod-claim-name"

wired-Tracks_example :
    Tracks
      (wired os client cache key unmarshal (λ status. some status.bridge_name))
      (node_view (λ q. Unit {0}) has_dir has_port)
wired-Tracks_example =
    wired-Tracks os client cache key unmarshal (λ status. some status.bridge_name) (λ q. Unit {0})
      has_dir has_port uuid_of (os-OsRuns (λ q. Unit {0})) client-OvsdbRuns (λ ops s. refl)
