-- ===== src/DevicePlugin/Service/SocketPath.antt =====
-- The socket of each resource.
use Prim.Native.Nat.{◌+◌, ◌≤◌}
use Prim.Native.String.{◌++◌ as append_text}
use Prim.Native.Char.{Char, len_utf8}
use Prim.Native.String.append
use text.Mathlib.TextLemmas.{append_assoc, append_cancel_left, append_cancel_right}
use dra_driver_ovsdpdk_upstr.Base.{
  ℕ, String, ◌≡◌, refl, sym, ap, ◌∙◌, inl, inr, false, [], ◌∷◌, Lacks, Lacks-append, split,
  split-append_both, split-Lacks, concat, Bool-cases, ◌==◌, eq_iff, arith,
}
use dra_driver_ovsdpdk_upstr.Base.FilePath
use dra_driver_ovsdpdk_upstr.Base.FilePath.{IsName}
use dra_driver_ovsdpdk_upstr.Api.{topology_resource_prefix}
use dra_driver_ovsdpdk_upstr.DevicePlugin.Service.{PluginApi, suffix, last_part, socket_path}

-- The length in UTF-8.
unfoldable pub byte_length : String → ℕ
byte_length String.[] = 0
byte_length (String.◌∷◌ c s) = len_utf8 c + byte_length s

byte_length-append : (s t : String) → byte_length (append_text s t) ≡ byte_length s + byte_length t
unfolding byte_length
byte_length-append String.[] t = rw (append.nil t) (omega arith)
byte_length-append (String.◌∷◌ c s) t =
    rw (append.cons c s t) (omega (arith, byte_length-append s t))

-- A resource that a bridge asks for: the prefix and a text without "/".
abbrev pub IsTopologyResource : String → Type 0
IsTopologyResource r =
    (t : String) × (r ≡ concat (topology_resource_prefix ∷ t ∷ [])) × Lacks b'/' t

-- A name that is longer than `u` is not `u`.
ne_shorter : (t u : String) → byte_length u ≤ 4 → (append_text t ".sock" == u) ≡ false
unfolding byte_length
ne_shorter t u short = elim (Bool-cases (append_text t ".sock" == u)) [
  | inr ne ↦ ne
  | inl same ↦
      let it = ap byte_length ((eq_iff (append_text t ".sock") u).0 same) in
      absurd (omega (arith, byte_length-append t ".sock", it))
]

socket-IsName : (t : String) → Lacks b'/' t → IsName (append_text t ".sock")
unfolding byte_length
socket-IsName t lacks = record {
  one = Lacks-append b'/' t ".sock" lacks (refl, (refl, (refl, (refl, (refl, tt)))));
  ne_empty = ne_shorter t "" (omega arith);
  ne_dot = ne_shorter t "." (omega arith);
  ne_up = ne_shorter t ".." (omega arith);
}

abbrev slash : Char
slash = "/"

suffix-prefix :
    (t : String) → Lacks b'/' t → suffix (concat (topology_resource_prefix ∷ t ∷ [])) ≡ t
unfolding suffix last_part
suffix-prefix t lacks = rw (split_resource, suffix) refl
  where
    split_resource :
        split b'/' (concat (topology_resource_prefix ∷ t ∷ []))
        ≡ "ovsdpdk.k8snetworkplumbingwg.io" ∷ t ∷ []
    split_resource =
        ap (split b'/') (append_assoc "ovsdpdk.k8snetworkplumbingwg.io" "/" t)
        ∙ split-append_both b'/' slash "ovsdpdk.k8snetworkplumbingwg.io" t refl
        ∙ ap (λ l. "ovsdpdk.k8snetworkplumbingwg.io" ∷ l) (split-Lacks b'/' t lacks)

abbrev pub documented_path : String
documented_path = "/var/lib/kubelet/device-plugins/"

join_plugins :
    (s : String)
    → IsName s
    → FilePath.join (documented_path ∷ s ∷ []) ≡ append_text documented_path s
unfolding FilePath.join
join_plugins s h =
    rw
      (
        split-append_both b'/' slash documented_path s refl,
        split-Lacks b'/' s h.one,
        h.ne_empty,
        h.ne_dot,
        h.ne_up,
      )
      (simp (← append_assoc))

-- The path of the socket of a resource.
socket_path_lem :
    (plugin : PluginApi) (t : String)
    → plugin.device_plugin_path ≡ documented_path
    → Lacks b'/' t
    → socket_path plugin (concat (topology_resource_prefix ∷ t ∷ []))
      ≡ concat (documented_path ∷ t ∷ ".sock" ∷ [])
unfolding socket_path
socket_path_lem plugin t documented lacks =
    rw (documented, suffix-prefix t lacks)
      (join_plugins (append_text t ".sock") (socket-IsName t lacks))

-- With the kubelet's documented directory, the socket of a topology resource of at most 63 bytes has a
-- path of at most 100 bytes, below the limit of 108 of a Unix socket; and it lies in that directory
-- under the resource's own name.
pub socket_path_bounds :
    (plugin : PluginApi) (t : String)
    → plugin.device_plugin_path ≡ documented_path
    → Lacks b'/' t
    → byte_length t ≤ 63
    → let path = socket_path plugin (concat (topology_resource_prefix ∷ t ∷ [])) in
      (path ≡ concat (documented_path ∷ t ∷ ".sock" ∷ [])) × (byte_length path ≤ 100)
unfolding byte_length
socket_path_bounds plugin t documented lacks short =
    let it = socket_path_lem plugin t documented lacks in
    (
      it,
      rw it (
          omega (
            arith,
            byte_length-append documented_path (append_text t ".sock"),
            byte_length-append t ".sock",
          )),
    )

-- Two topology resources have sockets of their own.
pub socket_path_injective :
    (plugin : PluginApi) (r r' : String)
    → plugin.device_plugin_path ≡ documented_path
    → IsTopologyResource r
    → IsTopologyResource r'
    → socket_path plugin r ≡ socket_path plugin r'
    → r ≡ r'
socket_path_injective plugin r r' documented (t, e, lacks) (t', e', lacks') same =
    let paths =
      sym (ap (socket_path plugin) e ∙ socket_path_lem plugin t documented lacks)
      ∙ same
      ∙ (ap (socket_path plugin) e' ∙ socket_path_lem plugin t' documented lacks') in
    e
    ∙ ap (λ x. concat (topology_resource_prefix ∷ x ∷ []))
        (append_cancel_right t t' ".sock" (append_cancel_left documented_path _ _ paths))
    ∙ sym e'
