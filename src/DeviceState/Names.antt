-- ===== src/DeviceState/Names.antt =====
-- The names that pkg/devicestate/devicestate.go derives from a claim: the claim's name in its pod, the
-- socket directory, the container directory and the OVS port name.
pub mod Distinct
use Prim.Native.Nat.{zero, suc}
use Prim.Native.String
use Prim.Native.Char.{code}
use dra_driver_ovsdpdk_upstr.Base.{
  ℕ, String, Option, none, some, List, [], ◌∷◌, Result, ok, panic, concat, if◌then◌else◌, ◌==◌,
  nat_eq,
}
use dra_driver_ovsdpdk_upstr.Base.Map
use dra_driver_ovsdpdk_upstr.Base.Bind.{◌>>=◌}
use dra_driver_ovsdpdk_upstr.Base.FilePath
use dra_driver_ovsdpdk_upstr.Api.{ResourceClaim, host_root_path}

-- A missing key of a map of texts reads as the empty text.
or_empty : Option String → String
or_empty none = ""
or_empty (some s) = s

-- `annotation` is the key `PodResourceClaimAnnotation` of the Kubernetes API.
module _ (annotation : String) where
  unfoldable pub get_pod_claim_name : ResourceClaim → String
  unfolding or_empty
  get_pod_claim_name claim =
      let annotated = or_empty (Map.get claim.annotations annotation) in
      if annotated == "" then claim.name else annotated

  unfoldable pub get_container_dir : String → ResourceClaim → String → String
  unfolding get_pod_claim_name
  get_container_dir root claim request =
      FilePath.join (root ∷ get_pod_claim_name claim ∷ request ∷ [])

  unfoldable pub get_socket_dir : String → ResourceClaim → String → String
  unfolding get_pod_claim_name
  get_socket_dir pod_uid claim request = FilePath.join (host_root_path ∷ name ∷ [])
    where
      name : String
      name = concat (pod_uid ∷ "_" ∷ get_pod_claim_name claim ∷ "_" ∷ request ∷ [])

-- `strings.ReplaceAll(s, "-", "")`
unfoldable pub strip_dashes : String → String
strip_dashes String.[] = ""
strip_dashes (String.◌∷◌ c s) =
    let rest = strip_dashes s in if nat_eq (code c) b'-' then rest else String.◌∷◌ c rest

-- `s[:n]` of an ASCII text: a run-time panic if the text is shorter.
unfoldable pub first_chars : ℕ → String → Result String
first_chars zero s = ok ""
first_chars (suc n) String.[] = panic
first_chars (suc n) (String.◌∷◌ c s) = first_chars n s >>= λ rest. ok (String.◌∷◌ c rest)

unfoldable pub ovs_port_name : String → String → Result String
unfolding strip_dashes first_chars
ovs_port_name claim_uid request =
    first_chars 8 (strip_dashes claim_uid) >>= λ prefix. ok (concat (prefix ∷ "-" ∷ request ∷ []))
