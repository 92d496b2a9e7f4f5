-- ===== src/Api/Json.antt =====
-- pkg/api/ovsdpdkdra/v1alpha1/types_ovsdpdkconfig.go: users and groups in JSON, and made from a name or a
-- number. Encoding and decoding a number or a text are calls of encoding/json.
use Prim.Native.Nat.{◌<◌}
use dra_driver_ovsdpdk_upstr.Base.{
  String, ◌≡◌, refl, Option, none, some, ℤ, pos, negsuc, Result, ok, err, msg,
}
use dra_driver_ovsdpdk_upstr.Api.Host.{IdKind, int, string, UserGroupId}

-- What the code calls of encoding/json: `none` is an error.
pub record Json : Type 0 where
  pub marshal_int : ℤ → String
  pub marshal_string : String → String
  pub unmarshal_int32 : String → Option ℤ
  pub unmarshal_string : String → Option String

abbrev from_int32 : ℤ → UserGroupId
from_int32 id = record { kind = int; int_val = id; str_val = "" }

abbrev pub new_user_group_id_from_name : String → UserGroupId
new_user_group_id_from_name name = record { kind = string; int_val = pos 0; str_val = name }

module _ (json : Json) where
  from_text : Option String → Result UserGroupId
  from_text (some name) = ok (new_user_group_id_from_name name)
  from_text none = err (msg "userGroupID must be a string name or an integer ID, got: %s")

  -- A number first, then a text.
  unfoldable pub unmarshal_json : String → Result UserGroupId
  unfolding from_text
  unmarshal_json text = elim (json.unmarshal_int32 text) [
    | some id ↦ ok (from_int32 id)
    | none ↦ from_text (json.unmarshal_string text)
  ]

  marshal_kind : IdKind → UserGroupId → String
  marshal_kind string u = json.marshal_string u.str_val
  marshal_kind int u = json.marshal_int u.int_val

  unfoldable pub marshal_json : UserGroupId → String
  unfolding marshal_kind
  marshal_json u = marshal_kind u.kind u

abbrev pub IsInt32 : ℤ → Type 0
IsInt32 (pos n) = n < 2147483648
IsInt32 (negsuc n) = n < 2147483648

-- What encoding/json promises: what it wrote it reads again, and it reads no quoted text as a number.
pub record ReadsBack (json : Json) : Type 0 where
  pub int : (n : ℤ) → IsInt32 n → json.unmarshal_int32 (json.marshal_int n) ≡ some n
  pub text : (s : String) → json.unmarshal_string (json.marshal_string s) ≡ some s
  pub quoted : (s : String) → json.unmarshal_int32 (json.marshal_string s) ≡ none

-- The value that the kind selects, and nothing else.
unfoldable pub selected : IdKind → UserGroupId → UserGroupId
selected int u = from_int32 u.int_val
selected string u = new_user_group_id_from_name u.str_val

-- Where encoding/json reads back what it wrote, a user or a group that is written and read again has the
-- same kind and the same value of that kind: a name of digits stays a name, and a number a number.
pub unmarshal-marshal :
    (json : Json) (u : UserGroupId)
    → ReadsBack json
    → IsInt32 u.int_val
    → unmarshal_json json (marshal_json json u) ≡ ok (selected u.kind u)
unfolding unmarshal_json marshal_json marshal_kind selected from_text
unmarshal-marshal json u reads range = go u.kind
  where
    go : (k : IdKind) → unmarshal_json json (marshal_kind json k u) ≡ ok (selected k u)
    go int = rw (reads.int u.int_val range, unmarshal_json) refl
    go string = rw (reads.quoted u.str_val, unmarshal_json, reads.text u.str_val) refl
