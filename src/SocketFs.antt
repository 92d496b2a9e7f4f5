-- ===== src/SocketFs.antt =====
-- pkg/socketfs: socket directories with their permissions, and the resolver of user and group names
-- with its caches. What the code calls of the operating system is the record Os. Checking and filling a
-- cache are two steps in the code; a resolver is modelled as used by one caller at a time.
pub mod Laws
pub mod Owner
pub mod Label
pub mod Dirs
use dra_driver_ovsdpdk_upstr.Base.{
  ℕ, String, Bool, true, false, ◌||◌, Option, none, some, List, [], ◌∷◌, map, ℤ, pos, negsuc,
  Result, ok, err, panic, Error, msg, wrap, unsupported, Exec, pure, fail, lift, wrapping,
  wrap_result, concat, join_with, split, if◌then◌else◌, ◌==◌, ◌>>=◌, ◌>>◌,
}
use dra_driver_ovsdpdk_upstr.Base.Map
use dra_driver_ovsdpdk_upstr.Base.Map.{Map}
use dra_driver_ovsdpdk_upstr.Api.{UserGroupId, VhostUserSpec, is_name, get_name, get_id}

-- `lookup_user` and `lookup_group` return the number as a text; `unsupported` is the error that
-- `set_xattr` returns where a file system has no extended attributes.
pub record Os (S : Type 0) : Type 0 where
  pub mkdir_all : String → ℕ → Exec S (Unit {0})
  pub chmod : String → ℕ → Exec S (Unit {0})
  pub remove_all : String → Exec S (Unit {0})
  pub chown : String → ℤ → ℤ → Exec S (Unit {0})
  pub set_xattr : String → String → String → Exec S (Unit {0})
  pub lookup_user : String → Exec S String
  pub lookup_group : String → Exec S String
  pub atoi : String → Result ℤ
  pub look_path : String → Exec S String
  pub command : List String → Exec S (Unit {0})

pub record Caches : Type 0 where
  pub users : Map ℤ
  pub groups : Map ℤ

-- 0o775
abbrev dir_mode : ℕ
dir_mode = 509

is_empty_among : List String → Bool
is_empty_among [] = false
is_empty_among (part ∷ parts) = part == "" || is_empty_among parts

checked_parts : List String → Result (Unit {0})
unfolding is_empty_among
checked_parts (a ∷ b ∷ c ∷ d ∷ []) =
    if is_empty_among (a ∷ b ∷ c ∷ d ∷ [])
    then err (msg "invalid SELinux label %q: empty component")
    else ok tt
checked_parts _ = err (msg "invalid SELinux label %q: expected user:role:type:level")

unfoldable pub validate_selinux_label : String → Result (Unit {0})
unfolding checked_parts
validate_selinux_label label = checked_parts (split b':' label)

-- A label that the file system cannot store is passed over.
label_result : Result (Unit {0}) → Result (Unit {0})
label_result (err unsupported) = ok tt
label_result (err e) = err (wrap "set SELinux label %q on %q: %w" e)
label_result (ok a) = ok a
label_result panic = panic

module _ {S : Type 0} (os : Os S) where
  -- `ResolveUID` and `ResolveGID` do the same on their own caches and lookups.
  unfoldable pub resolve_name :
      String → String → (String → Exec S String) → String → Exec (Map ℤ × S) ℤ
  resolve_name lookup_text parse_text lookup name (cache, s) = elim (Map.get cache name) [
    | some id ↦ (ok id, (cache, s))
    | none ↦
        let (text, s') = lookup name s in
        elim text [
          | err e ↦ (err (wrap lookup_text e), (cache, s'))
          | panic ↦ (panic, (cache, s'))
          | ok t ↦ elim (os.atoi t) [
            | err e ↦ (err (wrap parse_text e), (cache, s'))
            | panic ↦ (panic, (cache, s'))
            | ok id ↦ (ok id, (Map.put cache name id, s'))
          ]
        ]
  ]

  -- No user is nil; the result is nil then.
  pub resolve :
      String → String → (String → Exec S String) → Option UserGroupId → Exec (Map ℤ × S) (Option ℤ)
  unfolding resolve_name
  resolve lookup_text parse_text lookup none = pure none
  resolve lookup_text parse_text lookup (some id) = elim (is_name id) [
    | false ↦ lift (get_id id) >>= λ n. pure (some n)
    | true ↦ lift (get_name id) >>= λ name.
        resolve_name lookup_text parse_text lookup name >>= λ n. pure (some n)
  ]

  unfoldable pub resolve_uid : Option UserGroupId → Exec (Caches × S) (Option ℤ)
  unfolding resolve
  resolve_uid id (c, s) =
      let (r, (users, s')) =
        resolve "lookup user %q: %w" "parse uid for user %q: %w" os.lookup_user id (c.users, s) in
      (r, (record c { users = users }, s'))

  unfoldable pub resolve_gid : Option UserGroupId → Exec (Caches × S) (Option ℤ)
  unfolding resolve
  resolve_gid id (c, s) =
      let (r, (groups, s')) =
        resolve "lookup group %q: %w" "parse gid for group %q: %w" os.lookup_group id
          (c.groups, s) in
      (r, (record c { groups = groups }, s'))

  -- A call that does not touch the caches.
  abbrev on_os : {A : Type 0} → Exec S A → Exec (Caches × S) A
  on_os m (c, s) = let (r, s') = m s in (r, (c, s'))

  -- -1 leaves an ID as it is.
  or_same : Option ℤ → ℤ
  or_same none = negsuc 0
  or_same (some id) = id

  chown_to : String → Option ℤ → Option ℤ → Exec S (Unit {0})
  unfolding or_same
  chown_to dir none none = pure tt
  chown_to dir uid gid =
      wrapping "chown %q (uid=%d gid=%d): %w" (os.chown dir (or_same uid) (or_same gid))

  -- The code passes the addresses of the two fields, which are never nil.
  unfoldable pub apply_ownership : String → VhostUserSpec → Exec (Caches × S) (Unit {0})
  unfolding resolve_uid resolve_gid chown_to
  apply_ownership dir spec = do
    uid ← wrapping "resolve user: %w" (resolve_uid (some spec.user))
    gid ← wrapping "resolve group: %w" (resolve_gid (some spec.group))
    on_os (chown_to dir uid gid)

  set_label : String → String → Exec S (Unit {0})
  unfolding validate_selinux_label label_result
  set_label dir label = do
    lift (validate_selinux_label label)
    λ s. let (r, s') = os.set_xattr dir "security.selinux" label s in (label_result r, s')

  apply_selinux_label : String → Option String → Exec S (Unit {0})
  unfolding set_label
  apply_selinux_label dir none = pure tt
  apply_selinux_label dir (some label) = elim (label == "") [
    | true ↦ pure tt
    | false ↦ set_label dir label
  ]

  abbrev acl_spec : List String → String
  acl_spec users = join_with "," (map (λ u. concat ("u:" ∷ u ∷ ":rwx" ∷ [])) users)

  -- `fmt.Errorf("setfacl binary not found")` drops the error of the look-up.
  found : Result String → Result String
  found (err e) = err (msg "setfacl binary not found")
  found r = r

  apply_acls : String → List String → Exec S (Unit {0})
  unfolding found
  apply_acls dir [] = pure tt
  apply_acls dir (user ∷ users) = do
    setfacl ← λ s. let (r, s') = os.look_path "setfacl" s in (found r, s')
    wrapping "setfacl -m %s %q: %w: %s"
        (os.command (setfacl ∷ "-m" ∷ acl_spec (user ∷ users) ∷ dir ∷ []))
    wrapping "setfacl -d -m %s %q: %w: %s"
        (os.command (setfacl ∷ "-d" ∷ "-m" ∷ acl_spec (user ∷ users) ∷ dir ∷ []))

  unfoldable pub apply_permissions : String → Option VhostUserSpec → Exec (Caches × S) (Unit {0})
  unfolding apply_ownership apply_selinux_label apply_acls
  apply_permissions dir none = pure tt
  apply_permissions dir (some spec) = do
    apply_ownership dir spec
    on_os (apply_selinux_label dir spec.selinux_label)
    on_os (apply_acls dir spec.acl_users)

  unfoldable pub remove_socket_dir : String → Exec S (Unit {0})
  remove_socket_dir path = wrapping "remove socket directory %q: %w" (os.remove_all path)

  -- `if err := m; err != nil { _ = s.RemoveSocketDir(path); return … }`
  or_remove : String → String → Exec (Caches × S) (Unit {0}) → Exec (Caches × S) (Unit {0})
  unfolding remove_socket_dir
  or_remove path text m t =
      let (r, (c, s)) = m t in
      elim r [
        | ok a ↦ (ok a, (c, s))
        | err e ↦ (err (wrap text e), (c, (remove_socket_dir path s).1))
        | panic ↦ (panic, (c, s))
      ]

  unfoldable pub create_socket_dir : String → Option VhostUserSpec → Exec (Caches × S) (Unit {0})
  unfolding or_remove apply_permissions
  create_socket_dir path spec = do
    on_os (wrapping "create socket directory %q: %w" (os.mkdir_all path dir_mode))
    or_remove path "chmod socket directory %q: %w" (on_os (os.chmod path dir_mode))
    or_remove path "apply permissions to %q: %w" (apply_permissions path spec)
