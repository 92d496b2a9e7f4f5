-- ===== src/SocketFs/Dirs.antt =====
-- What the calls of pkg/socketfs/socketfs.go and user_resolver.go do to the set of directories.
pub mod Created
use dra_driver_ovsdpdk_upstr.Base.Keeps.{Keeps, bind-Keeps}
use dra_driver_ovsdpdk_upstr.Base.{
  ℕ, String, ◌≡◌, refl, ◌∙◌, ◌⊎◌, inl, inr, Bool, true, false, Option, none, some, List, [], ◌∷◌, ℤ,
  Result, ok, Exec, is_ok, is_err, pure, lift, wrapping, ◌>>=◌, ◌>>◌, Result-cases, Option-cases,
  Bool-cases, ◌==◌, arith,
}
use dra_driver_ovsdpdk_upstr.Base.Map
use dra_driver_ovsdpdk_upstr.Base.Map.{Map}
use dra_driver_ovsdpdk_upstr.Api.{UserGroupId, VhostUserSpec, is_name, get_name, get_id}
use dra_driver_ovsdpdk_upstr.SocketFs.{
  Os, Caches, resolve_name, resolve, resolve_uid, resolve_gid, on_os, chown_to, apply_ownership,
  set_label, apply_selinux_label, found, acl_spec, apply_acls, apply_permissions, or_remove,
  remove_socket_dir, create_socket_dir, validate_selinux_label, label_result,
}

-- What the operating system promises of the directories whose paths are of the kind `IsDir`, such as
-- those in one directory: making one makes no other one, and nothing where it fails; a removal adds
-- nothing, and removes what it is given where it succeeds; the other calls make and remove none.
pub record OsRuns {S : Type 0} (os : Os S) (IsDir : String → Type 0) (has : S → String → Bool)
    : Type 0 where
  pub mkdir_all :
      (p : String) (mode : ℕ) (s : S) (q : String)
      → IsDir p
      → IsDir q
      → has (os.mkdir_all p mode s).1 q ≡ true
      → (has s q ≡ true) ⊎ ((p ≡ q) × (is_err (os.mkdir_all p mode s).0 ≡ false))
  pub remove_gone :
      (p : String) (s : S)
      → is_ok (os.remove_all p s).0 ≡ true
      → has (os.remove_all p s).1 p ≡ false
  pub remove_all :
      (p : String) (s : S) (q : String) → has (os.remove_all p s).1 q ≡ true → has s q ≡ true
  pub chmod : (p : String) (mode : ℕ) (s : S) → has (os.chmod p mode s).1 ≡ has s
  pub chown : (p : String) (u g : ℤ) (s : S) → has (os.chown p u g s).1 ≡ has s
  pub set_xattr : (p k v : String) (s : S) → has (os.set_xattr p k v s).1 ≡ has s
  pub lookup_user : (n : String) (s : S) → has (os.lookup_user n s).1 ≡ has s
  pub lookup_group : (n : String) (s : S) → has (os.lookup_group n s).1 ≡ has s
  pub look_path : (n : String) (s : S) → has (os.look_path n s).1 ≡ has s
  pub command : (args : List String) (s : S) → has (os.command args s).1 ≡ has s

module _ {S : Type 0} (os : Os S) (IsDir : String → Type 0) (has : S → String → Bool)
    (p : OsRuns os IsDir has) where
  abbrev pub seen {ℓ} : {C : Type ℓ} → C × S → String → Bool
  seen t = has t.1

  module _ (t t' : String) (lookup : String → Exec S String)
      (look : (n : String) (s : S) → has (lookup n s).1 ≡ has s) where
    resolve_name-Keeps : (n : String) → Keeps seen (resolve_name os t t' lookup n)
    unfolding resolve_name
    resolve_name-Keeps n (cache, s) = elim (Option-cases (Map.get cache n)) [
      | inr (id, e) ↦ rw (e, resolve_name) refl
      | inl e ↦ elim (Result-cases (lookup n s).0) [
        | inr (inl (x, l)) ↦ rw (e, l, resolve_name) (look n s)
        | inr (inr l) ↦ rw (e, l, resolve_name) (look n s)
        | inl (text, l) ↦ elim (Result-cases (os.atoi text)) [
          | inl (id, a) ↦ rw (e, l, a, resolve_name) (look n s)
          | inr (inl (x, a)) ↦ rw (e, l, a, resolve_name) (look n s)
          | inr (inr a) ↦ rw (e, l, a, resolve_name) (look n s)
        ]
      ]
    ]

    resolve-Keeps : (id : Option UserGroupId) → Keeps seen (resolve os t t' lookup id)
    unfolding resolve
    resolve-Keeps none s = refl
    resolve-Keeps (some id) s = elim (Bool-cases (is_name id)) [
      | inr e ↦ rw (e, resolve) (bind-Keeps seen (lift (get_id id)) _ (λ s. refl) (λ n s. refl) s)
      | inl e ↦
          rw (e, resolve)
            (bind-Keeps seen (lift (get_name id)) _ (λ s. refl)
              (λ name.
                bind-Keeps seen (resolve_name os t t' lookup name) _ (resolve_name-Keeps name)
                  (λ n s. refl))
              s)
    ]

  resolve_uid-Keeps : (id : Option UserGroupId) → Keeps seen (resolve_uid os id)
  unfolding resolve_uid
  resolve_uid-Keeps id (c, s) =
      resolve-Keeps "lookup user %q: %w" "parse uid for user %q: %w" os.lookup_user p.lookup_user id
        (c.users, s)

  resolve_gid-Keeps : (id : Option UserGroupId) → Keeps seen (resolve_gid os id)
  unfolding resolve_gid
  resolve_gid-Keeps id (c, s) =
      resolve-Keeps "lookup group %q: %w" "parse gid for group %q: %w" os.lookup_group
        p.lookup_group id (c.groups, s)

  chown_to-Keeps : (dir : String) (u g : Option ℤ) → Keeps has (chown_to os dir u g)
  unfolding chown_to
  chown_to-Keeps dir none none s = refl
  chown_to-Keeps dir none (some g) s = p.chown _ _ _ s
  chown_to-Keeps dir (some u) g s = p.chown _ _ _ s

  ownership-Keeps : (dir : String) (spec : VhostUserSpec) → Keeps seen (apply_ownership os dir spec)
  unfolding apply_ownership
  ownership-Keeps dir spec =
      bind-Keeps seen (wrapping "resolve user: %w" (resolve_uid os (some spec.user))) _
        (resolve_uid-Keeps (some spec.user))
        (λ u.
          bind-Keeps seen (wrapping "resolve group: %w" (resolve_gid os (some spec.group))) _
            (resolve_gid-Keeps (some spec.group)) (λ g t. chown_to-Keeps dir u g t.1))

  label-Keeps :
      (dir : String) (label : Option String) → Keeps has (apply_selinux_label os dir label)
  unfolding apply_selinux_label set_label
  label-Keeps dir none s = refl
  label-Keeps dir (some label) s = elim (Bool-cases (label == "")) [
    | inl e ↦ rw (e, apply_selinux_label) refl
    | inr e ↦
        rw (e, apply_selinux_label)
          (bind-Keeps has (lift (validate_selinux_label label)) _ (λ s. refl)
            (λ a s. p.set_xattr dir "security.selinux" label s) s)
  ]

  acls-Keeps : (dir : String) (users : List String) → Keeps has (apply_acls os dir users)
  unfolding apply_acls
  acls-Keeps dir [] s = refl
  acls-Keeps dir (user ∷ users) s =
      bind-Keeps has (λ s. let (r, s') = os.look_path "setfacl" s in (found os r, s')) _
        (λ s. p.look_path "setfacl" s)
        (λ setfacl.
          bind-Keeps has (wrapping "setfacl -m %s %q: %w: %s" (os.command _)) _ (λ s. p.command _ s)
            (λ a s. p.command _ s))
        s

  pub permissions-Keeps :
      (dir : String) (spec : Option VhostUserSpec) → Keeps seen (apply_permissions os dir spec)
  unfolding apply_permissions
  permissions-Keeps dir none t = refl
  permissions-Keeps dir (some spec) t =
      bind-Keeps seen (apply_ownership os dir spec) _ (ownership-Keeps dir spec)
        (λ a.
          bind-Keeps seen (on_os os (apply_selinux_label os dir spec.selinux_label)) _
            (λ t. label-Keeps dir spec.selinux_label t.1)
            (λ a t. acls-Keeps dir spec.acl_users t.1))
        t
