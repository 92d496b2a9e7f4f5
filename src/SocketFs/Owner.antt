-- ===== src/SocketFs/Owner.antt =====
-- Whom a socket directory is given to.
use dra_driver_ovsdpdk_upstr.Base.{
  String, ◌≡◌, refl, ◌⊎◌, inl, inr, false, some, ℤ, ok, Exec, wrap_result,
}
use dra_driver_ovsdpdk_upstr.Base.Map.{Map}
use dra_driver_ovsdpdk_upstr.Api.{UserGroupId, VhostUserSpec, IdKind, int, string, is_name, get_id}
use dra_driver_ovsdpdk_upstr.SocketFs.{
  Os, Caches, resolve, resolve_uid, resolve_gid, chown_to, apply_ownership,
}

kind-cases : (k : IdKind) → (k ≡ int) ⊎ (k ≡ string)
kind-cases int = inl refl
kind-cases string = inr refl

id_is_no_name : (id : UserGroupId) (n : ℤ) → get_id id ≡ ok n → is_name id ≡ false
unfolding get_id is_name
id_is_no_name id n h = elim (kind-cases id.kind) [
  | inl e ↦ rw e refl
  | inr e ↦ absurd (cc (rw e at h))
]

module _ {S : Type 0} (os : Os S) where
  resolve_id :
      (t t' : String) (lookup : String → Exec S String) (id : UserGroupId) (n : ℤ) (m : Map ℤ)
      (s : S)
      → get_id id ≡ ok n
      → resolve os t t' lookup (some id) (m, s) ≡ (ok (some n), (m, s))
  unfolding resolve
  resolve_id t t' lookup id n m s h = rw (id_is_no_name id n h, h, resolve) refl

  -- If the user and the group are given as numbers, `applyOwnership` gives the directory to just these
  -- two, also where both are 0, the value of a field that was left out, and looks nothing up.
  pub apply_ownership_ids :
      (dir : String) (spec : VhostUserSpec) (u g : ℤ) (c : Caches) (s : S)
      → get_id spec.user ≡ ok u
      → get_id spec.group ≡ ok g
      → apply_ownership os dir spec (c, s) ≡ (
        wrap_result "chown %q (uid=%d gid=%d): %w" (os.chown dir u g s).0,
        (c, (os.chown dir u g s).1),
      )
  unfolding apply_ownership resolve_uid resolve_gid chown_to
  apply_ownership_ids dir spec u g c s hu hg =
      rw
        (
          resolve_id "lookup user %q: %w" "parse uid for user %q: %w" os.lookup_user spec.user u
              c.users s hu,
          resolve_id "lookup group %q: %w" "parse gid for group %q: %w" os.lookup_group spec.group g
              c.groups s hg,
          apply_ownership,
          resolve_uid,
          resolve_gid,
          chown_to,
        )
        refl
