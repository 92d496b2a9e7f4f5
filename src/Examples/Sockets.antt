-- ===== src/Examples/Sockets.antt =====
-- A file system on which the mode of a directory cannot be changed, and one user, on concrete inputs.
use dra_driver_ovsdpdk_upstr.Base.{
  wrap_result, String, ◌≡◌, refl, none, List, [], ◌∷◌, pos, ok, err, unsupported, not_found,
}
use dra_driver_ovsdpdk_upstr.SocketFs.{apply_ownership, Os, Caches}
use dra_driver_ovsdpdk_upstr.SocketFs.Owner.{apply_ownership_ids}
use dra_driver_ovsdpdk_upstr.Api.{VhostUserSpec, zero_user_group_id, get_id}

-- The world is the list of the directories.
abbrev os : Os (List String)
os = record {
  mkdir_all = λ p mode s. (ok tt, p ∷ s);
  chmod = λ p mode s. (err unsupported, s);
  remove_all = λ p s. (ok tt, []);
  chown = λ p u g s. (ok tt, s);
  set_xattr = λ p k v s. (ok tt, s);
  lookup_user = λ n s. (ok "107", s);
  lookup_group = λ n s. (err not_found, s);
  atoi = λ t. ok (pos 107);
  look_path = λ p s. (ok p, s);
  command = λ args s. (ok tt, s);
}

abbrev caches : Caches
caches = record { users = []; groups = [] }

-- A configuration that leaves the user and the group out: the directory goes to root.
abbrev no_owner : VhostUserSpec
no_owner = record {
  container_root_path = "";
  user = zero_user_group_id;
  group = zero_user_group_id;
  selinux_label = none;
  acl_users = [];
}

is_zero : get_id zero_user_group_id ≡ ok (pos 0)
unfolding get_id
is_zero = refl

apply_ownership_ids_example : apply_ownership os "/var/run/ovsdpdk/a" no_owner (caches, []) ≡ (
  wrap_result "chown %q (uid=%d gid=%d): %w" (os.chown "/var/run/ovsdpdk/a" (pos 0) (pos 0) []).0,
  (caches, (os.chown "/var/run/ovsdpdk/a" (pos 0) (pos 0) []).1),
)
apply_ownership_ids_example =
    apply_ownership_ids os "/var/run/ovsdpdk/a" no_owner (pos 0) (pos 0) caches [] is_zero is_zero
