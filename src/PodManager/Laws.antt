-- ===== src/PodManager/Laws.antt =====
-- The cache as a map: what a lookup gives after each operation.
use dra_driver_ovsdpdk_upstr.Base.{
  String, ◌≡◌, inl, inr, none, some, List, Option-cases, ◌==◌, eq_iff, if◌then◌else◌, arith,
}
use dra_driver_ovsdpdk_upstr.Base.Map
use dra_driver_ovsdpdk_upstr.Base.Map.{get-put, get-delete}
use dra_driver_ovsdpdk_upstr.Api.{PreparedDevice}
use dra_driver_ovsdpdk_upstr.PodManager.{PodManager, get, set, delete}

module _ (pods : PodManager) (uid q : String) where
  pub get-set :
      (devices : List PreparedDevice)
      → get (set pods uid devices) q ≡ (if uid == q then some devices else get pods q)
  unfolding get set
  get-set devices = get-put pods uid devices q

  pub get-delete_rest : get (delete pods uid).1 q ≡ (if uid == q then none else get pods q)
  unfolding get delete
  get-delete_rest = elim (Option-cases (Map.get pods uid)) [
    | inl e ↦ rw e (ground (arith, e, eq_iff uid q))
    | inr (ds, e) ↦ rw e (get-delete pods uid q)
  ]

  -- `Delete` returns what `Get` would have returned; afterwards `Get` finds nothing under that UID, and
  -- under every other what it found before.
  pub delete_lem :
      ((delete pods uid).0 ≡ get pods uid)
      × (get (delete pods uid).1 q ≡ (if uid == q then none else get pods q))
  unfolding get delete
  delete_lem = (ground (arith, Option-cases (Map.get pods uid)), get-delete_rest)
