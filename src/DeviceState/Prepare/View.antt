-- ===== src/DeviceState/Prepare/View.antt =====
-- What can be seen of the world: which socket directories exist, and which ports on which bridges.
-- `Tracks` is what the interfaces of pkg/socketfs and pkg/ovs promise about it.
use dra_driver_ovsdpdk_upstr.Base.{
  String, ◌≡◌, ◌⊎◌, inl, inr, Bool, true, false, Option, List, [], ◌∷◌, ◌++◌, is_ok, is_err,
}
use dra_driver_ovsdpdk_upstr.Api.{PreparedDevice, OvsPortParams, VhostUserSpec}
use dra_driver_ovsdpdk_upstr.Backend.{Backend, is_deleted}

pub record View (W : Type 0) : Type 1 where
  -- the paths of socket directories
  pub IsDir : String → Type 0
  pub has_dir : W → String → Bool
  pub has_port : W → String → String → Bool

module _ {W : Type 0} (b : Backend W) where
  -- There are worlds in which the directory cannot be removed.
  abbrev pub DirCanStay : String → Type 0
  DirCanStay p = (w : W) × (is_ok (b.remove_socket_dir p w).0 ≡ false)

  -- There are worlds in which the port cannot be deleted.
  abbrev pub PortCanStay : String → String → Type 0
  PortCanStay bridge port = (w : W) × (is_deleted (b.delete_port bridge port w).0 ≡ false)

-- A call adds at most what it is asked for, and nothing where it returns an error, unless the directory
-- is one that cannot always be removed; a removal that returns no error removes. Each call of one interface leaves
-- what the other shows alone, and the CDI calls leave both alone.
pub record Tracks {W : Type 0} (b : Backend W) (v : View W) : Type 0 where
  pub create_dir :
      (p : String) (spec : Option VhostUserSpec) (w : W) (q : String)
      → v.IsDir p
      → v.IsDir q
      → v.has_dir (b.create_socket_dir p spec w).1 q ≡ true
      → (v.has_dir w q ≡ true)
        ⊎ ((p ≡ q) × ((is_err (b.create_socket_dir p spec w).0 ≡ false) ⊎ DirCanStay b p))
  pub create_dir-port :
      (p : String) (spec : Option VhostUserSpec) (w : W) (br n : String)
      → v.has_port (b.create_socket_dir p spec w).1 br n ≡ v.has_port w br n
  pub remove_dir_gone :
      (p : String) (w : W)
      → is_ok (b.remove_socket_dir p w).0 ≡ true
      → v.has_dir (b.remove_socket_dir p w).1 p ≡ false
  pub remove_dir :
      (p : String) (w : W) (q : String)
      → v.has_dir (b.remove_socket_dir p w).1 q ≡ true
      → v.has_dir w q ≡ true
  pub remove_dir-port :
      (p : String) (w : W) (br n : String)
      → v.has_port (b.remove_socket_dir p w).1 br n ≡ v.has_port w br n
  pub create_port :
      (bridge port socket : String) (params : OvsPortParams) (w : W) (br n : String)
      → v.has_port (b.create_port bridge port socket params w).1 br n ≡ true
      → (v.has_port w br n ≡ true)
        ⊎ ((bridge ≡ br)
            × (port ≡ n)
            × (is_err (b.create_port bridge port socket params w).0 ≡ false))
  pub create_port-dir :
      (bridge port socket : String) (params : OvsPortParams) (w : W) (q : String)
      → v.has_dir (b.create_port bridge port socket params w).1 q ≡ v.has_dir w q
  pub delete_port_gone :
      (bridge port : String) (w : W)
      → is_deleted (b.delete_port bridge port w).0 ≡ true
      → v.has_port (b.delete_port bridge port w).1 bridge port ≡ false
  pub delete_port :
      (bridge port : String) (w : W) (br n : String)
      → v.has_port (b.delete_port bridge port w).1 br n ≡ true
      → v.has_port w br n ≡ true
  pub delete_port-dir :
      (bridge port : String) (w : W) (q : String)
      → v.has_dir (b.delete_port bridge port w).1 q ≡ v.has_dir w q
  pub create_spec-dir :
      (pds : List PreparedDevice) (w : W) (q : String)
      → v.has_dir (b.create_claim_spec_file pds w).1 q ≡ v.has_dir w q
  pub create_spec-port :
      (pds : List PreparedDevice) (w : W) (br n : String)
      → v.has_port (b.create_claim_spec_file pds w).1 br n ≡ v.has_port w br n
  pub delete_spec-dir :
      (uid : String) (w : W) (q : String)
      → v.has_dir (b.delete_claim_spec_file uid w).1 q ≡ v.has_dir w q
  pub delete_spec-port :
      (uid : String) (w : W) (br n : String)
      → v.has_port (b.delete_claim_spec_file uid w).1 br n ≡ v.has_port w br n

abbrev pub DirOf : List PreparedDevice → String → Type 0
DirOf [] q = ⊥
DirOf (pd ∷ pds) q = (pd.mount.host_dir ≡ q) ⊎ DirOf pds q

abbrev pub PortOf : List PreparedDevice → String → String → Type 0
PortOf [] br n = ⊥
PortOf (pd ∷ pds) br n = ((pd.bridge_name ≡ br) × (pd.ovs_port_name ≡ n)) ⊎ PortOf pds br n

pub DirOf-append :
    (pds : List PreparedDevice) (pd : PreparedDevice) (q : String)
    → (pd.mount.host_dir ≡ q) ⊎ DirOf pds q
    → DirOf (pds ++ pd ∷ []) q
DirOf-append [] pd q h = h
DirOf-append (x ∷ pds) pd q (inl e) = inr (DirOf-append pds pd q (inl e))
DirOf-append (x ∷ pds) pd q (inr (inl e)) = inl e
DirOf-append (x ∷ pds) pd q (inr (inr m)) = inr (DirOf-append pds pd q (inr m))

pub PortOf-append :
    (pds : List PreparedDevice) (pd : PreparedDevice) (br n : String)
    → ((pd.bridge_name ≡ br) × (pd.ovs_port_name ≡ n)) ⊎ PortOf pds br n
    → PortOf (pds ++ pd ∷ []) br n
PortOf-append [] pd br n h = h
PortOf-append (x ∷ pds) pd br n (inl e) = inr (PortOf-append pds pd br n (inl e))
PortOf-append (x ∷ pds) pd br n (inr (inl e)) = inl e
PortOf-append (x ∷ pds) pd br n (inr (inr m)) = inr (PortOf-append pds pd br n (inr m))

module _ {W : Type 0} (b : Backend W) (v : View W) (start : W) where
  -- All that the world `w` has was there at the start, or cannot always be removed, or is named by `D` and
  -- `P`.
  pub record Within (D : String → Type 0) (P : String → String → Type 0) (w : W) : Type 0 where
    pub dirs :
        (q : String)
        → v.IsDir q
        → v.has_dir w q ≡ true
        → ((v.has_dir start q ≡ true) ⊎ DirCanStay b q) ⊎ D q
    pub ports :
        (br n : String)
        → v.has_port w br n ≡ true
        → ((v.has_port start br n ≡ true) ⊎ PortCanStay b br n) ⊎ P br n

pub or_right {ℓ} : {A B C : Type ℓ} → (B → C) → A ⊎ B → A ⊎ C
or_right f (inl a) = inl a
or_right f (inr b) = inr (f b)

pub or_settle {ℓ} : {A B C : Type ℓ} → (B → A) → A ⊎ (B ⊎ C) → A ⊎ C
or_settle f (inl a) = inl a
or_settle f (inr (inl b)) = inl (f b)
or_settle f (inr (inr c)) = inr c

pub or_push {ℓ} : {A B C : Type ℓ} → (A ⊎ C) ⊎ B → A ⊎ (B ⊎ C)
or_push (inl (inl a)) = inl a
or_push (inl (inr c)) = inr (inr c)
or_push (inr b) = inr (inl b)
