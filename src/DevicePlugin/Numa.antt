-- ===== src/DevicePlugin/Numa.antt =====
-- When the bridges of a resource agree on a NUMA node.
use dra_driver_ovsdpdk_upstr.Base.{
  ℕ, String, ◌≡◌, refl, ◌≢◌, ◌↔◌, ◌⊎◌, inl, inr, List, [], ◌∷◌, ℤ, pos, negsuc, All, arith,
}
use dra_driver_ovsdpdk_upstr.DevicePlugin.{numa_of, agree, numa_loop, get_consistent_numa}

-- There are bridges, and each has the one NUMA node `n`.
abbrev pub AgreeOn : (String → List ℤ) → List String → ℕ → Type 0
AgreeOn nodes bridges n = (bridges ≢ []) × All (λ b. nodes b ≡ pos n ∷ []) bridges

numa_of_iff : (xs : List ℤ) (n : ℕ) → (numa_of xs ≡ pos n) ↔ (xs ≡ pos n ∷ [])
unfolding numa_of
numa_of_iff [] n = ground arith
numa_of_iff (pos m ∷ []) n = ground arith
numa_of_iff (negsuc m ∷ []) n = ground arith
numa_of_iff (pos m ∷ y ∷ xs) n = ground arith
numa_of_iff (negsuc m ∷ y ∷ xs) n = ground arith

pub numa-cases : (z : ℤ) → ((m : ℕ) × (z ≡ pos m)) ⊎ ((m : ℕ) × (z ≡ negsuc m))
numa-cases (pos m) = inl (m, refl)
numa-cases (negsuc m) = inr (m, refl)

module _ (nodes : String → List ℤ) where
  loop_iff :
      (m n : ℕ) (bridges : List String)
      → (numa_loop nodes (pos m) bridges ≡ pos n)
        ↔ ((m ≡ n) × All (λ b. nodes b ≡ pos n ∷ []) bridges)
  unfolding numa_loop agree
  loop_iff m n [] = ground arith
  loop_iff m n (b ∷ bridges) =
      ground (arith, numa_of_iff (nodes b) n, numa_of_iff (nodes b) m, loop_iff m n bridges)

  -- `getConsistentNUMA` returns a node exactly if there are bridges and each has that one NUMA node.
  pub get_consistent_numa_iff :
      (bridges : List String) (n : ℕ)
      → (get_consistent_numa nodes bridges ≡ pos n) ↔ AgreeOn nodes bridges n
  unfolding get_consistent_numa numa_loop agree
  get_consistent_numa_iff [] n = ground arith
  get_consistent_numa_iff (b ∷ bridges) n = elim (numa-cases (numa_of (nodes b))) [
    | inl (m, e) ↦
        ground (arith, e, numa_of_iff (nodes b) n, numa_of_iff (nodes b) m, loop_iff m n bridges)
    | inr (m, e) ↦ ground (arith, e, numa_of_iff (nodes b) n)
  ]
