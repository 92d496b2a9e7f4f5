-- ===== src/Base/Map.antt =====
-- Go's maps with string keys, as association lists. A `range` over a map visits the entries in the
-- order of the list: what is proved for every list holds for every order of iteration.
use mathlib.Core.List.{List, [], ◌∷◌, ◌++◌}
use mathlib.Core.Bool.{false}
use mathlib.Core.Logic.{inl, inr}
use mathlib.Core.Option.{Option, none, some}
use mathlib.Core.Path.{◌≡◌, refl, ap, subst}
use Prim.Native.String.{String}
use native.Mathlib.Omega.{arith}
use dra_driver_ovsdpdk_upstr.Base.Tests.{if◌then◌else◌, Bool-cases}
use dra_driver_ovsdpdk_upstr.Base.Lists.{All}
use dra_driver_ovsdpdk_upstr.Base.Texts.{◌==◌, eq_iff, eq_refl}

abbrev pub Map {ℓ} : Type ℓ → Type ℓ
Map V = List (String × V)

module _ {ℓ} {V : Type ℓ} where
  unfoldable pub get : Map V → String → Option V
  get [] k = none
  get ((j, v) ∷ m) k = if j == k then some v else get m k

  unfoldable pub put : Map V → String → V → Map V
  put [] k v = (k, v) ∷ []
  put ((j, w) ∷ m) k v = if j == k then (k, v) ∷ m else (j, w) ∷ put m k v

  unfoldable pub delete : Map V → String → Map V
  delete [] k = []
  delete ((j, w) ∷ m) k = let rest = delete m k in if j == k then rest else (j, w) ∷ rest

  pub get-put :
      (m : Map V) (k : String) (v : V) (j : String)
      → get (put m k v) j ≡ (if k == j then some v else get m j)
  unfolding get put
  get-put [] k v j = refl
  get-put ((i, w) ∷ m) k v j = ground (arith, eq_iff k j, eq_iff i k, eq_iff i j, get-put m k v j)

  pub get-delete :
      (m : Map V) (k j : String) → get (delete m k) j ≡ (if k == j then none else get m j)
  unfolding get delete
  get-delete [] k j = ground arith
  get-delete ((i, w) ∷ m) k j = ground (arith, eq_iff k j, eq_iff i k, eq_iff i j, get-delete m k j)

  pub get-put_self : (m : Map V) (k : String) (v : V) → get (put m k v) k ≡ some v
  get-put_self m k v = simp (get-put, eq_refl)

  pub get-delete_self : (m : Map V) (k : String) → get (delete m k) k ≡ none
  get-delete_self m k = simp (get-delete, eq_refl)

pub ruleset map_laws = (get-put, get-delete, eq_refl)

-- No entry has the key; no key stands twice.
abbrev pub Fresh {ℓ} : {V : Type ℓ} → String → Map V → Type 0
Fresh k [] = Unit
Fresh k ((j, v) ∷ m) = ((j == k) ≡ false) × Fresh k m

abbrev pub Keyed {ℓ} : {V : Type ℓ} → Map V → Type 0
Keyed [] = Unit
Keyed ((j, v) ∷ m) = Fresh j m × Keyed m

module _ {ℓ} {V : Type ℓ} where
  pub get-Fresh : (m : Map V) (k : String) → Fresh k m → get m k ≡ none
  unfolding get
  get-Fresh [] k f = refl
  get-Fresh ((j, v) ∷ m) k f = rw f.0 (get-Fresh m k f.1)

  Fresh-put :
      (m : Map V) (k : String) (v : V) (j : String)
      → (k == j) ≡ false
      → Fresh j m
      → Fresh j (put m k v)
  unfolding put
  Fresh-put [] k v j ne f = (ne, tt)
  Fresh-put ((i, w) ∷ m) k v j ne f =
      let later = Fresh-put m k v j ne f.1 in ground (arith, later, f, ne)

  pub Keyed-put : (m : Map V) (k : String) (v : V) → Keyed m → Keyed (put m k v)
  unfolding put
  Keyed-put [] k v keyed = (tt, tt)
  Keyed-put ((i, w) ∷ m) k v keyed = elim (Bool-cases (i == k)) [
    | inl same ↦ rw (same, put) (subst (λ j. Fresh j m) ((eq_iff i k).0 same) keyed.0, keyed.1)
    | inr other ↦
        rw (other, put)
          (
            Fresh-put m k v i (ground (arith, other, eq_iff i k, eq_iff k i)) keyed.0,
            Keyed-put m k v keyed.1,
          )
  ]

  Fresh-delete : (m : Map V) (k j : String) → Fresh j m → Fresh j (delete m k)
  unfolding delete
  Fresh-delete [] k j f = tt
  Fresh-delete ((i, w) ∷ m) k j f = let later = Fresh-delete m k j f.1 in ground (arith, later, f)

  pub Keyed-delete : (m : Map V) (k : String) → Keyed m → Keyed (delete m k)
  unfolding delete
  Keyed-delete [] k keyed = tt
  Keyed-delete ((i, w) ∷ m) k keyed = elim (Bool-cases (i == k)) [
    | inl same ↦ rw (same, delete) (Keyed-delete m k keyed.1)
    | inr other ↦ rw (other, delete) (Fresh-delete m k i keyed.0, Keyed-delete m k keyed.1)
  ]

module _ {ℓ} {V : Type ℓ} where
  -- A new key is put at the end.
  pub put-new : (m : Map V) (k : String) (v : V) → get m k ≡ none → put m k v ≡ m ++ (k, v) ∷ []
  unfolding get put
  put-new [] k v new = refl
  put-new ((j, w) ∷ m) k v new = elim (Bool-cases (j == k)) [
    | inl same ↦ absurd (cc (rw (same, get) at new))
    | inr other ↦ rw (other, put) (ap (λ l. (j, w) ∷ l) (put-new m k v (rw (other, get) at new)))
  ]

-- A predicate on the entries is kept where an entry that has it is put, and where entries are deleted.
module _ {ℓ κ} {V : Type ℓ} (P : String × V → Type κ) where
  pub All-put : (m : Map V) (k : String) (v : V) → All P m → P (k, v) → All P (put m k v)
  unfolding put
  All-put [] k v all p = (p, tt)
  All-put ((j, w) ∷ m) k v all p = elim (Bool-cases (j == k)) [
    | inl same ↦ rw (same, put) (p, all.1)
    | inr other ↦ rw (other, put) (all.0, All-put m k v all.1 p)
  ]

  pub All-delete : (m : Map V) (k : String) → All P m → All P (delete m k)
  unfolding delete
  All-delete [] k all = tt
  All-delete ((j, w) ∷ m) k all = elim (Bool-cases (j == k)) [
    | inl same ↦ rw (same, delete) (All-delete m k all.1)
    | inr other ↦ rw (other, delete) (all.0, All-delete m k all.1)
  ]

  pub All-get : (m : Map V) (k : String) (v : V) → All P m → get m k ≡ some v → P (k, v)
  unfolding get
  All-get [] k v all h = cc h
  All-get ((j, w) ∷ m) k v all h = elim (Bool-cases (j == k)) [
    | inl same ↦
        let it : w ≡ v = cc (rw (same, get) at h) in
        subst (λ x. P (k, x)) it (subst (λ i. P (i, w)) ((eq_iff j k).0 same) all.0)
    | inr other ↦ All-get m k v all.1 (rw (other, get) at h)
  ]
