-- ===== src/Base/Keeps.antt =====
-- What a call that changes a state leaves as it was.
use mathlib.Core.Path.{◌≡◌, ◌∙◌}
use mathlib.Core.Logic.{inl, inr}
use dra_driver_ovsdpdk_upstr.Base.Results.{Exec, ◌>>=◌, Result-cases}

module _ {T X : Type 0} (see : T → X) where
  -- A call that changes nothing that is seen.
  abbrev pub Keeps : {A : Type 0} → Exec T A → Type 0
  Keeps m = (t : T) → see (m t).1 ≡ see t

  pub bind-Keeps :
      {A B : Type 0} (m : Exec T A) (f : A → Exec T B)
      → Keeps m
      → ((a : A) → Keeps (f a))
      → Keeps (m >>= f)
  bind-Keeps m f km kf t = elim (Result-cases (m t).0) [
    | inl (a, e) ↦ rw e (kf a (m t).1 ∙ km t)
    | inr (inl (x, e)) ↦ rw e (km t)
    | inr (inr e) ↦ rw e (km t)
  ]
