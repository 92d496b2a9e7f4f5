-- ===== src/Base/Bind.antt =====
-- `do` blocks of functions that may fail and change no state.
use dra_driver_ovsdpdk_upstr.Base.Results.{Result, ok, err, panic}
use mathlib.Core.Path.{◌≡◌, refl}

module _ {ℓ κ} {A : Type ℓ} {B : Type κ} where
  infixl 5 ◌>>=◌ ◌>>◌
  -- The first failure ends the block.
  abbrev pub ◌>>=◌ : Result A → (A → Result B) → Result B
  panic >>= next = panic
  err failed >>= next = err failed
  ok x >>= next = next x

  abbrev pub ◌>>◌ : Result A → Result B → Result B
  first >> second = first >>= λ _. second

  pub >>=-eq-ok :
      (first : Result A) (next : A → Result B) {y : B}
      → (first >>= next) ≡ ok y
      → (x : A) × (first ≡ ok x) × (next x ≡ ok y)
  >>=-eq-ok panic next ends = cc
  >>=-eq-ok (err failed) next ends = cc
  >>=-eq-ok (ok x) next ends = (x, refl, ends)
