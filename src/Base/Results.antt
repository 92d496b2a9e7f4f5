-- ===== src/Base/Results.antt =====
-- Errors, results and effects. An error keeps the format text that the source gives it, its
-- arguments left out, and the error that it wraps by `%w`; the two sentinel errors of pkg/ovs/errors.go
-- and the causes that come from outside are constructors. A run-time panic is a result of its own,
-- which no `if err != nil` catches.
use Prim.Native.String.{String}
use mathlib.Core.Path.{◌≡◌, refl}
use mathlib.Core.Logic.{◌⊎◌, inl, inr}
use mathlib.Core.Bool.{Bool, true, false, ◌||◌}
use mathlib.Core.Option.{Option, none, some}
use mathlib.Core.List.{List, [], ◌∷◌}

mutual
  pub data Error : Type 0 where
    err_port_not_found err_bridge_not_found not_found conflict unsupported : Error
    external : String → Error
    msg : String → Error
    wrap : String → Error → Error
    joined : Errors → Error

  pub data Errors : Type 0 where
    end : Errors
    also : Error → Errors → Errors

abbrev to_errors : List Error → Errors
to_errors [] = end
to_errors (e ∷ es) = also e (to_errors es)

-- `errors.Join`: nil if there is no error.
unfoldable pub join_errors : List Error → Option Error
join_errors [] = none
join_errors (e ∷ es) = some (joined (to_errors (e ∷ es)))

-- The same of a first error and others.
unfoldable pub join_error : Error → List Error → Error
join_error e es = joined (to_errors (e ∷ es))

-- `errors.Is(err, ErrPortNotFound)`, through wrapped and joined errors.
unfoldable mutual
  pub is_port_not_found : Error → Bool
  is_port_not_found err_port_not_found = true
  is_port_not_found (wrap _ e) = is_port_not_found e
  is_port_not_found (joined es) = any_port_not_found es
  is_port_not_found _ = false

  pub any_port_not_found : Errors → Bool
  any_port_not_found end = false
  any_port_not_found (also e es) = is_port_not_found e || any_port_not_found es

pub data Result {ℓ} (A : Type ℓ) : Type ℓ where
  ok : A → Result A
  err : Error → Result A
  panic : Result A

-- A call that changes a state of type `W` and returns a value, an error or a panic.
abbrev pub Exec {ℓ κ} : Type ℓ → Type κ → Type (ℓ ⊔ κ)
Exec W A = W → Result A × W

module _ {ℓ κ} {W : Type ℓ} {A : Type κ} where
  abbrev pub pure : A → Exec W A
  pure a w = (ok a, w)

  abbrev pub fail : Error → Exec W A
  fail e w = (err e, w)

  abbrev pub lift : Result A → Exec W A
  lift r w = (r, w)

module _ {ℓ κ} {W : Type ℓ} {A B : Type κ} where
  abbrev pub and_then : Result A → (A → Exec W B) → Exec W B
  and_then (ok a) f w = f a w
  and_then (err e) f w = (err e, w)
  and_then panic f w = (panic, w)

  infixl 5 ◌>>=◌ ◌>>◌
  -- `x, err := m; if err != nil { return err }; …`
  abbrev pub ◌>>=◌ : Exec W A → (A → Exec W B) → Exec W B
  ◌>>=◌ m f w = let (r, w') = m w in and_then r f w'

  abbrev pub ◌>>◌ : Exec W A → Exec W B → Exec W B
  m >> k = m >>= λ _. k

abbrev pub wrap_result {ℓ} : {A : Type ℓ} → String → Result A → Result A
wrap_result text (err e) = err (wrap text e)
wrap_result text (ok a) = ok a
wrap_result text panic = panic

module _ {ℓ κ} {W : Type ℓ} {A : Type κ} where
  -- `return fmt.Errorf("text: %w", err)` where `m` fails
  abbrev pub wrapping : String → Exec W A → Exec W A
  wrapping text m w = let (r, w') = m w in (wrap_result text r, w')

-- The error that a call returns, nil where it succeeds.
abbrev pub error_of {ℓ} : {A : Type ℓ} → Result A → Option Error
error_of (err e) = some e
error_of _ = none

abbrev pub is_ok {ℓ} : {A : Type ℓ} → Result A → Bool
is_ok (ok _) = true
is_ok _ = false

abbrev pub is_err {ℓ} : {A : Type ℓ} → Result A → Bool
is_err (err e) = true
is_err _ = false

abbrev pub of_error : Option Error → Result (Unit {0})
of_error none = ok tt
of_error (some e) = err e

pub Result-cases {ℓ} :
    {A : Type ℓ} (r : Result A)
    → ((a : A) × (r ≡ ok a)) ⊎ (((e : Error) × (r ≡ err e)) ⊎ (r ≡ panic))
Result-cases (ok a) = inl (a, refl)
Result-cases (err e) = inr (inl (e, refl))
Result-cases panic = inr (inr refl)
