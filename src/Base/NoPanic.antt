-- ===== src/Base/NoPanic.antt =====
-- Calls that end without a run-time panic.
use mathlib.Core.Logic.{◌≢◌, inl, inr}
use Prim.Native.String.{String}
use dra_driver_ovsdpdk_upstr.Base.Results.{
  Result, panic, Exec, and_then, lift, wrapping, ◌>>=◌, Result-cases,
}

abbrev pub NoPanic : {W A : Type 0} → Exec W A → Type 0
NoPanic {W = W} m = (w : W) → (m w).0 ≢ panic

pub lift-NoPanic : {A : Type 0} (W : Type 0) (r : Result A) → r ≢ panic → NoPanic {W = W} (lift r)
lift-NoPanic W r h w = h

pub bind-NoPanic :
    {W A B : Type 0} (m : Exec W A) (f : A → Exec W B)
    → NoPanic m
    → ((a : A) → NoPanic (f a))
    → NoPanic (m >>= f)
bind-NoPanic m f hm hf w = elim (Result-cases (m w).0) [
  | inl (a, e) ↦ rw (e, and_then) (hf a (m w).1)
  | inr (inl (x, e)) ↦ rw (e, and_then) (λ same. cc same)
  | inr (inr e) ↦ absurd (hm w e)
]

pub wrapping-NoPanic :
    {W A : Type 0} (text : String) (m : Exec W A) → NoPanic m → NoPanic (wrapping text m)
wrapping-NoPanic text m h w = elim (Result-cases (m w).0) [
  | inl (a, e) ↦ rw (e, wrapping) (λ same. cc same)
  | inr (inl (x, e)) ↦ rw (e, wrapping) (λ same. cc same)
  | inr (inr e) ↦ absurd (h w e)
]
