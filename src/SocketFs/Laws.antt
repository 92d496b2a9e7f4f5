-- ===== src/SocketFs/Laws.antt =====
-- What a failed creation leaves, and what the caches do.
use dra_driver_ovsdpdk_upstr.Base.{
  String, ◌≡◌, refl, sym, ap, subst, ◌∙◌, ◌⊎◌, inl, inr, Option, ℤ, ok, err, Error, Result-cases,
  Option-cases, Exec, ◌>>◌,
}
use dra_driver_ovsdpdk_upstr.Base.Map
use dra_driver_ovsdpdk_upstr.Base.Map.{Map, get-put_self}
use dra_driver_ovsdpdk_upstr.Api.{VhostUserSpec}
use dra_driver_ovsdpdk_upstr.SocketFs.{
  Os, Caches, on_os, resolve_name, or_remove, remove_socket_dir, apply_permissions,
  create_socket_dir,
}

module _ {S : Type 0} (os : Os S) where
  or_remove-err :
      (path text : String) (m : Exec (Caches × S) (Unit {0})) (t : Caches × S) (e : Error)
      → (or_remove os path text m t).0 ≡ err e
      → (s : S) × ((or_remove os path text m t).1.1 ≡ (os.remove_all path s).1)
  unfolding or_remove remove_socket_dir
  or_remove-err path text m t e h = elim (Result-cases (m t).0) [
    | inl (a, r) ↦ absurd (cc (rw (r, or_remove) at h))
    | inr (inl (x, r)) ↦ rw (r, or_remove) ((m t).1.1, refl)
    | inr (inr r) ↦ absurd (cc (rw (r, or_remove) at h))
  ]

  -- The world that a call leaves which fails.
  abbrev LeavesRemoved : String → Exec (Caches × S) (Unit {0}) → Type 0
  LeavesRemoved path m =
      (t : Caches × S) (e : Error)
      → (m t).0 ≡ err e
      → (s : S) × ((m t).1.1 ≡ (os.remove_all path s).1)

  chain :
      (path : String) (m k : Exec (Caches × S) (Unit {0}))
      → LeavesRemoved path m
      → LeavesRemoved path k
      → LeavesRemoved path (m >> k)
  chain path m k hm hk t e h = elim (Result-cases (m t).0) [
    | inl (a, r) ↦ rw r (hk (m t).1 e (rw r at h))
    | inr (inl (x, r)) ↦ rw r (hm t x r)
    | inr (inr r) ↦ absurd (cc (rw r at h))
  ]

  -- If `CreateSocketDir` fails, either the directory could not be made and nothing was done after that,
  -- or removing the directory is the last thing that was done.
  pub create_error_removes :
      (path : String) (spec : Option VhostUserSpec) (c : Caches) (s : S) (e : Error)
      → (create_socket_dir os path spec (c, s)).0 ≡ err e
      → let s' = (create_socket_dir os path spec (c, s)).1.1 in
        (((x : Error) × ((os.mkdir_all path 509 s).0 ≡ err x)) × (s' ≡ (os.mkdir_all path 509 s).1))
        ⊎ ((before : S) × (s' ≡ (os.remove_all path before).1))
  unfolding create_socket_dir
  create_error_removes path spec c s e h = elim (Result-cases (os.mkdir_all path 509 s).0) [
    | inl (a, made) ↦
        rw (made, create_socket_dir)
          (inr (
            chain path
              (or_remove os path "chmod socket directory %q: %w" (on_os os (os.chmod path 509)))
              (or_remove os path "apply permissions to %q: %w" (apply_permissions os path spec))
              (or_remove-err path "chmod socket directory %q: %w" (on_os os (os.chmod path 509)))
              (or_remove-err path "apply permissions to %q: %w" (apply_permissions os path spec))
              (c, (os.mkdir_all path 509 s).1) e (rw (made, create_socket_dir) at h)))
    | inr (inl (x, made)) ↦ rw (made, create_socket_dir) (inl ((x, refl), refl))
    | inr (inr made) ↦ absurd (cc (rw (made, create_socket_dir) at h))
  ]

  -- An ID that was resolved is answered from the cache afterwards: the same, by no further lookup.
  pub resolve_name_again :
      (t t' : String) (lookup : String → Exec S String) (name : String) (cache : Map ℤ) (s : S)
      (id : ℤ)
      → (resolve_name os t t' lookup name (cache, s)).0 ≡ ok id
      → let after = (resolve_name os t t' lookup name (cache, s)).1 in
        resolve_name os t t' lookup name after ≡ (ok id, after)
  unfolding resolve_name
  resolve_name_again t t' lookup name cache s id h = elim (Option-cases (Map.get cache name)) [
    | inr (n, e) ↦
        let it : n ≡ id = cc (rw (e, resolve_name) at h) in
        let known : Map ℤ × S = (cache, s) in
        let first : resolve_name os t t' lookup name (cache, s) ≡ (ok n, known) =
          rw (e, resolve_name) refl in
        subst (λ r. resolve_name os t t' lookup name r.1 ≡ (ok id, r.1)) (sym first)
          (first ∙ ap (λ x. (ok x, known)) it)
    | inl e ↦ elim (Result-cases (lookup name s).0) [
      | inr (inl (x, l)) ↦ absurd (cc (rw (e, l, resolve_name) at h))
      | inr (inr l) ↦ absurd (cc (rw (e, l, resolve_name) at h))
      | inl (text, l) ↦ elim (Result-cases (os.atoi text)) [
        | inr (inl (x, p)) ↦ absurd (cc (rw (e, l, p, resolve_name) at h))
        | inr (inr p) ↦ absurd (cc (rw (e, l, p, resolve_name) at h))
        | inl (n, p) ↦
            let it : n ≡ id = cc (rw (e, l, p, resolve_name) at h) in
            let filled : Map ℤ × S = (Map.put cache name n, (lookup name s).1) in
            let first : resolve_name os t t' lookup name (cache, s) ≡ (ok n, filled) =
              rw (e, l, p, resolve_name) refl in
            let second : resolve_name os t t' lookup name filled ≡ (ok n, filled) =
              rw (get-put_self cache name n, resolve_name) refl in
            subst (λ r. resolve_name os t t' lookup name r.1 ≡ (ok id, r.1)) (sym first)
              (second ∙ ap (λ x. (ok x, filled)) it)
      ]
    ]
  ]
