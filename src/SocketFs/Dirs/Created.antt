-- ===== src/SocketFs/Dirs/Created.antt =====
-- Which directories there are after `CreateSocketDir`.
use dra_driver_ovsdpdk_upstr.Base.{
  String, ◌≡◌, refl, ◌⊎◌, inl, inr, Bool, true, false, Option, Exec, is_ok, is_err, ◌>>◌,
  Result-cases, Bool-cases, arith,
}
use dra_driver_ovsdpdk_upstr.Api.{VhostUserSpec}
use dra_driver_ovsdpdk_upstr.SocketFs.{
  Os, Caches, on_os, apply_permissions, or_remove, remove_socket_dir, create_socket_dir,
}
use dra_driver_ovsdpdk_upstr.SocketFs.Dirs.{OsRuns, seen, permissions-Keeps}
use dra_driver_ovsdpdk_upstr.Base.Keeps.{Keeps}

module _ {S : Type 0} (os : Os S) (IsDir : String → Type 0) (has : S → String → Bool)
    (p : OsRuns os IsDir has) where
  -- There are states in which the directory cannot be removed.
  abbrev pub Stays : String → Type 0
  Stays path = (s : S) × (is_ok (os.remove_all path s).0 ≡ false)

  -- What a step that removes the directory where it fails shows afterwards.
  abbrev Shown : String → Exec (Caches × S) (Unit {0}) → Type 0
  Shown path m =
      (t : Caches × S) (q : String)
      → has (m t).1.1 q ≡ true
      → (has t.1 q ≡ true) × ((is_err (m t).0 ≡ false) ⊎ (path ≡ q → Stays path))

  or_remove-Shown :
      (path text : String) (m : Exec (Caches × S) (Unit {0}))
      → Keeps (seen os IsDir has p) m
      → Shown path (or_remove os path text m)
  unfolding or_remove remove_socket_dir
  or_remove-Shown path text m km t q h = elim (Result-cases (m t).0) [
    | inl (a, e) ↦ (rw (← km t) (rw (e, or_remove) at h), rw (e, or_remove) (inl refl))
    | inr (inr e) ↦ (rw (← km t) (rw (e, or_remove) at h), rw (e, or_remove) (inl refl))
    | inr (inl (x, e)) ↦
        let left : has (os.remove_all path (m t).1.1).1 q ≡ true = rw (e, or_remove) at h in
        (
          rw (← km t) (p.remove_all path (m t).1.1 q left),
          inr (λ same. elim (Bool-cases (is_ok (os.remove_all path (m t).1.1).0)) [
            | inl done ↦ absurd (cc (p.remove_gone path (m t).1.1 done, same, left))
            | inr not_done ↦ ((m t).1.1, not_done)
          ]),
        )
  ]

  then-Shown :
      (path : String) (m k : Exec (Caches × S) (Unit {0}))
      → Shown path m
      → Shown path k
      → Shown path (m >> k)
  then-Shown path m k hm hk t q h = elim (Result-cases (m t).0) [
    | inl (a, e) ↦ let (before, why) = hk (m t).1 q (rw e at h) in ((hm t q before).0, rw e why)
    | inr (inl (x, e)) ↦ let (before, why) = hm t q (rw e at h) in (before, rw e (rw e at why))
    | inr (inr e) ↦ let (before, why) = hm t q (rw e at h) in (before, rw e (rw e at why))
  ]

  -- A directory that is there after `CreateSocketDir` was there before; or it is the one to be made, and
  -- there was no error, or it cannot always be removed.
  pub create_socket_dir_lem :
      (path : String) (spec : Option VhostUserSpec) (c : Caches) (s : S) (q : String)
      → IsDir path
      → IsDir q
      → let t = create_socket_dir os path spec (c, s) in
        has t.1.1 q ≡ true → (has s q ≡ true) ⊎ ((path ≡ q) × ((is_err t.0 ≡ false) ⊎ Stays path))
  unfolding create_socket_dir
  create_socket_dir_lem path spec c s q dir is h = elim (Result-cases (os.mkdir_all path 509 s).0) [
    | inl (a, made) ↦
        let rest =
          then-Shown path
            (or_remove os path "chmod socket directory %q: %w" (on_os os (os.chmod path 509)))
            (or_remove os path "apply permissions to %q: %w" (apply_permissions os path spec))
            (or_remove-Shown path "chmod socket directory %q: %w" (on_os os (os.chmod path 509))
              (λ t. p.chmod path 509 t.1))
            (or_remove-Shown path "apply permissions to %q: %w" (apply_permissions os path spec)
              (permissions-Keeps os IsDir has p path spec)) in
        let (before, why) =
          rest (c, (os.mkdir_all path 509 s).1) q (rw (made, create_socket_dir) at h) in
        elim (p.mkdir_all path 509 s q dir is before) [
          | inl old ↦ inl old
          | inr (same, done) ↦ inr (
            same,
            elim why [ inl fine ↦ inl (rw (made, create_socket_dir) fine) | inr f ↦ inr (f same) ],
          )
        ]
    | inr (inl (x, made)) ↦
        elim (p.mkdir_all path 509 s q dir is (rw (made, create_socket_dir) at h)) [
          | inl old ↦ inl old
          | inr (same, done) ↦ absurd (ground (arith, made, done))
        ]
    | inr (inr made) ↦ elim (p.mkdir_all path 509 s q dir is (rw (made, create_socket_dir) at h)) [
      | inl old ↦ inl old
      | inr (same, done) ↦ inr (same, inl (rw (made, create_socket_dir) refl))
    ]
  ]
