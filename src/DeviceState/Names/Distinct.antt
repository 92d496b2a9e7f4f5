-- ===== src/DeviceState/Names/Distinct.antt =====
-- Which claims and requests share a socket directory or a port name.
use Prim.Native.Nat.{zero, suc}
use Prim.Native.String.{◌++◌ as append_text}
use Prim.Native.Char.{Char, code}
use Prim.Native.String.append
use text.Mathlib.TextLemmas.{tail-eq_of_cons-eq}
use dra_driver_ovsdpdk_upstr.Base.{
  ◌↔◌, subst, eq_iff, Bool-cases, inl, inr, false, ℕ, String, ◌≡◌, refl, sym, ap, ◌∙◌, [], ◌∷◌,
  Error, ◌≢◌, err, Result, ok, concat, ◌==◌, nat_eq, split, split-append, split-Lacks, Lacks,
  Lacks-append, arith,
}
use dra_driver_ovsdpdk_upstr.Base.Bind.{>>=-eq-ok}
use dra_driver_ovsdpdk_upstr.Base.FilePath.{IsName, join-name}
use dra_driver_ovsdpdk_upstr.Api.{ResourceClaim}
use dra_driver_ovsdpdk_upstr.DeviceState.Names.{
  get_pod_claim_name, get_socket_dir, strip_dashes, first_chars, ovs_port_name,
}

abbrev underscore : Char
underscore = "_"

-- A part of a socket directory's name: Kubernetes allows neither "_" nor "/" in the UID of a pod and
-- in the names of claims and requests.
pub record IsPart (s : String) : Type 0 where
  pub no_underscore : Lacks b'_' s
  pub no_slash : Lacks b'/' s

abbrev dir_name : String → String → String → String
dir_name a b c = concat (a ∷ "_" ∷ b ∷ "_" ∷ c ∷ [])

module _ (a b c : String) (ha : IsPart a) (hb : IsPart b) (hc : IsPart c) where
  split-dir_name : split b'_' (dir_name a b c) ≡ a ∷ b ∷ c ∷ []
  split-dir_name = rw (
    split-append b'_' underscore a (concat (b ∷ "_" ∷ c ∷ [])) refl ha.no_underscore,
    split-append b'_' underscore b c refl hb.no_underscore,
    split-Lacks b'_' c hc.no_underscore,
  )

  -- A text with no underscore is no directory name.
  dir_name_ne : (t : String) → Lacks b'_' t → (dir_name a b c == t) ≡ false
  dir_name_ne t lacks = elim (Bool-cases (dir_name a b c == t)) [
    | inr ne ↦ ne
    | inl same ↦ absurd (
        cc (
          sym split-dir_name
          ∙ ap (split b'_') ((eq_iff (dir_name a b c) t).0 same)
          ∙ split-Lacks b'_' t lacks))
  ]

  dir_name-IsName : IsName (dir_name a b c)
  dir_name-IsName = record {
    one = Lacks-append b'/' a _ ha.no_slash (
        Lacks-append b'/' "_" _ (refl, tt)
          (Lacks-append b'/' b _ hb.no_slash (Lacks-append b'/' "_" c (refl, tt) hc.no_slash)));
    ne_empty = dir_name_ne "" tt;
    ne_dot = dir_name_ne "." (refl, tt);
    ne_up = dir_name_ne ".." (refl, (refl, tt));
  }

append_cancel : (s t u : String) → append_text s t ≡ append_text s u → t ≡ u
append_cancel String.[] t u h = sym (append.nil t) ∙ h ∙ append.nil u
append_cancel (String.◌∷◌ c s) t u h =
    append_cancel s t u (tail-eq_of_cons-eq (sym (append.cons c s t) ∙ h ∙ append.cons c s u))

module _ (annotation : String) where
  get_socket_dir_lem :
      (pod : String) (claim : ResourceClaim) (req : String)
      → IsPart pod
      → IsPart (get_pod_claim_name annotation claim)
      → IsPart req
      → get_socket_dir annotation pod claim req
        ≡ append_text "/var/run/ovsdpdk/" (dir_name pod (get_pod_claim_name annotation claim) req)
  unfolding get_socket_dir
  get_socket_dir_lem pod claim req hp hc hr =
      join-name _ (dir_name-IsName pod (get_pod_claim_name annotation claim) req hp hc hr)

  -- Two socket directories are the same only for the same pod, the same name of the claim in its pod
  -- and the same request, if the pods' UIDs, the names and the requests have no "_" and no "/".
  pub get_socket_dir_injective :
      (pod pod' : String) (claim claim' : ResourceClaim) (req req' : String)
      → IsPart pod
      → IsPart pod'
      → IsPart (get_pod_claim_name annotation claim)
      → IsPart (get_pod_claim_name annotation claim')
      → IsPart req
      → IsPart req'
      → get_socket_dir annotation pod claim req ≡ get_socket_dir annotation pod' claim' req'
      → (pod ≡ pod')
        × (get_pod_claim_name annotation claim ≡ get_pod_claim_name annotation claim')
        × (req ≡ req')
  get_socket_dir_injective pod pod' claim claim' req req' hp hp' hc hc' hr hr' same =
      let n = get_pod_claim_name annotation claim in
      let n' = get_pod_claim_name annotation claim' in
      let names : dir_name pod n req ≡ dir_name pod' n' req' =
        append_cancel "/var/run/ovsdpdk/" _ _ (
          sym (get_socket_dir_lem pod claim req hp hc hr)
          ∙ same
          ∙ get_socket_dir_lem pod' claim' req' hp' hc' hr') in
      let pieces : pod ∷ n ∷ req ∷ [] ≡ pod' ∷ n' ∷ req' ∷ [] =
        sym (split-dir_name pod n req hp hc hr)
        ∙ ap (split b'_') names
        ∙ split-dir_name pod' n' req' hp' hc' hr' in
      (cc pieces, cc pieces, cc pieces)

strip_dashes-Lacks : (s : String) → Lacks b'-' (strip_dashes s)
unfolding strip_dashes
strip_dashes-Lacks String.[] = tt
strip_dashes-Lacks (String.◌∷◌ c s) = elim (Bool-cases (nat_eq (code c) b'-')) [
  | inl dash ↦ rw dash (strip_dashes-Lacks s)
  | inr other ↦ rw other (other, strip_dashes-Lacks s)
]

first_chars-Lacks : (n : ℕ) (s p : String) → Lacks b'-' s → first_chars n s ≡ ok p → Lacks b'-' p
unfolding first_chars
first_chars-Lacks zero s p h e = subst (Lacks b'-') {x = ""} {y = p} (cc e) tt
first_chars-Lacks (suc n) String.[] p h e = cc
first_chars-Lacks (suc n) (String.◌∷◌ c s) p h e =
    let (q, first, rest) = >>=-eq-ok (first_chars n s) _ e in
    subst (Lacks b'-') {x = String.◌∷◌ c q} {y = p} (cc rest)
      (h.0, first_chars-Lacks n s q h.1 first)

abbrev uid_prefix : String → Result String
uid_prefix uid = first_chars 8 (strip_dashes uid)

abbrev dash : Char
dash = "-"

split-port_name :
    (uid p req : String)
    → uid_prefix uid ≡ ok p
    → split b'-' (concat (p ∷ "-" ∷ req ∷ [])) ≡ p ∷ split b'-' req
split-port_name uid p req h =
    split-append b'-' dash p req refl
      (first_chars-Lacks 8 (strip_dashes uid) p (strip_dashes-Lacks uid) h)

-- Two ports have the same name exactly if the requests are the same and the first eight characters of
-- the claims' UIDs, dashes left out, are: the rest of a UID plays no part.
pub ovs_port_name_iff :
    (uid uid' req req' name : String)
    → ovs_port_name uid req ≡ ok name
    → (ovs_port_name uid' req' ≡ ok name)
      ↔ ((first_chars 8 (strip_dashes uid) ≡ first_chars 8 (strip_dashes uid')) × (req ≡ req'))
unfolding ovs_port_name
ovs_port_name_iff uid uid' req req' name h = (forth, back)
  where
    forth : ovs_port_name uid' req' ≡ ok name → (uid_prefix uid ≡ uid_prefix uid') × (req ≡ req')
    forth h' =
        let (p, ep, en) = >>=-eq-ok (uid_prefix uid) _ h in
        let (p', ep', en') = >>=-eq-ok (uid_prefix uid') _ h' in
        let full : concat (p ∷ "-" ∷ req ∷ []) ≡ concat (p' ∷ "-" ∷ req' ∷ []) = cc (en, en') in
        let pieces : p ∷ split b'-' req ≡ p' ∷ split b'-' req' =
          sym (split-port_name uid p req ep)
          ∙ ap (split b'-') full
          ∙ split-port_name uid' p' req' ep' in
        let prefixes : p ≡ p' = cc pieces in
        (
          ep ∙ ap ok prefixes ∙ sym ep',
          append_cancel "-" _ _ (
              append_cancel p _ _
                (full ∙ ap (λ t. append_text t (append_text "-" req')) (sym prefixes))),
        )

    back : (uid_prefix uid ≡ uid_prefix uid') × (req ≡ req') → ovs_port_name uid' req' ≡ ok name
    back (prefixes, requests) = rw (← prefixes, ← requests) h

first_chars-ne-err : (n : ℕ) (s : String) (e : Error) → first_chars n s ≢ err e
unfolding first_chars
first_chars-ne-err zero s e h = cc
first_chars-ne-err (suc n) String.[] e h = cc
first_chars-ne-err (suc n) (String.◌∷◌ c s) e h = ground (arith, first_chars-ne-err n s e)

-- A port name is made, or making it panics.
pub ovs_port_name-ne-err : (uid req : String) (e : Error) → ovs_port_name uid req ≢ err e
unfolding ovs_port_name
ovs_port_name-ne-err uid req e h = ground (arith, first_chars-ne-err 8 (strip_dashes uid) e)
