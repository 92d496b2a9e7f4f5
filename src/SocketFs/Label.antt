-- ===== src/SocketFs/Label.antt =====
-- Which SELinux labels pkg/socketfs/socketfs.go accepts.
use Prim.Native.Char.{Char}
use dra_driver_ovsdpdk_upstr.Base.{
  String, ◌≡◌, refl, sym, ◌↔◌, inl, inr, false, List, [], ◌∷◌, ok, concat, split, split-append,
  split-Lacks, join-split, split-AllLack, AllLack, join_with, colon_of_code, Lacks, ◌==◌,
  Bool-cases, arith,
}
use dra_driver_ovsdpdk_upstr.SocketFs.{validate_selinux_label, checked_parts, is_empty_among}

-- A component of a label: not empty, and with no ":".
abbrev pub IsComponent : String → Type 0
IsComponent s = ((s == "") ≡ false) × Lacks b':' s

-- Four components with ":" between them.
abbrev pub HasForm : String → Type 0
HasForm label =
    (u : String) × (r : String) × (t : String) × (l : String) × IsComponent u
    × IsComponent r
    × IsComponent t
    × IsComponent l
    × (label ≡ concat (u ∷ ":" ∷ r ∷ ":" ∷ t ∷ ":" ∷ l ∷ []))

abbrev colon : Char
colon = ":"

-- What the test of the parts says.
checked-HasForm :
    (label : String) (parts : List String)
    → checked_parts parts ≡ ok tt
    → AllLack b':' parts
    → join_with ":" parts ≡ label
    → HasForm label
unfolding checked_parts is_empty_among join_with
checked-HasForm label [] h all e = absurd (cc h)
checked-HasForm label (a ∷ []) h all e = absurd (cc h)
checked-HasForm label (a ∷ b ∷ []) h all e = absurd (cc h)
checked-HasForm label (a ∷ b ∷ c ∷ []) h all e = absurd (cc h)
checked-HasForm label (a ∷ b ∷ c ∷ d ∷ x ∷ rest) h all e = absurd (cc h)
checked-HasForm label (a ∷ b ∷ c ∷ d ∷ []) h all e =
    elim (Bool-cases (is_empty_among (a ∷ b ∷ c ∷ d ∷ []))) [
      | inl blank ↦ absurd (cc (rw blank at h))
      | inr full ↦ (
        a,
        b,
        c,
        d,
        (ground (arith, full), all.0),
        (ground (arith, full), all.1.0),
        (ground (arith, full), all.1.1.0),
        (ground (arith, full), all.1.1.1.0),
        sym e,
      )
    ]

form-checked : (label : String) → HasForm label → validate_selinux_label label ≡ ok tt
unfolding validate_selinux_label checked_parts is_empty_among
form-checked label (u, r, t, l, hu, hr, ht, hl, e) =
    rw
      (
        e,
        split-append b':' colon u (concat (r ∷ ":" ∷ t ∷ ":" ∷ l ∷ [])) refl hu.1,
        split-append b':' colon r (concat (t ∷ ":" ∷ l ∷ [])) refl hr.1,
        split-append b':' colon t l refl ht.1,
        split-Lacks b':' l hl.1,
        hu.0,
        hr.0,
        ht.0,
        hl.0,
      )
      refl

-- A SELinux label is accepted exactly if it consists of four components, none of them empty and none
-- with a ":", divided by ":". So a label whose level has categories, such as "s0:c1,c2", is not.
pub validate_selinux_label_iff :
    (label : String) → (validate_selinux_label label ≡ ok tt) ↔ HasForm label
unfolding validate_selinux_label
validate_selinux_label_iff label = (
  λ h.
      checked-HasForm label (split b':' label) h (split-AllLack b':' label)
        (join-split b':' colon label colon_of_code),
  form-checked label,
)
