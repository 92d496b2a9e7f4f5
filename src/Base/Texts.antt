-- ===== src/Base/Texts.antt =====
-- Texts: equality, concatenation, and `strings.Split` at one character.
use Prim.Native.Nat.{ℕ}
use Prim.Native.String.{String, ◌++◌ as append_text}
use Prim.Native.String.append
use mathlib.Core.Path.{◌≡◌, refl, sym, ap, ◌∙◌, subst}
use mathlib.Core.Bool.{true, false}
use mathlib.Core.List.{◌++◌}
use Prim.Native.Char.{Char, char, IsScalar, code}
use native.Mathlib.Omega.{arith}
use dra_driver_ovsdpdk_upstr.Base.Tests.{nat_eq, if◌then◌else◌, Bool-cases}
use mathlib.Core.Logic.{◌≢◌, ◌⊎◌, inl, inr}
use mathlib.Core.List.{List, [], ◌∷◌}
pub use text.Mathlib.Text.{◌==◌}
pub use text.Mathlib.TextEquality.{eq_iff}
pub use text.Mathlib.TextPositions.{eq_refl}

-- Go's `a + b + …` on strings.
abbrev pub concat : List String → String
concat [] = ""
concat (s ∷ []) = s
concat (s ∷ t ∷ rest) = append_text s (concat (t ∷ rest))

-- `strings.Join(parts, sep)`
unfoldable pub join_with : String → List String → String
join_with sep [] = ""
join_with sep (s ∷ []) = s
join_with sep (s ∷ t ∷ rest) = append_text s (append_text sep (join_with sep (t ∷ rest)))

cons_head : Char → List String → List String
cons_head c [] = (String.◌∷◌ c String.[]) ∷ []
cons_head c (s ∷ rest) = (String.◌∷◌ c s) ∷ rest

-- `strings.Split(s, sep)` for a separator of one character: n separators give n + 1 parts.
unfoldable pub split : ℕ → String → List String
unfolding cons_head
split sep String.[] = "" ∷ []
split sep (String.◌∷◌ c s) =
    let parts = split sep s in if nat_eq (code c) sep then "" ∷ parts else cons_head c parts

-- The character `sep` does not occur.
abbrev pub Lacks : ℕ → String → Type 0
Lacks sep String.[] = Unit
Lacks sep (String.◌∷◌ c s) = (nat_eq (code c) sep ≡ false) × Lacks sep s

-- A text with no separator is one part; the first separator after it ends that part.
pub split-Lacks : (sep : ℕ) (s : String) → Lacks sep s → split sep s ≡ s ∷ []
unfolding split
split-Lacks sep String.[] h = refl
split-Lacks sep (String.◌∷◌ c s) h = rw (h.0, split-Lacks sep s h.1)

pub split-append :
    (sep : ℕ) (c : Char) (s t : String)
    → nat_eq (code c) sep ≡ true
    → Lacks sep s
    → split sep (append_text s (append_text (String.◌∷◌ c String.[]) t)) ≡ s ∷ split sep t
unfolding split
split-append sep c String.[] t is h =
    rw (append.nil (append_text (String.◌∷◌ c String.[]) t), append.cons c "" t, append.nil t, is)
split-append sep c (String.◌∷◌ d s) t is h =
    rw
      (append.cons d s (append_text (String.◌∷◌ c String.[]) t), split-append sep c s t is h.1, h.0)

split-ne-nil : (sep : ℕ) (s : String) → split sep s ≢ []
unfolding split
split-ne-nil sep String.[] e = cc
split-ne-nil sep (String.◌∷◌ c s) e = ground (arith, cons_head-ne-nil c (split sep s))
  where
    cons_head-ne-nil : (c : Char) (parts : List String) → cons_head c parts ≢ []
    cons_head-ne-nil c [] e = cc
    cons_head-ne-nil c (s ∷ parts) e = cc

cons_head-append :
    (c : Char) (xs ys : List String) → xs ≢ [] → cons_head c (xs ++ ys) ≡ cons_head c xs ++ ys
unfolding cons_head
cons_head-append c [] ys h = absurd (h refl)
cons_head-append c (x ∷ xs) ys h = refl

-- Splitting goes part by part on both sides of a separator.
pub split-append_both :
    (sep : ℕ) (c : Char) (s t : String)
    → nat_eq (code c) sep ≡ true
    → split sep (append_text s (append_text (String.◌∷◌ c String.[]) t))
      ≡ split sep s ++ split sep t
unfolding split
split-append_both sep c String.[] t is = split-append sep c "" t is tt
split-append_both sep c (String.◌∷◌ d s) t is =
    rw (append.cons d s (append_text (String.◌∷◌ c String.[]) t), split-append_both sep c s t is)
      (ground (arith, cons_head-append d (split sep s) (split sep t) (split-ne-nil sep s)))

pub Lacks-append :
    (sep : ℕ) (s t : String) → Lacks sep s → Lacks sep t → Lacks sep (append_text s t)
Lacks-append sep String.[] t hs ht = rw (append.nil t) ht
Lacks-append sep (String.◌∷◌ c s) t hs ht =
    rw (append.cons c s t) (hs.0, Lacks-append sep s t hs.1 ht)

-- `parts[0]` of `strings.Split`, which gives at least one part.
abbrev pub first_part : List String → String
first_part [] = ""
first_part (part ∷ _) = part

first_part-cons_head :
    (c : Char) (parts : List String)
    → first_part (cons_head c parts) ≡ String.◌∷◌ c (first_part parts)
unfolding cons_head
first_part-cons_head c [] = refl
first_part-cons_head c (s ∷ parts) = refl

-- A text is its first part, or that part, the separator and more.
pub split-first_part :
    (sep : ℕ) (d : Char) (t : String)
    → ((c : Char) → nat_eq (code c) sep ≡ true → c ≡ d)
    → (t ≡ first_part (split sep t))
      ⊎ ((rest : String) × (t
            ≡ append_text (first_part (split sep t)) (append_text (String.◌∷◌ d String.[]) rest)))
unfolding split
split-first_part sep d String.[] only = inl refl
split-first_part sep d (String.◌∷◌ c s) only = elim (Bool-cases (nat_eq (code c) sep)) [
  | inl is ↦ rw is (
      inr (
        s,
        ap (λ x. String.◌∷◌ x s) (only c is)
            ∙ sym (append.nil _ ∙ append.cons d "" s ∙ ap (String.◌∷◌ d) (append.nil s)),
      ))
  | inr other ↦
      rw (other, first_part-cons_head c (split sep s))
        (elim (split-first_part sep d s only) [
          | inl e ↦ inl (ap (String.◌∷◌ c) e)
          | inr (rest, e) ↦ inr (rest, ap (String.◌∷◌ c) e ∙ sym (append.cons c _ _))
        ])
]

join-blank :
    (sep : String) (xs : List String)
    → xs ≢ []
    → join_with sep ("" ∷ xs) ≡ append_text sep (join_with sep xs)
unfolding join_with
join-blank sep [] h = absurd (h refl)
join-blank sep (x ∷ xs) h = append.nil _

join-cons_head :
    (sep : String) (c : Char) (xs : List String)
    → xs ≢ []
    → join_with sep (cons_head c xs) ≡ String.◌∷◌ c (join_with sep xs)
unfolding join_with cons_head
join-cons_head sep c [] h = absurd (h refl)
join-cons_head sep c (x ∷ []) h = refl
join-cons_head sep c (x ∷ y ∷ xs) h = append.cons c x _

-- Joining the parts again gives the text.
pub join-split :
    (sep : ℕ) (d : Char) (s : String)
    → ((c : Char) → nat_eq (code c) sep ≡ true → c ≡ d)
    → join_with (String.◌∷◌ d String.[]) (split sep s) ≡ s
unfolding split join_with
join-split sep d String.[] only = refl
join-split sep d (String.◌∷◌ c s) only =
    let ih = join-split sep d s only in
    elim (Bool-cases (nat_eq (code c) sep)) [
      | inl is ↦ rw is (
          join-blank (String.◌∷◌ d String.[]) (split sep s) (split-ne-nil sep s)
          ∙ append.cons d "" _
          ∙ ap (String.◌∷◌ d) (append.nil _ ∙ ih)
          ∙ ap (λ x. String.◌∷◌ x s) (sym (only c is)))
      | inr other ↦ rw other (
          join-cons_head (String.◌∷◌ d String.[]) c (split sep s) (split-ne-nil sep s)
          ∙ ap (String.◌∷◌ c) ih)
    ]

-- No part has a separator.
abbrev pub AllLack : ℕ → List String → Type 0
AllLack sep [] = Unit
AllLack sep (s ∷ rest) = Lacks sep s × AllLack sep rest

cons_head-AllLack :
    (sep : ℕ) (c : Char) (parts : List String)
    → nat_eq (code c) sep ≡ false
    → AllLack sep parts
    → AllLack sep (cons_head c parts)
unfolding cons_head
cons_head-AllLack sep c [] h all = ((h, tt), tt)
cons_head-AllLack sep c (s ∷ parts) h all = ((h, all.0), all.1)

pub split-AllLack : (sep : ℕ) (s : String) → AllLack sep (split sep s)
unfolding split
split-AllLack sep String.[] = (tt, tt)
split-AllLack sep (String.◌∷◌ c s) = elim (Bool-cases (nat_eq (code c) sep)) [
  | inl is ↦ rw is (tt, split-AllLack sep s)
  | inr other ↦ rw other (cons_head-AllLack sep c (split sep s) other (split-AllLack sep s))
]

-- A character is known by its number.
pub char_of_code :
    (k : ℕ) (p : IsScalar k)
    → ((q : IsScalar k) → q ≡ p)
    → (c : Char) → nat_eq (code c) k ≡ true
    → c ≡ char k p
char_of_code k p unique (char n q) h =
    subst (λ m. (r : IsScalar m) → Char.char m r ≡ char k p) {x = k} {y = n} (ground (arith, h))
      (λ r. ap (char k) (unique r)) q

pub colon_of_code : (c : Char) → nat_eq (code c) b':' ≡ true → c ≡ ":"
colon_of_code = char_of_code b':' tt (λ q. refl)
