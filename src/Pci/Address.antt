-- ===== src/Pci/Address.antt =====
-- Which texts `ParseDevargs` takes an address from.
use Prim.Native.Nat.{zero, suc}
use Prim.Native.String.{◌++◌ as append_text}
use Prim.Native.Char.{Char, code}
use Prim.Native.String.append
use dra_driver_ovsdpdk_upstr.Base.{
  ℕ, String, ◌≡◌, refl, sym, ap, ◌∙◌, subst, ◌⊎◌, inl, inr, ◌↔◌, true, List, [], ◌∷◌, ok,
  Bool-cases, split, Lacks, split-Lacks, split-append, Lacks-append, concat, first_part,
  char_of_code, colon_of_code, split-first_part, nat_eq, arith,
}
use dra_driver_ovsdpdk_upstr.Pci.{
  Place, hex, colon, dot, is_hex, fits, matches, pci_addr_re, parse_devargs,
}

-- A text of `n` hexadecimal digits.
abbrev pub IsHex : ℕ → String → Type 0
IsHex zero String.[] = Unit
IsHex zero (String.◌∷◌ c s) = ⊥
IsHex (suc n) String.[] = ⊥
IsHex (suc n) (String.◌∷◌ c s) = (is_hex (code c) ≡ true) × IsHex n s

-- The parts of a PCI address, and how they are written.
pub record PciAddress : Type 0 where
  pub domain : String
  pub bus : String
  pub slot : String
  pub function : String

abbrev pub print : PciAddress → String
print a = concat (a.domain ∷ ":" ∷ a.bus ∷ ":" ∷ a.slot ∷ "." ∷ a.function ∷ [])

pub record IsCanonical (a : PciAddress) : Type 0 where
  pub domain : IsHex 4 a.domain
  pub bus : IsHex 2 a.bus
  pub slot : IsHex 2 a.slot
  pub function : IsHex 1 a.function

abbrev hexes : ℕ → List Place → List Place
hexes zero ps = ps
hexes (suc n) ps = hex ∷ hexes n ps

matches-hexes :
    (n : ℕ) (ps : List Place) (s t : String)
    → IsHex n s
    → matches (hexes n ps) (append_text s t) ≡ matches ps t
unfolding matches
matches-hexes zero ps String.[] t h = rw (append.nil t) refl
matches-hexes zero ps (String.◌∷◌ c s) t h = elim h [ ]
matches-hexes (suc n) ps String.[] t h = elim h [ ]
matches-hexes (suc n) ps (String.◌∷◌ c s) t h =
    rw (append.cons c s t, h.0) (matches-hexes n ps s t h.1)

hex-Lacks : (n : ℕ) (s : String) → IsHex n s → Lacks b',' s
hex-Lacks zero String.[] h = tt
hex-Lacks zero (String.◌∷◌ c s) h = elim h [ ]
hex-Lacks (suc n) String.[] h = elim h [ ]
hex-Lacks (suc n) (String.◌∷◌ c s) h = (ground (arith, h.0), hex-Lacks n s h.1)

matches_end : (n : ℕ) (s : String) → IsHex n s → matches (hexes n []) s ≡ true
unfolding matches
matches_end zero String.[] h = refl
matches_end zero (String.◌∷◌ c s) h = elim h [ ]
matches_end (suc n) String.[] h = elim h [ ]
matches_end (suc n) (String.◌∷◌ c s) h = rw h.0 (matches_end n s h.1)

matches_char :
    (p : Place) (ps : List Place) (c : Char) (t : String)
    → fits p (code c) ≡ true
    → matches (p ∷ ps) (append_text (String.◌∷◌ c String.[]) t) ≡ matches ps t
unfolding matches
matches_char p ps c t h = rw (append.cons c "" t, append.nil t, h) refl

module _ (a : PciAddress) (h : IsCanonical a) where
  print-matches : matches pci_addr_re (print a) ≡ true
  unfolding fits
  print-matches =
      rw
        (
          matches-hexes 4 _ a.domain _ h.domain,
          matches_char colon _ ":" _ refl,
          matches-hexes 2 _ a.bus _ h.bus,
          matches_char colon _ ":" _ refl,
          matches-hexes 2 _ a.slot _ h.slot,
          matches_char dot _ "." _ refl,
        )
        (matches_end 1 a.function h.function)

  print-Lacks : Lacks b',' (print a)
  print-Lacks = Lacks-append b',' a.domain _ (hex-Lacks 4 a.domain h.domain) (
      Lacks-append b',' ":" _ (refl, tt)
        (Lacks-append b',' a.bus _ (hex-Lacks 2 a.bus h.bus) (
          Lacks-append b',' ":" _ (refl, tt)
            (Lacks-append b',' a.slot _ (hex-Lacks 2 a.slot h.slot)
              (Lacks-append b',' "." _ (refl, tt) (hex-Lacks 1 a.function h.function))))))

dot_of_code : (c : Char) → nat_eq (code c) b'.' ≡ true → c ≡ "."
dot_of_code = char_of_code b'.' tt (λ q. refl)

comma_of_code : (c : Char) → nat_eq (code c) b',' ≡ true → c ≡ ","
comma_of_code = char_of_code b',' tt (λ q. refl)

-- What matches begins with digits, and the rest matches the rest.
hexes-matches :
    (n : ℕ) (ps : List Place) (s : String)
    → matches (hexes n ps) s ≡ true
    → (u : String) × (v : String) × (s ≡ append_text u v) × IsHex n u × (matches ps v ≡ true)
unfolding matches
hexes-matches zero ps s h = ("", s, sym (append.nil s), tt, h)
hexes-matches (suc n) ps String.[] h = absurd (cc h)
hexes-matches (suc n) ps (String.◌∷◌ c s) h =
    let both : (is_hex (code c) ≡ true) × (matches (hexes n ps) s ≡ true) = ground (arith, h) in
    let (u, v, e, digits, rest) = hexes-matches n ps s both.1 in
    (String.◌∷◌ c u, v, ap (String.◌∷◌ c) e ∙ sym (append.cons c u v), (both.0, digits), rest)

char_matches :
    (p : Place) (d : Char) (ps : List Place) (s : String)
    → ((c : Char) → fits p (code c) ≡ true → c ≡ d)
    → matches (p ∷ ps) s ≡ true
    → (v : String) × (s ≡ append_text (String.◌∷◌ d String.[]) v) × (matches ps v ≡ true)
unfolding matches
char_matches p d ps String.[] only h = absurd (cc h)
char_matches p d ps (String.◌∷◌ c s) only h =
    let both : (fits p (code c) ≡ true) × (matches ps s ≡ true) = ground (arith, h) in
    (
      s,
      ap (λ x. String.◌∷◌ x s) (only c both.0)
          ∙ sym (append.cons d "" s ∙ ap (String.◌∷◌ d) (append.nil s)),
      both.1,
    )

end_matches : (n : ℕ) (s : String) → matches (hexes n []) s ≡ true → IsHex n s
unfolding matches
end_matches zero String.[] h = tt
end_matches zero (String.◌∷◌ c s) h = cc h
end_matches (suc n) String.[] h = cc h
end_matches (suc n) (String.◌∷◌ c s) h =
    let both : (is_hex (code c) ≡ true) × (matches (hexes n []) s ≡ true) = ground (arith, h) in
    (both.0, end_matches n s both.1)

-- The expression matches just the texts of addresses.
abbrev pub IsAddress : String → Type 0
IsAddress s = (a : PciAddress) × IsCanonical a × (s ≡ print a)

matches-IsAddress : (s : String) → matches pci_addr_re s ≡ true → IsAddress s
unfolding fits
matches-IsAddress s h =
    let (domain, s₁, e₁, h₁, m₁) = hexes-matches 4 _ s h in
    let (t₁, f₁, n₁) = char_matches colon ":" _ s₁ colon_of_code m₁ in
    let (bus, s₂, e₂, h₂, m₂) = hexes-matches 2 _ t₁ n₁ in
    let (t₂, f₂, n₂) = char_matches colon ":" _ s₂ colon_of_code m₂ in
    let (slot, s₃, e₃, h₃, m₃) = hexes-matches 2 _ t₂ n₂ in
    let (function, f₃, n₃) = char_matches dot "." _ s₃ dot_of_code m₃ in
    (
      record { domain = domain; bus = bus; slot = slot; function = function },
      record { domain = h₁; bus = h₂; slot = h₃; function = end_matches 1 function n₃ },
      cc (e₁, f₁, e₂, f₂, e₃, f₃),
    )

-- The text is the field, or the field, a comma and more.
abbrev pub BeginsWith : String → String → Type 0
BeginsWith field t = (t ≡ field) ⊎ ((rest : String) × (t ≡ concat (field ∷ "," ∷ rest ∷ [])))

-- `ParseDevargs` gives an address exactly if the text is that address or begins with it and a comma:
-- four, two, two and one hexadecimal digits, divided by ":", ":" and ".".
pub parse_devargs_iff : (t s : String) → (parse_devargs t ≡ ok s) ↔ (IsAddress s × BeginsWith s t)
unfolding parse_devargs
parse_devargs_iff t s = (forth, back)
  where
    forth : parse_devargs t ≡ ok s → IsAddress s × BeginsWith s t
    forth h = elim (Bool-cases (matches pci_addr_re (first_part (split b',' t)))) [
      | inl m ↦
          let it : first_part (split b',' t) ≡ s = cc (rw m at h) in
          subst (λ x. IsAddress x × BeginsWith x t) it
            (matches-IsAddress _ m, split-first_part b',' "," t comma_of_code)
      | inr m ↦ absurd (cc (rw m at h))
    ]

    first :
        (a : PciAddress)
        → IsCanonical a
        → BeginsWith (print a) t
        → first_part (split b',' t) ≡ print a
    first a h (inl e) = rw (e, split-Lacks b',' (print a) (print-Lacks a h)) refl
    first a h (inr (rest, e)) =
        rw (e, split-append b',' "," (print a) rest refl (print-Lacks a h)) refl

    back : IsAddress s × BeginsWith s t → parse_devargs t ≡ ok s
    back ((a, h, e), begins) =
        rw (e, first a h (subst (λ x. BeginsWith x t) e begins), print-matches a h) refl
