-- ===== src/Base/Text.antt =====
-- Python's `str.strip` and `str.replace`, and the test of a blank string.
use Prim.Native.Nat.{ℕ, suc, compare, Ordering}
use Prim.Native.Char.{Char, code}
use Prim.Native.String.{String, [], ◌∷◌, ◌++◌}
use mathlib.Core.Path.{◌≡◌, refl, sym, ap, ◌∙◌}
use mathlib.Core.Bool.{Bool, true, false, ◌&&◌, ◌||◌}
use native.Mathlib.Omega.{arith}

abbrev between : ℕ → ℕ → ℕ → Bool
between lo hi c = elim (compare lo c) [
  | Ordering.gt ↦ false
  | _ ↦ elim (compare c hi) [ Ordering.gt ↦ false | _ ↦ true ]
]

-- The code points of which `str.isspace` holds.
is_space : ℕ → Bool
is_space c =
    between 9 13 c
    || between 28 32 c
    || between 0x85 0x85 c
    || between 0xa0 0xa0 c
    || between 0x1680 0x1680 c
    || between 0x2000 0x200a c
    || between 0x2028 0x2029 c
    || between 0x202f 0x202f c
    || between 0x205f 0x205f c
    || between 0x3000 0x3000 c

-- `not text.strip()`
unfoldable pub is_blank : String → Bool
unfolding is_space
is_blank [] = true
is_blank (c ∷ s) = is_space (code c) && is_blank s

lstrip : String → String
unfolding is_space
lstrip [] = []
lstrip (c ∷ s) = elim (is_space (code c)) [ true ↦ lstrip s | false ↦ c ∷ s ]

rstrip : String → String
unfolding is_space is_blank
rstrip [] = []
rstrip (c ∷ s) = elim (is_space (code c) && is_blank s) [ true ↦ [] | false ↦ c ∷ rstrip s ]

-- `text.strip()`
unfoldable pub strip : String → String
unfolding lstrip rstrip
strip s = rstrip (lstrip s)

-- `text.replace(character, replacement)`, the character given by its code.
replace_char : ℕ → String → String → String
replace_char c replacement [] = []
replace_char c replacement (x ∷ s) =
    let rest = replace_char c replacement s in
    elim (between c c (code x)) [ true ↦ replacement ++ rest | false ↦ x ∷ rest ]

-- The pattern of a search: the text between wildcards, its own wildcards escaped.
unfoldable pub search_pattern : String → String
unfolding replace_char strip
search_pattern search =
    let escaped =
      replace_char 95 "\\_" (replace_char 37 "\\%" (replace_char 92 "\\\\" (strip search))) in
    "%" ++ escaped ++ "%"

-- `len(text)`
unfoldable pub text_length : String → ℕ
text_length [] = 0
text_length (c ∷ s) = suc (text_length s)

-- Whether the character of a code occurs: `character in text`.
unfoldable pub has_char : ℕ → String → Bool
has_char c [] = false
has_char c (x ∷ s) = between c c (code x) || has_char c s

-- The end of a text is stripped or not, as the rest is blank or not.
rstrip_step :
    (c : Char) (s : String) (b : Bool)
    → (is_space (code c) && is_blank s) ≡ b
    → is_blank (rstrip s) ≡ is_blank s
    → is_blank (rstrip (c ∷ s)) ≡ is_blank (c ∷ s)
unfolding is_blank rstrip
rstrip_step c s true h e =
    ap (λ (b : Bool). is_blank (elim b [ true ↦ [] | false ↦ c ∷ rstrip s ])) h ∙ sym h
rstrip_step c s false h e =
    ap (λ (b : Bool). is_blank (elim b [ true ↦ [] | false ↦ c ∷ rstrip s ])) h
    ∙ ap (λ (b : Bool). is_space (code c) && b) e

rstrip-is_blank : (s : String) → is_blank (rstrip s) ≡ is_blank s
unfolding rstrip
rstrip-is_blank [] = refl
rstrip-is_blank (c ∷ s) = rstrip_step c s (is_space (code c) && is_blank s) refl (rstrip-is_blank s)

blank_lstrip : (s : String) → is_blank (lstrip s) ≡ true → lstrip s ≡ []
unfolding is_blank lstrip
blank_lstrip [] h = refl
blank_lstrip (c ∷ s) h = ground (arith, blank_lstrip s)

-- A stripped text that is blank is empty.
pub blank_strip : (s : String) → is_blank (strip s) ≡ true → strip s ≡ []
unfolding strip rstrip
blank_strip s h = ap rstrip (blank_lstrip s (sym (rstrip-is_blank (lstrip s)) ∙ h))
