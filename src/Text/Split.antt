-- ===== src/Text/Split.antt =====
-- strings.Split and strings.Join for a separator of one character.
use nodepulse.Base.{
  String, ℕ, ◌≡◌, refl, ap, ◌∙◌, inl, inr, Bool, true, false, ◌||◌, List, [], ◌∷◌, arith, ◌==◌,
  if◌then◌else◌, Bool-cases, All,
}
use Prim.Native.Char.{Char, code}
use Prim.Native.String.{◌++◌ as join}
use text.Mathlib.TextLemmas.{cons-append, nil-append}

-- One more character in front of the first part.
grow : Char → List String → List String
grow c [] = []
grow c (p ∷ parts) = String.◌∷◌ c p ∷ parts

-- strings.Split(s, sep): at least one part.
unfoldable pub split_on : Char → String → List String
unfolding grow
split_on sep String.[] = "" ∷ []
split_on sep (String.◌∷◌ c s) =
    let rest = split_on sep s in if code c == code sep then "" ∷ rest else grow c rest

-- strings.Join(parts, sep).
unfoldable pub join_with : Char → List String → String
join_with sep [] = ""
join_with sep (s ∷ []) = s
join_with sep (s ∷ t ∷ parts) = join s (String.◌∷◌ sep (join_with sep (t ∷ parts)))

unfoldable pub has_char : Char → String → Bool
has_char sep String.[] = false
has_char sep (String.◌∷◌ c s) = code c == code sep || has_char sep s

split_one : (sep : Char) (s : String) → has_char sep s ≡ false → split_on sep s ≡ s ∷ []
unfolding split_on has_char grow
split_one sep String.[] h = refl
split_one sep (String.◌∷◌ c s) h = elim (Bool-cases (code c == code sep)) [
  | inl y ↦ ground (arith, y, h)
  | inr n ↦ rw (n, split_one sep s (rw n at h)) refl
]

same_code : (n : ℕ) → (n == n) ≡ true
same_code n = ground arith

split_first :
    (sep : Char) (s rest : String)
    → has_char sep s ≡ false
    → split_on sep (join s (String.◌∷◌ sep rest)) ≡ s ∷ split_on sep rest
unfolding split_on has_char grow
split_first sep String.[] rest h = rw (nil-append, same_code (code sep)) refl
split_first sep (String.◌∷◌ c s) rest h = elim (Bool-cases (code c == code sep)) [
  | inl y ↦ ground (arith, y, h)
  | inr n ↦ rw (cons-append, n, split_first sep s rest (rw n at h)) refl
]

-- Parts without the separator, at least one of them, come back from the text that joins them.
pub split_on-join_with :
    (sep : Char) (s : String) (parts : List String)
    → All (λ n. has_char sep n ≡ false) (s ∷ parts)
    → split_on sep (join_with sep (s ∷ parts)) ≡ s ∷ parts
unfolding join_with
split_on-join_with sep s [] h = split_one sep s h.0
split_on-join_with sep s (t ∷ parts) h =
    split_first sep s (join_with sep (t ∷ parts)) h.0
    ∙ ap (λ rest. s ∷ rest) (split_on-join_with sep t parts h.1)
