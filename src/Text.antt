-- ===== src/Text.antt =====
-- What the program uses of Go's strings package, over the native texts. A text is its sequence of
-- characters, so invalid UTF-8 is left out.
pub mod Split
use nodepulse.Base.{
  String, ◌≡◌, refl, ap, ◌∙◌, Bool, true, false, ◌&&◌, ◌||◌, Option, none, some, arith, leb, ◌==◌,
  if◌then◌else◌,
}
use Prim.Native.Char.{Char, code}

-- unicode.IsSpace.
unfoldable pub is_space : Char → Bool
is_space c =
    let n = code c in
    (leb 9 n && leb n 13)
    || n == 32
    || n == 0x85
    || n == 0xa0
    || n == 0x1680
    || (leb 0x2000 n && leb n 0x200a)
    || n == 0x2028
    || n == 0x2029
    || n == 0x202f
    || n == 0x205f
    || n == 0x3000

abbrev pub is_empty : String → Bool
is_empty String.[] = true
is_empty (String.◌∷◌ c s) = false

unfoldable pub trim_left : String → String
trim_left String.[] = ""
trim_left (String.◌∷◌ c s) = let rest = trim_left s in if is_space c then rest else String.◌∷◌ c s

unfoldable pub trim_right : String → String
trim_right String.[] = ""
trim_right (String.◌∷◌ c s) =
    let rest = trim_right s in if is_space c && is_empty rest then "" else String.◌∷◌ c rest

-- strings.TrimSpace.
unfoldable pub trim_space : String → String
unfolding trim_left trim_right
trim_space s = trim_left (trim_right s)

-- strings.SplitN(s, sep, 2) for a separator of one character: the part before the first separator,
-- and the part behind it if there is one.
unfoldable pub split_at : Char → String → String × Option String
split_at sep String.[] = ("", none)
split_at sep (String.◌∷◌ c s) =
    let (before, behind) = split_at sep s in
    if code c == code sep then ("", some s) else (String.◌∷◌ c before, behind)

-- strings.ReplaceAll for one character, by another or by nothing.
unfoldable pub replace_char : Char → Option Char → String → String
replace_char old new String.[] = ""
replace_char old none (String.◌∷◌ c s) =
    let rest = replace_char old none s in if code c == code old then rest else String.◌∷◌ c rest
replace_char old (some d) (String.◌∷◌ c s) =
    let rest = replace_char old (some d) s in
    if code c == code old then String.◌∷◌ d rest else String.◌∷◌ c rest

-- strings.HasPrefix, with the prefix first.
unfoldable pub has_prefix : String → String → Bool
has_prefix String.[] s = true
has_prefix (String.◌∷◌ c p) String.[] = false
has_prefix (String.◌∷◌ c p) (String.◌∷◌ d s) = (code c == code d) && has_prefix p s

-- strings.Contains, with the part first.
unfoldable pub contains : String → String → Bool
unfolding has_prefix
contains part String.[] = has_prefix part ""
contains part (String.◌∷◌ c s) = has_prefix part (String.◌∷◌ c s) || contains part s

-- strings.ToLower, for a mapping of characters that stands for unicode.ToLower.
unfoldable pub to_lower : (Char → Char) → String → String
to_lower lower String.[] = ""
to_lower lower (String.◌∷◌ c s) = String.◌∷◌ (lower c) (to_lower lower s)

-- Whether a text begins, and whether it ends, with a space.
abbrev pub starts_spaced : String → Bool
starts_spaced String.[] = false
starts_spaced (String.◌∷◌ c s) = is_space c

abbrev pub ends_spaced : String → Bool
ends_spaced String.[] = false
ends_spaced (String.◌∷◌ c s) = if is_empty s then is_space c else ends_spaced s

trim_left-starts : (s : String) → starts_spaced (trim_left s) ≡ false
unfolding trim_left
trim_left-starts String.[] = refl
trim_left-starts (String.◌∷◌ c s) = ground (arith, trim_left-starts s)

trim_left-ends : (s : String) → ends_spaced s ≡ false → ends_spaced (trim_left s) ≡ false
unfolding trim_left
trim_left-ends String.[] h = refl
trim_left-ends (String.◌∷◌ c s) h = ground (arith, trim_left-ends s)

trim_right-ends : (s : String) → ends_spaced (trim_right s) ≡ false
unfolding trim_right
trim_right-ends String.[] = refl
trim_right-ends (String.◌∷◌ c s) = ground (arith, trim_right-ends s)

-- A trimmed text neither begins nor ends with a space.
pub trim_space_bare :
    (s : String) → (starts_spaced (trim_space s) ≡ false) × (ends_spaced (trim_space s) ≡ false)
unfolding trim_space
trim_space_bare s = (trim_left-starts _, trim_left-ends _ (trim_right-ends s))

trim_left_bare : (s : String) → starts_spaced s ≡ false → trim_left s ≡ s
unfolding trim_left
trim_left_bare String.[] h = refl
trim_left_bare (String.◌∷◌ c s) h = ground arith

trim_right_cons :
    (c : Char) (s : String)
    → is_empty (trim_right s) ≡ false
    → trim_right (String.◌∷◌ c s) ≡ String.◌∷◌ c (trim_right s)
unfolding trim_right
trim_right_cons c s h = ground arith

trim_right_snoc :
    (c d : Char) (s : String)
    → trim_right (String.◌∷◌ d s) ≡ String.◌∷◌ d s
    → trim_right (String.◌∷◌ c (String.◌∷◌ d s)) ≡ String.◌∷◌ c (String.◌∷◌ d s)
trim_right_snoc c d s e = trim_right_cons c (String.◌∷◌ d s) (rw e) ∙ ap (String.◌∷◌ c) e

trim_right_bare : (s : String) → ends_spaced s ≡ false → trim_right s ≡ s
unfolding trim_right
trim_right_bare String.[] h = refl
trim_right_bare (String.◌∷◌ c String.[]) h = ground arith
trim_right_bare (String.◌∷◌ c (String.◌∷◌ d s)) h =
    trim_right_snoc c d s (trim_right_bare (String.◌∷◌ d s) h)

-- A text with no space at either end is its own trimming.
pub trim_space_of_bare :
    (s : String) → starts_spaced s ≡ false → ends_spaced s ≡ false → trim_space s ≡ s
unfolding trim_space
trim_space_of_bare s h k = rw (trim_right_bare s k) (trim_left_bare s h)

pub trim_space_idem : (s : String) → trim_space (trim_space s) ≡ trim_space s
trim_space_idem s = trim_space_of_bare _ (trim_space_bare s).0 (trim_space_bare s).1

-- What stands behind a prefix: `s[len(prefix):]` where `s` begins with it.
unfoldable pub after_prefix : String → String → Option String
after_prefix String.[] s = some s
after_prefix (String.◌∷◌ c p) String.[] = none
after_prefix (String.◌∷◌ c p) (String.◌∷◌ d s) =
    let rest = after_prefix p s in if code c == code d then rest else none
