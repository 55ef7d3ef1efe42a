-- ===== src/Targets.antt =====
-- The parsers of probe targets: pkg/probe/targets.go, and parseTLSVersion of pkg/probe/tls.go. The
-- result is none for an error, whose text is left out; a nil slice is the empty list.
pub mod Windows
use nodepulse.Base.{
  String, ℕ, zero, suc, ◌+◌, ◌-◌, ◌*◌, ◌/◌, ◌%◌, ◌^◌, ◌≤◌, ◌<◌, ◌≡◌, refl, sym, ap, ◌∙◌, ◌≢◌, ◌↔◌,
  ◌⊎◌, inl, inr, Bool, true, false, not, ◌&&◌, ◌||◌, Option, none, some, List, [], ◌∷◌, ◌++◌, map,
  arith, ltb, leb, ◌==◌, if◌then◌else◌, ltb→lt, lt→ltb, leb→le, ==_iff, str_eq, str_eq_iff,
  str_eq_refl, Bool-cases, Option-cases, length, length-append, All, All-append, All-map, update,
  update_self, update_ne,
}
use nodepulse.Base.Int.{ℤ, pos, negsuc}
use nodepulse.Text.{is_empty, trim_space, split_at, contains, to_lower}
use nodepulse.Text.Split.{split_on}
use nodepulse.Breaker.{second}
use Prim.Native.Char.{Char, code}

pub record TcpTarget : Type 0 where
  pub address : String
  pub expect_banner : String

pub record TlsTarget : Type 0 where
  pub address : String
  pub warn_before : ℕ
  pub min_tls : String
  pub insecure_skip_verify : Bool

pub record DnsTarget : Type 0 where
  pub address : String
  pub expected : String
  pub type : String

-- 0 is the count of a target without one.
pub record IcmpTarget : Type 0 where
  pub address : String
  pub count : ℕ

abbrev pub text_or_empty : Option String → String
text_or_empty none = ""
text_or_empty (some s) = s

-- strings.Cut(s, "="), without its third result.
unfoldable pub cut_equals : String → String × String
cut_equals s = let (before, behind) = split_at "=" s in (before, text_or_empty behind)

-- The loop over the entries: blank ones are dropped, the first error ends it.
unfoldable pub parse_entries : {A : Type 0} → (String → Option A) → List String → Option (List A)
parse_entries parse [] = some []
parse_entries parse (p ∷ parts) =
    let rest = parse_entries parse parts in
    if is_empty (trim_space p) then rest else elim (parse (trim_space p)) [
      | none ↦ none
      | some t ↦ elim rest [ none ↦ none | some ts ↦ some (t ∷ ts) ]
    ]

unfoldable pub parse_targets : {A : Type 0} → (String → Option A) → String → Option (List A)
unfolding parse_entries
parse_targets parse raw =
    if is_empty (trim_space raw) then some [] else parse_entries parse (split_on "," raw)

unfoldable pub parse_tcp_target : String → Option TcpTarget
unfolding cut_equals
parse_tcp_target p =
    let (addr, banner) = cut_equals p in
    if is_empty (trim_space addr)
    then none
    else some (record { address = trim_space addr; expect_banner = trim_space banner })

unfoldable pub parse_tcp_targets : String → Option (List TcpTarget)
unfolding parse_targets parse_tcp_target
parse_tcp_targets raw = parse_targets parse_tcp_target raw

-- The version is read, and only its error is used.
unfoldable pub is_tls_version : String → Bool
is_tls_version raw = let v = trim_space raw in is_empty v || str_eq v "1.2" || str_eq v "1.3"

-- A text without its last character, and that character.
unfoldable pub split_last : String → Option (String × Char)
split_last String.[] = none
split_last (String.◌∷◌ c s) = elim (split_last s) [
  | none ↦ some ("", c)
  | some (init, last) ↦ some (String.◌∷◌ c init, last)
]

-- Nanoseconds, and 0 for another suffix.
abbrev pub unit_of : Char → ℕ
unit_of c =
    if code c == b'd'
    then 86400 * second
    else if code c == b'h'
    then 3600 * second
    else if code c == b'm'
    then 60 * second
    else 0

-- int64(^uint64(0) >> 1)
abbrev pub max_int64 : ℕ
max_int64 = 9223372036854775807

-- strings.ToUpper, for a mapping of characters that stands for unicode.ToUpper.
unfoldable pub to_upper : (Char → Char) → String → String
to_upper upper String.[] = ""
to_upper upper (String.◌∷◌ c s) = String.◌∷◌ (upper c) (to_upper upper s)

-- Behind the number of a warn window.
unfoldable pub window_of : Char → Option ℤ → Option ℕ
window_of last none = none
window_of last (some (negsuc n)) = none
window_of last (some (pos n)) =
    let unit = unit_of last in
    if unit == 0 then none else if ltb (max_int64 / unit) n then none else some (n * unit)

-- `atoi` stands for strconv.Atoi, with none for an error, `equal_fold` for strings.EqualFold, `upper` for
-- unicode.ToUpper.
module _ (atoi : String → Option ℤ) (equal_fold : String → String → Bool)
    (upper : Char → Char) where
  unfoldable pub parse_warn_window : String → Option ℕ
  unfolding window_of
  parse_warn_window raw = elim (split_last raw) [
    | none ↦ none
    | some (num, last) ↦ window_of last (atoi num)
  ]

  -- The segment of the warn window, 0 where it is blank.
  unfoldable pub warn_segment : String → Option ℕ
  unfolding parse_warn_window
  warn_segment s = if is_empty (trim_space s) then some 0 else parse_warn_window (trim_space s)

  -- The segments behind the address.
  unfoldable pub with_segments : String → List String → Option TlsTarget
  unfolding warn_segment is_tls_version
  with_segments addr [] = none
  with_segments addr (w ∷ []) = elim (warn_segment w) [
    | none ↦ none
    | some d ↦
        some
          (record { address = addr; warn_before = d; min_tls = ""; insecure_skip_verify = false })
  ]
  with_segments addr (w ∷ v ∷ []) = elim (warn_segment w) [
    | none ↦ none
    | some d ↦
        if is_tls_version (trim_space v)
        then some (record {
          address = addr;
          warn_before = d;
          min_tls = trim_space v;
          insecure_skip_verify = false;
        })
        else none
  ]
  with_segments addr (w ∷ v ∷ o ∷ []) = elim (warn_segment w) [
    | none ↦ none
    | some d ↦
        if is_tls_version (trim_space v) && equal_fold (trim_space o) "insecure"
        then some (record {
          address = addr;
          warn_before = d;
          min_tls = trim_space v;
          insecure_skip_verify = true;
        })
        else none
  ]
  with_segments addr (w ∷ v ∷ o ∷ more ∷ others) = none

  unfoldable pub parse_tls_target : String → Option TlsTarget
  unfolding with_segments cut_equals
  parse_tls_target p =
      let (before, rest) = cut_equals p in
      let addr = trim_space before in
      if is_empty addr || not (contains ":" addr)
      then none
      else if is_empty rest
      then some
          (record { address = addr; warn_before = 0; min_tls = ""; insecure_skip_verify = false })
      else with_segments addr (split_on ":" rest)

  unfoldable pub parse_tls_targets : String → Option (List TlsTarget)
  unfolding parse_targets parse_tls_target
  parse_tls_targets raw = parse_targets parse_tls_target raw

  unfoldable pub is_record_type : String → Bool
  unfolding to_upper
  is_record_type s = let u = to_upper upper (trim_space s) in str_eq u "A" || str_eq u "AAAA"

  -- The type in capitals, A where it is blank.
  abbrev type_or_a : String → String
  type_or_a t = if is_empty (trim_space t) then "A" else to_upper upper (trim_space t)

  unfoldable pub dns_of : String → String → String × Option String → DnsTarget
  unfolding is_record_type
  dns_of addr rest (kind, some expected) = record {
    address = addr;
    expected = trim_space expected;
    type = type_or_a (trim_space kind);
  }
  dns_of addr rest (kind, none) =
      if is_record_type (trim_space kind)
      then record { address = addr; expected = ""; type = type_or_a (trim_space kind) }
      else record { address = addr; expected = trim_space kind; type = "A" }

  unfoldable pub parse_dns_target : String → Option DnsTarget
  unfolding dns_of cut_equals
  parse_dns_target p =
      let (before, rest) = cut_equals p in
      let addr = trim_space before in
      if is_empty addr
      then none
      else if is_empty rest
      then some (record { address = addr; expected = ""; type = "A" })
      else some (dns_of addr rest (split_at "=" rest))

  unfoldable pub parse_dns_targets : String → Option (List DnsTarget)
  unfolding parse_targets parse_dns_target
  parse_dns_targets raw = parse_targets parse_dns_target raw

  unfoldable pub count_of : String → Option ℤ → Option IcmpTarget
  count_of addr none = none
  count_of addr (some (negsuc n)) = none
  count_of addr (some (pos n)) =
      if n == 0 then none else some (record { address = addr; count = n })

  unfoldable pub parse_icmp_target : String → Option IcmpTarget
  unfolding count_of cut_equals
  parse_icmp_target p =
      let (before, rest) = cut_equals p in
      let addr = trim_space before in
      let count = trim_space (cut_equals rest).0 in
      if is_empty addr
      then none
      else if is_empty count
      then some (record { address = addr; count = 0 })
      else count_of addr (atoi count)

  unfoldable pub parse_icmp_targets : String → Option (List IcmpTarget)
  unfolding parse_targets parse_icmp_target
  parse_icmp_targets raw = parse_targets parse_icmp_target raw
