-- ===== src/Targets/Windows.antt =====
-- What the parser of TLS targets lets through.
use mathlib.Core.Path.{subst}
use nodepulse.Base.{
  String, ℕ, ◌*◌, ◌/◌, ◌≤◌, ◌≡◌, refl, sym, inl, inr, Bool, true, false, Option, none, some, List,
  [], ◌∷◌, arith, ltb, ◌==◌, Bool-cases, Option-cases, All,
}
use nodepulse.Base.Int.{ℤ, pos, negsuc}
use nodepulse.Text.{is_empty, trim_space, contains}
use nodepulse.Text.Split.{split_on}
use Prim.Native.Char.{Char}
use native.Mathlib.Nat.{le-div_iff_mul-le}
use nodepulse.Targets.{
  TlsTarget, parse_entries, parse_targets, cut_equals, is_tls_version, split_last, unit_of,
  max_int64, window_of, parse_warn_window, warn_segment, with_segments, parse_tls_target,
  parse_tls_targets,
}

nothing_parsed : {A : Type 0} (x : A) → ◌≡◌ {A = Option A} none (some x) → ⊥
nothing_parsed x e = cc e

parsed : {A : Type 0} (x y : A) → ◌≡◌ {A = Option A} (some x) (some y) → x ≡ y
parsed x y e = cc e

entries-All :
    {A : Type 0} (P : A → Type 0) (parse : String → Option A) (parts : List String) (ts : List A)
    → ((p : String) (t : A) → parse p ≡ some t → P t)
    → parse_entries parse parts ≡ some ts
    → All P ts
unfolding parse_entries
entries-All P parse [] ts h e = subst (All P) (parsed [] ts e) tt
entries-All P parse (p ∷ parts) ts h e = elim (Bool-cases (is_empty (trim_space p))) [
  | inl y ↦ entries-All P parse parts ts h (rw y at e)
  | inr n ↦ elim (Option-cases (parse (trim_space p))) [
    | inl f ↦ absurd (nothing_parsed ts (rw (n, f) at e))
    | inr (t, f) ↦ elim (Option-cases (parse_entries parse parts)) [
      | inl g ↦ absurd (nothing_parsed ts (rw (n, f, g) at e))
      | inr (rest, g) ↦
          subst (All P) (parsed (t ∷ rest) ts (rw (n, f, g) at e))
            (h (trim_space p) t f, entries-All P parse parts rest h g)
    ]
  ]
]

targets-All :
    {A : Type 0} (P : A → Type 0) (parse : String → Option A) (raw : String) (ts : List A)
    → ((p : String) (t : A) → parse p ≡ some t → P t)
    → parse_targets parse raw ≡ some ts
    → All P ts
unfolding parse_targets
targets-All P parse raw ts h e = elim (Bool-cases (is_empty (trim_space raw))) [
  | inl y ↦ subst (All P) (parsed [] ts (rw y at e)) tt
  | inr n ↦ entries-All P parse (split_on "," raw) ts h (rw n at e)
]

bounded :
    (n unit : ℕ) → (unit == 0) ≡ false → ltb (max_int64 / unit) n ≡ false → n * unit ≤ max_int64
bounded n unit u l =
    (le-div_iff_mul-le {k = unit} {x = n} {y = max_int64} (ground (arith, u))).0 (ground (arith, l))

window_fits : (last : Char) (n : Option ℤ) (d : ℕ) → window_of last n ≡ some d → d ≤ max_int64
unfolding window_of
window_fits last none d e = absurd (nothing_parsed d e)
window_fits last (some (negsuc n)) d e = absurd (nothing_parsed d e)
window_fits last (some (pos n)) d e = elim (Bool-cases (unit_of last == 0)) [
  | inl y ↦ absurd (nothing_parsed d (rw y at e))
  | inr m ↦ elim (Bool-cases (ltb (max_int64 / unit_of last) n)) [
    | inl y ↦ absurd (nothing_parsed d (rw (m, y) at e))
    | inr k ↦ rw (sym (parsed (n * unit_of last) d (rw (m, k) at e))) (bounded n (unit_of last) m k)
  ]
]

-- A target that can be probed.
pub record IsTls (t : TlsTarget) : Type 0 where
  pub fits : t.warn_before ≤ max_int64
  pub version : is_tls_version t.min_tls ≡ true
  pub named : is_empty t.address ≡ false
  pub has_port : contains ":" t.address ≡ true

no_version : is_tls_version "" ≡ true
unfolding is_tls_version trim_space
no_version = refl

module _ (atoi : String → Option ℤ) (equal_fold : String → String → Bool)
    (upper : Char → Char) where
  warn_fits : (w : String) (d : ℕ) → warn_segment atoi equal_fold upper w ≡ some d → d ≤ max_int64
  unfolding warn_segment parse_warn_window
  warn_fits w d e = elim (Bool-cases (is_empty (trim_space w))) [
    | inl y ↦ rw (sym (parsed 0 d (rw y at e))) (omega arith)
    | inr n ↦ window_text (split_last (trim_space w)) (rw n at e)
  ]
    where
      window_text :
          (o : Option (String × Char))
          → elim o [ none ↦ none | some (num, last) ↦ window_of last (atoi num) ] ≡ some d
          → d ≤ max_int64
      window_text none h = absurd (nothing_parsed d h)
      window_text (some (num, last)) h = window_fits last (atoi num) d h

  segments-IsTls :
      (addr : String) (segments : List String) (t : TlsTarget)
      → is_empty addr ≡ false
      → contains ":" addr ≡ true
      → with_segments atoi equal_fold upper addr segments ≡ some t
      → IsTls t
  unfolding with_segments
  segments-IsTls addr [] t a b e = absurd (nothing_parsed t e)
  segments-IsTls addr (w ∷ []) t a b e =
      elim (Option-cases (warn_segment atoi equal_fold upper w)) [
        | inl f ↦ absurd (nothing_parsed t (rw (f, with_segments) at e))
        | inr (d, f) ↦
            subst IsTls (parsed _ t (rw (f, with_segments) at e))
              (record { fits = warn_fits w d f; version = no_version; named = a; has_port = b })
      ]
  segments-IsTls addr (w ∷ v ∷ []) t a b e =
      elim (Option-cases (warn_segment atoi equal_fold upper w)) [
        | inl f ↦ absurd (nothing_parsed t (rw (f, with_segments) at e))
        | inr (d, f) ↦ elim (Bool-cases (is_tls_version (trim_space v))) [
          | inl y ↦
              subst IsTls (parsed _ t (rw (f, y, with_segments) at e))
                (record { fits = warn_fits w d f; version = y; named = a; has_port = b })
          | inr n ↦ absurd (nothing_parsed t (rw (f, n, with_segments) at e))
        ]
      ]
  segments-IsTls addr (w ∷ v ∷ o ∷ []) t a b e =
      elim (Option-cases (warn_segment atoi equal_fold upper w)) [
        | inl f ↦ absurd (nothing_parsed t (rw (f, with_segments) at e))
        | inr (d, f) ↦ elim (Bool-cases (is_tls_version (trim_space v))) [
          | inl y ↦ elim (Bool-cases (equal_fold (trim_space o) "insecure")) [
            | inl z ↦
                subst IsTls (parsed _ t (rw (f, y, z, with_segments) at e))
                  (record { fits = warn_fits w d f; version = y; named = a; has_port = b })
            | inr n ↦ absurd (nothing_parsed t (rw (f, y, n, with_segments) at e))
          ]
          | inr n ↦ absurd (nothing_parsed t (rw (f, n, with_segments) at e))
        ]
      ]
  segments-IsTls addr (w ∷ v ∷ o ∷ more ∷ others) t a b e = absurd (nothing_parsed t e)

  target-IsTls :
      (p : String) (t : TlsTarget) → parse_tls_target atoi equal_fold upper p ≡ some t → IsTls t
  unfolding parse_tls_target
  target-IsTls p t e =
      let addr = trim_space (cut_equals p).0 in
      elim (Bool-cases (is_empty addr)) [
        | inl y ↦ absurd (nothing_parsed t (rw y at e))
        | inr n ↦ elim (Bool-cases (contains ":" addr)) [
          | inl y ↦ elim (Bool-cases (is_empty (cut_equals p).1)) [
            | inl z ↦
                subst IsTls (parsed _ t (rw (n, y, z) at e))
                  (record { fits = omega arith; version = no_version; named = n; has_port = y })
            | inr m ↦ segments-IsTls addr (split_on ":" (cut_equals p).1) t n y (rw (n, y, m) at e)
          ]
          | inr m ↦ absurd (nothing_parsed t (rw (n, m) at e))
        ]
      ]

  -- If ParseTLSTargets accepts a text, then each of its targets has an address with a colon, a version that
  -- parseTLSVersion accepts, and a warn window that is an int64 of nanoseconds.
  pub parse_tls_targets-All :
      (raw : String) (ts : List TlsTarget)
      → parse_tls_targets atoi equal_fold upper raw ≡ some ts
      → All IsTls ts
  unfolding parse_tls_targets
  parse_tls_targets-All raw ts e =
      targets-All IsTls (parse_tls_target atoi equal_fold upper) raw ts target-IsTls e
