-- ===== src/Policy/Classes.antt =====
-- The classes that are given out, and the strategies behind them.
use nodepulse.Base.{
  String, ◌≡◌, true, some, List, [], ◌∷◌, arith, str_eq, All, refl, inl, inr, Option, none,
  Bool-cases, ◌⊎◌, str_eq_iff,
}
use nodepulse.Policy.{
  image_hints, name_hints, first_hint, is_class, strategy_for, classify, by_hints, Strategy, Char,
  strategies, to_lower, or_default, or_else, lookup,
}

first_hint-is_class :
    (text : String) (hints : List (String × String)) (class : String)
    → All (λ (h : String × String). is_class h.1 ≡ true) hints
    → first_hint text hints ≡ some class
    → is_class class ≡ true
unfolding first_hint
first_hint-is_class text [] class a h = cc
first_hint-is_class text ((part, c) ∷ hints) class a h =
    ground (arith, first_hint-is_class text hints class a.1)

image_hints-classes : All (λ (h : String × String). is_class h.1 ≡ true) image_hints
unfolding image_hints is_class str_eq
image_hints-classes = ground arith

name_hints-classes : All (λ (h : String × String). is_class h.1 ≡ true) name_hints
unfolding name_hints is_class str_eq
name_hints-classes = ground arith

default-is_class : is_class "default" ≡ true
unfolding is_class str_eq
default-is_class = refl

by_hints-is_class :
    (lower : Char → Char) (image name : String) → is_class (by_hints lower image name) ≡ true
unfolding by_hints
by_hints-is_class lower image name =
    hinted (first_hint (to_lower lower image) image_hints)
      (first_hint (to_lower lower name) name_hints) refl refl
  where
    hinted :
        (i n : Option String)
        → first_hint (to_lower lower image) image_hints ≡ i
        → first_hint (to_lower lower name) name_hints ≡ n
        → is_class (or_else i (or_else n "default")) ≡ true
    hinted none none e f = default-is_class
    hinted none (some c) e f =
        first_hint-is_class (to_lower lower name) name_hints c name_hints-classes f
    hinted (some c) n e f =
        first_hint-is_class (to_lower lower image) image_hints c image_hints-classes e

classify-is_class :
    (lower : Char → Char) (image name : String) (labels : String → String)
    → is_class (classify lower image name labels) ≡ true
unfolding classify
classify-is_class lower image name labels = ground (arith, by_hints-is_class lower image name)

-- What holds of every row of the table holds of the strategy of any class, known or not.
pub strategy_for_cases {ℓ} :
    (P : Strategy → Type ℓ)
    → All (λ (row : String × Strategy). P row.1) strategies
    → (class : String) → P (strategy_for class)
unfolding strategy_for
strategy_for_cases P rows class = found strategies rows
  where
    found :
        (table : List (String × Strategy))
        → All (λ (row : String × Strategy). P row.1) table
        → P (or_default (lookup class table))
    found [] h = rows.0
    found ((c, s) ∷ table) h = elim (Bool-cases (str_eq c class)) [
      | inl hit ↦ rw hit h.0
      | inr miss ↦ rw miss (found table h.1)
    ]

-- One of the five names of the classes.
abbrev pub IsNamed : String → Type 0
IsNamed v =
    (v ≡ "default") ⊎ ((v ≡ "stateless") ⊎ ((v ≡ "cache") ⊎ ((v ≡ "db") ⊎ (v ≡ "critical"))))

is_class-IsNamed : (v : String) → is_class v ≡ true → IsNamed v
unfolding is_class
is_class-IsNamed v h = elim (Bool-cases (str_eq v "default")) [
  | inl y ↦ inl ((str_eq_iff v "default").0 y)
  | inr a ↦ inr (elim (Bool-cases (str_eq v "stateless")) [
    | inl y ↦ inl ((str_eq_iff v "stateless").0 y)
    | inr b ↦ inr (elim (Bool-cases (str_eq v "cache")) [
      | inl y ↦ inl ((str_eq_iff v "cache").0 y)
      | inr c ↦ inr (elim (Bool-cases (str_eq v "db")) [
        | inl y ↦ inl ((str_eq_iff v "db").0 y)
        | inr d ↦ inr ((str_eq_iff v "critical").0 (ground (arith, h, a, b, c, d)))
      ])
    ])
  ])
]

own_class : (v : String) → IsNamed v → (strategy_for v).class ≡ v
unfolding strategy_for strategies lookup str_eq
own_class v (inl e) = rw e refl
own_class v (inr (inl e)) = rw e refl
own_class v (inr (inr (inl e))) = rw e refl
own_class v (inr (inr (inr (inl e)))) = rw e refl
own_class v (inr (inr (inr (inr e)))) = rw e refl

-- Whatever the image, the name and the labels, and whatever mapping stands for unicode.ToLower, the
-- class that Classify gives is one of the five names, and its strategy is the one of that class and not
-- the default in its place.
pub classify-strategy_for :
    (lower : Char → Char) (image name : String) (labels : String → String)
    → let class = classify lower image name labels in
      IsNamed class × ((strategy_for class).class ≡ class)
classify-strategy_for lower image name labels =
    let named =
      is_class-IsNamed (classify lower image name labels)
        (classify-is_class lower image name labels) in
    (named, own_class (classify lower image name labels) named)
