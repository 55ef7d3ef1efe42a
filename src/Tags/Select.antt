-- ===== src/Tags/Select.antt =====
-- Which nodes a tag selector selects.
use nodepulse.Base.{
  String, ◌≡◌, refl, sym, ◌∙◌, ◌↔◌, inl, inr, true, false, ◌||◌, none, List, [], ◌∷◌, ◌++◌, map,
  arith, str_eq, str_eq_iff, Bool-cases, All, All-append, All-map,
}
use nodepulse.Text.{is_empty, trim_space, trim_space_idem, after_prefix}
use nodepulse.Text.Split.{split_on, join_with, has_char, split_on-join_with}
use nodepulse.Store.{next_fault}
use nodepulse.Tags.{
  Tags, newline, has_text, sanitize_onto, sanitize_tags, upsert_node_tags, all_parts, selects,
  node_matches_tag_selector,
}
use nodepulse.Tags.Clean.{sanitize_step, tags_for_node-upsert_node_tags}

-- `x` is one of `ts`, trimmed.
abbrev pub Tagged : String → List String → Type 0
Tagged x ts = has_text x (map trim_space ts) ≡ true

pub has_text-append :
    (x : String) (xs ys : List String) → has_text x (xs ++ ys) ≡ (has_text x xs || has_text x ys)
unfolding has_text
has_text-append x [] ys = refl
has_text-append x (t ∷ ts) ys = ground (arith, has_text-append x ts ys)

last_text :
    (x y : String) (xs : List String) → has_text x (xs ++ y ∷ []) ≡ (has_text x xs || str_eq y x)
unfolding has_text
last_text x y xs = has_text-append x xs (y ∷ []) ∙ ground arith

-- An empty text is no tag; another is kept exactly if it is a trimmed tag.
kept_texts :
    (x : String) (out ts : List String)
    → is_empty x ≡ false
    → has_text x (sanitize_onto out ts) ≡ (has_text x out || has_text x (map trim_space ts))
unfolding sanitize_onto has_text
kept_texts x out [] h = ground arith
kept_texts x out (t ∷ ts) h = elim (sanitize_step out ts t) [
  | inl (e, d) ↦
      rw (e, kept_texts x out ts h)
        (elim (Bool-cases (str_eq (trim_space t) x)) [
          | inl y ↦ let same = (str_eq_iff (trim_space t) x).0 y in rw (y, dropped same d) refl
          | inr n ↦ rw n refl
        ])
  | inr (e, _, _) ↦
      rw (e, kept_texts x (out ++ trim_space t ∷ []) ts h, last_text x (trim_space t) out)
        (ground arith)
]
  where
    dropped :
        trim_space t ≡ x
        → ◌||◌ (is_empty (trim_space t)) (has_text (trim_space t) out) ≡ true
        → has_text x out ≡ true
    dropped same d = ground (arith, rw same at d, h)

-- An exact selector asks for every part that is not blank.
abbrev pub Wants : List String → String → Type 0
Wants set part = is_empty (trim_space part) ≡ false → has_text (trim_space part) set ≡ true

all_step :
    (set parts : List String) (raw : String)
    → (all_parts set (raw ∷ parts) ≡ true) ↔ (Wants set raw × (all_parts set parts ≡ true))
unfolding all_parts
all_step set parts raw = elim (Bool-cases (is_empty (trim_space raw))) [
  | inl y ↦ rw y ((λ h. (λ n. absurd (ground (arith, n)), h)), (λ h. h.1))
  | inr n ↦ elim (Bool-cases (has_text (trim_space raw) set)) [
    | inl y ↦ rw (n, y) ((λ h. (λ m. refl, h)), (λ h. h.1))
    | inr m ↦
        rw (n, m) ((λ h. absurd (ground (arith, h))), (λ h. absurd (ground (arith, h.0 refl))))
  ]
]

all_parts_iff : (set parts : List String) → (all_parts set parts ≡ true) ↔ All (Wants set) parts
unfolding all_parts
all_parts_iff set [] = ((λ h. tt), (λ h. refl))
all_parts_iff set (raw ∷ parts) =
    let step = all_step set parts raw in
    let rest = all_parts_iff set parts in
    ((λ h. let (w, more) = step.0 h in (w, rest.0 more)), (λ h. step.1 (h.0, rest.1 h.1)))

trimmed-All :
    (out ts : List String)
    → All (λ t. trim_space t ≡ t) out
    → All (λ t. trim_space t ≡ t) (sanitize_onto out ts)
unfolding sanitize_onto
trimmed-All out [] h = h
trimmed-All out (t ∷ ts) h = elim (sanitize_step out ts t) [
  | inl (e, _) ↦ rw e (trimmed-All out ts h)
  | inr (e, _, _) ↦ rw e (
      trimmed-All (out ++ trim_space t ∷ []) ts
        (All-append (λ s. trim_space s ≡ s) out (trim_space t ∷ []) h (trim_space_idem t, tt)))
]

map_trimmed : (ts : List String) → All (λ t. trim_space t ≡ t) ts → map trim_space ts ≡ ts
map_trimmed [] h = refl
map_trimmed (t ∷ ts) h = rw (h.0, map_trimmed ts h.1) refl

Wants-clean :
    (tags : List String) (part : String)
    → Wants (map trim_space (sanitize_tags tags)) part ↔ Wants (map trim_space tags) part
unfolding sanitize_tags has_text
Wants-clean tags part = rw (map_trimmed (sanitize_onto [] tags) (trimmed-All [] tags tt)) (
  (λ h n. sym (kept_texts (trim_space part) [] tags n) ∙ h n),
  (λ h n. kept_texts (trim_space part) [] tags n ∙ h n),
)

selects_exact :
    (set : List String) (sel : String)
    → after_prefix "any:" sel ≡ none
    → selects set sel ≡ all_parts set (split_on "," sel)
unfolding selects
selects_exact set sel e = rw (e, selects) refl

-- A selector of parts without a comma, which is trimmed, not empty and no "any:" selector, selects a
-- node with the tags that UpsertNodeTags stored without an error, none of them with a newline, exactly
-- if each of its parts that is not blank is, trimmed, one of these tags, trimmed, where the query meets
-- no error.
pub node_matches_iff :
    (p : Tags) (node_id s : String) (tags parts : List String)
    → is_empty node_id ≡ false
    → All (λ t. has_char newline t ≡ false) tags
    → (upsert_node_tags p node_id tags).1 ≡ true
    → next_fault (upsert_node_tags p node_id tags).0.faults ≡ false
    → All (λ t. has_char "," t ≡ false) (s ∷ parts)
    → is_empty (join_with "," (s ∷ parts)) ≡ false
    → trim_space (join_with "," (s ∷ parts)) ≡ join_with "," (s ∷ parts)
    → after_prefix "any:" (join_with "," (s ∷ parts)) ≡ none
    → ((node_matches_tag_selector
          (upsert_node_tags p node_id tags).0
          (join_with "," (s ∷ parts))
          node_id).1
        ≡ true)
      ↔ All (Wants (map trim_space tags)) (s ∷ parts)
unfolding node_matches_tag_selector
node_matches_iff p node_id s tags parts i h ok f c n t a =
    rw
      (
        t,
        n,
        tags_for_node-upsert_node_tags p node_id tags i h ok f,
        selects_exact (map trim_space (sanitize_tags tags)) (join_with "," (s ∷ parts)) a,
        split_on-join_with "," s parts c,
      )
      (
        (λ m.
            All-map _ _ (s ∷ parts) (λ part. (Wants-clean tags part).0)
              ((all_parts_iff _ (s ∷ parts)).0 m)),
        (λ m.
            (all_parts_iff _ (s ∷ parts)).1
              (All-map _ _ (s ∷ parts) (λ part. (Wants-clean tags part).1) m)),
      )
