-- ===== src/Tags/Clean.antt =====
-- What is stored of the tags of a node, and what is read back.
use nodepulse.Base.{
  String, ◌≡◌, refl, ◌⊎◌, inl, inr, true, false, ◌||◌, some, List, [], ◌∷◌, ◌++◌, arith, Bool-cases,
  All, All-append, All-map, update_self,
}
use nodepulse.Text.{is_empty, trim_space, trim_left, trim_right}
use nodepulse.Text.Split.{join_with, has_char, split_on-join_with}
use nodepulse.Store.{next_fault}
use nodepulse.Tags.{
  Tags, newline, has_text, sanitize_onto, sanitize_tags, upsert_node_tags, tags_for_node, tags_of,
}
use Prim.Native.Char.{Char}
use text.Mathlib.TextLemmas.{cons-append}

-- A tag as the table keeps it: trimmed, not empty, on one line.
abbrev pub Tidy : String → Type 0
Tidy t = (is_empty t ≡ false) × (has_char newline t ≡ false)

trim_left_char :
    (sep : Char) (s : String) → has_char sep s ≡ false → has_char sep (trim_left s) ≡ false
unfolding has_char trim_left
trim_left_char sep String.[] h = refl
trim_left_char sep (String.◌∷◌ c s) h = ground (arith, trim_left_char sep s)

trim_right_char :
    (sep : Char) (s : String) → has_char sep s ≡ false → has_char sep (trim_right s) ≡ false
unfolding has_char trim_right
trim_right_char sep String.[] h = refl
trim_right_char sep (String.◌∷◌ c s) h = ground (arith, trim_right_char sep s)

trim_char : (sep : Char) (s : String) → has_char sep s ≡ false → has_char sep (trim_space s) ≡ false
unfolding trim_space
trim_char sep s h = trim_left_char sep (trim_right s) (trim_right_char sep s h)

-- One tag more: it is dropped, or it is put at the end.
pub sanitize_step :
    (out ts : List String) (t : String)
    → (sanitize_onto out (t ∷ ts) ≡ sanitize_onto out ts)
        × (◌||◌ (is_empty (trim_space t)) (has_text (trim_space t) out) ≡ true)
      ⊎ ((sanitize_onto out (t ∷ ts) ≡ sanitize_onto (out ++ trim_space t ∷ []) ts)
          × (is_empty (trim_space t) ≡ false)
          × (has_text (trim_space t) out ≡ false))
unfolding sanitize_onto
sanitize_step out ts t = elim (Bool-cases (is_empty (trim_space t))) [
  | inl y ↦ inl (rw y refl, rw y refl)
  | inr n ↦ elim (Bool-cases (has_text (trim_space t) out)) [
    | inl y ↦ inl (rw (n, y) refl, rw (n, y) refl)
    | inr m ↦ inr (rw (n, m) refl, n, m)
  ]
]

sanitize_onto-Tidy :
    (out ts : List String)
    → All Tidy out
    → All (λ t. has_char newline t ≡ false) ts
    → All Tidy (sanitize_onto out ts)
unfolding sanitize_onto
sanitize_onto-Tidy out [] h k = h
sanitize_onto-Tidy out (t ∷ ts) h k = elim (sanitize_step out ts t) [
  | inl (e, _) ↦ rw e (sanitize_onto-Tidy out ts h k.1)
  | inr (e, n, _) ↦ rw e (
      sanitize_onto-Tidy (out ++ trim_space t ∷ []) ts
        (All-append Tidy out (trim_space t ∷ []) h ((n, trim_char newline t k.0), tt)) k.1)
]

joined_nonempty :
    (sep : Char) (s : String) (parts : List String)
    → is_empty s ≡ false
    → is_empty (join_with sep (s ∷ parts)) ≡ false
unfolding join_with
joined_nonempty sep String.[] parts h = absurd (ground (arith, h))
joined_nonempty sep (String.◌∷◌ c s) [] h = refl
joined_nonempty sep (String.◌∷◌ c s) (t ∷ parts) h = rw cons-append refl

stored_read : (tags : List String) → All Tidy tags → tags_of (some (join_with newline tags)) ≡ tags
unfolding join_with
stored_read [] h = refl
stored_read (s ∷ parts) h =
    rw (joined_nonempty newline s parts h.0.0)
      (split_on-join_with newline s parts (All-map Tidy _ (s ∷ parts) (λ t k. k.1) h))

-- Tags without a newline that UpsertNodeTags stores without an error come back from TagsForNode as
-- sanitizeTags gives them, in their order, where the query meets no error.
pub tags_for_node-upsert_node_tags :
    (p : Tags) (node_id : String) (tags : List String)
    → is_empty node_id ≡ false
    → All (λ t. has_char newline t ≡ false) tags
    → (upsert_node_tags p node_id tags).1 ≡ true
    → next_fault (upsert_node_tags p node_id tags).0.faults ≡ false
    → (tags_for_node (upsert_node_tags p node_id tags).0 node_id).1 ≡ sanitize_tags tags
unfolding upsert_node_tags tags_for_node sanitize_tags
tags_for_node-upsert_node_tags p node_id tags i h ok f = elim (Bool-cases (next_fault p.faults)) [
  | inl y ↦ absurd (ground (arith, rw (i, y) at ok))
  | inr n ↦
      rw
        (
          i,
          n,
          rw (i, n) at f,
          update_self p.rows node_id (some (join_with newline (sanitize_onto [] tags))),
        )
        (stored_read (sanitize_onto [] tags) (sanitize_onto-Tidy [] tags tt h))
]
