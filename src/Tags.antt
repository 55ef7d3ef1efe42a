-- ===== src/Tags.antt =====
-- The tags of nodes: pkg/store/tags.go, and the tag selectors of pkg/store/alert_rules.go.
pub mod Clean
pub mod Select
use nodepulse.Base.{
  String, ℕ, zero, suc, ◌+◌, ◌-◌, ◌*◌, ◌/◌, ◌%◌, ◌^◌, ◌≤◌, ◌<◌, ◌≡◌, refl, sym, ap, ◌∙◌, ◌≢◌, ◌↔◌,
  ◌⊎◌, inl, inr, Bool, true, false, not, ◌&&◌, ◌||◌, Option, none, some, List, [], ◌∷◌, ◌++◌, map,
  arith, ltb, leb, ◌==◌, if◌then◌else◌, ltb→lt, lt→ltb, leb→le, ==_iff, str_eq, str_eq_iff,
  str_eq_refl, Bool-cases, Option-cases, length, length-append, All, All-append, All-map, update,
  update_self, update_ne,
}
use nodepulse.Text.{is_empty, trim_space, has_prefix, after_prefix}
use nodepulse.Text.Split.{split_on, join_with}
use nodepulse.Store.{next_fault, later_faults}
use Prim.Native.Char.{Char}

-- The column `tags` of node_tags by node id, and the outcomes of the statements to come: `true` is an
-- error of the driver.
pub record Tags : Type 0 where
  pub rows : String → Option String
  pub faults : List Bool

abbrev pub newline : Char
newline = "\n"

-- Whether a text is in a list of texts; a Go set of texts is the list of its members.
unfoldable pub has_text : String → List String → Bool
has_text s [] = false
has_text s (t ∷ ts) = str_eq t s || has_text s ts

-- The loop of sanitizeTags, with what it has put out so far, which is also what it has seen.
unfoldable pub sanitize_onto : List String → List String → List String
unfolding has_text
sanitize_onto out [] = out
sanitize_onto out (t ∷ ts) =
    let x = trim_space t in
    let skipped = sanitize_onto out ts in
    let kept = sanitize_onto (out ++ x ∷ []) ts in
    if is_empty x then skipped else if has_text x out then skipped else kept

unfoldable pub sanitize_tags : List String → List String
sanitize_tags tags = sanitize_onto [] tags

-- `true` where there was no error.
unfoldable pub upsert_node_tags : Tags → String → List String → Tags × Bool
upsert_node_tags p node_id tags =
    if is_empty node_id
    then (p, true)
    else if next_fault p.faults
    then (record p { faults = later_faults p.faults }, false)
    else (
      record {
        rows = update p.rows node_id (some (join_with newline (sanitize_tags tags)));
        faults = later_faults p.faults;
      },
      true,
    )

abbrev tags_of : Option String → List String
tags_of none = []
tags_of (some raw) = if is_empty raw then [] else split_on newline raw

unfoldable pub tags_for_node : Tags → String → Tags × List String
tags_for_node p node_id = (
  record p { faults = later_faults p.faults },
  if next_fault p.faults then [] else tags_of (p.rows node_id),
)

-- The loop of an "any:" selector over its parts.
unfoldable pub any_part : List String → List String → Bool
unfolding has_text
any_part set [] = false
any_part set (raw ∷ parts) =
    let tag = trim_space raw in
    let rest = any_part set parts in
    if is_empty tag then rest else if has_text tag set then true else rest

-- The loop of the other selectors.
unfoldable pub all_parts : List String → List String → Bool
unfolding has_text
all_parts set [] = true
all_parts set (raw ∷ parts) =
    let tag = trim_space raw in
    let rest = all_parts set parts in
    if is_empty tag then rest else if not (has_text tag set) then false else rest

-- A selector that is trimmed and not empty, on a set of trimmed tags.
unfoldable pub selects : List String → String → Bool
unfolding any_part all_parts
selects set sel = elim (after_prefix "any:" sel) [
  | none ↦ all_parts set (split_on "," sel)
  | some rest ↦ any_part set (split_on "," rest)
]

-- The tags are read only for a selector that is not empty.
unfoldable pub node_matches_tag_selector : Tags → String → String → Tags × Bool
unfolding tags_for_node selects
node_matches_tag_selector p sel node_id =
    if is_empty (trim_space sel)
    then (p, true)
    else let (q, tags) = tags_for_node p node_id in
      (q, selects (map trim_space tags) (trim_space sel))
