-- ===== src/Examples/Tagging.antt =====
-- Two tags are stored and selected.
use nodepulse.Base.{String, ◌≡◌, refl, ◌↔◌, true, none, List, [], ◌∷◌, map, str_eq, All}
use nodepulse.Text.{is_space, trim_space, trim_left, trim_right, after_prefix}
use nodepulse.Text.Split.{has_char, join_with}
use nodepulse.Tags.{
  Tags, upsert_node_tags, tags_for_node, sanitize_tags, node_matches_tag_selector, has_text,
  sanitize_onto,
}
use nodepulse.Tags.Clean.{tags_for_node-upsert_node_tags}
use nodepulse.Tags.Select.{Wants, node_matches_iff}

abbrev no_tags : Tags
no_tags = record { rows = λ n. none; faults = [] }

abbrev labels : List String
labels = " env=prod" ∷ "" ∷ "role=db" ∷ "env=prod " ∷ []

labels_clean : sanitize_tags labels ≡ "env=prod" ∷ "role=db" ∷ []
unfolding sanitize_tags sanitize_onto has_text str_eq trim_space trim_left trim_right is_space
labels_clean = refl

tags_for_node-upsert_node_tags_example :
    (tags_for_node (upsert_node_tags no_tags "n1" labels).0 "n1").1 ≡ sanitize_tags labels
unfolding has_char upsert_node_tags
tags_for_node-upsert_node_tags_example =
    tags_for_node-upsert_node_tags no_tags "n1" labels refl (refl, (refl, (refl, (refl, tt)))) refl
      refl

node_matches_iff_example :
    ((node_matches_tag_selector (upsert_node_tags no_tags "n1" labels).0 "role=db, env=prod" "n1").1
      ≡ true)
    ↔ All (Wants (map trim_space labels)) ("role=db" ∷ " env=prod" ∷ [])
unfolding has_char upsert_node_tags join_with trim_space trim_left trim_right is_space after_prefix
node_matches_iff_example =
    node_matches_iff no_tags "n1" "role=db" labels (" env=prod" ∷ []) refl
      (refl, (refl, (refl, (refl, tt)))) refl refl (refl, (refl, tt)) refl refl refl
