-- ===== src/Memory/Recent.antt =====
-- The history that Ingest of pkg/store/memory.go keeps for a node.
use mathlib.Core.List.{append-nil, append_assoc}
use nodepulse.Base.{
  ℕ, zero, suc, ◌+◌, ◌-◌, ◌≤◌, String, ◌≡◌, refl, sym, ap, ◌∙◌, inl, inr, Bool, true, false, Option,
  none, List, [], ◌∷◌, ◌++◌, arith, ltb, if◌then◌else◌, ltb→lt, str_eq, str_eq_iff, Bool-cases,
  length, length-append,
}
use nodepulse.Memory.{
  Heartbeat, MetricPoint, NodeState, drop, last_sixty, history_of, point_of, ingest,
}

short_le : (n : ℕ) → ltb 60 n ≡ false → n ≤ 60
short_le n h = ground (arith, h)

long_sum : (n : ℕ) → ltb 60 n ≡ true → n ≡ n - 60 + 60
long_sum n h = omega (arith, ltb→lt 60 n h)

long_suc : (n : ℕ) → ltb 60 n ≡ true → n ≡ suc (n - 60) + 59
long_suc n h = omega (arith, ltb→lt 60 n h)

module _ {A : Type 0} where
  length-drop : (n : ℕ) (xs : List A) → length (drop n xs) ≡ length xs - n
  unfolding drop
  length-drop n [] = omega arith
  length-drop zero (x ∷ xs) = omega arith
  length-drop (suc n) (x ∷ xs) = omega (arith, length-drop n xs)

  drop-append : (n : ℕ) (xs ys : List A) → n ≤ length xs → drop n (xs ++ ys) ≡ drop n xs ++ ys
  unfolding drop
  drop-append zero [] [] h = refl
  drop-append zero [] (y ∷ ys) h = refl
  drop-append (suc n) [] ys h = ground (arith, h)
  drop-append zero (x ∷ xs) ys h = refl
  drop-append (suc n) (x ∷ xs) ys h = drop-append n xs ys (omega (arith, h))

  drop_zero : (xs : List A) → drop 0 xs ≡ xs
  unfolding drop
  drop_zero [] = refl
  drop_zero (x ∷ xs) = refl

  drop-suc : (n : ℕ) (xs : List A) → drop 1 (drop n xs) ≡ drop (suc n) xs
  unfolding drop
  drop-suc n [] = refl
  drop-suc zero (x ∷ xs) = refl
  drop-suc (suc n) (x ∷ xs) = drop-suc n xs

  last_sixty-drop : (n : ℕ) (zs : List A) → length zs ≡ n + 60 → last_sixty zs ≡ drop n zs
  unfolding last_sixty
  last_sixty-drop n zs h = elim (Bool-cases (ltb 60 (length zs))) [
    | inl long ↦ rw long (ap (λ k. drop k zs) (omega (arith, h)))
    | inr short ↦
        rw short
          (sym (drop_zero zs) ∙ ap (λ k. drop k zs) (omega (arith, h, short_le (length zs) short)))
  ]

  dropped_append :
      (n : ℕ) (xs : List A) (y : A)
      → length xs ≡ suc n + 59
      → last_sixty (drop n xs ++ y ∷ []) ≡ last_sixty (xs ++ y ∷ [])
  dropped_append n xs y h =
      last_sixty-drop 1 (drop n xs ++ y ∷ [])
        (omega (arith, h, length-append (drop n xs) (y ∷ []), length-drop n xs))
      ∙ drop-append 1 (drop n xs) (y ∷ []) (omega (arith, h, length-drop n xs))
      ∙ ap (λ ds. ds ++ y ∷ []) (drop-suc n xs)
      ∙ sym (drop-append (suc n) xs (y ∷ []) (omega (arith, h)))
      ∙ sym (last_sixty-drop (suc n) (xs ++ y ∷ []) (omega (arith, h, length-append xs (y ∷ []))))

  last_sixty_short : (zs : List A) → ltb 60 (length zs) ≡ false → last_sixty zs ≡ zs
  unfolding last_sixty
  last_sixty_short zs h = rw h refl

  -- Trimming before one more entry changes nothing.
  last_sixty_append :
      (xs : List A) (y : A) → last_sixty (last_sixty xs ++ y ∷ []) ≡ last_sixty (xs ++ y ∷ [])
  last_sixty_append xs y = elim (Bool-cases (ltb 60 (length xs))) [
    | inr short ↦ ap (λ zs. last_sixty (zs ++ y ∷ [])) (last_sixty_short xs short)
    | inl long ↦
        ap (λ zs. last_sixty (zs ++ y ∷ []))
          (last_sixty-drop (length xs - 60) xs (long_sum (length xs) long))
        ∙ dropped_append (length xs - 60) xs y (long_suc (length xs) long)
  ]

  drop_splits :
      (n : ℕ) (zs : List A)
      → n ≤ length zs
      → (older : List A) × (zs ≡ older ++ drop n zs) × (length older ≡ n)
  unfolding drop
  drop_splits zero [] h = ([], refl, refl)
  drop_splits (suc n) [] h = absurd (omega (arith, h))
  drop_splits zero (z ∷ zs) h = ([], refl, refl)
  drop_splits (suc n) (z ∷ zs) h =
      let (older, e, l) = drop_splits n zs (omega (arith, h)) in
      (z ∷ older, ap (λ ys. z ∷ ys) e, ap suc l)

  last_sixty_splits :
      (zs : List A)
      → (older : List A) × (zs ≡ older ++ last_sixty zs)
        × (length (last_sixty zs) ≤ 60)
        × (length older ≡ length zs - 60)
  unfolding last_sixty
  last_sixty_splits zs = elim (Bool-cases (ltb 60 (length zs))) [
    | inl long ↦
        let (older, e, l) = drop_splits (length zs - 60) zs (omega arith) in
        rw long
          (older, e, omega (arith, length-drop (length zs - 60) zs, ltb→lt 60 (length zs) long), l)
    | inr short ↦
        rw short ([], refl, short_le (length zs) short, omega (arith, short_le (length zs) short))
  ]

-- The points of the heartbeats of a node, in their order.
module _ {F : Type 0} (is_loaded : F → ℕ → Bool) (is_above : F → ℕ → Bool) (nothing : F) where
  unfoldable pub points : String → List (Heartbeat F × ℕ) → List (MetricPoint F)
  points node_id [] = []
  points node_id ((hb, now) ∷ hbs) =
      let rest = points node_id hbs in
      if str_eq hb.node_id node_id then point_of is_loaded is_above nothing hb ∷ rest else rest

  unfoldable pub ingest_all :
      (String → Option (NodeState F)) → List (Heartbeat F × ℕ) → String → Option (NodeState F)
  ingest_all nodes [] = nodes
  ingest_all nodes ((hb, now) ∷ hbs) =
      ingest_all (ingest is_loaded is_above nothing nodes hb now) hbs

  skipped :
      (nodes : String → Option (NodeState F)) (node_id : String) (hb : Heartbeat F) (now : ℕ)
      (all : List (MetricPoint F))
      → str_eq hb.node_id node_id ≡ false
      → history_of (nodes node_id) ≡ last_sixty all
      → history_of (ingest is_loaded is_above nothing nodes hb now node_id) ≡ last_sixty all
  unfolding ingest
  skipped nodes node_id hb now all other h = rw other h

  taken :
      (nodes : String → Option (NodeState F)) (node_id : String) (hb : Heartbeat F) (now : ℕ)
      (all : List (MetricPoint F))
      → str_eq hb.node_id node_id ≡ true
      → history_of (nodes node_id) ≡ last_sixty all
      → history_of (ingest is_loaded is_above nothing nodes hb now node_id)
        ≡ last_sixty (all ++ point_of is_loaded is_above nothing hb ∷ [])
  unfolding ingest
  taken nodes node_id hb now all same h =
      rw (same, (str_eq_iff hb.node_id node_id).0 same, h)
        (last_sixty_append all (point_of is_loaded is_above nothing hb))

  from_history :
      (nodes : String → Option (NodeState F)) (node_id : String) (all : List (MetricPoint F))
      (hbs : List (Heartbeat F × ℕ))
      → history_of (nodes node_id) ≡ last_sixty all
      → history_of (ingest_all nodes hbs node_id) ≡ last_sixty (all ++ points node_id hbs)
  unfolding ingest_all points
  from_history nodes node_id all [] h = h ∙ ap last_sixty (sym (append-nil all))
  from_history nodes node_id all ((hb, now) ∷ hbs) h =
      elim (Bool-cases (str_eq hb.node_id node_id)) [
        | inr other ↦ rw other (
            from_history (ingest is_loaded is_above nothing nodes hb now) node_id all hbs
              (skipped nodes node_id hb now all other h))
        | inl same ↦ rw same (
            from_history (ingest is_loaded is_above nothing nodes hb now) node_id
              (all ++ point_of is_loaded is_above nothing hb ∷ []) hbs
              (taken nodes node_id hb now all same h)
            ∙ ap last_sixty (
                append_assoc all (point_of is_loaded is_above nothing hb ∷ [])
                  (points node_id hbs)))
      ]

  -- From a memory that knows no node, after any heartbeats in any order of nodes, the points of all
  -- heartbeats of a node, the oldest first, are some older points and then its history; the history has
  -- at most sixty points, and the older ones are as many as the heartbeats of the node above sixty.
  pub ingest_all-recent :
      (node_id : String) (hbs : List (Heartbeat F × ℕ))
      → (older : List (MetricPoint F)) × (points node_id hbs
          ≡ older ++ history_of (ingest_all (λ k. none) hbs node_id))
        × (length (history_of (ingest_all (λ k. none) hbs node_id)) ≤ 60)
        × (length older ≡ length (points node_id hbs) - 60)
  unfolding last_sixty
  ingest_all-recent node_id hbs =
      rw (from_history (λ k. none) node_id [] hbs refl) (last_sixty_splits (points node_id hbs))
