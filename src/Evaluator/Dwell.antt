-- ===== src/Evaluator/Dwell.antt =====
-- How long a breach has lasted when a rule is reported.
use nodepulse.Base.{
  String, ℕ, ◌≡◌, refl, sym, ap, ◌∙◌, ◌≢◌, ◌⊎◌, inl, inr, Bool, true, false, Option, none, some,
  List, [], ◌∷◌, ◌++◌, arith, str_eq, str_eq_iff, Bool-cases, Option-cases, All, All-append,
}
use nodepulse.Base.Int.{ℤ, leb_ℤ}
use mathlib.Core.Path.{subst}
use mathlib.Core.List.{append_assoc, append-nil}
use nodepulse.Evaluator.{
  World, Outcome, done, crashed, breaching, clearing, start_or, seconds_since, new_alert_evaluator,
}
use nodepulse.Evaluator.Turns.{
  Turn, Step, turn, outside, turn_key, verdict, evaluate, run, done_inj, crashed_not_done,
  noted_own, noted_other, breaching_breached, clearing_breached, breaching_cases, evaluate_cases,
  Outcome-cases, store_after, clearing_store,
}

some_inj : {A : Type 0} (x y : A) → ◌≡◌ {A = Option A} (some x) (some y) → x ≡ y
some_inj x y e = cc e

nothing_is_some : {A : Type 0} (x : A) → ◌≡◌ {A = Option A} none (some x) → ⊥
nothing_is_some x e = cc e

-- A step after the beginning of a breach does not find the key inside.
module _ {F : Type 0} (is_gt is_lt : F → F → Bool) (detail : String → F → F → ℤ → String)
    (show_id : ℕ → String) (parse_chat : String → Option ℤ) where
  abbrev pub Keeps : String → Step F → Type 0
  Keeps key (outside p r t) = Unit
  Keeps key (turn t) =
      turn_key is_gt is_lt detail show_id parse_chat t ≡ key
      → verdict is_gt is_lt detail show_id parse_chat t ≢ some false

  -- The breach of a key has lasted since a turn that found it, at `start`.
  pub record Lasts (key : String) (start : ℕ) (steps : List (Step F)) : Type 0 where
    pub before : List (Step F)
    pub first : Turn F
    pub after : List (Step F)
    pub split : steps ≡ before ++ turn first ∷ after
    pub own : turn_key is_gt is_lt detail show_id parse_chat first ≡ key
    pub found : verdict is_gt is_lt detail show_id parse_chat first ≡ some true
    pub since : first.at.now ≡ start
    pub kept : All (Keeps key) after

  -- What the evaluator holds of breaches is true of a history.
  abbrev pub Honest : World F → List (Step F) → Type 0
  Honest w past =
      (key : String) (start : ℕ) → w.eval.breached key ≡ some start → Lasts key start past

  longer :
      (key : String) (start : ℕ) (past : List (Step F)) (s : Step F)
      → Keeps key s
      → Lasts key start past
      → Lasts key start (past ++ s ∷ [])
  longer key start past s k l = record {
    before = l.before;
    first = l.first;
    after = l.after ++ s ∷ [];
    split =
        ap (λ xs. xs ++ s ∷ []) l.split ∙ append_assoc l.before (turn l.first ∷ l.after) (s ∷ []);
    own = l.own;
    found = l.found;
    since = l.since;
    kept = All-append (Keeps key) l.after (s ∷ []) l.kept (k, tt);
  }

  begins :
      (past : List (Step F)) (t : Turn F)
      → verdict is_gt is_lt detail show_id parse_chat t ≡ some true
      → Lasts (turn_key is_gt is_lt detail show_id parse_chat t) t.at.now (past ++ turn t ∷ [])
  begins past t v = record {
    before = past;
    first = t;
    after = [];
    split = refl;
    own = refl;
    found = v;
    since = refl;
    kept = tt;
  }

  -- With a breach found at `t`, the breach of its key has lasted since the start that is then held.
  pub still-Lasts :
      (w : World F) (past : List (Step F)) (t : Turn F)
      → Honest w past
      → verdict is_gt is_lt detail show_id parse_chat t ≡ some true
      → Lasts
          (turn_key is_gt is_lt detail show_id parse_chat t)
          (start_or t.at.now (w.eval.breached (turn_key is_gt is_lt detail show_id parse_chat t)))
          (past ++ turn t ∷ [])
  still-Lasts w past t h v =
      elim (Option-cases (w.eval.breached (turn_key is_gt is_lt detail show_id parse_chat t))) [
        | inl e ↦ rw e (begins past t v)
        | inr (s, e) ↦ rw e (
            longer (turn_key is_gt is_lt detail show_id parse_chat t) s past (turn t)
              (λ k n. absurd (ground (arith, sym v ∙ n)))
              (h (turn_key is_gt is_lt detail show_id parse_chat t) s e))
      ]

  cases_key : (j k : String) → (j ≡ k) ⊎ (j ≢ k)
  cases_key j k = elim (Bool-cases (str_eq j k)) [
    | inl y ↦ inl ((str_eq_iff j k).0 y)
    | inr n ↦ inr (λ e. absurd (ground (arith, (str_eq_iff j k).1 e, n)))
  ]

  breach-Honest :
      (w w' : World F) (past : List (Step F)) (t : Turn F) (value : F)
      → Honest w past
      → verdict is_gt is_lt detail show_id parse_chat t ≡ some true
      → breaching is_gt is_lt detail show_id parse_chat w
          (turn_key is_gt is_lt detail show_id parse_chat t)
          t.node_id
          t.rule
          value
          t.at
        ≡ done w'
      → Honest w' (past ++ turn t ∷ [])
  breach-Honest w w' past t value h v e key start b =
      elim (cases_key (turn_key is_gt is_lt detail show_id parse_chat t) key) [
        | inl k ↦
            subst (λ j. Lasts j start (past ++ turn t ∷ [])) k
              (subst
                (λ s.
                  Lasts (turn_key is_gt is_lt detail show_id parse_chat t) s (past ++ turn t ∷ []))
                (some_inj _ start (
                  sym (
                    breaching_breached is_gt is_lt detail show_id parse_chat w w'
                      (turn_key is_gt is_lt detail show_id parse_chat t) t.node_id
                      (turn_key is_gt is_lt detail show_id parse_chat t) t.rule value t.at e
                    ∙ noted_own w.eval (turn_key is_gt is_lt detail show_id parse_chat t) t.at.now)
                  ∙ ap (λ j. w'.eval.breached j) k
                  ∙ b))
                (still-Lasts w past t h v))
        | inr n ↦
            longer key start past (turn t) (λ k _. absurd (n k))
              (h key start (
                sym (
                  breaching_breached is_gt is_lt detail show_id parse_chat w w'
                    (turn_key is_gt is_lt detail show_id parse_chat t) t.node_id key t.rule value
                    t.at e
                  ∙ noted_other w.eval (turn_key is_gt is_lt detail show_id parse_chat t) key
                      t.at.now n)
                ∙ b))
      ]

  clear-Honest :
      (w w' : World F) (past : List (Step F)) (t : Turn F)
      → Honest w past
      → clearing w (turn_key is_gt is_lt detail show_id parse_chat t) t.rule t.at ≡ done w'
      → Honest w' (past ++ turn t ∷ [])
  clear-Honest w w' past t h e key start b =
      let (own, other) =
        clearing_breached is_gt is_lt detail show_id parse_chat w w'
          (turn_key is_gt is_lt detail show_id parse_chat t) t.rule t.at e in
      elim (cases_key (turn_key is_gt is_lt detail show_id parse_chat t) key) [
        | inl k ↦ absurd (nothing_is_some start (sym own ∙ ap (λ j. w'.eval.breached j) k ∙ b))
        | inr n ↦
            longer key start past (turn t) (λ k _. absurd (n k))
              (h key start (sym (other key n) ∙ b))
      ]

  turn-Honest :
      (w w' : World F) (past : List (Step F)) (t : Turn F)
      → Honest w past
      → evaluate is_gt is_lt detail show_id parse_chat w t ≡ done w'
      → Honest w' (past ++ turn t ∷ [])
  turn-Honest w w' past t h e = elim (evaluate_cases is_gt is_lt detail show_id parse_chat w t) [
    | inl (v, g) ↦ λ key start b.
        longer key start past (turn t) (λ k n. absurd (nothing_is_some false (sym v ∙ n)))
          (h key start (ap (λ u. u.eval.breached key) (done_inj w w' (sym g ∙ e)) ∙ b))
    | inr (inl (value, _, v, g)) ↦ breach-Honest w w' past t value h v (sym g ∙ e)
    | inr (inr (v, g)) ↦ clear-Honest w w' past t h (sym g ∙ e)
  ]

  ran_crashed :
      (w : World F) (steps : List (Step F))
      → ◌≡◌ {A = Outcome F} (run is_gt is_lt detail show_id parse_chat crashed steps) (done w)
      → ⊥
  unfolding run
  ran_crashed w steps e = crashed_not_done w e

  run-Honest :
      (w w' : World F) (past steps : List (Step F))
      → Honest w past
      → run is_gt is_lt detail show_id parse_chat (done w) steps ≡ done w'
      → Honest w' (past ++ steps)
  unfolding run
  run-Honest w w' past [] h e =
      rw (append-nil past)
        (λ key start b. h key start (ap (λ u. u.eval.breached key) (done_inj w w' e) ∙ b))
  run-Honest w w' past (outside p r t ∷ steps) h e =
      subst (λ all. Honest w' all) (append_assoc past (outside p r t ∷ []) steps)
        (run-Honest (record w { store = p; rules = r; tags = t }) w' (past ++ outside p r t ∷ [])
          steps (λ key start b. longer key start past (outside p r t) tt (h key start b)) e)
  run-Honest w w' past (turn t ∷ steps) h e =
      elim (Outcome-cases (evaluate is_gt is_lt detail show_id parse_chat w t)) [
        | inl c ↦ absurd (
            ran_crashed w' steps
              (ap (λ o. run is_gt is_lt detail show_id parse_chat o steps) (sym c) ∙ e))
        | inr (u, d) ↦
            subst (λ all. Honest w' all) (append_assoc past (turn t ∷ []) steps)
              (run-Honest u w' (past ++ turn t ∷ []) steps (turn-Honest w u past t h d)
                (ap (λ o. run is_gt is_lt detail show_id parse_chat o steps) (sym d) ∙ e))
      ]

  -- An evaluation of a rule that touches the incidents, in any history of evaluations from a new
  -- evaluator on, with any changes of the tables in between, comes for_seconds or more after a turn of
  -- the same key that found a breach, and no turn of the key in between found the sample inside.
  pub dwelt :
      (w w' : World F) (steps : List (Step F)) (t : Turn F)
      → w.eval ≡ new_alert_evaluator
      → run is_gt is_lt detail show_id parse_chat (done w) steps ≡ done w'
      → store_after (evaluate is_gt is_lt detail show_id parse_chat w' t) ≢ some w'.store
      → (start : ℕ) × Lasts
          (turn_key is_gt is_lt detail show_id parse_chat t)
          start
          (steps ++ turn t ∷ [])
        × (leb_ℤ t.rule.for_seconds (seconds_since start t.at.now) ≡ true)
  dwelt w w' steps t n e changed =
      elim (evaluate_cases is_gt is_lt detail show_id parse_chat w' t) [
        | inl (_, g) ↦ absurd (changed (rw g refl))
        | inr (inl (value, _, v, g)) ↦
            elim (breaching_cases is_gt is_lt detail show_id parse_chat w'
              (turn_key is_gt is_lt detail show_id parse_chat t) t.node_id t.rule value t.at) [
                | inl (r, _) ↦ (
                  start_or t.at.now
                      (w'.eval.breached (turn_key is_gt is_lt detail show_id parse_chat t)),
                  still-Lasts w' steps t (run-Honest w w' [] steps fresh e) v,
                  r.lasted,
                )
                | inr (_, d) ↦ absurd (changed (rw (g, d) refl))
              ]
        | inr (inr (_, g)) ↦ absurd (
            changed (
              rw g
                (clearing_store w' (turn_key is_gt is_lt detail show_id parse_chat t) t.rule t.at)))
      ]
    where
      fresh : Honest w []
      fresh key start b = absurd (nothing_is_some start (sym (ap (λ ev. ev.breached key) n) ∙ b))
