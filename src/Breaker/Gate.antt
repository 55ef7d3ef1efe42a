-- ===== src/Breaker/Gate.antt =====
-- What the gates of the breaker guarantee: spacing of attempts, the open circuit, bounded logs.
use nodepulse.Base.{
  ℕ, ◌+◌, ◌≤◌, ◌<◌, String, ◌≡◌, refl, ◌∙◌, inl, inr, not, ◌&&◌, Option, none, some, List, [], ◌∷◌,
  arith, if◌then◌else◌, str_eq, str_eq_iff, str_eq_refl, Bool-cases,
}
use nodepulse.Breaker.{
  Breaker, Call, allows, records, record_crashes, allow, record_crash, record_outcome, step,
}
use nodepulse.Breaker.Frame.{SameParams, step-SameParams, step_frame, target_of}
use nodepulse.Breaker.Ledger.{is_open, is_cooling, decides, IsTimed}

unfoldable pub run : Breaker → List Call → Breaker
run b [] = b
run b (c ∷ cs) = run (step b c) cs

-- `Allow` answers "circuit_open" while a stored deadline lies ahead, else "cooldown" while the last
-- attempt is less than the cooldown ago, and else "ok", and it is allowed exactly in the last case.
pub allow_verdict :
    (b : Breaker) (key : String) (p n a : ℕ)
    → let r = (allow b key p n a).1 in
      (r.reason ≡ (
        if is_open (b.opens_at key) n
        then "circuit_open"
        else if is_cooling b.cooldown (b.last_attempt key) n
        then "cooldown"
        else "ok"))
      × (r.allowed ≡ (
          not (is_open (b.opens_at key) n) && not (is_cooling b.cooldown (b.last_attempt key) n)))
      × (r.target ≡ key)
unfolding allow
allow_verdict b key p n a = ground (arith, str_eq_refl key)

-- An attempt at or after `since` is on record.
abbrev pub Attempted : ℕ → Option ℕ → Type 0
Attempted since none = ⊥
Attempted since (some last) = since ≤ last

-- A deadline at or after `until` is stored.
abbrev pub OpenUntil : ℕ → Option ℕ → Type 0
OpenUntil until none = ⊥
OpenUntil until (some u) = until ≤ u

pub allow-Attempted :
    (b : Breaker) (key : String) (p n a since : ℕ)
    → since ≤ n
    → Attempted since (b.last_attempt key)
    → Attempted since ((allow b key p n a).0.last_attempt key)
unfolding allow
allow-Attempted b key p n a since h t = ground (arith, str_eq_refl key)

pub outcome-Attempted :
    (b : Breaker) (key : String) (e : Option String) (n since : ℕ)
    → since ≤ n
    → Attempted since ((record_outcome b key e n).last_attempt key)
unfolding record_outcome
outcome-Attempted b key e n since h = ground (arith, str_eq_refl key)

pub crash-Attempted :
    (b : Breaker) (key : String) (n since : ℕ)
    → Attempted since (b.last_attempt key)
    → Attempted since ((record_crash b key n).last_attempt key)
unfolding record_crash
crash-Attempted b key n since t = ground (arith, str_eq_refl key)

own-Attempted :
    (b : Breaker) (key : String) (c : Call) (since : ℕ)
    → target_of c ≡ key
    → since ≤ decides c
    → Attempted since (b.last_attempt key)
    → Attempted since ((step b c).last_attempt key)
unfolding step
own-Attempted b key (allows k p n a) since e h t = rw e (allow-Attempted b key p n a since h t)
own-Attempted b key (records k err n) since e h t = rw e (outcome-Attempted b key err n since h)
own-Attempted b key (record_crashes k n) since e h t = rw e (crash-Attempted b key n since t)

pub step-Attempted :
    (b : Breaker) (key : String) (c : Call) (since : ℕ)
    → since ≤ decides c
    → Attempted since (b.last_attempt key)
    → Attempted since ((step b c).last_attempt key)
step-Attempted b key c since h t = elim (Bool-cases (str_eq (target_of c) key)) [
  | inl e ↦ own-Attempted b key c since ((str_eq_iff _ _).0 e) h t
  | inr ne ↦ rw (step_frame b c key (λ p. cc ((str_eq_iff _ _).1 p))).last t
]

allow-OpenUntil :
    (b : Breaker) (key : String) (p n a until : ℕ)
    → n < until
    → OpenUntil until (b.opens_at key)
    → OpenUntil until ((allow b key p n a).0.opens_at key)
unfolding allow
allow-OpenUntil b key p n a until h t = ground (arith, str_eq_refl key)

outcome-OpenUntil :
    (b : Breaker) (key : String) (e : Option String) (n until : ℕ)
    → until ≤ n + b.open_for
    → OpenUntil until (b.opens_at key)
    → OpenUntil until ((record_outcome b key e n).opens_at key)
unfolding record_outcome
outcome-OpenUntil b key e n until h t = ground (arith, str_eq_refl key)

crash-OpenUntil :
    (b : Breaker) (key : String) (n until : ℕ)
    → until ≤ n + b.open_for
    → OpenUntil until (b.opens_at key)
    → OpenUntil until ((record_crash b key n).opens_at key)
unfolding record_crash
crash-OpenUntil b key n until h t = ground (arith, str_eq_refl key)

own-OpenUntil :
    (b : Breaker) (key : String) (c : Call) (until : ℕ)
    → target_of c ≡ key
    → decides c < until
    → until ≤ decides c + b.open_for
    → OpenUntil until (b.opens_at key)
    → OpenUntil until ((step b c).opens_at key)
unfolding step
own-OpenUntil b key (allows k p n a) u e h w t = rw e (allow-OpenUntil b key p n a u h t)
own-OpenUntil b key (records k err n) u e h w t = rw e (outcome-OpenUntil b key err n u w t)
own-OpenUntil b key (record_crashes k n) u e h w t = rw e (crash-OpenUntil b key n u w t)

step-OpenUntil :
    (b : Breaker) (key : String) (c : Call) (until : ℕ)
    → decides c < until
    → until ≤ decides c + b.open_for
    → OpenUntil until (b.opens_at key)
    → OpenUntil until ((step b c).opens_at key)
step-OpenUntil b key c u h w t = elim (Bool-cases (str_eq (target_of c) key)) [
  | inl e ↦ own-OpenUntil b key c u ((str_eq_iff _ _).0 e) h w t
  | inr ne ↦ rw (step_frame b c key (λ p. cc ((str_eq_iff _ _).1 p))).opens t
]

-- The reading of the clock at which a history ends.
abbrev pub ends : ℕ → List Call → ℕ
ends clock [] = clock
ends clock (c ∷ cs) = ends (decides c) cs

ends-le : (clock : ℕ) (cs : List Call) → IsTimed clock cs → clock ≤ ends clock cs
ends-le clock [] t = omega arith
ends-le clock (c ∷ cs) t = omega (arith, ends-le (decides c) cs t.2)

pub run-Attempted :
    (b : Breaker) (key : String) (cs : List Call) (clock since : ℕ)
    → IsTimed clock cs
    → since ≤ clock
    → Attempted since (b.last_attempt key)
    → Attempted since ((run b cs).last_attempt key)
unfolding run
run-Attempted b key [] clock since t h s = s
run-Attempted b key (c ∷ cs) clock since t h s =
    run-Attempted (step b c) key cs (decides c) since t.2 (omega arith)
      (step-Attempted b key c since (omega arith) s)

pub run-SameParams : (b : Breaker) (cs : List Call) → SameParams b (run b cs)
unfolding run
run-SameParams b [] = record {
  cooldown = refl;
  burst_window = refl;
  burst_limit = refl;
  open_for = refl;
}
run-SameParams b (c ∷ cs) =
    let one = step-SameParams b c in
    let rest = run-SameParams (step b c) cs in
    record {
      cooldown = rest.cooldown ∙ one.cooldown;
      burst_window = rest.burst_window ∙ one.burst_window;
      burst_limit = rest.burst_limit ∙ one.burst_limit;
      open_for = rest.open_for ∙ one.open_for;
    }

pub run-OpenUntil :
    (b : Breaker) (key : String) (cs : List Call) (clock until : ℕ)
    → IsTimed clock cs
    → ends clock cs < until
    → until ≤ clock + b.open_for
    → OpenUntil until (b.opens_at key)
    → OpenUntil until ((run b cs).opens_at key)
unfolding run
run-OpenUntil b key [] clock u t h w s = s
run-OpenUntil b key (c ∷ cs) clock u t h w s =
    run-OpenUntil (step b c) key cs (decides c) u t.2 h
      (rw (step-SameParams b c).open_for (omega arith))
      (step-OpenUntil b key c u (omega (arith, ends-le (decides c) cs t.2)) (omega arith) s)
