-- ===== src/Limiter/Bound.antt =====
-- How many calls for one key the limiter lets through in a window.
use nodepulse.Base.{
  ℕ, ◌≤◌, ◌<◌, String, ◌≡◌, refl, sym, inl, inr, Bool, true, false, ◌&&◌, List, [], ◌∷◌, ◌++◌,
  arith, ltb, if◌then◌else◌, ltb→lt, str_eq, str_eq_iff, Bool-cases, length, length-append,
}
use mathlib.Core.List.{append_assoc, append-nil}
use nodepulse.Base.Int.{pos}
use nodepulse.Window.{recent, recent-append, recent-recent, length-recent-le}
use nodepulse.Limiter.{RateLimiter, new_rate_limiter, allow, Call, allows, resets, step}
use nodepulse.Limiter.Reference.{admits, log_hit, note, clock_after, IsTimed}
use nodepulse.Limiter.Refine.{Fixed, Agree}
use nodepulse.Limiter.History.{allow-own, step-Fixed, step-Agree, new-Fixed, blank-Agree}

-- The instants at which the limiter lets a call for `key` through.
unfoldable pub passed : String → RateLimiter → List Call → List ℕ
passed key r [] = []
passed key r (allows k now ∷ cs) =
    let rest = passed key (step r (allows k now)) cs in
    if str_eq k key && (allow r k now).1 then now ∷ rest else rest
passed key r (resets k ∷ cs) = passed key (step r (resets k)) cs

-- No call of the history resets `key`.
abbrev pub NoReset : String → List Call → Type 0
NoReset key [] = Unit {0}
NoReset key (allows k now ∷ cs) = NoReset key cs
NoReset key (resets k ∷ cs) = (str_eq k key ≡ false) × NoReset key cs

abbrev pub end_clock : ℕ → List Call → ℕ
end_clock clock [] = clock
end_clock clock (c ∷ cs) = end_clock (clock_after clock c) cs

length-recent_mono :
    (now later w : ℕ) (ts : List ℕ)
    → now ≤ later
    → length (recent later w ts) ≤ length (recent now w ts)
length-recent_mono now later w ts h =
    rw (← recent-recent now later w ts h) (length-recent-le later w (recent now w ts))

recent_one : (now w : ℕ) → length (recent now w (now ∷ [])) ≤ 1
recent_one now w = length-recent-le now w (now ∷ [])

-- A window that holds at most `n` instants of the log still does when the reference has decided.
log_hit_bound :
    (n w : ℕ) (log : List ℕ) (now : ℕ)
    → length (recent now w log) ≤ n
    → length (recent now w (log_hit n w log now)) ≤ n
log_hit_bound n w log now h = elim (Bool-cases (ltb (length (recent now w log)) n)) [
  | inl admitted ↦
      rw (admitted, recent-append now w log (now ∷ []))
        (omega (
          arith,
          length-append (recent now w log) (recent now w (now ∷ [])),
          recent_one now w,
          ltb→lt _ _ admitted,
        ))
  | inr refused ↦ rw refused h
]

-- What a call lets through is what the reference adds to its log.
log_passed :
    (n w : ℕ) (own : Bool) (log rest : List ℕ) (now : ℕ)
    → log ++ (if own && admits n w log now then now ∷ rest else rest)
      ≡ (if own then log_hit n w log now else log) ++ rest
log_passed n w false log rest now = refl
log_passed n w true log rest now = elim (Bool-cases (ltb (length (recent now w log)) n)) [
  | inl yes_ ↦ rw yes_ (sym (append_assoc log (now ∷ []) rest))
  | inr no_ ↦ rw no_
]

note_bound :
    (n w : ℕ) (key : String) (log : List ℕ) (k : String) (clock now : ℕ)
    → clock ≤ now
    → length (recent clock w log) ≤ n
    → length (recent now w (note n w key log (allows k now))) ≤ n
unfolding note
note_bound n w key log k clock now h b = elim (Bool-cases (str_eq k key)) [
  | inl own ↦
      rw own (log_hit_bound n w log now (omega (arith, length-recent_mono clock now w log h)))
  | inr other ↦ rw other (omega (arith, length-recent_mono clock now w log h))
]

other_note :
    (n w : ℕ) (key k : String) (log : List ℕ)
    → str_eq k key ≡ false
    → note n w key log (resets k) ≡ log
unfolding note
other_note n w key k log h = rw h

module _ (n w : ℕ) (positive : 0 < n) (key : String) where
  step_passed :
      (r : RateLimiter) (k : String) (now clock : ℕ) (log rest : List ℕ)
      → clock ≤ now
      → Fixed n w r
      → Agree clock w (r.hits key) log
      → log ++ (if str_eq k key && (allow r k now).1 then now ∷ rest else rest)
        ≡ note n w key log (allows k now) ++ rest
  unfolding note
  step_passed r k now clock log rest h f g = elim (Bool-cases (str_eq k key)) [
    | inl own ↦
        rw (own, (allow-own n w positive key r k now clock log ((str_eq_iff k key).0 own) h f g).0)
          (log_passed n w true log rest now)
    | inr other ↦ rw other
  ]

  passed_bound :
      (r : RateLimiter) (cs : List Call) (clock later : ℕ) (log : List ℕ)
      → IsTimed clock cs
      → NoReset key cs
      → Fixed n w r
      → Agree clock w (r.hits key) log
      → length (recent clock w log) ≤ n
      → end_clock clock cs ≤ later
      → length (recent later w (log ++ passed key r cs)) ≤ n
  unfolding passed
  passed_bound r [] clock later log t u f g b h =
      rw (append-nil log) (omega (arith, length-recent_mono clock later w log h))
  passed_bound r (allows k now ∷ cs) clock later log t u f g b h =
      let c = allows k now in
      rw (step_passed r k now clock log (passed key (step r c) cs) t.0 f g) (
        passed_bound (step r c) cs now later (note n w key log c) t.1 u
          (step-Fixed n w positive key r c f) (step-Agree n w positive key r c clock log t.0 f g)
          (note_bound n w key log k clock now t.0 b) h)
  passed_bound r (resets k ∷ cs) clock later log t u f g b h =
      let c = resets k in
      passed_bound (step r c) cs clock later log t.1 u.1 (step-Fixed n w positive key r c f)
        (rw (other_note n w key k log u.0) at (step-Agree n w positive key r c clock log t.0 f g)) b
        h

-- With a positive limit `n`, on a clock that does not run backwards, no window of the limiter's
-- length that ends at or after the last call holds more than `n` instants at which a call for the
-- key was let through, as long as the key is not reset.
pub passed-window :
    (n w t : ℕ) (key : String) (cs : List Call) (later : ℕ)
    → 0 < n
    → IsTimed t cs
    → NoReset key cs
    → end_clock t cs ≤ later
    → length (recent later w (passed key (new_rate_limiter (pos n) w t) cs)) ≤ n
unfolding new_rate_limiter
passed-window n w t key cs later h timed kept e =
    passed_bound n w h key (new_rate_limiter (pos n) w t) cs t later [] timed kept (new-Fixed n w t)
      (blank-Agree n w h key t) (unfold recent in omega arith) e
