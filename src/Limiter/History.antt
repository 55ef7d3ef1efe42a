-- ===== src/Limiter/History.antt =====
-- Histories of calls on one limiter.
use nodepulse.Base.{
  ℕ, ◌≤◌, ◌<◌, String, ◌≡◌, refl, ◌≢◌, inl, inr, List, [], ◌∷◌, arith, str_eq, str_eq_iff,
  Bool-cases,
}
use nodepulse.Base.Int.{pos}
use nodepulse.Limiter.{
  RateLimiter, new_rate_limiter, sweep, allow, reset, Call, allows, resets, step,
}
use nodepulse.Limiter.Reference.{
  admits, answers, log_hit, note, reference_answers, clock_after, IsTimed,
}
use nodepulse.Limiter.Refine.{
  Fixed, Agree, Agree-later, sweep-Agree, sweep-Fixed, other_hits, hit-Agree, allow-Fixed,
  allow_hit,
}

module _ (n w : ℕ) (positive : 0 < n) (key : String) where
  pub allow-own :
      (r : RateLimiter) (k : String) (now clock : ℕ) (log : List ℕ)
      → k ≡ key
      → clock ≤ now
      → Fixed n w r
      → Agree clock w (r.hits key) log
      → ((allow r k now).1 ≡ admits n w log now)
        × Agree now w ((allow r k now).0.hits key) (log_hit n w log now)
  allow-own r k now clock log e h f g =
      rw (e, allow_hit n w r key now positive f)
        (hit-Agree n w (sweep r now) key now log (sweep-Fixed n w r now f)
          (sweep-Agree w r key now log f.windowed f.keeps (Agree-later clock now w _ _ h g)))

  allow-other :
      (r : RateLimiter) (k : String) (now clock : ℕ) (log : List ℕ)
      → k ≢ key
      → clock ≤ now
      → Fixed n w r
      → Agree clock w (r.hits key) log
      → Agree now w ((allow r k now).0.hits key) log
  allow-other r k now clock log ne h f g =
      rw (allow_hit n w r k now positive f, other_hits (sweep r now) k key now ne)
        (sweep-Agree w r key now log f.windowed f.keeps (Agree-later clock now w _ _ h g))

  pub step-Fixed : (r : RateLimiter) (c : Call) → Fixed n w r → Fixed n w (step r c)
  unfolding step reset
  step-Fixed r (allows k now) f = allow-Fixed n w r k now f
  step-Fixed r (resets k) f = record { limited = f.limited; windowed = f.windowed; keeps = f.keeps }

  pub blank-Agree : (clock : ℕ) → Agree clock w [] []
  blank-Agree clock = record { same = λ _ _. refl; rising = tt; past = tt }

  pub step-Agree :
      (r : RateLimiter) (c : Call) (clock : ℕ) (log : List ℕ)
      → clock ≤ clock_after clock c
      → Fixed n w r
      → Agree clock w (r.hits key) log
      → Agree (clock_after clock c) w ((step r c).hits key) (note n w key log c)
  unfolding step note reset
  step-Agree r (allows k now) clock log h f g = elim (Bool-cases (str_eq k key)) [
    | inl own ↦ rw own (allow-own r k now clock log ((str_eq_iff k key).0 own) h f g).1
    | inr other ↦ rw other (allow-other r k now clock log (λ p. cc ((str_eq_iff k key).1 p)) h f g)
  ]
  step-Agree r (resets k) clock log h f g = elim (Bool-cases (str_eq k key)) [
    | inl own ↦ rw own (blank-Agree clock)
    | inr other ↦ rw other g
  ]

  agreed_answers :
      (r : RateLimiter) (cs : List Call) (clock : ℕ) (log : List ℕ)
      → IsTimed clock cs
      → Fixed n w r
      → Agree clock w (r.hits key) log
      → answers key r cs ≡ reference_answers n w key log cs
  unfolding answers reference_answers
  agreed_answers r [] clock log t f g = refl
  agreed_answers r (allows k now ∷ cs) clock log t f g =
      let c = allows k now in
      let rest =
        agreed_answers (step r c) cs now (note n w key log c) t.1 (step-Fixed r c f)
          (step-Agree r c clock log t.0 f g) in
      elim (Bool-cases (str_eq k key)) [
        | inl own ↦
            rw (own, (allow-own r k now clock log ((str_eq_iff k key).0 own) t.0 f g).0, rest)
        | inr other ↦ rw (other, rest)
      ]
  agreed_answers r (resets k ∷ cs) clock log t f g =
      let c = resets k in
      agreed_answers (step r c) cs clock (note n w key log c) t.1 (step-Fixed r c f)
        (step-Agree r c clock log t.0 f g)

pub new-Fixed : (n w t : ℕ) → Fixed n w (new_rate_limiter (pos n) w t)
unfolding new_rate_limiter
new-Fixed n w t = ground arith

-- With a positive limit, on a clock that does not run backwards, a new limiter answers for a key as
-- the reference does that keeps every admitted instant since the last reset of the key and admits
-- a call when fewer than `n` of them lie in the window: neither trimming, nor the sweep of stale
-- keys, nor the calls for other keys change an answer.
pub answers-reference :
    (n w t : ℕ) (key : String) (cs : List Call)
    → 0 < n
    → IsTimed t cs
    → answers key (new_rate_limiter (pos n) w t) cs ≡ reference_answers n w key [] cs
unfolding new_rate_limiter
answers-reference n w t key cs h timed =
    agreed_answers n w h key (new_rate_limiter (pos n) w t) cs t [] timed (new-Fixed n w t)
      (blank-Agree n w h key t)
