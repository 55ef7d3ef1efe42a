-- ===== src/Limiter/Reference.antt =====
-- The limiter against a reference that keeps, for one key, every admitted instant since the last
-- reset, and neither trims nor sweeps.
use nodepulse.Base.{
  ℕ, ◌+◌, ◌≤◌, String, ◌≡◌, inl, inr, Bool, true, false, List, [], ◌∷◌, ◌++◌, arith, ltb,
  if◌then◌else◌, str_eq, Bool-cases, length, All, All-append,
}
use nodepulse.Window.{recent}
use nodepulse.Limiter.{RateLimiter, is_stale, allow, Call, allows, resets, step}

-- The reference lets a call through when fewer than `limit` were let through in the window.
abbrev pub admits : ℕ → ℕ → List ℕ → ℕ → Bool
admits limit window log now = ltb (length (recent now window log)) limit

abbrev pub answer : Bool → Bool → List Bool → List Bool
answer true a rest = a ∷ rest
answer false a rest = rest

-- The answers for one key over a history.
unfoldable pub answers : String → RateLimiter → List Call → List Bool
answers key r [] = []
answers key r (allows k now ∷ cs) =
    answer (str_eq k key) (allow r k now).1 (answers key (step r (allows k now)) cs)
answers key r (resets k ∷ cs) = answers key (step r (resets k)) cs

abbrev pub log_hit : ℕ → ℕ → List ℕ → ℕ → List ℕ
log_hit limit window log now = if admits limit window log now then log ++ now ∷ [] else log

unfoldable pub note : ℕ → ℕ → String → List ℕ → Call → List ℕ
note limit window key log (allows k now) =
    if str_eq k key then log_hit limit window log now else log
note limit window key log (resets k) = if str_eq k key then [] else log

unfoldable pub reference_answers : ℕ → ℕ → String → List ℕ → List Call → List Bool
reference_answers limit window key log [] = []
reference_answers limit window key log (allows k now ∷ cs) =
    answer (str_eq k key) (admits limit window log now)
      (reference_answers limit window key (note limit window key log (allows k now)) cs)
reference_answers limit window key log (resets k ∷ cs) =
    reference_answers limit window key (note limit window key log (resets k)) cs

abbrev pub clock_after : ℕ → Call → ℕ
clock_after clock (allows k now) = now
clock_after clock (resets k) = clock

-- The clock does not run backwards.
abbrev pub IsTimed : ℕ → List Call → Type 0
IsTimed clock [] = Unit {0}
IsTimed clock (c ∷ cs) = (clock ≤ clock_after clock c) × IsTimed (clock_after clock c) cs

-- Hits stand in the order of time.
abbrev pub Rising : List ℕ → Type 0
Rising [] = Unit {0}
Rising (t ∷ ts) = All (λ u. t ≤ u) ts × Rising ts

pub recent-All {ℓ} : (P : ℕ → Type ℓ) (now w : ℕ) (ts : List ℕ) → All P ts → All P (recent now w ts)
unfolding recent
recent-All P now w [] h = tt
recent-All P now w (t ∷ ts) h = elim (Bool-cases (ltb now (t + w))) [
  | inl inside ↦ rw inside (h.0, recent-All P now w ts h.1)
  | inr outside ↦ rw outside (recent-All P now w ts h.1)
]

pub recent-Rising : (now w : ℕ) (ts : List ℕ) → Rising ts → Rising (recent now w ts)
unfolding recent
recent-Rising now w [] h = tt
recent-Rising now w (t ∷ ts) h = elim (Bool-cases (ltb now (t + w))) [
  | inl inside ↦ rw inside (recent-All (λ u. t ≤ u) now w ts h.0, recent-Rising now w ts h.1)
  | inr outside ↦ rw outside (recent-Rising now w ts h.1)
]

pub Rising-snoc :
    (now : ℕ) (ts : List ℕ) → All (λ t. t ≤ now) ts → Rising ts → Rising (ts ++ now ∷ [])
Rising-snoc now [] a h = (tt, tt)
Rising-snoc now (t ∷ ts) a h =
    (All-append (λ u. t ≤ u) ts (now ∷ []) h.0 (a.0, tt), Rising-snoc now ts a.1 h.1)

-- If the last hit is stale, so are all before it.
pub stale_expired :
    (now age w : ℕ) (ts : List ℕ)
    → w ≤ age
    → Rising ts
    → is_stale now age ts ≡ true
    → All (λ t. t + w ≤ now) ts
unfolding is_stale
stale_expired now age w [] a h s = tt
stale_expired now age w (t ∷ []) a h s = (ground arith, tt)
stale_expired now age w (t ∷ u ∷ ts) a h s =
    let rest = stale_expired now age w (u ∷ ts) a h.1 s in (omega arith, rest)
