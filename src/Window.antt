-- ===== src/Window.antt =====
-- Sliding windows of timestamps, as pkg/autoheal/cooldown.go and pkg/store/ratelimit.go keep them.
-- An instant is its number of nanoseconds; `t.After(now.Add(-w))` is `now < t + w`.
use nodepulse.Base.{
  ℕ, ◌+◌, ◌≤◌, ◌<◌, ◌≡◌, refl, List, [], ◌∷◌, ◌++◌, arith, ltb, if◌then◌else◌, length, All, ◌∙◌,
}

-- The timestamps that are still inside the window `w` before `now`, in order.
unfoldable pub recent : ℕ → ℕ → List ℕ → List ℕ
recent now w [] = []
recent now w (t ∷ ts) = let rest = recent now w ts in if ltb now (t + w) then t ∷ rest else rest

pub length-recent-le : (now w : ℕ) (ts : List ℕ) → length (recent now w ts) ≤ length ts
unfolding recent
length-recent-le now w [] = omega arith
length-recent-le now w (t ∷ ts) = ground (arith, length-recent-le now w ts)

pub recent-append :
    (now w : ℕ) (xs ys : List ℕ) → recent now w (xs ++ ys) ≡ recent now w xs ++ recent now w ys
unfolding recent
recent-append now w [] ys = refl
recent-append now w (x ∷ xs) ys = ground (arith, recent-append now w xs ys)

-- A later look at a window does not notice that it was trimmed before.
pub recent-recent :
    (now later w : ℕ) (ts : List ℕ)
    → now ≤ later
    → recent later w (recent now w ts) ≡ recent later w ts
unfolding recent
recent-recent now later w [] h = refl
recent-recent now later w (t ∷ ts) h = ground (arith, recent-recent now later w ts h)

-- Timestamps that have all left the window leave nothing.
pub recent_expired : (now w : ℕ) (ts : List ℕ) → All (λ t. t + w ≤ now) ts → recent now w ts ≡ []
unfolding recent
recent_expired now w [] h = refl
recent_expired now w (t ∷ ts) h = ground (arith, recent_expired now w ts h.1)

pub recent_now : (now w : ℕ) → 0 < w → recent now w (now ∷ []) ≡ now ∷ []
unfolding recent
recent_now now w h = ground arith

-- Two logs that no look at the window from `clock` on tells apart.
abbrev pub Alike : ℕ → ℕ → List ℕ → List ℕ → Type 0
Alike clock w xs ys = (now : ℕ) → clock ≤ now → recent now w xs ≡ recent now w ys

pub Alike-later : (c d w : ℕ) (xs ys : List ℕ) → c ≤ d → Alike c w xs ys → Alike d w xs ys
Alike-later c d w xs ys h s = λ now later. s now (omega arith)

pub Alike-trim :
    (c w : ℕ) (xs ys : List ℕ) (n : ℕ) → n ≤ c → Alike c w xs ys → Alike c w (recent n w xs) ys
Alike-trim c w xs ys n h s = λ now later. recent-recent n now w xs (omega arith) ∙ s now later

pub Alike-snoc :
    (c w : ℕ) (xs ys : List ℕ) (n : ℕ) → Alike c w xs ys → Alike c w (xs ++ n ∷ []) (ys ++ n ∷ [])
Alike-snoc c w xs ys n s =
    λ now later. rw (recent-append now w xs (n ∷ []), recent-append now w ys (n ∷ []), s now later)
