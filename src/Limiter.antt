-- ===== src/Limiter.antt =====
-- pkg/store/ratelimit.go: the sliding-window limiter of the login and registration handlers.
pub mod Reference
pub mod Refine
pub mod History
pub mod Bound
use nodepulse.Base.{
  ℕ, zero, suc, ◌+◌, ◌-◌, ◌*◌, ◌/◌, ◌%◌, ◌^◌, ◌≤◌, ◌<◌, String, ◌≡◌, refl, sym, ap, ◌∙◌, ◌≢◌, ◌↔◌,
  ◌⊎◌, inl, inr, Bool, true, false, not, ◌&&◌, ◌||◌, Option, none, some, List, [], ◌∷◌, ◌++◌, map,
  arith, ltb, leb, ◌==◌, if◌then◌else◌, ltb→lt, lt→ltb, leb→le, ==_iff, str_eq, str_eq_iff,
  str_eq_refl, Bool-cases, Option-cases, length, length-append, All, All-append, All-map, update,
  update_self, update_ne,
}
use nodepulse.Base.Int.{ℤ, pos, negsuc, pos_part, is_pos}
use nodepulse.Window.{recent}

pub record RateLimiter : Type 0 where
  pub hits : String → List ℕ
  pub limit : ℤ
  pub window : ℕ
  pub sweep_ev : ℕ
  pub last_sweep : ℕ

unfoldable pub new_rate_limiter : ℤ → ℕ → ℕ → RateLimiter
new_rate_limiter limit window now = record {
  hits = λ _. [];
  limit = limit;
  window = window;
  sweep_ev = 3;
  last_sweep = now;
}

-- `len(v) == 0 || v[len(v)-1].Before(evictCutoff)`, with `age` for `Window * SweepEv`.
unfoldable pub is_stale : ℕ → ℕ → List ℕ → Bool
is_stale now age [] = true
is_stale now age (t ∷ []) = ltb (t + age) now
is_stale now age (t ∷ u ∷ ts) = is_stale now age (u ∷ ts)

-- The sweep deletes every stale key.
unfoldable pub sweep : RateLimiter → ℕ → RateLimiter
unfolding is_stale
sweep r now =
    if ltb (r.last_sweep + r.window) now
    then record r {
      hits = λ k. if is_stale now (r.window * r.sweep_ev) (r.hits k) then [] else r.hits k;
      last_sweep = now;
    }
    else r

-- The part of `Allow` behind the sweep.
pub take_hit : RateLimiter → String → ℕ → RateLimiter × Bool
take_hit r key now =
    let keep = recent now r.window (r.hits key) in
    if leb (pos_part r.limit) (length keep)
    then (record r { hits = update r.hits key keep }, false)
    else (record r { hits = update r.hits key (keep ++ now ∷ []) }, true)

unfoldable pub allow : RateLimiter → String → ℕ → RateLimiter × Bool
unfolding take_hit
allow r key now = if is_pos r.limit then take_hit (sweep r now) key now else (r, true)

-- A nil limiter lets everything through.
unfoldable pub check : Option RateLimiter → String → ℕ → Option RateLimiter × Bool
unfolding allow
check none key now = (none, true)
check (some r) key now = let (r', proceed) = allow r key now in (some r', proceed)

unfoldable pub reset : RateLimiter → String → RateLimiter
reset r key = record r { hits = update r.hits key [] }

-- A call on the limiter, with its reading of the clock.
pub data Call : Type 0 where
  allows : String → ℕ → Call
  resets : String → Call

unfoldable pub step : RateLimiter → Call → RateLimiter
step r (allows key now) = (allow r key now).0
step r (resets key) = reset r key
