-- ===== src/Limiter/Refine.antt =====
-- The limiter answers as its reference does.
use nodepulse.Base.{
  ℕ, ◌+◌, ◌*◌, ◌≤◌, ◌<◌, String, ◌≡◌, sym, ◌∙◌, ◌≢◌, inl, inr, true, false, not, List, [], ◌∷◌,
  ◌++◌, arith, ltb, leb, if◌then◌else◌, str_eq_iff, str_eq_refl, Bool-cases, length, All,
  All-append, All-map,
}
use nodepulse.Base.Int.{pos, pos_part}
use nodepulse.Window.{recent, recent_expired, Alike, Alike-later, Alike-trim, Alike-snoc}
use nodepulse.Limiter.{RateLimiter, is_stale, sweep, take_hit, allow}
use nodepulse.Limiter.Reference.{
  admits, log_hit, Rising, recent-All, recent-Rising, Rising-snoc, stale_expired,
}

-- The parameters that the calls leave alone.
pub record Fixed (limit window : ℕ) (r : RateLimiter) : Type 0 where
  pub limited : r.limit ≡ pos limit
  pub windowed : r.window ≡ window
  pub keeps : 0 < r.sweep_ev

pub record Agree (clock window : ℕ) (hits log : List ℕ) : Type 0 where
  pub same : Alike clock window hits log
  pub rising : Rising hits
  pub past : All (λ t. t ≤ clock) hits

pub Agree-later : (c d w : ℕ) (hits log : List ℕ) → c ≤ d → Agree c w hits log → Agree d w hits log
Agree-later c d w hits log h g = record {
  same = Alike-later c d w hits log h g.same;
  rising = g.rising;
  past = All-map (λ t. t ≤ c) (λ t. t ≤ d) hits (λ t k. omega arith) g.past;
}

pub sweep-Fixed : (n w : ℕ) (r : RateLimiter) (now : ℕ) → Fixed n w r → Fixed n w (sweep r now)
unfolding sweep
sweep-Fixed n w r now f = ground arith

swept :
    (w : ℕ) (r : RateLimiter) (key : String) (now : ℕ) (log : List ℕ)
    → r.window ≡ w
    → 0 < r.sweep_ev
    → Agree now w (r.hits key) log
    → Agree now w (if is_stale now (r.window * r.sweep_ev) (r.hits key) then [] else r.hits key) log
unfolding recent
swept w r key now log e ev g =
    elim (Bool-cases (is_stale now (r.window * r.sweep_ev) (r.hits key))) [
      | inl stale ↦ rw stale (record {
        same = λ later h. sym (gone later h stale) ∙ g.same later h;
        rising = tt;
        past = tt;
      })
      | inr fresh ↦ rw fresh g
    ]
  where
    longer : r.window ≤ r.window * r.sweep_ev
    longer = grind arith

    gone :
        (later : ℕ)
        → now ≤ later
        → is_stale now (r.window * r.sweep_ev) (r.hits key) ≡ true
        → recent later w (r.hits key) ≡ []
    gone later h stale = recent_expired later w (r.hits key) (
        All-map (λ t. t + r.window ≤ now) (λ t. t + w ≤ later) (r.hits key) (λ t k. omega arith)
          (stale_expired now (r.window * r.sweep_ev) r.window (r.hits key) longer g.rising stale))

pub sweep-Agree :
    (w : ℕ) (r : RateLimiter) (key : String) (now : ℕ) (log : List ℕ)
    → r.window ≡ w
    → 0 < r.sweep_ev
    → Agree now w (r.hits key) log
    → Agree now w ((sweep r now).hits key) log
unfolding sweep
sweep-Agree w r key now log e ev g = elim (Bool-cases (ltb (r.last_sweep + r.window) now)) [
  | inl due ↦ rw due (swept w r key now log e ev g)
  | inr not_due ↦ rw not_due g
]

trim-Agree :
    (w now : ℕ) (hits log : List ℕ) → Agree now w hits log → Agree now w (recent now w hits) log
trim-Agree w now hits log g = record {
  same = Alike-trim now w hits log now (omega arith) g.same;
  rising = recent-Rising now w hits g.rising;
  past = recent-All (λ t. t ≤ now) now w hits g.past;
}

snoc-Agree :
    (w now : ℕ) (hits log : List ℕ)
    → Agree now w hits log
    → Agree now w (hits ++ now ∷ []) (log ++ now ∷ [])
snoc-Agree w now hits log g = record {
  same = Alike-snoc now w hits log now g.same;
  rising = Rising-snoc now hits g.past g.rising;
  past = All-append (λ t. t ≤ now) hits (now ∷ []) g.past (omega arith, tt);
}

own_hits :
    (r : RateLimiter) (key : String) (now : ℕ)
    → let keep = recent now r.window (r.hits key) in
      let full = leb (pos_part r.limit) (length keep) in
      ((take_hit r key now).1 ≡ not full)
      × ((take_hit r key now).0.hits key ≡ (if full then keep else keep ++ now ∷ []))
unfolding take_hit
own_hits r key now = ground (arith, str_eq_refl key)

pub other_hits :
    (r : RateLimiter) (k key : String) (now : ℕ)
    → k ≢ key
    → (take_hit r k now).0.hits key ≡ r.hits key
unfolding take_hit
other_hits r k key now ne = ground (arith, str_eq_iff k key)

take_hit-Fixed :
    (n w : ℕ) (r : RateLimiter) (k : String) (now : ℕ)
    → Fixed n w r
    → Fixed n w (take_hit r k now).0
unfolding take_hit
take_hit-Fixed n w r k now f = ground arith

-- The decision and the new hits, from a state that agrees with the log.
pub hit-Agree :
    (n w : ℕ) (r : RateLimiter) (key : String) (now : ℕ) (log : List ℕ)
    → Fixed n w r
    → Agree now w (r.hits key) log
    → ((take_hit r key now).1 ≡ admits n w log now)
      × Agree now w ((take_hit r key now).0.hits key) (log_hit n w log now)
hit-Agree n w r key now log f g = elim (Bool-cases (ltb (length (recent now w log)) n)) [
  | inl admitted ↦
      let open_ : leb n (length (recent now w log)) ≡ false = ground arith in
      (
        have.0 ∙ rw (f.limited, f.windowed, level, open_, admitted),
        rw (have.1, f.limited, f.windowed, level, open_, admitted)
            (rw level at (snoc-Agree w now _ _ (trim-Agree w now (r.hits key) log g))),
      )
  | inr refused ↦
      let full : leb n (length (recent now w log)) ≡ true = ground arith in
      (
        have.0 ∙ rw (f.limited, f.windowed, level, full, refused),
        rw (have.1, f.limited, f.windowed, level, full, refused)
            (rw level at (trim-Agree w now (r.hits key) log g)),
      )
]
  where
    have :
        ((take_hit r key now).1
          ≡ not (leb (pos_part r.limit) (length (recent now r.window (r.hits key)))))
        × ((take_hit r key now).0.hits key ≡ (
            if leb (pos_part r.limit) (length (recent now r.window (r.hits key)))
            then recent now r.window (r.hits key)
            else recent now r.window (r.hits key) ++ now ∷ []))
    have = own_hits r key now

    level : recent now w (r.hits key) ≡ recent now w log
    level = g.same now (omega arith)

pub allow-Fixed :
    (n w : ℕ) (r : RateLimiter) (k : String) (now : ℕ) → Fixed n w r → Fixed n w (allow r k now).0
unfolding allow
allow-Fixed n w r k now f =
    ground (arith, take_hit-Fixed n w (sweep r now) k now (sweep-Fixed n w r now f))

pub allow_hit :
    (n w : ℕ) (r : RateLimiter) (k : String) (now : ℕ)
    → 0 < n
    → Fixed n w r
    → allow r k now ≡ take_hit (sweep r now) k now
unfolding allow
allow_hit n w r k now h f = ground arith
