-- ===== src/Uptime/Keys.antt =====
-- The loop of NodeUptimeDaily over a table with a row for each node and day.
use nodepulse.Base.{
  ℕ, String, ◌≡◌, refl, sym, ◌∙◌, inl, inr, Bool, true, false, ◌&&◌, List, [], ◌∷◌, arith, ◌==◌,
  str_eq_iff, Bool-cases, All,
}
use native.Mathlib.Nat.{add-zero}
use nodepulse.Base.Int.{ℤ, pos, negsuc, eq_ℤ}
use nodepulse.Uptime.{
  UptimeRow, is_row, is_day, is_own_since, by_day_from, by_day_where, sum_where, ℤ,
}

-- Each row has a node and a day of its own, as the primary key of the table demands.
unfoldable pub IsKeyed : List UptimeRow → Type 0
IsKeyed [] = Unit {0}
IsKeyed (r ∷ rs) = All (λ q. is_row r.node_id r.day q ≡ false) rs × IsKeyed rs

clash : (b : Bool) → b ≡ true → b ≡ false → ⊥
clash b h k = ground (arith, h, k)

same_day : (a b : ℕ) (key : ℤ) → eq_ℤ (pos a) key ≡ true → eq_ℤ (pos b) key ≡ true → (b == a) ≡ true
same_day a b (pos n) h k = ground (arith, h, k)
same_day a b (negsuc n) h k = ground (arith, h)

module _ (node_id : String) (today days : ℕ) (key : ℤ) where
  abbrev hits : UptimeRow → Bool
  hits r = is_own_since node_id today days r && is_day key r

  same_row : (r q : UptimeRow) → hits r ≡ true → hits q ≡ true → is_row r.node_id r.day q ≡ true
  same_row r q h y =
      let own : r.node_id ≡ node_id = (str_eq_iff r.node_id node_id).0 (ground (arith, h)) in
      let its : q.node_id ≡ node_id = (str_eq_iff q.node_id node_id).0 (ground (arith, y)) in
      let day = same_day r.day q.day key (ground (arith, h)) (ground (arith, y)) in
      ground (arith, day, (str_eq_iff q.node_id r.node_id).1 (its ∙ sym own))

  other_misses :
      (r q : UptimeRow) → hits r ≡ true → is_row r.node_id r.day q ≡ false → hits q ≡ false
  other_misses r q h k = elim (Bool-cases (hits q)) [
    | inr n ↦ n
    | inl y ↦ absurd (clash (is_row r.node_id r.day q) (same_row r q h y) k)
  ]

  misses :
      (r : UptimeRow) (rs : List UptimeRow)
      → hits r ≡ true
      → All (λ q. is_row r.node_id r.day q ≡ false) rs
      → All (λ q. hits q ≡ false) rs
  misses r [] h k = tt
  misses r (q ∷ rs) h k = (other_misses r q h k.0, misses r rs h k.1)

  none_replaces :
      (rs : List UptimeRow) (found : ℕ × ℕ)
      → All (λ q. hits q ≡ false) rs
      → by_day_from (is_own_since node_id today days) rs found key ≡ found
  unfolding by_day_from
  none_replaces [] found h = refl
  none_replaces (r ∷ rs) found h = rw h.0 (none_replaces rs found h.1)

  none_counts :
      (secs : UptimeRow → ℕ) (rs : List UptimeRow)
      → All (λ q. hits q ≡ false) rs
      → sum_where hits secs rs ≡ 0
  unfolding sum_where
  none_counts secs [] h = refl
  none_counts secs (r ∷ rs) h = rw h.0 (none_counts secs rs h.1)

  pub by_day-sums :
      (rs : List UptimeRow)
      → IsKeyed rs
      → by_day_from (is_own_since node_id today days) rs (0, 0) key
        ≡ by_day_where (is_own_since node_id today days) rs key
  unfolding by_day_from by_day_where sum_where IsKeyed
  by_day-sums [] h = refl
  by_day-sums (r ∷ rs) h = elim (Bool-cases (hits r)) [
    | inl y ↦
        let m = misses r rs y h.0 in
        rw
          (
            y,
            none_replaces rs (r.total_secs, r.up_secs) m,
            none_counts (λ q. q.total_secs) rs m,
            none_counts (λ q. q.up_secs) rs m,
            add-zero,
            add-zero,
          )
          refl
    | inr n ↦ rw n (by_day-sums rs h.1)
  ]
