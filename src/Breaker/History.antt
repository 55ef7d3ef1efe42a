-- ===== src/Breaker/History.antt =====
-- Histories of calls on one breaker: its answers over time.
use nodepulse.Base.{
  ℕ, ◌≤◌, ◌<◌, String, ◌≡◌, refl, ◌∙◌, inl, inr, none, some, List, [], ◌∷◌, arith, if◌then◌else◌,
  str_eq, str_eq_iff, Bool-cases,
}
use nodepulse.Breaker.{
  Breaker, Strategy, Call, allows, records, record_crashes, default_strategy, is_complete,
  new_breaker_with_strategy, strategy, allow, step,
}
use nodepulse.Breaker.Frame.{SameParams, step-SameParams}
use nodepulse.Breaker.Ledger.{
  answer, verdict, Ledger, blank, note, reasons, ledger_reasons, starts, decides, IsTimed,
}
use nodepulse.Breaker.Refine.{Agree, Agree-later, step-Agree, verdict-allow}

note_params :
    (p b : Breaker) (key : String) (l : Ledger) (c : Call)
    → SameParams p b
    → note b key l c ≡ note p key l c
unfolding note
note_params p b key l (allows k f n a) s = ground arith
note_params p b key l (records k none n) s = rw (s.burst_window, s.burst_limit, s.open_for)
note_params p b key l (records k (some e) n) s = rw (s.burst_window, s.burst_limit, s.open_for)
note_params p b key l (record_crashes k n) s = rw (s.burst_window, s.burst_limit, s.open_for)

SameParams-trans : {p b c : Breaker} → SameParams p b → SameParams b c → SameParams p c
SameParams-trans h k = record {
  cooldown = k.cooldown ∙ h.cooldown;
  burst_window = k.burst_window ∙ h.burst_window;
  burst_limit = k.burst_limit ∙ h.burst_limit;
  open_for = k.open_for ∙ h.open_for;
}

answer_same :
    (p b : Breaker) (key k : String) (l : Ledger) (f n a : ℕ) (xs ys : List String)
    → SameParams p b
    → f ≤ n
    → Agree f b key l
    → xs ≡ ys
    → answer (str_eq k key) (allow b k f n a).1.reason xs
      ≡ answer (str_eq k key) (verdict p.cooldown l n) ys
answer_same p b key k l f n a xs ys s h g e = elim (Bool-cases (str_eq k key)) [
  | inl hit ↦
      let same : k ≡ key = (str_eq_iff k key).0 hit in
      rw (hit, same, verdict-allow b key l f n a h g, s.cooldown, e)
  | inr miss ↦ rw (miss, e)
]

-- The state after one call, on both sides, from the clock at which the call decides.
after-Agree :
    (p b : Breaker) (key : String) (l : Ledger) (c : Call) (clock : ℕ)
    → 0 < p.burst_window
    → SameParams p b
    → clock ≤ starts c
    → starts c ≤ decides c
    → Agree clock b key l
    → Agree (decides c) (step b c) key (note p key l c)
after-Agree p b key l c clock wide s from to g =
    rw (note_params p b key l c s) at
      (step-Agree b key l c clock (rw s.burst_window wide) from to g)

agreed_reasons :
    (p b : Breaker) (key : String) (l : Ledger) (cs : List Call) (clock : ℕ)
    → 0 < p.burst_window
    → SameParams p b
    → IsTimed clock cs
    → Agree clock b key l
    → reasons key b cs ≡ ledger_reasons p key l cs
unfolding reasons ledger_reasons
agreed_reasons p b key l [] clock wide s t g = refl
agreed_reasons p b key l (allows k f n a ∷ cs) clock wide s t g =
    let c = allows k f n a in
    answer_same p b key k l f n a _ _ s t.1 (Agree-later t.0 g) (
      agreed_reasons p (step b c) key (note p key l c) cs n wide
        (SameParams-trans s (step-SameParams b c)) t.2
        (after-Agree p b key l c clock wide s t.0 t.1 g))
agreed_reasons p b key l (records k e n ∷ cs) clock wide s t g =
    let c = records k e n in
    agreed_reasons p (step b c) key (note p key l c) cs n wide
      (SameParams-trans s (step-SameParams b c)) t.2
      (after-Agree p b key l c clock wide s t.0 t.1 g)
agreed_reasons p b key l (record_crashes k n ∷ cs) clock wide s t g =
    let c = record_crashes k n in
    agreed_reasons p (step b c) key (note p key l c) cs n wide
      (SameParams-trans s (step-SameParams b c)) t.2
      (after-Agree p b key l c clock wide s t.0 t.1 g)

-- A new breaker has positive parameters, whatever the strategy.
pub new-positive :
    (s : Strategy)
    → let b = new_breaker_with_strategy s in
      (0 < b.cooldown) × (0 < b.burst_window) × (0 < b.burst_limit) × (0 < b.open_for)
unfolding new_breaker_with_strategy
new-positive s = ground arith

new-Agree :
    (s : Strategy) (key : String) (clock : ℕ) → Agree clock (new_breaker_with_strategy s) key blank
unfolding new_breaker_with_strategy
new-Agree s key clock = record {
  last = refl;
  failed = λ _ _. refl;
  crashed = λ _ _. refl;
  opens = refl;
}

-- Over every history of calls in which the clock does not run backwards, a breaker built from any
-- strategy answers `Allow` for a target with the reasons that the ledger of that target gives: the
-- ledger keeps every failure and crash since the circuit last opened, reads the calls for its own
-- target only, and opens the circuit when those of the last burst window reach the burst limit.
pub reasons-ledger_reasons :
    (s : Strategy) (key : String) (cs : List Call)
    → IsTimed 0 cs
    → let b = new_breaker_with_strategy s in reasons key b cs ≡ ledger_reasons b key blank cs
reasons-ledger_reasons s key cs t =
    let b = new_breaker_with_strategy s in
    agreed_reasons b b key blank cs 0 (new-positive s).1
      (record { cooldown = refl; burst_window = refl; burst_limit = refl; open_for = refl }) t
      (new-Agree s key 0)

-- A breaker built from a strategy with four positive parameters reports that strategy, and one
-- built from any other strategy reports the default.
pub strategy-new :
    (s : Strategy)
    → strategy (new_breaker_with_strategy s) ≡ (if is_complete s then s else default_strategy)
unfolding strategy new_breaker_with_strategy
strategy-new s = ground arith
