-- ===== src/Breaker/Refine.antt =====
-- The breaker of cooldown.go against the ledger of `Breaker.Ledger`.
use nodepulse.Breaker.Frame.{
  SameParams, allow-SameParams, outcome-SameParams, crash-SameParams, target_of, step_frame,
  step-SameParams,
}
use nodepulse.Base.{
  ℕ, ◌≤◌, String, ◌≡◌, ◌∙◌, ◌⊎◌, Option, none, some, List, [], ◌∷◌, ◌++◌, arith, str_eq_refl, Bool,
  leb, length, if◌then◌else◌, inl, sym, ap, ◌+◌, ◌<◌, refl, ◌≢◌, inr, true, false, str_eq,
  str_eq_iff, Bool-cases,
}
use nodepulse.Window.{
  Alike, Alike-later, Alike-trim, Alike-snoc, recent, recent-recent, recent-append, recent_now,
}
use nodepulse.Breaker.{
  Breaker, with_failure, allow, record_crash, record_outcome, step, Call, allows, records,
  record_crashes,
}
use nodepulse.Breaker.Ledger.{
  Ledger, asked, verdict, note_crash, note_outcome, note, starts, decides,
}

-- The breaker forgets a deadline only once it has passed.
abbrev pub SameDeadline : ℕ → Option ℕ → Option ℕ → Type 0
SameDeadline clock kept none = kept ≡ none
SameDeadline clock kept (some until) = (kept ≡ some until) ⊎ ((kept ≡ none) × (until ≤ clock))

pub record Agree (clock : ℕ) (b : Breaker) (key : String) (l : Ledger) : Type 0 where
  pub last : b.last_attempt key ≡ l.last
  pub failed : Alike clock b.burst_window (b.failures key) l.failed
  pub crashed : Alike clock b.burst_window (b.crashes key) l.crashed
  pub opens : SameDeadline clock (b.opens_at key) l.open_until

Alike-with_failure :
    (c w : ℕ) (e : Option String) (xs ys : List ℕ) (n : ℕ)
    → Alike c w xs ys
    → Alike c w (with_failure e xs n) (with_failure e ys n)
Alike-with_failure c w none xs ys n s = s
Alike-with_failure c w (some e) xs ys n s = Alike-snoc c w xs ys n s

SameDeadline-later :
    {c d : ℕ} (k : Option ℕ) (o : Option ℕ) → c ≤ d → SameDeadline c k o → SameDeadline d k o
SameDeadline-later k none h s = s
SameDeadline-later k (some until) h s = ground arith

pub Agree-later :
    {c d : ℕ} {b : Breaker} {key : String} {l : Ledger} → c ≤ d → Agree c b key l → Agree d b key l
Agree-later {c} {d} {b} {key} {l} h a = record {
  last = a.last;
  failed = Alike-later c d b.burst_window _ _ h a.failed;
  crashed = Alike-later c d b.burst_window _ _ h a.crashed;
  opens = SameDeadline-later (b.opens_at key) l.open_until h a.opens;
}

-- `Allow` answers as the ledger does.
pub verdict-allow :
    (b : Breaker) (key : String) (l : Ledger) (p n a : ℕ)
    → p ≤ n
    → Agree p b key l
    → (allow b key p n a).1.reason ≡ verdict b.cooldown l n
unfolding allow
verdict-allow b key l p n a h g = ground (arith, str_eq_refl key)

allow_last :
    (b : Breaker) (key : String) (l : Ledger) (p n a : ℕ)
    → p ≤ n
    → Agree p b key l
    → (allow b key p n a).0.last_attempt key ≡ (asked b.cooldown l n).last
unfolding allow
allow_last b key l p n a h g = ground (arith, str_eq_refl key)

allow_opens :
    (b : Breaker) (key : String) (l : Ledger) (p n a : ℕ)
    → p ≤ n
    → Agree p b key l
    → SameDeadline n ((allow b key p n a).0.opens_at key) (asked b.cooldown l n).open_until
unfolding allow
allow_opens b key l p n a h g = ground (arith, str_eq_refl key)

allow_failures :
    (b : Breaker) (key : String) (p n a : ℕ)
    → (allow b key p n a).0.failures key ≡ recent p b.burst_window (b.failures key)
unfolding allow
allow_failures b key p n a = ground (arith, str_eq_refl key)

allow_crashes :
    (b : Breaker) (key : String) (p n a : ℕ)
    → (allow b key p n a).0.crashes key ≡ recent p b.burst_window (b.crashes key)
unfolding allow
allow_crashes b key p n a = ground (arith, str_eq_refl key)

asked_logs :
    (c : ℕ) (l : Ledger) (n : ℕ)
    → ((asked c l n).failed ≡ l.failed) × ((asked c l n).crashed ≡ l.crashed)
asked_logs c l n = ground arith

allow-Agree :
    (b : Breaker) (key : String) (l : Ledger) (p n a : ℕ)
    → p ≤ n
    → Agree p b key l
    → Agree n (allow b key p n a).0 key (asked b.cooldown l n)
allow-Agree b key l p n a h g = record {
  last = allow_last b key l p n a h g;
  failed =
      rw (same.burst_window, allow_failures b key p n a, logs.0)
        (Alike-trim n w _ _ p h (Alike-later p n w _ _ h g.failed));
  crashed =
      rw (same.burst_window, allow_crashes b key p n a, logs.1)
        (Alike-trim n w _ _ p h (Alike-later p n w _ _ h g.crashed));
  opens = allow_opens b key l p n a h g;
}
  where
    w : ℕ
    w = b.burst_window

    same : SameParams b (allow b key p n a).0
    same = allow-SameParams b key p n a

    logs : ((asked b.cooldown l n).failed ≡ l.failed) × ((asked b.cooldown l n).crashed ≡ l.crashed)
    logs = asked_logs b.cooldown l n

Alike-cleared :
    (c w : ℕ) (t : Bool) (xs ys : List ℕ)
    → Alike c w xs ys
    → Alike c w (if t then [] else xs) (if t then [] else ys)
Alike-cleared c w true xs ys s = λ now later. refl
Alike-cleared c w false xs ys s = s

-- Whether a log reaches the burst limit.
abbrev trips : Breaker → List ℕ → Bool
trips b log = leb b.burst_limit (length log)

outcome_target :
    (b : Breaker) (key : String) (e : Option String) (n : ℕ)
    → let out = recent n b.burst_window (with_failure e (b.failures key) n) in
      ((record_outcome b key e n).last_attempt key ≡ some n)
      × ((record_outcome b key e n).failures key ≡ (if trips b out then [] else out))
      × ((record_outcome b key e n).crashes key ≡ b.crashes key)
      × ((record_outcome b key e n).opens_at key
          ≡ (if trips b out then some (n + b.open_for) else b.opens_at key))
unfolding record_outcome
outcome_target b key e n = ground (arith, str_eq_refl key)

crash_target :
    (b : Breaker) (key : String) (n : ℕ)
    → let window = recent n b.burst_window (b.crashes key) ++ n ∷ [] in
      ((record_crash b key n).last_attempt key ≡ b.last_attempt key)
      × ((record_crash b key n).failures key ≡ b.failures key)
      × ((record_crash b key n).crashes key ≡ (if trips b window then [] else window))
      × ((record_crash b key n).opens_at key
          ≡ (if trips b window then some (n + b.open_for) else b.opens_at key))
unfolding record_crash
crash_target b key n = ground (arith, str_eq_refl key)

SameDeadline-opened :
    (c : ℕ) (t : Bool) (until : ℕ) (k o : Option ℕ)
    → SameDeadline c k o
    → SameDeadline c (if t then some until else k) (if t then some until else o)
SameDeadline-opened c true until k o s = inl refl
SameDeadline-opened c false until k o s = s

note_outcome_fields :
    (b : Breaker) (l : Ledger) (e : Option String) (n : ℕ)
    → let log = with_failure e l.failed n in
      let t = trips b (recent n b.burst_window log) in
      ((note_outcome b l e n).last ≡ some n)
      × ((note_outcome b l e n).failed ≡ (if t then [] else log))
      × ((note_outcome b l e n).crashed ≡ l.crashed)
      × ((note_outcome b l e n).open_until ≡ (if t then some (n + b.open_for) else l.open_until))
note_outcome_fields b l e n = ground arith

note_crash_fields :
    (b : Breaker) (l : Ledger) (n : ℕ)
    → let log = l.crashed ++ n ∷ [] in
      let t = trips b (recent n b.burst_window log) in
      ((note_crash b l n).last ≡ l.last)
      × ((note_crash b l n).failed ≡ l.failed)
      × ((note_crash b l n).crashed ≡ (if t then [] else log))
      × ((note_crash b l n).open_until ≡ (if t then some (n + b.open_for) else l.open_until))
note_crash_fields b l n = ground arith

outcome-Agree :
    (b : Breaker) (key : String) (l : Ledger) (e : Option String) (n : ℕ)
    → Agree n b key l
    → Agree n (record_outcome b key e n) key (note_outcome b l e n)
outcome-Agree b key l e n g =
    let have = outcome_target b key e n in
    let want = note_outcome_fields b l e n in
    let logs = Alike-with_failure n b.burst_window e _ _ n g.failed in
    record {
      last = have.0 ∙ sym want.0;
      failed =
          rw (same.burst_window, have.1, want.1, logs n (omega arith))
            (Alike-cleared n b.burst_window _ _ _ (λ now later.
              sym (ap (recent now b.burst_window) (logs n (omega arith)))
              ∙ recent-recent n now b.burst_window _ later
              ∙ logs now later));
      crashed = rw (same.burst_window, have.2, want.2) g.crashed;
      opens =
          rw (have.3, want.3, logs n (omega arith))
            (SameDeadline-opened n _ (n + b.open_for) _ _ g.opens);
    }
  where
    same : SameParams b (record_outcome b key e n)
    same = outcome-SameParams b key e n

crash-Agree :
    (b : Breaker) (key : String) (l : Ledger) (n : ℕ)
    → 0 < b.burst_window
    → Agree n b key l
    → Agree n (record_crash b key n) key (note_crash b l n)
crash-Agree b key l n wide g =
    let have = crash_target b key n in
    let want = note_crash_fields b l n in
    record {
      last = have.0 ∙ g.last ∙ sym want.0;
      failed = rw (same.burst_window, have.1, want.1) g.failed;
      crashed =
          rw (same.burst_window, have.2, want.2, trimmed)
            (Alike-cleared n w _ _ _ (Alike-trim n w _ _ n (omega arith) (λ now later. refl)));
      opens = rw (have.3, want.3, trimmed) (SameDeadline-opened n _ (n + b.open_for) _ _ g.opens);
    }
  where
    w : ℕ
    w = b.burst_window

    same : SameParams b (record_crash b key n)
    same = crash-SameParams b key n

    trimmed : recent n w (b.crashes key) ++ n ∷ [] ≡ recent n w (l.crashed ++ n ∷ [])
    trimmed =
        rw (recent-append n w l.crashed (n ∷ []), recent_now n w wide, g.crashed n (omega arith))

-- A call for another target changes neither side.
other-Agree :
    (b : Breaker) (key : String) (l : Ledger) (c : Call) (clock : ℕ)
    → target_of c ≢ key
    → Agree clock b key l
    → Agree clock (step b c) key l
other-Agree b key l c clock ne g =
    let same = step_frame b c key ne in
    record {
      last = rw same.last g.last;
      failed = rw ((step-SameParams b c).burst_window, same.failed) g.failed;
      crashed = rw ((step-SameParams b c).burst_window, same.crashed) g.crashed;
      opens = rw same.opens g.opens;
    }

note_other :
    (b : Breaker) (key : String) (l : Ledger) (c : Call) → target_of c ≢ key → note b key l c ≡ l
unfolding note
note_other b key l (allows k p n a) ne = ground (arith, str_eq_iff k key)
note_other b key l (records k e n) ne = ground (arith, str_eq_iff k key)
note_other b key l (record_crashes k n) ne = ground (arith, str_eq_iff k key)

own-Agree :
    (b : Breaker) (key : String) (l : Ledger) (c : Call)
    → target_of c ≡ key
    → 0 < b.burst_window
    → starts c ≤ decides c
    → Agree (starts c) b key l
    → Agree (decides c) (step b c) key (note b key l c)
unfolding step note
own-Agree b key l (allows k p n a) e wide h g =
    rw (e, str_eq_refl key) (allow-Agree b key l p n a h g)
own-Agree b key l (records k err n) e wide h g =
    rw (e, str_eq_refl key) (outcome-Agree b key l err n g)
own-Agree b key l (record_crashes k n) e wide h g =
    rw (e, str_eq_refl key) (crash-Agree b key l n wide g)

pub step-Agree :
    (b : Breaker) (key : String) (l : Ledger) (c : Call) (clock : ℕ)
    → 0 < b.burst_window
    → clock ≤ starts c
    → starts c ≤ decides c
    → Agree clock b key l
    → Agree (decides c) (step b c) key (note b key l c)
step-Agree b key l c clock wide from to g = elim (Bool-cases (str_eq (target_of c) key)) [
  | inl e ↦ own-Agree b key l c ((str_eq_iff _ _).0 e) wide to (Agree-later from g)
  | inr ne ↦
      let differs : target_of c ≢ key = λ p. cc ((str_eq_iff _ _).1 p) in
      rw (note_other b key l c differs)
        (other-Agree b key l c (decides c) differs (Agree-later (omega arith) g))
]
