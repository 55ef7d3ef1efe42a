-- ===== src/Breaker/Ledger.antt =====
-- The breaker's contract for one target: a ledger that keeps every instant since the circuit last
-- opened, trims nothing and forgets no deadline.
use nodepulse.Base.{
  ℕ, ◌+◌, ◌≤◌, String, Bool, true, false, Option, none, some, List, [], ◌∷◌, ◌++◌, ltb, leb,
  if◌then◌else◌, str_eq, length,
}
use nodepulse.Window.{recent}
use nodepulse.Breaker.{Breaker, Call, allows, records, record_crashes, with_failure, allow, step}

pub record Ledger : Type 0 where
  pub last : Option ℕ
  pub failed : List ℕ
  pub crashed : List ℕ
  pub open_until : Option ℕ

abbrev pub blank : Ledger
blank = record { last = none; failed = []; crashed = []; open_until = none }

-- Whether the circuit is open at `now`, and whether the cooldown still runs.
abbrev pub is_open : Option ℕ → ℕ → Bool
is_open none now = false
is_open (some until) now = ltb now until

abbrev pub is_cooling : ℕ → Option ℕ → ℕ → Bool
is_cooling cooldown none now = false
is_cooling cooldown (some last) now = ltb now (last + cooldown)

abbrev pub verdict : ℕ → Ledger → ℕ → String
verdict cooldown l now =
    if is_open l.open_until now
    then "circuit_open"
    else if is_cooling cooldown l.last now
    then "cooldown"
    else "ok"

abbrev pub asked : ℕ → Ledger → ℕ → Ledger
asked cooldown l now =
    if is_open l.open_until now
    then l
    else if is_cooling cooldown l.last now
    then l
    else record l { last = some now }

-- The circuit opens when the failures of the last `burst_window` reach the limit.
abbrev pub note_outcome : Breaker → Ledger → Option String → ℕ → Ledger
note_outcome b l err now =
    let log = with_failure err l.failed now in
    if leb b.burst_limit (length (recent now b.burst_window log))
    then record l { last = some now; failed = []; open_until = some (now + b.open_for) }
    else record l { last = some now; failed = log }

abbrev pub note_crash : Breaker → Ledger → ℕ → Ledger
note_crash b l now =
    let log = l.crashed ++ now ∷ [] in
    if leb b.burst_limit (length (recent now b.burst_window log))
    then record l { crashed = []; open_until = some (now + b.open_for) }
    else record l { crashed = log }

-- A ledger takes notice of the calls for its own target only. Of `b` it reads the parameters.
unfoldable pub note : Breaker → String → Ledger → Call → Ledger
note b key l (allows k purged_at now asked_at) = if str_eq k key then asked b.cooldown l now else l
note b key l (records k err now) = if str_eq k key then note_outcome b l err now else l
note b key l (record_crashes k now) = if str_eq k key then note_crash b l now else l

abbrev pub answer : Bool → String → List String → List String
answer true reason rest = reason ∷ rest
answer false reason rest = rest

-- The reasons that `Allow` gives for one target over a history of calls.
unfoldable pub reasons : String → Breaker → List Call → List String
reasons key b [] = []
reasons key b (allows k purged_at now asked_at ∷ cs) =
    answer (str_eq k key) (allow b k purged_at now asked_at).1.reason
      (reasons key (step b (allows k purged_at now asked_at)) cs)
reasons key b (records k err now ∷ cs) = reasons key (step b (records k err now)) cs
reasons key b (record_crashes k now ∷ cs) = reasons key (step b (record_crashes k now)) cs

-- The reasons that the ledger gives over the same history.
unfoldable pub ledger_reasons : Breaker → String → Ledger → List Call → List String
ledger_reasons b key l [] = []
ledger_reasons b key l (allows k purged_at now asked_at ∷ cs) =
    answer (str_eq k key) (verdict b.cooldown l now)
      (ledger_reasons b key (note b key l (allows k purged_at now asked_at)) cs)
ledger_reasons b key l (records k err now ∷ cs) =
    ledger_reasons b key (note b key l (records k err now)) cs
ledger_reasons b key l (record_crashes k now ∷ cs) =
    ledger_reasons b key (note b key l (record_crashes k now)) cs

-- The clock does not run backwards, within a call and from one call to the next.
abbrev pub starts : Call → ℕ
starts (allows k purged_at now asked_at) = purged_at
starts (records k err now) = now
starts (record_crashes k now) = now

abbrev pub decides : Call → ℕ
decides (allows k purged_at now asked_at) = now
decides (records k err now) = now
decides (record_crashes k now) = now

abbrev pub IsTimed : ℕ → List Call → Type 0
IsTimed clock [] = Unit {0}
IsTimed clock (c ∷ cs) = (clock ≤ starts c) × (starts c ≤ decides c) × IsTimed (decides c) cs
