-- ===== src/Agent/Logs.antt =====
-- What the agent reports of the commands of a heartbeat.
use mathlib.Core.List.{append_assoc, append-nil, map-append}
use nodepulse.Base.{
  String, ◌≡◌, refl, sym, ap, ◌∙◌, inl, inr, List, [], ◌∷◌, ◌++◌, map, if◌then◌else◌, Bool-cases,
  Option-cases, Option, none, some,
}
use Prim.Native.Char.{Char}
use nodepulse.Command.{command_key}
use nodepulse.Heal.{ExecError, execute_command}
use nodepulse.Agent.{
  Agent, Turn, Log, for_key, class_of, settle, skip, admits, handle, handle_all, outcome_status,
  flush_logs, beat, ClassStrategy, strategy_for,
}

abbrev pub told : Log → String × String
told l = (l.command, l.status)

for_key_pending :
    (a : Agent) (key : String) (s : ClassStrategy) → (for_key a key s).0.pending ≡ a.pending
unfolding for_key
for_key_pending a key s = elim (Option-cases (a.breakers key)) [
  | inl e ↦ rw (e, for_key) refl
  | inr (b, e) ↦ rw (e, for_key) refl
]

-- The word for what an execution gave.
abbrev pub word_of : Option ExecError → String
word_of none = "ok"
word_of (some e) = "failed"

outcome_status-word_of : (o : Option ExecError) → outcome_status o ≡ word_of o
unfolding outcome_status
outcome_status-word_of none = refl
outcome_status-word_of (some e) = refl

module _ (lower : Char → Char) (message : ExecError → String) where
  -- The key of a command, and what became of it.
  unfoldable pub fate : Agent → Turn → String × String
  fate a t = (
    command_key t.cmd,
    if admits lower message a t then word_of (execute_command t.outside t.cmd) else "skipped",
  )

  unfoldable pub fates : Agent → List Turn → List (String × String)
  fates a [] = []
  fates a (t ∷ ts) = fate a t ∷ fates (handle lower message a t) ts

  handle-told :
      (a : Agent) (t : Turn)
      → map told (handle lower message a t).pending ≡ map told a.pending ++ fate a t ∷ []
  unfolding handle fate admits settle skip
  handle-told a t = elim (Bool-cases (admits lower message a t)) [
    | inl y ↦
        rw
          (
            y,
            for_key_pending a (command_key t.cmd)
                (strategy_for (class_of lower message t.cmd t.services)),
            map-append,
            outcome_status-word_of (execute_command t.outside t.cmd),
          )
          refl
    | inr n ↦
        rw
          (
            n,
            for_key_pending a (command_key t.cmd)
                (strategy_for (class_of lower message t.cmd t.services)),
            map-append,
          )
          refl
  ]

  handle_all-told :
      (a : Agent) (ts : List Turn)
      → map told (handle_all lower message a ts).pending ≡ map told a.pending ++ fates a ts
  unfolding handle_all fates
  handle_all-told a [] = sym (append-nil (map told a.pending))
  handle_all-told a (t ∷ ts) =
      handle_all-told (handle lower message a t) ts
      ∙ ap (λ p. p ++ fates (handle lower message a t) ts) (handle-told a t)
      ∙ append_assoc (map told a.pending) (fate a t ∷ []) (fates (handle lower message a t) ts)

  -- A round of the heartbeat loop leaves no log behind, and what it uploads is the logs that were
  -- pending and then one for each command of the answer, in the order of the commands: its key, and
  -- "skipped" where the breaker of the key did not admit it, else "ok" where its execution gave no
  -- error and "failed" where it gave one.
  pub beat-told :
      (a : Agent) (ts : List Turn)
      → let (a', batch) = beat lower message a ts in
        (a'.pending ≡ []) × (map told batch ≡ map told a.pending ++ fates a ts)
  unfolding beat flush_logs
  beat-told a ts = (refl, handle_all-told a ts)
