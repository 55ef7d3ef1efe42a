-- ===== src/Heal/Watch.antt =====
-- The watch of pkg/collector/autoheal.go over a restarted container.
use nodepulse.Base.{
  ℕ, zero, suc, ◌+◌, ◌*◌, ◌≤◌, ◌<◌, ◌≡◌, refl, ◌≢◌, ◌⊎◌, inl, inr, true, false, Option, none, some,
  arith, if◌then◌else◌, String, sym, ap, ◌∙◌, ◌↔◌, not, ◌&&◌, ◌==◌, Bool-cases,
}
use native.Mathlib.Decide.{dec_lt}
use nodepulse.Heal.{
  Outside, Sample, unread, read, Snapshot, healthy, died, out_of_fuel, watch, conclude,
  post_restart_poll, Watched, post_restart_grace, Answer, after_answer, restart_docker_container,
  watch_fuel, down, no_answer, watched_error, answered, state_of, is_empty, ExecError, bad_status,
}

Sample-cases : (x : Sample) → (x ≡ unread) ⊎ ((s : Snapshot) × (x ≡ read s))
Sample-cases unread = inl refl
Sample-cases (read s) = inr (s, refl)

-- A sample that lets the watch go on.
abbrev pub Quiet : Sample → Type 0
Quiet unread = Unit
Quiet (read s) = (s.running ≡ true) × (s.restarting ≡ false)

-- Before the deadline a round reads a container that neither runs nor restarts, and each round before
-- it lets the watch go on. A round ends a pause after its sample.
pub data Dies (w : Outside) (deadline : ℕ) (s : Snapshot) : ℕ → ℕ → Type 0 where
  dead :
      {clock round : ℕ}
      → clock < deadline
      → w.sample round ≡ read s
      → s.running ≡ false
      → s.restarting ≡ false
      → Dies w deadline s clock round
  later :
      {clock round : ℕ}
      → clock < deadline
      → Quiet (w.sample round)
      → Dies w deadline s (clock + w.takes round + post_restart_poll) (suc round)
      → Dies w deadline s clock round

IsFine : Option Snapshot → Type 0
IsFine none = Unit
IsFine (some s) = s.running ≡ true

read_cases :
    (t s : Snapshot) (x : Watched)
    → (if t.restarting then healthy else if t.running then x else died t) ≡ died s
    → ((t.running ≡ true) × (t.restarting ≡ false) × (x ≡ died s))
      ⊎ ((t.running ≡ false) × (t.restarting ≡ false) × (t ≡ s))
read_cases t s x h = elim (Bool-cases t.restarting) [
  | inl y ↦ absurd (ground (arith, y, h))
  | inr n ↦ elim (Bool-cases t.running) [
    | inl y ↦ inl (y, n, ground (arith, y, n, h))
    | inr m ↦ inr (m, n, ground (arith, m, n, h))
  ]
]

goes_on :
    (t : Snapshot) (x : Watched)
    → t.running ≡ true
    → t.restarting ≡ false
    → (if t.restarting then healthy else if t.running then x else died t) ≡ x
goes_on t x r n = ground (arith, r, n)

module _ (w : Outside) (deadline : ℕ) where
  conclude_ends : (last : Option Snapshot) → conclude last ≢ out_of_fuel
  unfolding conclude
  conclude_ends none = cc
  conclude_ends (some s) = ground arith

  module _ (fuel clock round : ℕ) (last : Option Snapshot) where
    watch_over : deadline ≤ clock → watch w deadline (suc fuel) clock round last ≡ conclude last
    unfolding watch
    watch_over h = ground arith

    watch_unread :
        clock < deadline
        → w.sample round ≡ unread
        → watch w deadline (suc fuel) clock round last
          ≡ watch w deadline fuel (clock + w.takes round + post_restart_poll) (suc round) last
    unfolding watch
    watch_unread h e = ground arith

    watch_read :
        (s : Snapshot)
        → clock < deadline
        → w.sample round ≡ read s
        → watch w deadline (suc fuel) clock round last ≡ (
            if s.restarting
            then healthy
            else if s.running
            then watch w deadline fuel
                (clock + w.takes round + post_restart_poll)
                (suc round)
                (some s)
            else died s)
    unfolding watch
    watch_read s h e = ground arith

  never_out :
      (fuel clock round : ℕ) (last : Option Snapshot)
      → 0 < fuel
      → deadline + post_restart_poll ≤ clock + fuel * post_restart_poll
      → watch w deadline fuel clock round last ≢ out_of_fuel
  never_out zero clock round last g h = absurd (omega arith)
  never_out (suc fuel) clock round last g h = elim (dec_lt clock deadline) [
    | no over ↦ rw (watch_over fuel clock round last (omega arith)) (conclude_ends last)
    | yes early ↦ elim (Sample-cases (w.sample round)) [
      | inl e ↦ rw (watch_unread fuel clock round last early e) (
          never_out fuel (clock + w.takes round + post_restart_poll) (suc round) last (omega arith)
            (omega arith))
      | inr (s, e) ↦ rw (watch_read fuel clock round last s early e) (
          ground (
            arith,
            never_out fuel (clock + w.takes round + post_restart_poll) (suc round) (some s)
                (omega arith) (omega arith),
          ))
    ]
  ]

  conclude_fine : (last : Option Snapshot) (s : Snapshot) → IsFine last → conclude last ≢ died s
  unfolding conclude IsFine
  conclude_fine none s f = cc
  conclude_fine (some t) s f = ground (arith, f)

  watch-Dies :
      (s : Snapshot) (fuel clock round : ℕ) (last : Option Snapshot)
      → IsFine last
      → watch w deadline fuel clock round last ≡ died s
      → Dies w deadline s clock round
  unfolding IsFine
  watch-Dies s zero clock round last f h = absurd (unfold watch in (cc h))
  watch-Dies s (suc fuel) clock round last f h = elim (dec_lt clock deadline) [
    | no over ↦
        absurd (conclude_fine last s f (sym (watch_over fuel clock round last (omega arith)) ∙ h))
    | yes early ↦ elim (Sample-cases (w.sample round)) [
      | inl e ↦ later early (rw e tt) (
          watch-Dies s fuel (clock + w.takes round + post_restart_poll) (suc round) last f
            (sym (watch_unread fuel clock round last early e) ∙ h))
      | inr (t, e) ↦
          elim (read_cases t s _ (sym (watch_read fuel clock round last t early e) ∙ h)) [
            | inl (runs, calm, rest) ↦ later early (rw e (runs, calm)) (
                watch-Dies s fuel (clock + w.takes round + post_restart_poll) (suc round) (some t)
                  runs rest)
            | inr (stopped, calm, same) ↦
                dead early (e ∙ ap read same) (rw same at stopped) (rw same at calm)
          ]
    ]
  ]

  Dies-watch :
      (s : Snapshot) (fuel : ℕ) {clock round : ℕ} (last : Option Snapshot)
      → 0 < fuel
      → deadline + post_restart_poll ≤ clock + fuel * post_restart_poll
      → Dies w deadline s clock round
      → watch w deadline fuel clock round last ≡ died s
  Dies-watch s zero last g h d = absurd (omega arith)
  Dies-watch s (suc fuel) {clock} {round} last g h (dead early e stopped calm) =
      rw (watch_read fuel clock round last s early e) (ground arith)
  Dies-watch s (suc fuel) {clock} {round} last g h (later early q d) =
      elim (Sample-cases (w.sample round)) [
        | inl e ↦
            rw (watch_unread fuel clock round last early e)
              (Dies-watch s fuel last (omega arith) (omega arith) d)
        | inr (t, e) ↦
            let quiet : Quiet (read t) = rw e at q in
            watch_read fuel clock round last t early e
            ∙ goes_on t _ quiet.0 quiet.1
            ∙ Dies-watch s fuel (some t) (omega arith) (omega arith) d
      ]

-- Six rounds are enough: the watch over a restarted container ends by its own test or return,
-- whatever the daemon answers and however long a round takes.
pub watch_ends :
    (w : Outside)
    → watch w (w.started + post_restart_grace) watch_fuel w.started 0 none ≢ out_of_fuel
watch_ends w =
    never_out w (w.started + post_restart_grace) watch_fuel w.started 0 none (omega arith)
      (omega arith)

-- The statuses with which the daemon accepts the restart.
abbrev pub Accepts : Answer → Type 0
Accepts (no_answer e) = ⊥
Accepts (answered code) = (code ≡ 204) ⊎ (code ≡ 200)

abbrev judged : ℕ → Option ExecError → Option ExecError
judged code e = if not (code == 204) && not (code == 200) then some (bad_status code) else e

judged_down :
    (name state : String) (s : Snapshot) (code : ℕ) (e : Option ExecError)
    → judged code e ≡ some (down name state s)
    → Accepts (answered code) × (e ≡ some (down name state s))
judged_down name state s code e h = ground (arith, h)

judged_accepted : (code : ℕ) (e : Option ExecError) → Accepts (answered code) → judged code e ≡ e
judged_accepted code e h = ground (arith, h)

died_of_error :
    (name : String) (s : Snapshot) (x : Watched)
    → watched_error name x ≡ some (down name (state_of s) s)
    → x ≡ died s
unfolding watched_error
died_of_error name s healthy h = absurd (cc h)
died_of_error name s out_of_fuel h = absurd (cc h)
died_of_error name s (died t) h = ground (arith, h)

module _ (w : Outside) (name : String) (s : Snapshot) where
  answer-Dies :
      (a : Answer)
      → after_answer w name a ≡ some (down name (state_of s) s)
      → Accepts a × Dies w (w.started + post_restart_grace) s w.started 0
  unfolding after_answer IsFine
  answer-Dies (no_answer e) h = absurd (cc h)
  answer-Dies (answered code) h =
      let (fits, e) = judged_down name (state_of s) s code _ h in
      (
        fits,
        watch-Dies w (w.started + post_restart_grace) s watch_fuel w.started 0 none tt
            (died_of_error name s _ e),
      )

  Dies-answer :
      (a : Answer)
      → Accepts a
      → Dies w (w.started + post_restart_grace) s w.started 0
      → after_answer w name a ≡ some (down name (state_of s) s)
  unfolding after_answer watched_error
  Dies-answer (no_answer e) k d = absurd k
  Dies-answer (answered code) k d =
      judged_accepted code _ k
      ∙ ap (watched_error name) (
          Dies-watch w (w.started + post_restart_grace) s watch_fuel none (omega arith)
            (omega arith) d)

-- A restart of a container reports that it is down, with a snapshot, exactly when the name is not
-- empty, the daemon accepted the restart, and in some round of the watch that begins before the grace
-- of five seconds has passed it reads that snapshot of a container that neither runs nor restarts,
-- while every round before read nothing or a running container that is not restarting.
pub restart_down_iff :
    (w : Outside) (name : String) (s : Snapshot)
    → (restart_docker_container w name ≡ some (down name (state_of s) s)) ↔ (
        (is_empty name ≡ false)
        × Accepts w.restart
        × Dies w (w.started + post_restart_grace) s w.started 0)
unfolding restart_docker_container
restart_down_iff w name s = elim (Bool-cases (is_empty name)) [
  | inl y ↦ rw y ((λ h. absurd (cc h)), (λ (e, k, d). absurd (cc e)))
  | inr n ↦ rw n (
    (λ h. let (k, d) = answer-Dies w name s w.restart h in (refl, k, d)),
    (λ (e, k, d). Dies-answer w name s w.restart k d),
  )
]
