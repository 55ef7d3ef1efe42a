-- ===== src/Examples/Limiters.antt =====
-- A limiter that lets two calls through in a window of 10.
use nodepulse.Base.{◌≤◌, ◌≡◌, refl, true, false, List, [], ◌∷◌, arith, str_eq, length}
use nodepulse.Window.{recent}
use nodepulse.Limiter.{sweep, reset}
use nodepulse.Base.Int.{pos}
use nodepulse.Limiter.{new_rate_limiter, allow, Call, allows, resets, step}
use nodepulse.Limiter.Reference.{answers, reference_answers}
use nodepulse.Limiter.History.{answers-reference}
use nodepulse.Limiter.Bound.{passed, passed-window}

abbrev arrivals : List Call
arrivals =
    allows "ip" 1
    ∷ allows "ip" 4
    ∷ allows "ip" 5
    ∷ allows "other" 6
    ∷ allows "ip" 12
    ∷ allows "ip" 13
    ∷ resets "other"
    ∷ allows "ip" 60
    ∷ []

arrivals_run :
    answers "ip" (new_rate_limiter (pos 2) 10 0) arrivals
    ≡ true ∷ true ∷ false ∷ true ∷ false ∷ true ∷ []
unfolding answers new_rate_limiter allow step sweep reset recent str_eq
arrivals_run = refl

answers-reference_example :
    answers "ip" (new_rate_limiter (pos 2) 10 0) arrivals ≡ reference_answers 2 10 "ip" [] arrivals
answers-reference_example = answers-reference 2 10 0 "ip" arrivals (omega arith) (omega arith)

passed-window_example :
    length (recent 61 10 (passed "ip" (new_rate_limiter (pos 2) 10 0) arrivals)) ≤ 2
unfolding str_eq
passed-window_example =
    passed-window 2 10 0 "ip" arrivals 61 (omega arith) (omega arith) (refl, tt) (omega arith)
