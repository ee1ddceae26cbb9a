-- ===== src/AsyncResource/Tests.antt =====
-- Runs of resources, and of what is proved of them.
use senders_io.Prelude.{
  sum, ℕ, ◌+◌, ◌*◌, ◌≤◌, ◌≡◌, refl, true, false, some, List, [], ◌∷◌, length, get_elem?,
}
use senders_io.Interleaving.{System, Trace, here, acts, move}
use senders_io.AsyncResource.{
  token, Done, value, error, stopped, Completion, set_exception, Resource, Pc, opening, using_token,
  closing, final, Log, advance, open_completes, final_completion, Ready,
}
use senders_io.AsyncResource.Counts.{times, leaks, open_end, start_all}
use senders_io.AsyncResource.Closed.{closes_what_it_opens}
use senders_io.AsyncResource.Outcome.{outcome, receivers_are_told}

-- exec::finally, as it is documented
abbrev both : Done → Done → Done
both d value = d
both d (error e) = error e
both d stopped = stopped

-- a resource whose item is stopped, and one whose connect throws
abbrev socket : Resource
socket = record { opens = token 7; throws = false; item = stopped; closes = value }

abbrev file : Resource
file = record { opens = token 8; throws = true; item = value; closes = value }

abbrev two : List Resource
two = socket ∷ file ∷ []

abbrev one_opened : System Log Pc
unfolding advance open_completes
one_opened = move (advance both) Ready (start_all two) 1 (opening file)

abbrev both_opened : System Log Pc
unfolding advance open_completes
both_opened = move (advance both) Ready one_opened 0 (opening socket)

abbrev token_used : System Log Pc
unfolding advance
token_used = move (advance both) Ready both_opened 0 (using_token socket 7)

abbrev token_closed : System Log Pc
unfolding advance
token_closed = move (advance both) Ready token_used 0 (closing socket 7)

abbrev all_ended : System Log Pc
unfolding advance final_completion
all_ended = move (advance both) Ready token_closed 0 (final stopped)

schedule : Trace (advance both) Ready (start_all two) 5 all_ended
unfolding advance open_completes final_completion
schedule =
    acts 4 token_closed 0 (final stopped)
      (acts 3 token_used 0 (closing socket 7)
        (acts 2 both_opened 0 (using_token socket 7)
          (acts 1 one_opened 0 (opening socket)
            (acts 0 (start_all two) 1 (opening file) here refl tt) refl tt)
          refl tt)
        refl tt)
      refl tt

-- the token whose connect threw is not closed
file_leaks : (all_ended.op.opened ≡ 7 ∷ 8 ∷ []) × (all_ended.op.closed ≡ 7 ∷ [])
unfolding advance open_completes final_completion
file_leaks = (refl, refl)

closes_what_it_opens_example :
    (5 ≤ length two * 4)
    × (1 ≤ sum open_end all_ended.runs
        → (i : ℕ) × (p : Pc) × (get_elem? all_ended.runs i ≡ some p) × Ready p all_ended.runs)
    × ((t : ℕ) → times t all_ended.op.closed ≤ times t all_ended.op.used)
    × ((t : ℕ) → times t all_ended.op.used ≤ times t all_ended.op.opened)
    × (sum open_end all_ended.runs ≡ 0
        → (length all_ended.op.completions ≡ length two)
          × ((t : ℕ)
              → times t all_ended.op.opened ≡ times t all_ended.op.closed + sum (leaks t) two))
closes_what_it_opens_example = closes_what_it_opens both two 5 all_ended schedule

-- how many were told set_exception
abbrev exceptions : Completion → ℕ
exceptions set_exception = 1
exceptions c = 0

receivers_are_told_example :
    sum exceptions all_ended.op.completions ≡ sum (λ r. exceptions (outcome r)) two
unfolding advance open_completes final_completion
receivers_are_told_example =
    receivers_are_told both (λ d. refl) (λ d e. refl) (λ d. refl) exceptions two 5 all_ended
      schedule refl
