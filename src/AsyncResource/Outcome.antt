-- ===== src/AsyncResource/Outcome.antt =====
-- What the receivers of source/sio/async_resource.hpp are told, whatever the order of the runs.
use senders_io.Prelude.{
  sum, sum-set, sum-zero, ℕ, ◌+◌, ◌≡◌, refl, ap, Bool, true, false, List, [], ◌∷◌, some, arith, map,
  get_elem?,
}
use senders_io.Interleaving.{System, Trace, Trace-keeps, move}
use senders_io.AsyncResource.{
  Opened, token, open_error, open_stopped, Done, value, error, stopped, Completion, set_value,
  set_error, set_exception, value_unless_stopped, Resource, Pc, opening, using_token, closing,
  final, ended, Log, advance, open_completes, final_completion, Ready,
}
use senders_io.AsyncResource.Counts.{open_end, start_all}

-- what a receiver is told after its item: how the item completed, unless close failed
abbrev pub after_use : Done → Done → Completion
after_use value value = set_value
after_use (error e) value = set_error e
after_use stopped value = value_unless_stopped
after_use item (error e) = set_error e
after_use item stopped = value_unless_stopped

abbrev pub outcome_of : Opened → Bool → Completion → Completion
outcome_of (token t) true used = set_exception
outcome_of (token t) false used = used
outcome_of (open_error e) throws used = set_error e
outcome_of open_stopped throws used = value_unless_stopped

-- what the receiver of a resource is told
abbrev pub outcome : Resource → Completion
outcome r = outcome_of r.opens r.throws (after_use r.item r.closes)

-- exec::finally completes as its first sender did, unless the second one fails or is stopped.
module _ (finally : Done → Done → Done) (succeeds : (d : Done) → finally d value ≡ d)
    (fails : (d : Done) (e : ℕ) → finally d (error e) ≡ error e)
    (stops : (d : Done) → finally d stopped ≡ stopped) (w : Completion → ℕ) where
  finally-after_use : (a b : Done) → final_completion (finally a b) ≡ after_use a b
  unfolding final_completion
  finally-after_use value value = rw (succeeds value) refl
  finally-after_use (error e) value = rw (succeeds (error e)) refl
  finally-after_use stopped value = rw (succeeds stopped) refl
  finally-after_use value (error e) = rw (fails value e) refl
  finally-after_use (error d) (error e) = rw (fails (error d) e) refl
  finally-after_use stopped (error e) = rw (fails stopped e) refl
  finally-after_use value stopped = rw (stops value) refl
  finally-after_use (error d) stopped = rw (stops (error d)) refl
  finally-after_use stopped stopped = rw (stops stopped) refl

  -- the weight of what a run will tell
  abbrev pending : Pc → ℕ
  pending (opening r) = w (outcome r)
  pending (using_token r t) = w (after_use r.item r.closes)
  pending (closing r t) = w (after_use r.item r.closes)
  pending (final d) = w (final_completion d)
  pending ended = 0

  opened_tells :
      (r : Resource) (opens : Opened) (throws : Bool) (o : Log)
      → r.opens ≡ opens
      → r.throws ≡ throws
      → sum w (open_completes r opens o).1.completions + pending (open_completes r opens o).0
        ≡ sum w o.completions + w (outcome_of opens throws (after_use r.item r.closes))
  unfolding open_completes
  opened_tells r (token t) true o e b = rw b (omega arith)
  opened_tells r (token t) false o e b = rw b (omega arith)
  opened_tells r (open_error d) throws o e b = omega arith
  opened_tells r open_stopped throws o e b = omega arith

  tells :
      (p : Pc) (o : Log)
      → sum w (advance finally p o).1.completions + pending (advance finally p o).0
        ≡ sum w o.completions + pending p
  unfolding advance
  tells (opening r) o = opened_tells r r.opens r.throws o refl refl
  tells (using_token r t) o = refl
  tells (closing r t) o = ap (λ c. sum w o.completions + w c) (finally-after_use r.item r.closes)
  tells (final d) o = omega arith
  tells ended o = refl

  abbrev Told : List Resource → System Log Pc → Type 0
  Told resources s =
      sum w s.op.completions + sum pending s.runs ≡ sum (λ r. w (outcome r)) resources

  keeps :
      (resources : List Resource) (s : System Log Pc) (i : ℕ) (p : Pc)
      → Told resources s
      → get_elem? s.runs i ≡ some p
      → Ready p s.runs
      → Told resources (move (advance finally) Ready s i p)
  keeps resources s i p h at ready =
      omega (arith, h, tells p s.op, sum-set pending s.runs i p (advance finally p s.op).0 at)

  pending-start : (rs : List Resource) → sum pending (map opening rs) ≡ sum (λ r. w (outcome r)) rs
  pending-start [] = refl
  pending-start (r ∷ rs) = omega (arith, pending-start rs)

  none_pending : (p : Pc) → open_end p ≡ 0 → pending p ≡ 0
  none_pending (opening r) e = absurd (omega arith)
  none_pending (using_token r x) e = absurd (omega arith)
  none_pending (closing r x) e = absurd (omega arith)
  none_pending (final d) e = absurd (omega arith)
  none_pending ended e = refl

  -- With an exec::finally that completes as its first sender, unless the second one fails or is
  -- stopped: when all operations have ended, in any order of their actions, the completions of the
  -- receivers, under every weight and so as a multiset, are the outcomes of the resources. An outcome
  -- is an error or a stop of open, the exception of a connect that threw, an error or a stop of close,
  -- and otherwise the completion of the item; a stop is told by set_value_unless_stopped.
  pub receivers_are_told :
      (resources : List Resource) (n : ℕ) (s : System Log Pc)
      → Trace (advance finally) Ready (start_all resources) n s
      → sum open_end s.runs ≡ 0
      → sum w s.op.completions ≡ sum (λ r. w (outcome r)) resources
  receivers_are_told resources n s trace all_ended = omega (
    arith,
    Trace-keeps (advance finally) Ready (Told resources) (keeps resources)
        (omega (arith, pending-start resources)) trace,
    sum-zero open_end pending s.runs none_pending all_ended,
  )
