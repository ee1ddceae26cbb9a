-- ===== src/MergeEach/Tests.antt =====
-- A schedule of two sequences, one of which fails, and what is proved of it.
use senders_io.Prelude.{ℕ, ◌≤◌, ◌≡◌, refl, ◌⊎◌, true, some, [], ◌∷◌}
use senders_io.MergeEach.{
  set_value, set_error, running, emplace, publish, request_stop, leave, deliver, finished, error,
  value_unless_stopped, advance, System, Reach, begins, later, acts,
}
use senders_io.MergeEach.Invariant.{failures_of}
use senders_io.MergeEach.Once.{completes_once}

abbrev ended : System
ended = record {
  op = record {
    n_pending_ops = 0;
    errors = some 5;
    error_emplaced = 2;
    stop_requested = true;
    results = error 5 ∷ [];
  };
  runs = finished ∷ finished ∷ [];
}

ended-Reach : Reach (set_error 5 ∷ set_value ∷ []) ended
unfolding advance
ended-Reach =
    later
      (later
        (later
          (later
            (later
              (later
                (later (later begins (acts 0 (running (set_error 5)) refl))
                  (acts 1 (running set_value) refl))
                (acts 0 (emplace 5) refl))
              (acts 1 leave refl))
            (acts 0 publish refl))
          (acts 0 request_stop refl))
        (acts 0 leave refl))
      (acts 0 deliver refl)

completes_once_example :
    ((failures_of (set_error 5 ∷ set_value ∷ []) ≡ 0)
      × (ended.op.results ≡ value_unless_stopped ∷ []))
    ⊎ ((1 ≤ failures_of (set_error 5 ∷ set_value ∷ []))
        × ((e : ℕ) × (ended.op.results ≡ error e ∷ [])))
completes_once_example = completes_once (set_error 5) (set_value ∷ []) ended ended-Reach refl
