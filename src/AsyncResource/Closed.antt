-- ===== src/AsyncResource/Closed.antt =====
-- That the resources of source/sio/async_resource.hpp are closed, whatever the order of the runs.
use senders_io.Prelude.{
  sum, sum-set, sum-zero, sum-find, sum-map_const, ℕ, ◌+◌, ◌*◌, ◌≤◌, ◌<◌, ◌≡◌, refl, Bool, true,
  false, some, List, [], ◌∷◌, arith, map, length, get_elem?,
}
use senders_io.Interleaving.{System, Trace, Trace-keeps, Trace-le, move}
use senders_io.AsyncResource.{
  Opened, token, open_error, open_stopped, Done, Resource, Pc, opening, using_token, closing, final,
  ended, Log, advance, open_completes, Ready,
}
use senders_io.AsyncResource.Counts.{
  times, leaks, leaking, before_use, before_close, open_end, weight, Balanced,
  open_completes-Balanced, start_all,
}

module _ (finally : Done → Done → Done) where
  advance-Balanced :
      (t : ℕ) (p : Pc) (o : Log) → Balanced t p (advance finally p o).0 o (advance finally p o).1
  unfolding advance
  advance-Balanced t (opening r) o = open_completes-Balanced t r r.opens r.throws o refl refl
  advance-Balanced t (using_token r x) o = record {
    passed = omega arith;
    close = omega arith;
    less = omega arith;
    told = refl;
  }
  advance-Balanced t (closing r x) o = record {
    passed = omega arith;
    close = omega arith;
    less = omega arith;
    told = refl;
  }
  advance-Balanced t (final d) o = record {
    passed = refl;
    close = refl;
    less = omega arith;
    told = omega arith;
  }
  advance-Balanced t ended o = record {
    passed = refl;
    close = refl;
    less = omega arith;
    told = refl;
  }

  record Counted (resources : List Resource) (t : ℕ) (s : System Log Pc) : Type 0 where
    passed :
        times t s.op.opened + sum (leaking t) s.runs
        ≡ times t s.op.used + sum (before_use t) s.runs + sum (leaks t) resources
    close : times t s.op.used ≡ times t s.op.closed + sum (before_close t) s.runs
    less : sum (leaking t) s.runs ≤ sum (leaks t) resources
    told : length s.op.completions + sum open_end s.runs ≡ length resources

  keeps :
      (resources : List Resource) (t : ℕ) (s : System Log Pc) (i : ℕ) (p : Pc)
      → Counted resources t s
      → get_elem? s.runs i ≡ some p
      → Ready p s.runs
      → Counted resources t (move (advance finally) Ready s i p)
  keeps resources t s i p h at ready =
      let q : Pc = (advance finally p s.op).0 in
      let b = advance-Balanced t p s.op in
      record {
        passed = omega (
          arith,
          h.passed,
          b.passed,
          sum-set (leaking t) s.runs i p q at,
          sum-set (before_use t) s.runs i p q at,
        );
        close = omega (arith, h.close, b.close, sum-set (before_close t) s.runs i p q at);
        less = omega (arith, h.less, b.less, sum-set (leaking t) s.runs i p q at);
        told = omega (arith, h.told, b.told, sum-set open_end s.runs i p q at);
      }

  leaking-start : (t : ℕ) (rs : List Resource) → sum (leaking t) (map opening rs) ≡ sum (leaks t) rs
  leaking-start t [] = refl
  leaking-start t (r ∷ rs) = omega (arith, leaking-start t rs)

  start-Counted : (resources : List Resource) (t : ℕ) → Counted resources t (start_all resources)
  start-Counted resources t = record {
    passed = omega (
      arith,
      leaking-start t resources,
      sum-map_const (before_use t) opening 0 resources (λ r. refl),
    );
    close = omega (arith, sum-map_const (before_close t) opening 0 resources (λ r. refl));
    less = omega (arith, leaking-start t resources);
    told = omega (arith, sum-map_const open_end opening 1 resources (λ r. refl));
  }

  lowers :
      (p : Pc) (runs : List Pc) (o : Log) → Ready p runs → weight (advance finally p o).0 < weight p
  unfolding advance open_completes
  lowers (opening r) runs o ready = below r r.opens r.throws refl
    where
      below :
          (r : Resource) (opens : Opened) (throws : Bool)
          → r.throws ≡ throws
          → weight (open_completes r opens o).0 < 4
      below r (token x) true b = rw b (omega arith)
      below r (token x) false b = rw b (omega arith)
      below r (open_error e) b c = omega arith
      below r open_stopped b c = omega arith
  lowers (using_token r x) runs o ready = omega arith
  lowers (closing r x) runs o ready = omega arith
  lowers (final d) runs o ready = omega arith
  lowers ended runs o ready = absurd ready

  open-Ready : (p : Pc) (runs : List Pc) → 1 ≤ open_end p → Ready p runs
  open-Ready (opening r) runs h = tt
  open-Ready (using_token r x) runs h = tt
  open-Ready (closing r x) runs h = tt
  open-Ready (final d) runs h = tt
  open-Ready ended runs h = absurd (omega arith)

  none_open :
      (t : ℕ) (p : Pc) → open_end p ≡ 0 → leaking t p + before_use t p + before_close t p ≡ 0
  none_open t (opening r) e = absurd (omega arith)
  none_open t (using_token r x) e = absurd (omega arith)
  none_open t (closing r x) e = absurd (omega arith)
  none_open t (final d) e = absurd (omega arith)
  none_open t ended e = refl

  -- Resources are used at the same time, in any order of their actions, whatever exec::finally makes
  -- of the completions. No more than four actions for each are possible, and as long as one operation
  -- has not ended, one of them can act. No token is closed more
  -- often than it was passed on, and none is passed on more often than it was opened. When every
  -- operation has ended, each receiver was completed once, and each token was closed as often as it
  -- was opened, but for those where the connect threw after open.
  pub closes_what_it_opens :
      (resources : List Resource) (n : ℕ) (s : System Log Pc)
      → Trace (advance finally) Ready (start_all resources) n s
      → (n ≤ length resources * 4)
        × (1 ≤ sum open_end s.runs
            → (i : ℕ) × (p : Pc) × (get_elem? s.runs i ≡ some p) × Ready p s.runs)
        × ((t : ℕ) → times t s.op.closed ≤ times t s.op.used)
        × ((t : ℕ) → times t s.op.used ≤ times t s.op.opened)
        × (sum open_end s.runs ≡ 0
            → (length s.op.completions ≡ length resources)
              × ((t : ℕ) → times t s.op.opened ≡ times t s.op.closed + sum (leaks t) resources))
  closes_what_it_opens resources n s trace = (
    omega (
      arith,
      Trace-le (advance finally) Ready weight lowers trace,
      sum-map_const weight opening 4 resources (λ r. refl),
    ),
    (λ left.
        let (i, p, at, live) = sum-find open_end s.runs left in
        (i, p, at, open-Ready p s.runs live)),
    (λ t. omega (arith, (counts t).close)),
    (λ t. omega (arith, (counts t).passed, (counts t).less)),
    (λ all_ended. (
      omega (arith, (counts 0).told, all_ended),
      λ t. omega (
        arith,
        (counts t).passed,
        (counts t).close,
        zero_of (leaking t) (λ p e. omega (arith, none_open t p e)) all_ended,
        zero_of (before_use t) (λ p e. omega (arith, none_open t p e)) all_ended,
        zero_of (before_close t) (λ p e. omega (arith, none_open t p e)) all_ended,
      ),
    )),
  )
    where
      counts : (t : ℕ) → Counted resources t s
      counts t =
          Trace-keeps (advance finally) Ready (Counted resources t) (keeps resources t)
            (start-Counted resources t) trace

      zero_of :
          (w : Pc → ℕ)
          → ((p : Pc) → open_end p ≡ 0 → w p ≡ 0)
          → sum open_end s.runs ≡ 0
          → sum w s.runs ≡ 0
      zero_of w z e = sum-zero open_end w s.runs z e
