-- ===== src/AsyncResource/Counts.antt =====
-- What is counted of the runs of source/sio/async_resource.hpp, and how an open changes the counts.
use senders_io.Prelude.{
  sum, ℕ, ◌+◌, ◌≤◌, ◌≡◌, Bool, true, false, List, arith, map, ◌==◌, if◌then◌else◌, length,
}
use senders_io.Interleaving.{System}
use senders_io.AsyncResource.{
  Opened, token, open_error, open_stopped, Resource, Pc, opening, using_token, closing, final,
  ended, Log, open_completes, unused,
}

abbrev pub same : ℕ → ℕ → ℕ
same t x = if x == t then 1 else 0

-- how often a token was logged
abbrev pub times : ℕ → List ℕ → ℕ
times t xs = sum (same t) xs

-- whether a resource opens t and then throws
abbrev pub leaks_token : ℕ → Bool → Opened → ℕ
leaks_token t true (token x) = same t x
leaks_token t true (open_error e) = 0
leaks_token t true open_stopped = 0
leaks_token t false opens = 0

abbrev pub leaks : ℕ → Resource → ℕ
leaks t r = leaks_token t r.throws r.opens

abbrev pub leaking : ℕ → Pc → ℕ
leaking t (opening r) = leaks t r
leaking t p = 0

abbrev pub before_use : ℕ → Pc → ℕ
before_use t (using_token r x) = same t x
before_use t p = 0

abbrev pub before_close : ℕ → Pc → ℕ
before_close t (closing r x) = same t x
before_close t p = 0

abbrev pub open_end : Pc → ℕ
open_end ended = 0
open_end p = 1

abbrev pub weight : Pc → ℕ
weight (opening r) = 4
weight (using_token r x) = 3
weight (closing r x) = 2
weight (final d) = 1
weight ended = 0

-- what an action does to the counts
pub record Balanced (t : ℕ) (p q : Pc) (o o' : Log) : Type 0 where
  pub passed :
      times t o'.opened + leaking t q + times t o.used + before_use t p
      ≡ times t o.opened + leaking t p + times t o'.used + before_use t q
  pub close :
      times t o'.used + times t o.closed + before_close t p
      ≡ times t o.used + times t o'.closed + before_close t q
  pub less : leaking t q ≤ leaking t p
  pub told : length o'.completions + open_end q ≡ length o.completions + open_end p

pub open_completes-Balanced :
    (t : ℕ) (r : Resource) (opens : Opened) (throws : Bool) (o : Log)
    → r.opens ≡ opens
    → r.throws ≡ throws
    → Balanced t (opening r) (open_completes r opens o).0 o (open_completes r opens o).1
unfolding open_completes
open_completes-Balanced t r (token x) true o e b = record {
  passed = rw (b, e) (omega arith);
  close = rw b (omega arith);
  less = rw b (omega arith);
  told = rw b (omega arith);
}
open_completes-Balanced t r (token x) false o e b = record {
  passed = rw b (omega arith);
  close = rw b (omega arith);
  less = rw b (omega arith);
  told = rw b (omega arith);
}
open_completes-Balanced t r (open_error d) true o e b = record {
  passed = rw (b, e) (omega arith);
  close = omega arith;
  less = omega arith;
  told = omega arith;
}
open_completes-Balanced t r (open_error d) false o e b = record {
  passed = rw b (omega arith);
  close = omega arith;
  less = omega arith;
  told = omega arith;
}
open_completes-Balanced t r open_stopped true o e b = record {
  passed = rw (b, e) (omega arith);
  close = omega arith;
  less = omega arith;
  told = omega arith;
}
open_completes-Balanced t r open_stopped false o e b = record {
  passed = rw b (omega arith);
  close = omega arith;
  less = omega arith;
  told = omega arith;
}

abbrev pub start_all : List Resource → System Log Pc
start_all resources = record { op = unused; runs = map opening resources }
