-- ===== src/Zip/EndsOnce.antt =====
-- What the receiver of the whole of source/sio/sequence/zip.hpp is told, whatever the order of the ends.
use senders_io.Prelude.{
  sum, sum-set, sum-part, ℕ, zero, suc, ◌+◌, ◌-◌, ◌≤◌, ◌≡◌, refl, ap, Bool, false, Option, none,
  some, List, [], ◌∷◌, arith, ltb, lt→ltb, if◌then◌else◌, length, get_elem?, set,
}
use senders_io.Interleaving.{System, Trace, here, acts}
use senders_io.Zip.End.{
  End, value, stopped, error, Completion, set_value, Pc, items, item_stop, store, stop, finish,
  done, Ending, last_value, last_completion, after_count, Ready, advance, Sequence, begun,
}

-- whether a sequence has not been counted, whether it completes the receiver, and whether it is not done
abbrev pending : Pc → ℕ
pending (items xs e) = 1
pending (item_stop xs e) = 1
pending p = 0

abbrev finishing : Pc → ℕ
finishing (finish e) = 1
finishing p = 0

abbrev pub open_end : Pc → ℕ
open_end done = 0
open_end p = 1

-- the items that will fail
abbrev to_fail : Pc → ℕ
to_fail (items xs e) = length xs
to_fail (item_stop xs e) = length xs
to_fail p = 0

abbrev pub failures : Sequence → ℕ
failures s = length s.failed_items

abbrev positive : ℕ → ℕ
positive zero = 0
positive (suc n) = 1

abbrev stored : Option ℕ → ℕ
stored none = 0
stored (some e) = 1

abbrev by_value : Completion → ℕ
by_value set_value = 1
by_value c = 0

-- total is the number of the items that fail
record Holds (total : ℕ) (o : Ending) (runs : List Pc) : Type 0 where
  counted : o.n_pending_operations ≡ sum pending runs
  once : length o.completions + sum finishing runs + positive o.n_pending_operations ≡ 1
  unmet : stored o.errors ≡ 0 → sum to_fail runs ≡ total
  told : 1 ≤ sum by_value o.completions → total ≡ 0

after_count-weights :
    (e : End) → pending (after_count e) + finishing (after_count e) + to_fail (after_count e) ≡ 0
after_count-weights value = refl
after_count-weights stopped = refl
after_count-weights (error e) = refl

module _ (token : Bool) (total : ℕ) (o : Ending) (runs : List Pc) (h : Holds total o runs)
    (i : ℕ) where
  counts :
      (e : End) (n : ℕ) (q : Pc)
      → get_elem? runs i ≡ some (items [] e)
      → o.n_pending_operations ≡ suc n
      → pending q + to_fail q ≡ 0
      → finishing q + positive n ≡ 1
      → Holds total (record o { n_pending_operations = o.n_pending_operations - 1 }) (set runs i q)
  counts e n q at more w one = record {
    counted = omega (arith, h.counted, more, w, sum-set pending runs i (items [] e) q at);
    once = omega (
      arith,
      h.once,
      ap positive more,
      ap positive less,
      one,
      sum-set finishing runs i (items [] e) q at,
    );
    unmet = λ z. omega (arith, h.unmet z, w, sum-set to_fail runs i (items [] e) q at);
    told = h.told;
  }
    where
      less : o.n_pending_operations - 1 ≡ n
      less = omega (arith, more)

  ends :
      (e : End) (n : ℕ)
      → get_elem? runs i ≡ some (items [] e)
      → o.n_pending_operations ≡ n
      → Holds total
          (record o { n_pending_operations = o.n_pending_operations - 1 })
          (set runs i (if ltb 1 n then after_count e else finish e))
  ends e zero at m = absurd (omega (arith, h.counted, m, sum-part pending runs i (items [] e) at))
  ends e (suc zero) at m = counts e 0 (finish e) at m refl refl
  ends e (suc (suc n)) at m = rw (lt→ltb 1 (suc (suc n)) (omega arith)) (
      counts e (suc n) (after_count e) at m (omega (arith, after_count-weights e))
        (omega (arith, after_count-weights e)))

-- a sequence that fails by itself with e, and one that ends by set_value
abbrev pub two_ends : ℕ → List Sequence
two_ends e =
    record { failed_items = []; ends = error e } ∷ record { failed_items = []; ends = value } ∷ []

-- The error with which a sequence ends can be overtaken: it is stored after the other sequence has told
-- the receiver set_value, in an operation that has completed.
pub error_comes_late :
    (e : ℕ)
    → (s : System Ending Pc) × Trace (advance false) Ready (begun (two_ends e)) 5 s
      × (sum open_end s.runs ≡ 0)
      × (s.op.completions ≡ set_value ∷ [])
      × (s.op.errors ≡ some e)
unfolding advance last_completion last_value
error_comes_late e = (
  _,
  acts 4 _ 0 stop
      (acts 3 _ 0 (store e)
        (acts 2 _ 1 (finish value)
          (acts 1 _ 1 (items [] value)
            (acts 0 (begun (two_ends e)) 0 (items [] (error e)) here refl tt) refl tt)
          refl tt)
        refl tt)
      refl tt,
  refl,
  refl,
  refl,
)
