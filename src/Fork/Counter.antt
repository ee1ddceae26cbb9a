-- ===== src/Fork/Counter.antt =====
-- What holds of ref_counter_ of source/sio/sequence/fork.hpp in every state that can be reached when
-- nobody asks the receiver to stop.
use senders_io.Prelude.{
  sum-le-length, sum, sum-set, sum-part, sum_mono, ℕ, ◌+◌, ◌≤◌, ◌<◌, ◌≡◌, refl, ap, Bool, Option,
  none, some, List, arith, leb, ◌==◌, if◌then◌else◌, length, get_elem?, set, size_mod, length-set,
}
use senders_io.Fork.{
  Pc, starting, opening, sequence, allocate, start_item, work, fail, emplace, publish, ask_stop,
  stop_source, leave, deliver, callback, Operation, opened, asking,
}

-- whether a run owns a reference
abbrev pub holds : Pc → ℕ
holds (sequence e) = 1
holds (allocate a) = 1
holds (start_item w) = 1
holds (work w) = 1
holds (fail e) = 1
holds (emplace e) = 1
holds publish = 1
holds ask_stop = 1
holds stop_source = 1
holds leave = 1
holds p = 0

abbrev pub before : Pc → ℕ
before (starting e) = 1
before (opening e) = 1
before p = 0

abbrev pub delivers : Pc → ℕ
delivers deliver = 1
delivers p = 0

-- whether a run has written the error
abbrev pub written : Pc → ℕ
written publish = 1
written p = 0

abbrev pub callbacks : Pc → ℕ
callbacks callback = 1
callbacks p = 0

abbrev pub bit : Bool → ℕ
bit b = if b then 1 else 0

abbrev pub filled : Option ℕ → ℕ
filled none = 0
filled (some e) = 1

pub record Holds (o : Operation) (runs : List Pc) : Type 0 where
  pub counted : o.ref_counter ≡ sum holds runs
  pub in_sequence : 1 ≤ sum asking runs → 1 ≤ sum opened runs
  pub sole : sum opened runs + sum before runs ≤ 1
  pub once :
      length o.completions + sum delivers runs + sum before runs + bit (leb 1 o.ref_counter) ≡ 1
  pub stored : 1 ≤ sum written runs + bit (o.completion_type == 2) → 1 ≤ filled o.errors
  pub unasked : sum callbacks runs ≡ 0
  pub few : length runs + 1 < size_mod

pub holds-le : (p : Pc) → holds p ≤ 1
holds-le p = ground (arith, p)

pub opened-le : (p : Pc) → opened p ≤ holds p
opened-le p = ground (arith, p)

module _ (o : Operation) (runs : List Pc) (h : Holds o runs) (i : ℕ) where
  -- an action of a run on what stands beside the counter
  pub moves :
      (p q : Pc) (o' : Operation)
      → get_elem? runs i ≡ some p
      → o'.ref_counter ≡ o.ref_counter
      → o'.completions ≡ o.completions
      → holds q ≡ holds p
      → opened q ≤ opened p
      → before q ≡ before p
      → delivers q ≡ delivers p
      → callbacks q ≡ 0
      → (1 ≤ sum asking (set runs i q) → 1 ≤ sum opened (set runs i q))
      → (1 ≤ sum written (set runs i q) + bit (o'.completion_type == 2) → 1 ≤ filled o'.errors)
      → Holds o' (set runs i q)
  moves p q o' at r c hold opens wait del call seq store = record {
    counted = omega (arith, h.counted, sum-set holds runs i p q at);
    in_sequence = seq;
    sole = omega (arith, h.sole, sum-set opened runs i p q at, sum-set before runs i p q at);
    once = omega (
      arith,
      h.once,
      ap (λ l. length l) c,
      ap (λ n. bit (leb 1 n)) r,
      sum-set before runs i p q at,
      sum-set delivers runs i p q at,
    );
    stored = store;
    unasked = omega (arith, h.unasked, sum-set callbacks runs i p q at);
    few = omega (arith, h.few, length-set runs i q);
  }

  pub same_sequence :
      (p q : Pc)
      → get_elem? runs i ≡ some p
      → asking q ≤ asking p
      → opened q ≡ opened p
      → 1 ≤ sum asking (set runs i q)
      → 1 ≤ sum opened (set runs i q)
  same_sequence p q at a e le = omega (
    arith,
    h.in_sequence (omega (arith, sum-set asking runs i p q at)),
    sum-set opened runs i p q at,
  )

  pub same_error :
      (p q : Pc)
      → get_elem? runs i ≡ some p
      → written q ≤ written p
      → 1 ≤ sum written (set runs i q) + bit (o.completion_type == 2)
      → 1 ≤ filled o.errors
  same_error p q at w le = h.stored (omega (arith, sum-set written runs i p q at))

  -- an action that only moves on
  pub plain :
      (p q : Pc)
      → get_elem? runs i ≡ some p
      → holds q ≡ holds p
      → opened q ≡ opened p
      → before q ≡ before p
      → delivers q ≡ delivers p
      → callbacks q ≡ 0
      → asking q ≤ asking p
      → written q ≤ written p
      → Holds o (set runs i q)
  plain p q at hold opens wait del call ask writes =
      moves p q o at refl refl hold (omega arith) wait del call (same_sequence p q at ask opens)
        (same_error p q at writes)

  pub no_callback : (p : Pc) → get_elem? runs i ≡ some p → callbacks p ≡ 0
  no_callback p at = omega (arith, h.unasked, sum-part callbacks runs i p at)

  pub bounded : o.ref_counter ≤ length runs
  bounded = omega (arith, h.counted, sum-le-length holds runs holds-le)

  -- the sequence asks for an item, and so has not completed
  pub owned : (p : Pc) → get_elem? runs i ≡ some p → 1 ≤ asking p → 1 ≤ o.ref_counter
  owned p at a = omega (
    arith,
    h.counted,
    h.in_sequence (omega (arith, sum-part asking runs i p at)),
    sum_mono opened holds runs opened-le,
  )
