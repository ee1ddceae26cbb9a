-- ===== src/First/Invariant.antt =====
-- What holds of the members of operation_base of source/sio/sequence/first.hpp in every state that
-- can be reached.
use senders_io.Prelude.{
  sum-map_const, sum, sum-set, sum-part, sum_mono, ℕ, ◌+◌, ◌≤◌, ◌≡◌, refl, ap, ◌∙◌, ◌≢◌, inl, inr,
  true, false, Option, none, some, List, ◌∷◌, arith, ◌==◌, ==_iff, Bool-cases, length, get_elem?,
  set,
}
use senders_io.Interleaving.{System, Trace, Trace-keeps}
use senders_io.First.{
  Completion, set_stopped, Pc, running, construct, publish, stop_item, done, sequence, End, value,
  stopped, error, finished, Operation, complete, visit, visit_result, advance, busy, Ready, init,
}
use senders_io.First.Holds.{
  building, publishing, unstarted, waiting, filled, bit, Holds, building-le, unstarted-le,
  publishing-le, publishing-le-building,
}

module _ (total : ℕ) (o : Operation) (runs : List Pc) (h : Holds total o runs) (i : ℕ) where
  -- an action of an item after it has claimed the result or lost it
  item_acts :
      (p q : Pc) (o' : Operation)
      → get_elem? runs i ≡ some p
      → busy p ≡ 1
      → 1 ≤ o.emplaced
      → 1 ≤ o'.emplaced
      → o'.emplaced ≤ 2
      → building q + bit (o.emplaced == 1) ≡ building p + bit (o'.emplaced == 1)
      → filled o'.result + bit (o.emplaced == 2) + publishing p
        ≡ filled o.result + bit (o'.emplaced == 2) + publishing q
      → o'.completions ≡ o.completions
      → waiting q ≡ waiting p
      → o'.item_stops + busy q ≡ o.item_stops + busy p
      → o'.read_uninitialised ≡ o.read_uninitialised
      → Holds total o' (set runs i q)
  item_acts p q o' at b' one one' two b f c w s r = record {
    claimed = omega (arith, h.claimed, sum-set building runs i p q at);
    in_range = two;
    stored = omega (arith, h.stored, sum-set publishing runs i p q at);
    fresh = λ z. absurd (omega arith);
    told = omega (arith, h.told, ap (λ l. length l) c, sum-set waiting runs i p q at);
    stopped = omega (arith, h.stopped, sum-set busy runs i p q at);
    early = λ le.
        omega (
          arith,
          h.early (omega (arith, sum-part busy runs i p at)),
          sum-set waiting runs i p q at,
        );
    safe = λ le. r ∙ h.safe le;
  }

  claims :
      (c : Completion)
      → get_elem? runs i ≡ some (running c)
      → o.emplaced ≡ 0
      → Holds total (record o { emplaced = 1 }) (set runs i (construct c))
  claims c at z = record {
    claimed = omega (
      arith,
      h.claimed,
      ap (λ n. bit (n == 1)) z,
      sum-set building runs i (running c) (construct c) at,
    );
    in_range = omega arith;
    stored = omega (
      arith,
      h.stored,
      ap (λ n. bit (n == 2)) z,
      sum-set publishing runs i (running c) (construct c) at,
    );
    fresh = λ f. absurd (omega arith);
    told = omega (arith, h.told, sum-set waiting runs i (running c) (construct c) at);
    stopped = omega (arith, h.stopped, sum-set busy runs i (running c) (construct c) at);
    early = λ le. omega (
      arith,
      h.early (omega (arith, sum-part busy runs i (running c) at)),
      sum-set waiting runs i (running c) (construct c) at,
    );
    safe = h.safe;
  }

  -- the sequence completes
  ends :
      (p : Pc) (o' : Operation)
      → get_elem? runs i ≡ some p
      → sum busy runs ≡ 0
      → waiting p ≡ 1
      → building p ≡ 0
      → publishing p ≡ 0
      → unstarted p ≡ 0
      → busy p ≡ 0
      → o'.emplaced ≡ o.emplaced
      → o'.result ≡ o.result
      → o'.item_stops ≡ o.item_stops
      → length o'.completions ≡ 1
      → (1 ≤ total → o'.read_uninitialised ≡ false)
      → Holds total o' (set runs i finished)
  ends p o' at quiet wait b f u s same_emplaced same_result same_stops once safe = record {
    claimed = omega (
      arith,
      h.claimed,
      ap (λ n. bit (n == 1)) same_emplaced,
      sum-set building runs i p finished at,
    );
    in_range = omega (arith, h.in_range);
    stored = omega (
      arith,
      h.stored,
      ap (λ n. bit (n == 2)) same_emplaced,
      ap filled same_result,
      sum-set publishing runs i p finished at,
    );
    fresh = λ z. omega (arith, h.fresh (omega arith), sum-set unstarted runs i p finished at);
    told =
        omega (arith, h.told, sum-set waiting runs i p finished at, sum-part waiting runs i p at);
    stopped = omega (arith, h.stopped, sum-set busy runs i p finished at);
    early = λ le. absurd (omega (arith, sum-set busy runs i p finished at));
    safe = safe;
  }

  nothing_told : (p : Pc) → get_elem? runs i ≡ some p → waiting p ≡ 1 → length o.completions ≡ 0
  nothing_told p at w = omega (arith, h.told, sum-part waiting runs i p at)

  none_builds : sum busy runs ≡ 0 → o.emplaced ≢ 1
  none_builds quiet one = absurd (
      omega (arith, h.claimed, ap (λ n. bit (n == 1)) one, sum_mono building busy runs building-le))

  none_unstarted : sum busy runs ≡ 0 → o.emplaced ≡ 0 → total ≡ 0
  none_unstarted quiet z = omega (arith, h.fresh z, sum_mono unstarted busy runs unstarted-le)

  publishes_none : sum busy runs ≡ 0 → sum publishing runs ≡ 0
  publishes_none quiet = omega (arith, sum_mono publishing busy runs publishing-le)

  pub result_there : sum busy runs ≡ 0 → 1 ≤ o.emplaced → o.result ≢ none
  result_there quiet one e =
      absurd (ground (arith, h.stored, ap filled e, none_builds quiet, h.in_range))

  -- the result is there when it is visited, but for a sequence with no items
  visits :
      get_elem? runs i ≡ some (sequence value)
      → sum busy runs ≡ 0
      → Holds total (visit_result o) (set runs i finished)
  unfolding visit_result
  visits at quiet = elim (Bool-cases (o.emplaced == 0)) [
    | inl z ↦ rw z (unset o.result refl ((==_iff o.emplaced 0).0 z))
    | inr nz ↦ rw nz (emplaced o.result refl nz)
  ]
    where
      tells :
          (o' : Operation)
          → o'.emplaced ≡ o.emplaced
          → o'.result ≡ o.result
          → o'.item_stops ≡ o.item_stops
          → length o'.completions ≡ 1
          → (1 ≤ total → o'.read_uninitialised ≡ false)
          → Holds total o' (set runs i finished)
      tells o' = ends (sequence value) o' at quiet refl refl refl refl refl

      once : length o.completions ≡ 0
      once = nothing_told (sequence value) at refl

      unset :
          (r : Option Completion)
          → o.result ≡ r
          → o.emplaced ≡ 0
          → Holds total (visit r (complete o set_stopped)) (set runs i finished)
      unset none e z =
          tells (record o { completions = set_stopped ∷ o.completions; read_uninitialised = true })
            refl refl refl (omega (arith, once))
            (λ le. absurd (omega (arith, none_unstarted quiet z)))
      unset (some c) e z =
          absurd
            (omega (arith, h.stored, ap filled e, ap (λ n. bit (n == 2)) z, publishes_none quiet))

      emplaced :
          (r : Option Completion)
          → o.result ≡ r
          → (o.emplaced == 0) ≡ false
          → Holds total (visit r o) (set runs i finished)
      emplaced none e nz = absurd (result_there quiet (ground (arith, nz)) e)
      emplaced (some c) e nz = tells (complete o c) refl refl refl (omega (arith, once)) h.safe

  -- the others, when one run has claimed the result
  sole_builder :
      (p : Pc)
      → get_elem? runs i ≡ some p
      → building p ≡ 1
      → (o.emplaced ≡ 1) × (sum publishing runs ≡ publishing p)
  sole_builder p at b = (
    one,
    omega (
      arith,
      h.claimed,
      ap (λ n. bit (n == 1)) one,
      sum-set building runs i p done at,
      sum-set publishing runs i p done at,
      sum_mono publishing building (set runs i done) publishing-le-building,
    ),
  )
    where
      one : o.emplaced ≡ 1
      one = ground (arith, h.claimed, sum-part building runs i p at)

  stops_late : get_elem? runs i ≡ some stop_item → 1 ≤ o.emplaced
  stops_late at = elim (Bool-cases (o.emplaced == 0)) [
    | inl z ↦ absurd (
        omega (
          arith,
          h.fresh ((==_iff o.emplaced 0).0 z),
          h.stopped,
          sum-set busy runs i stop_item done at,
          sum-set unstarted runs i stop_item done at,
          sum_mono unstarted busy (set runs i done) unstarted-le,
        ))
    | inr nz ↦ ground (arith, nz)
  ]

  pub act :
      (p : Pc)
      → get_elem? runs i ≡ some p
      → Ready p runs
      → Holds total (advance p o).1 (set runs i (advance p o).0)
  unfolding advance
  act (running c) at ready = elim (Bool-cases (o.emplaced == 0)) [
    | inl z ↦ rw z (claims c at ((==_iff o.emplaced 0).0 z))
    | inr nz ↦ rw nz (
        item_acts (running c) stop_item o at refl (ground (arith, nz)) (ground (arith, nz))
          h.in_range refl refl refl refl refl refl)
  ]
  act (construct c) at ready =
      let (one, alone) = sole_builder (construct c) at refl in
      item_acts (construct c) publish (record o { result = some c }) at refl (omega arith)
        (omega arith) h.in_range refl (omega (arith, h.stored, ap (λ n. bit (n == 2)) one)) refl
        refl refl refl
  act publish at ready =
      let (one, alone) = sole_builder publish at refl in
      item_acts publish stop_item (record o { emplaced = 2 }) at refl (omega arith) (omega arith)
        (omega arith) (omega (arith, ap (λ n. bit (n == 1)) one))
        (omega (arith, ap (λ n. bit (n == 2)) one)) refl refl refl refl
  act stop_item at ready =
      item_acts stop_item done (record o { item_stops = o.item_stops + 1 }) at refl (stops_late at)
        (stops_late at) h.in_range refl refl refl refl (omega arith) refl
  act done at ready = absurd ready
  act (sequence value) at ready = visits at ready
  act (sequence stopped) at ready =
      ends (sequence stopped) _ at ready refl refl refl refl refl refl refl refl
        (omega (arith, nothing_told (sequence stopped) at refl)) h.safe
  act (sequence (error e)) at ready =
      ends (sequence (error e)) _ at ready refl refl refl refl refl refl refl refl
        (omega (arith, nothing_told (sequence (error e)) at refl)) h.safe
  act finished at ready = absurd ready

pub begins :
    (last : End) (items : List Completion)
    → Holds (length items) (init last items).op (init last items).runs
begins last items = record {
  claimed = omega (arith, sum-map_const building running 0 items (λ c. refl));
  in_range = omega arith;
  stored = omega (arith, sum-map_const publishing running 0 items (λ c. refl));
  fresh = λ z. omega (arith, sum-map_const unstarted running 1 items (λ c. refl));
  told = omega (arith, sum-map_const waiting running 0 items (λ c. refl));
  stopped = omega (arith, sum-map_const busy running 1 items (λ c. refl));
  early = λ le. omega (arith, sum-map_const waiting running 0 items (λ c. refl));
  safe = λ le. refl;
}

pub Trace-Holds :
    (last : End) (items : List Completion) {n : ℕ} {s : System Operation Pc}
    → Trace advance Ready (init last items) n s
    → Holds (length items) s.op s.runs
Trace-Holds last items =
    Trace-keeps advance Ready (λ s. Holds (length items) s.op s.runs)
      (λ t i pc h at ready. act (length items) t.op t.runs h i pc at ready) (begins last items)
