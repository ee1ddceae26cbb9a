-- ===== src/Items/Last.antt =====
-- source/sio/sequence/last.hpp: the last item that completes gives the result of the whole.
use senders_io.Prelude.{
  ℕ, ◌≡◌, refl, sym, ap, ◌∙◌, Option, none, some, List, [], ◌∷◌, ◌++◌, map, append-nil,
  append_assoc, ◌>>=◌,
}

-- a completion with its arguments, as the tuples of ResultVariant hold it
pub data Completion : Type 0 where
  set_value : ℕ → Completion
  set_stopped : Completion
  set_error : ℕ → Completion

-- how the sequence itself ends
pub data End : Type 0 where
  value : End
  stopped : End
  error : ℕ → End

-- what the receiver of an item is told
pub data ItemTold : Type 0 where
  item_value : ItemTold
  item_stopped : ItemTold

-- result_ (nothing before it is constructed), and what the receivers were told
pub record Operation : Type 0 where
  pub result : Option Completion
  pub items : List ItemTold
  pub completions : List Completion

-- result_type::emplace
unfoldable pub emplace : Completion → Operation → Operation
emplace c o = record o { result = some c }

-- item_receiver::set_value, set_stopped and set_error
unfoldable pub complete_item : Completion → Operation → Operation
unfolding emplace
complete_item c o =
    let told : ItemTold = elim c [ set_value v ↦ item_value | _ ↦ item_stopped ] in
    record (emplace c o) { items = o.items ++ (told ∷ []) }

unfoldable pub complete_items : List Completion → Operation → Operation
unfolding complete_item
complete_items [] o = o
complete_items (c ∷ cs) o = complete_items cs (complete_item c o)

-- result_type::visit_result, where `none` is a read of a result that was not constructed; it destroys
-- the result
unfoldable pub visit_result : Operation → Option Operation
visit_result o = do c ← o.result; some (record o { result = none; completions = c ∷ o.completions })

-- receiver::set_value, set_stopped and set_error
unfoldable pub end_sequence : End → Operation → Option Operation
unfolding visit_result
end_sequence value o = visit_result o
end_sequence stopped o = some (record o { completions = set_stopped ∷ o.completions })
end_sequence (error e) o = some (record o { completions = set_error e ∷ o.completions })

abbrev pub begun : Operation
begun = record { result = none; items = []; completions = [] }

-- the items, and then the end of the sequence
abbrev pub run : List Completion → End → Option Operation
run items last = end_sequence last (complete_items items begun)

abbrev pub is_value : Completion → ItemTold
is_value (set_value v) = item_value
is_value c = item_stopped

-- the last of some completions, after one that may be there
abbrev last_of : Option Completion → List Completion → Option Completion
last_of r [] = r
last_of r (c ∷ cs) = last_of (some c) cs

complete_items_lem :
    (cs : List Completion) (o : Operation)
    → complete_items cs o
      ≡ record o { result = last_of o.result cs; items = o.items ++ map is_value cs }
unfolding complete_items
complete_items_lem [] o = ap (λ l. record o { items = l }) (sym (append-nil o.items))
complete_items_lem (c ∷ cs) o =
    complete_items_lem cs (complete_item c o)
    ∙ ap (λ l. record o { result = last_of (some c) cs; items = l })
        (append_assoc o.items (is_value c ∷ []) (map is_value cs))

last_of-snoc :
    (r : Option Completion) (cs : List Completion) (c : Completion)
    → last_of r (cs ++ (c ∷ [])) ≡ some c
last_of-snoc r [] c = refl
last_of-snoc r (d ∷ cs) c = last_of-snoc (some d) cs c

-- The items complete in any order, cs before c, and then the sequence ends by set_value: the receiver
-- of the whole is told c, whether it is a value, an error or a stop, and each item is told set_value
-- if it gave a value and set_stopped if not.
pub last_item_wins :
    (cs : List Completion) (c : Completion)
    → (o : Operation) × (run (cs ++ (c ∷ [])) value ≡ some o)
      × (o.completions ≡ c ∷ [])
      × (o.items ≡ map is_value (cs ++ (c ∷ [])))
unfolding end_sequence
last_item_wins cs c = (
  record begun { items = map is_value (cs ++ (c ∷ [])); completions = c ∷ [] },
  rw (complete_items_lem (cs ++ (c ∷ [])) begun, last_of-snoc none cs c) refl,
  refl,
  refl,
)

-- With no item, a sequence that ends by set_value makes the receiver read a result that was not
-- constructed.
no_item_faults : run [] value ≡ none
unfolding end_sequence complete_items
no_item_faults = refl
