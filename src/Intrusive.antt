-- ===== src/Intrusive.antt =====
-- source/sio/intrusive_queue.hpp and source/sio/intrusive_list.hpp: containers that link the items
-- which their users own. An item pointer is a number, `nullptr` is 0; every other pointer that is
-- handed to a container stands for a live item, with the two link fields of the heap. A read or a
-- write through `nullptr` is the fault `none`.
pub mod Steps
pub mod Chain
pub mod Queue
pub mod DoublyLinked
pub mod Tests
use senders_io.Prelude.{ℕ, ◌≡◌, Option, none, some, ◌==◌, if◌then◌else◌}

abbrev pub Ptr : Type 0
Ptr = ℕ

abbrev pub null : Ptr
null = 0

pub record Heap : Type 0 where
  pub next : Ptr → Ptr
  pub prev : Ptr → Ptr

abbrev pub update : (Ptr → Ptr) → Ptr → Ptr → Ptr → Ptr
update links p v q = if p == q then v else links q

abbrev pub write_next : Heap → Ptr → Ptr → Heap
write_next h p v = record h { next = update h.next p v }

abbrev pub write_prev : Heap → Ptr → Ptr → Heap
write_prev h p v = record h { prev = update h.prev p v }

-- A method over the heap: its result and the heap that it leaves, or a fault.
abbrev pub Method : Type 0 → Type 0
Method Result = Heap → Option (Result × Heap)

infixl 5 ◌>>=◌ ◌>>◌
abbrev pub ◌>>=◌ : {First Second : Type 0} → Method First → (First → Method Second) → Method Second
◌>>=◌ step rest before = elim (step before) [ some (x, after) ↦ rest x after | none ↦ none ]

abbrev pub ◌>>◌ : {Second : Type 0} → Method (Unit {0}) → Method Second → Method Second
step >> rest = step >>= λ _. rest

abbrev pub pure : {Result : Type 0} → Result → Method Result
pure x unchanged = some (x, unchanged)

-- item->*Next and item->*Prev, read and assigned
unfoldable pub get_next : Ptr → Method Ptr
get_next p h = if p == null then none else some (h.next p, h)

unfoldable pub get_prev : Ptr → Method Ptr
get_prev p h = if p == null then none else some (h.prev p, h)

unfoldable pub set_next : Ptr → Ptr → Method (Unit {0})
set_next p v h = if p == null then none else some (tt, write_next h p v)

unfoldable pub set_prev : Ptr → Ptr → Method (Unit {0})
set_prev p v h = if p == null then none else some (tt, write_prev h p v)

-- A run that does not fault, and what holds of its result and of the heap that it leaves.
abbrev pub Yields : {A : Type 0} → Method A → Heap → (A → Heap → Type 0) → Type 0
Yields {A} m h P = (a : A) × (h' : Heap) × (m h ≡ some (a, h')) × P a h'
