-- ===== src/Intrusive/Steps.antt =====
-- Reads and writes of the links of an item do not fault.
use senders_io.Prelude.{◌≡◌, ◌≢◌, false, some, arith, ◌==◌}
use senders_io.Intrusive.{
  Ptr, null, Heap, write_next, write_prev, get_next, get_prev, set_next, set_prev,
}

pub real_of_test : (p : Ptr) → (p == null) ≡ false → p ≢ null
real_of_test p e = ground arith

module _ (p : Ptr) (h : Heap) (real : p ≢ null) where
  pub not_null : (p == null) ≡ false
  not_null = ground arith

  pub get_next_ok : get_next p h ≡ some (h.next p, h)
  unfolding get_next
  get_next_ok = rw not_null

  pub get_prev_ok : get_prev p h ≡ some (h.prev p, h)
  unfolding get_prev
  get_prev_ok = rw not_null

  pub set_next_ok : (v : Ptr) → set_next p v h ≡ some (tt, write_next h p v)
  unfolding set_next
  set_next_ok v = rw not_null

  pub set_prev_ok : (v : Ptr) → set_prev p v h ≡ some (tt, write_prev h p v)
  unfolding set_prev
  set_prev_ok v = rw not_null
