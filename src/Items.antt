-- ===== src/Items.antt =====
-- The algorithms that keep one value under a mutex while the items of a sequence complete:
-- source/sio/sequence/last.hpp (Items/Last) and source/sio/sequence/scan.hpp (Items/Scan), and
-- source/sio/sequence/reduce.hpp, which composes them (Items/Reduce). Since the
-- mutex makes what an item does with the value one action, a run is the list of the items in the order
-- in which they take the mutex.
pub mod Last
pub mod Scan
pub mod Reduce
pub mod Tests
