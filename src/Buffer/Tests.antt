-- ===== src/Buffer/Tests.antt =====
-- Runs of the operations of a buffer, and of what is proved of them.
use senders_io.Prelude.{◌≡◌, refl}
use senders_io.Buffer.{buffer, suffix}

suffix_run : suffix (buffer 100 5) 2 ≡ buffer 103 2
unfolding suffix
suffix_run = refl
