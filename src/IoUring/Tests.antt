-- ===== src/IoUring/Tests.antt =====
-- Entries of some operations, and what is proved of transfers.
use senders_io.Prelude.{sym, ap, ◌∙◌, ℕ, ◌/◌, ◌≤◌, ◌≡◌, refl, ap, ◌⊎◌, none, some, arith}
use senders_io.Buffer.{buffer}
use senders_io.IoUring.{
  Opcode, op_read, op_write, Sqe, Res, nonneg, negsuc, set_value, set_error, submit_read_single,
  submit_write_single, complete_io, complete_close, submit_open, file_open_data, mode_write,
  open_existing,
}
use senders_io.IoUring.Transfer.{transfer_within_buffer}

close_run : complete_close (negsuc 8) ≡ some (set_error 9)
unfolding complete_close
close_run = refl

-- a file that is opened for writing is asked for with the flags 0, which is O_RDONLY
open_run : (submit_open (file_open_data 100 3 mode_write open_existing)).open_flags ≡ 0
unfolding submit_open file_open_data
open_run = refl

-- a kernel that transfers half of what is asked for, rounded down, and gives out the descriptor 1000
abbrev answer_to : Opcode → ℕ → Res
answer_to op_read len = nonneg (len / 2)
answer_to op_write len = nonneg (len / 2)
answer_to _ len = nonneg 1000

abbrev half : Sqe → Res
half sqe = answer_to sqe.opcode sqe.len

abbrev number : Res → ℕ
number (nonneg m) = m
number (negsuc m) = 0

half_reads : (sqe : Sqe) (n : ℕ) → sqe.opcode ≡ op_read → half sqe ≡ nonneg n → n ≤ sqe.len
half_reads sqe n read e = omega (arith, ap number (ap (λ o. answer_to o sqe.len) (sym read) ∙ e))

half_writes : (sqe : Sqe) (n : ℕ) → sqe.opcode ≡ op_write → half sqe ≡ nonneg n → n ≤ sqe.len
half_writes sqe n write e = omega (arith, ap number (ap (λ o. answer_to o sqe.len) (sym write) ∙ e))

transfer_within_buffer_example :
    (((e : ℕ) × (complete_io (half (submit_read_single (buffer 100 7) 3 none)) ≡ set_error e))
      ⊎ ((n : ℕ) × (complete_io (half (submit_read_single (buffer 100 7) 3 none)) ≡ set_value n)
          × (n ≤ 7)))
    × (((e : ℕ) × (complete_io (half (submit_write_single (buffer 100 7) 3 none)) ≡ set_error e))
        ⊎ ((n : ℕ) × (complete_io (half (submit_write_single (buffer 100 7) 3 none)) ≡ set_value n)
            × (n ≤ 7)))
transfer_within_buffer_example =
    transfer_within_buffer half (buffer 100 7) 3 none half_reads half_writes
