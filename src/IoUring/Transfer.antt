-- ===== src/IoUring/Transfer.antt =====
-- A single buffer that is read or written: what is asked for, and what is reported.
use senders_io.Prelude.{ℕ, suc, ◌*◌, ◌^◌, ◌≤◌, ◌≡◌, refl, ap, ◌⊎◌, inl, inr, Option, arith}
use senders_io.Buffer.{Buffer}
use senders_io.IoUring.{
  Sqe, op_read, op_write, Res, nonneg, negsuc, set_value, set_error, submit_read_single,
  submit_write_single, complete_io,
}

-- read and write of io_uring are as read(2) and write(2): they transfer no more than len bytes. With
-- such a kernel, whatever it does with other entries, a read and a write of a buffer report an error, or
-- a number of bytes that the buffer holds: the entry asks for no more, whatever the size of the buffer.
pub transfer_within_buffer :
    (kernel : Sqe → Res) (b : Buffer) (fd : ℕ) (offset : Option ℕ)
    → ((sqe : Sqe) (n : ℕ) → sqe.opcode ≡ op_read → kernel sqe ≡ nonneg n → n ≤ sqe.len)
    → ((sqe : Sqe) (n : ℕ) → sqe.opcode ≡ op_write → kernel sqe ≡ nonneg n → n ≤ sqe.len)
    → (((e : ℕ) × (complete_io (kernel (submit_read_single b fd offset)) ≡ set_error e))
        ⊎ ((n : ℕ) × (complete_io (kernel (submit_read_single b fd offset)) ≡ set_value n)
            × (n ≤ b.size)))
      × (((e : ℕ) × (complete_io (kernel (submit_write_single b fd offset)) ≡ set_error e))
          ⊎ ((n : ℕ) × (complete_io (kernel (submit_write_single b fd offset)) ≡ set_value n)
              × (n ≤ b.size)))
unfolding submit_read_single submit_write_single complete_io
transfer_within_buffer kernel b fd offset reads writes = (
  answer (submit_read_single b fd offset) (omega arith)
      (λ n. reads (submit_read_single b fd offset) n refl),
  answer (submit_write_single b fd offset) (omega arith)
      (λ n. writes (submit_write_single b fd offset) n refl),
)
  where
    res_cases : (r : Res) → ((n : ℕ) × (r ≡ nonneg n)) ⊎ ((n : ℕ) × (r ≡ negsuc n))
    res_cases (nonneg n) = inl (n, refl)
    res_cases (negsuc n) = inr (n, refl)

    answer :
        (sqe : Sqe)
        → sqe.len ≤ b.size
        → ((n : ℕ) → kernel sqe ≡ nonneg n → n ≤ sqe.len)
        → ((e : ℕ) × (complete_io (kernel sqe) ≡ set_error e))
          ⊎ ((n : ℕ) × (complete_io (kernel sqe) ≡ set_value n) × (n ≤ b.size))
    answer sqe fits honest = elim (res_cases (kernel sqe)) [
      | inl (n, e) ↦ inr (n, ap complete_io e, omega (arith, honest n e))
      | inr (n, e) ↦ inl (suc n, ap complete_io e)
    ]

-- A read and a write of a buffer of 2^32 bytes, or a multiple of that, ask for no byte at all: the
-- length of an entry has 32 bits.
pub huge_buffer_asks_for_nothing :
    (b : Buffer) (fd k : ℕ) (offset : Option ℕ)
    → b.size ≡ k * 2 ^ 32
    → ((submit_read_single b fd offset).len ≡ 0) × ((submit_write_single b fd offset).len ≡ 0)
unfolding submit_read_single submit_write_single
huge_buffer_asks_for_nothing b fd k offset e = (omega arith, omega arith)
