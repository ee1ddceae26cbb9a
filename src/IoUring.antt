-- ===== src/IoUring.antt =====
-- source/sio/io_uring/file_handle.hpp, file_handle.cpp and socket_handle.hpp: what an operation asks
-- of the kernel in a submission entry, and how it takes the answer. Descriptors are numbers, a
-- pointer in an entry is an address, and the answer of the kernel is the field `res` of the
-- completion entry. The offset none stands for -1, the position of the file.
pub mod Transfer
pub mod Tests
use senders_io.Prelude.{ℕ, zero, suc, ◌%◌, ◌^◌, Option, none, some, size_max}
use senders_io.Buffer.{Buffer}

pub data Opcode : Type 0 where
  op_close : Opcode
  op_openat : Opcode
  op_readv : Opcode
  op_writev : Opcode
  op_read : Opcode
  op_write : Opcode
  op_connect : Opcode
  op_sendmsg : Opcode
  op_accept : Opcode

-- io_uring_sqe, the fields that the library sets
pub record Sqe : Type 0 where
  pub opcode : Opcode
  pub fd : ℕ
  pub off : ℕ
  pub addr : ℕ
  pub addr2 : ℕ
  pub len : ℕ
  pub open_flags : ℕ

-- the entry of an operation on a descriptor, all other fields zero
abbrev pub entry : Opcode → ℕ → Sqe
entry opcode fd = record {
  opcode = opcode;
  fd = fd;
  off = 0;
  addr = 0;
  addr2 = 0;
  len = 0;
  open_flags = 0;
}

-- the field `res`: a number from 0 on, or -(n + 1)
pub data Res : Type 0 where
  nonneg : ℕ → Res
  negsuc : ℕ → Res

-- what the receiver is told: a value, or the error -res, which is negative for a positive `res`
pub data Completion (A : Type 0) : Type 0 where
  set_value : A → Completion A
  set_error : ℕ → Completion A
  set_negative_error : ℕ → Completion A

-- off_t to a field of 64 bits, std::size_t to one of 32 bits
abbrev pub to_off : Option ℕ → ℕ
to_off none = size_max
to_off (some offset) = offset

abbrev pub to_len : ℕ → ℕ
to_len n = n % 2 ^ 32

unfoldable pub submit_close : ℕ → Sqe
submit_close fd = entry op_close fd

-- SIO_ASSERT fails on a positive result
unfoldable pub complete_close : Res → Option (Completion (Unit {0}))
complete_close (nonneg zero) = some (set_value tt)
complete_close (nonneg (suc n)) = none
complete_close (negsuc n) = some (set_error (suc n))

pub record OpenData : Type 0 where
  pub path : ℕ
  pub dirfd : ℕ
  pub flags : ℕ
  pub mode : ℕ

unfoldable pub submit_open : OpenData → Sqe
submit_open data_ = record (entry op_openat data_.dirfd) {
  addr = data_.path;
  open_flags = data_.flags;
  len = data_.mode;
}

-- the descriptor of native_fd_handle
unfoldable pub complete_open : Res → Completion ℕ
complete_open (nonneg fd) = set_value fd
complete_open (negsuc n) = set_error (suc n)

-- a span of buffers: the address of the first, and how many
pub record Vector : Type 0 where
  pub begin : ℕ
  pub size : ℕ

unfoldable pub submit_read : Vector → ℕ → Option ℕ → Sqe
submit_read v fd offset = record (entry op_readv fd) {
  off = to_off offset;
  addr = v.begin;
  len = to_len v.size;
}

unfoldable pub submit_read_single : Buffer → ℕ → Option ℕ → Sqe
submit_read_single b fd offset = record (entry op_read fd) {
  off = to_off offset;
  addr = b.data_ptr;
  len = to_len b.size;
}

unfoldable pub submit_write : Vector → ℕ → Option ℕ → Sqe
submit_write v fd offset = record (entry op_writev fd) {
  off = to_off offset;
  addr = v.begin;
  len = to_len v.size;
}

unfoldable pub submit_write_single : Buffer → ℕ → Option ℕ → Sqe
submit_write_single b fd offset = record (entry op_write fd) {
  off = to_off offset;
  addr = b.data_ptr;
  len = to_len b.size;
}

-- io_operation_base::complete
unfoldable pub complete_io : Res → Completion ℕ
complete_io (nonneg n) = set_value n
complete_io (negsuc n) = set_error (suc n)

-- a socket address: where it is, and its size
unfoldable pub submit_connect : ℕ → (address size : ℕ) → Sqe
submit_connect fd address size = record (entry op_connect fd) { addr = address; off = size }

unfoldable pub complete_connect : Res → Completion (Unit {0})
complete_connect (nonneg zero) = set_value tt
complete_connect (nonneg (suc n)) = set_negative_error (suc n)
complete_connect (negsuc n) = set_error (suc n)

unfoldable pub submit_sendmsg : ℕ → (msg : ℕ) → Sqe
submit_sendmsg fd msg = record (entry op_sendmsg fd) { addr = msg }

unfoldable pub complete_sendmsg : Res → Completion ℕ
complete_sendmsg (nonneg n) = set_value n
complete_sendmsg (negsuc n) = set_error (suc n)

unfoldable pub submit_accept : ℕ → (address addrlen : ℕ) → Sqe
submit_accept fd address addrlen = record (entry op_accept fd) { addr = address; addr2 = addrlen }

-- the descriptor of the new socket_handle
unfoldable pub complete_accept : Res → Completion ℕ
complete_accept (nonneg fd) = set_value fd
complete_accept (negsuc n) = set_error (suc n)

-- async::mode and async::creation of source/sio/io_concepts.hpp, by their numbers
pub data Mode : Type 0 where
  mode_unchanged : Mode
  mode_none : Mode
  mode_attr_read : Mode
  mode_attr_write : Mode
  mode_read : Mode
  mode_write : Mode
  mode_append : Mode

abbrev pub mode_number : Mode → ℕ
mode_number mode_unchanged = 0
mode_number mode_none = 2
mode_number mode_attr_read = 4
mode_number mode_attr_write = 5
mode_number mode_read = 6
mode_number mode_write = 7
mode_number mode_append = 9

pub data Creation : Type 0 where
  open_existing : Creation
  only_if_existing : Creation
  if_needed : Creation
  truncate_existing : Creation
  always_new : Creation

abbrev pub creation_number : Creation → ℕ
creation_number open_existing = 0
creation_number only_if_existing = 1
creation_number if_needed = 2
creation_number truncate_existing = 3
creation_number always_new = 4

-- the data of a file_resource, which leaves the caching aside
unfoldable pub file_open_data : (path base : ℕ) → Mode → Creation → OpenData
file_open_data path base mode creation = record {
  path = path;
  dirfd = base;
  flags = creation_number creation;
  mode = mode_number mode;
}

-- socket_::operation_base::complete, by what ::socket returns and errno is
unfoldable pub complete_socket : Res → (errno : ℕ) → Completion ℕ
complete_socket (nonneg fd) errno = set_value fd
complete_socket (negsuc n) errno = set_error errno
