-- ===== src/Kernel/Ipc.antt =====
-- The kernel's message queue (source/kernel/src/ipc/ipc.c, source/kernel/include/kernel/ipc.h).
-- A function that changes the static variables returns the new `Ipc` beside its result.
pub mod Fifo
pub mod Valid
pub mod Refine
pub mod Payload
mod Tests
use e_comos.Prelude.{
  ℕ, zero, suc, ◌+◌, ◌%◌, ◌^◌, Option, none, some, List, length, get_or, get_elem?, set, replicate,
  ltb, ◌==◌, if◌then◌else◌,
}
use e_comos.Prelude.Int.{ℤ, pos, negsuc}

-- `ipc_message_t`; `payload` is its array `data`.
pub record Message : Type 0 where
  pub type : ℕ
  pub source : ℕ
  pub target : ℕ
  pub timestamp : ℕ
  pub size : ℕ
  pub sequence : ℕ
  pub payload : List ℕ

abbrev pub max_ipc_queue : ℕ
max_ipc_queue = 32

abbrev pub ipc_max_data_size : ℕ
ipc_max_data_size = 4096

abbrev pub eclib_ok : ℤ
eclib_ok = pos 0

abbrev pub ipc_timeout : ℤ
ipc_timeout = negsuc 0

abbrev pub ipc_buffer_overflow : ℤ
ipc_buffer_overflow = negsuc 3

unfoldable pub zero_data : List ℕ
zero_data = replicate ipc_max_data_size 0

-- `ipc_message_t msg = {0}`
abbrev pub zero_message : Message
zero_message = record {
  type = 0;
  source = 0;
  target = 0;
  timestamp = 0;
  size = 0;
  sequence = 0;
  payload = zero_data;
}

-- `ipc_queue`, `queue_head` and `queue_tail`
pub record Ipc : Type 0 where
  pub queue : List Message
  pub head : ℕ
  pub tail : ℕ

unfoldable pub ipc_send : ℕ → Message → Ipc → ℤ × Ipc
ipc_send target msg s =
    let next_tail = (s.tail + 1) % 2 ^ 32 % max_ipc_queue in
    if next_tail == s.head then (ipc_buffer_overflow, s) else (
      eclib_ok,
      record s { queue = set s.queue s.tail (record msg { target = target }); tail = next_tail },
    )

-- The option is what is stored through `msg`.
unfoldable pub ipc_receive : Ipc → ℤ × Option Message × Ipc
ipc_receive s = if s.head == s.tail then (ipc_timeout, none, s) else (
  eclib_ok,
  some (get_or s.queue s.head zero_message),
  record s { head = (s.head + 1) % 2 ^ 32 % max_ipc_queue },
)

-- `msg.data[i] = src[i]` for the `n` indices from `i` on; `none` is a read past the caller's buffer.
unfoldable pub copy_from : ℕ → ℕ → List ℕ → List ℕ → Option (List ℕ)
copy_from zero i src dest = some dest
copy_from (suc n) i src dest = elim (get_elem? src i) [
  | none ↦ none
  | some b ↦ copy_from n (i + 1) src (set dest i b)
]

abbrev pub message_of : ℕ → ℕ → ℕ → List ℕ → Message
message_of type receiver_pid data_len body = record zero_message {
  type = type;
  target = receiver_pid;
  size = data_len;
  payload = body;
}

-- `flags` is not used, as in the source. `none`: `data` holds less than `data_len` bytes.
unfoldable pub ipc_send_msg : ℕ → ℕ → ℕ → ℕ → List ℕ → Ipc → Option (ℤ × Ipc)
unfolding ipc_send copy_from
ipc_send_msg type flags receiver_pid data_len src s =
    if ltb ipc_max_data_size data_len
    then some (ipc_buffer_overflow, s)
    else (elim (copy_from data_len 0 src zero_message.payload) [
      | none ↦ none
      | some body ↦ some (ipc_send receiver_pid (message_of type receiver_pid data_len body) s)
    ])

-- `timeout_ms` is not used, as in the source.
unfoldable pub ipc_receive_msg : ℤ → Ipc → ℤ × Option Message × Ipc
unfolding ipc_receive
ipc_receive_msg timeout_ms s = ipc_receive s
