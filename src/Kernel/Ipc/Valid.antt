-- ===== src/Kernel/Ipc/Valid.antt =====
-- The indices of the message queue stay inside its array.
use e_comos.Prelude.{ℕ, ◌<◌, ◌≡◌, length, length-set, arith}
use e_comos.Kernel.Ipc.{Ipc, Message, max_ipc_queue, ipc_send, ipc_receive}

pub record IsValid (s : Ipc) : Type 0 where
  pub slots : length s.queue ≡ max_ipc_queue
  pub head_in : s.head < max_ipc_queue
  pub tail_in : s.tail < max_ipc_queue

pub ipc_send-IsValid : (t : ℕ) (m : Message) {s : Ipc} → IsValid s → IsValid (ipc_send t m s).1
unfolding ipc_send
ipc_send-IsValid t m {s} v = ground (arith, length-set s.queue s.tail (record m { target = t }))

pub ipc_receive-IsValid : {s : Ipc} → IsValid s → IsValid (ipc_receive s).2
unfolding ipc_receive
ipc_receive-IsValid v = ground arith
