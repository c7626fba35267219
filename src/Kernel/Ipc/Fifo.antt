-- ===== src/Kernel/Ipc/Fifo.antt =====
-- What the queue promises: a first-in first-out queue of at most 31 messages.
use e_comos.Prelude.{ℕ, Option, none, some, List, [], ◌∷◌, ◌++◌, length, ◌==◌, if◌then◌else◌}
use e_comos.Prelude.Int.{ℤ}
use e_comos.Kernel.Ipc.{
  Message, Ipc, eclib_ok, ipc_timeout, ipc_buffer_overflow, ipc_send, ipc_receive,
}

abbrev pub Fifo : Type 0
Fifo = List Message

unfoldable pub push : ℕ → Message → Fifo → ℤ × Fifo
push target msg q =
    if length q == 31
    then (ipc_buffer_overflow, q)
    else (eclib_ok, q ++ record msg { target = target } ∷ [])

unfoldable pub pop : Fifo → ℤ × Option Message × Fifo
pop [] = (ipc_timeout, none, [])
pop (m ∷ q) = (eclib_ok, some m, q)

-- What the kernel and the services ask of the queue, and the reply.
pub data Call : Type 0 where
  send : ℕ → Message → Call
  receive : Call

abbrev pub Reply : Type 0
Reply = ℤ × Option Message

unfoldable pub run_fifo : Fifo → List Call → List Reply
run_fifo q [] = []
run_fifo q (send t m ∷ cs) = let (rc, q') = push t m q in (rc, none) ∷ run_fifo q' cs
run_fifo q (receive ∷ cs) = let (rc, out, q') = pop q in (rc, out) ∷ run_fifo q' cs

-- The same calls on the array of the source.
unfoldable pub run : Ipc → List Call → List Reply
run s [] = []
run s (send t m ∷ cs) = let (rc, s') = ipc_send t m s in (rc, none) ∷ run s' cs
run s (receive ∷ cs) = let (rc, out, s') = ipc_receive s in (rc, out) ∷ run s' cs
