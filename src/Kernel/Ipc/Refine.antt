-- ===== src/Kernel/Ipc/Refine.antt =====
-- The circular array implements the bounded queue.
use e_comos.Prelude.{
  ℕ, zero, suc, ◌+◌, ◌-◌, ◌%◌, ◌<◌, ◌≡◌, ◌≢◌, refl, ap, ap₂, List, [], ◌∷◌, ◌++◌, length, get_or,
  set, get_or-set_self, get_or-set_ne, arith,
}
use e_comos.Kernel.Ipc.{Ipc, Message, zero_message, max_ipc_queue, ipc_send, ipc_receive}
use e_comos.Kernel.Ipc.Fifo.{Fifo, push, pop, Call, send, receive, run_fifo, run}
use e_comos.Kernel.Ipc.Valid.{IsValid, ipc_send-IsValid, ipc_receive-IsValid}

-- The `n` messages from slot `h` on, going round at the end of the array.
abbrev slots_from : List Message → ℕ → ℕ → Fifo
slots_from q h zero = []
slots_from q h (suc n) = get_or q h zero_message ∷ slots_from q ((h + 1) % max_ipc_queue) n

length-slots_from : (q : List Message) (h n : ℕ) → length (slots_from q h n) ≡ n
length-slots_from q h zero = refl
length-slots_from q h (suc n) = ap suc (length-slots_from q ((h + 1) % max_ipc_queue) n)

-- how many messages wait
abbrev pub pending : Ipc → ℕ
pending s = (s.tail + max_ipc_queue - s.head) % max_ipc_queue

-- The messages that wait, oldest first.
unfoldable pub contents : Ipc → Fifo
contents s = slots_from s.queue s.head (pending s)

pub length-contents : (s : Ipc) → length (contents s) ≡ pending s
unfolding contents
length-contents s = length-slots_from s.queue s.head (pending s)

-- A write to the slot behind the last one appends.
slots_from-set :
    (q : List Message) (m : Message) (n h i : ℕ)
    → length q ≡ max_ipc_queue
    → h < max_ipc_queue
    → n < max_ipc_queue
    → i ≡ (h + n) % max_ipc_queue
    → slots_from (set q i m) h (suc n) ≡ slots_from q h n ++ (m ∷ [])
slots_from-set q m zero h i l hh hn e =
    let here : i ≡ h = omega arith in rw (here, get_or-set_self q h m zero_message (omega arith))
slots_from-set q m (suc n) h i l hh hn e =
    ap₂ ◌∷◌ (get_or-set_ne q i h m zero_message (omega arith))
      (slots_from-set q m n ((h + 1) % max_ipc_queue) i l (omega arith) (omega arith) (omega arith))

slots_from_pos :
    (q : List Message) (h n : ℕ)
    → n ≢ 0
    → slots_from q h n ≡ get_or q h zero_message ∷ slots_from q ((h + 1) % max_ipc_queue) (n - 1)
slots_from_pos q h zero p = absurd (p refl)
slots_from_pos q h (suc n) p =
    ap (λ k. get_or q h zero_message ∷ slots_from q ((h + 1) % max_ipc_queue) k) (omega arith)

-- A send appends where there is room, and is refused with 31 messages waiting.
pub ipc_send_refines :
    (t : ℕ) (m : Message) {s : Ipc}
    → IsValid s
    → ((ipc_send t m s).0, contents (ipc_send t m s).1) ≡ push t m (contents s)
unfolding ipc_send push contents
ipc_send_refines t m {s} v = ground (
  arith,
  length-slots_from s.queue s.head (pending s),
  slots_from-set s.queue (record m { target = t }) (pending s) s.head s.tail,
)

pub contents-ipc_send :
    (t : ℕ) (m : Message) {q : Ipc}
    → IsValid q
    → length (contents q) ≢ 31
    → contents (ipc_send t m q).1 ≡ contents q ++ record m { target = t } ∷ []
unfolding push
contents-ipc_send t m {q} v room = ground (arith, ipc_send_refines t m v)

-- A receive takes the oldest message.
pub ipc_receive_refines :
    {s : Ipc}
    → IsValid s
    → ((ipc_receive s).0, (ipc_receive s).1, contents (ipc_receive s).2) ≡ pop (contents s)
unfolding ipc_receive pop contents
ipc_receive_refines {s} v = ground (arith, slots_from_pos s.queue s.head (pending s))

-- No sequence of sends and receives tells a valid queue from the first-in first-out queue of at most
-- 31 messages that holds the same messages: every return code and every received message agree.
pub run_refines : (cs : List Call) {s : Ipc} → IsValid s → run s cs ≡ run_fifo (contents s) cs
unfolding run run_fifo
run_refines [] v = refl
run_refines (send t m ∷ cs) v =
    rw (run_refines cs (ipc_send-IsValid t m v), ← ipc_send_refines t m v)
run_refines (receive ∷ cs) v = rw (run_refines cs (ipc_receive-IsValid v), ← ipc_receive_refines v)
