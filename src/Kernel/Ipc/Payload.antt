-- ===== src/Kernel/Ipc/Payload.antt =====
-- `ipc_send_msg`: what reaches the receiver.
use e_comos.Prelude.{
  ℕ, zero, suc, ◌+◌, ◌≤◌, ◌<◌, ◌≡◌, ◌≢◌, ◌++◌, refl, ◌&&◌, none, some, List, [], ◌∷◌, length,
  get_or, set, length-set, get_or-set_self, get_or-set_ne, get_elem?-eq-get_or, get_elem?_beyond,
  length-replicate, get_or-replicate, ltb, leb, if◌then◌else◌, dec_lt, arith, ◌∙◌, ℕ_discrete,
}
use e_comos.Kernel.Ipc.{
  Ipc, Message, eclib_ok, ipc_max_data_size, copy_from, message_of, ipc_send, ipc_send_msg,
  zero_data,
}
use e_comos.Kernel.Ipc.Fifo.{push}
use e_comos.Kernel.Ipc.Valid.{IsValid}
use e_comos.Kernel.Ipc.Refine.{contents, pending, length-contents, ipc_send_refines}

-- What the loop has done: `n` bytes from index `i` on come from `src`, the others are as before.
record Copied (n i : ℕ) (src dest body : List ℕ) : Type 0 where
  size_same : length body ≡ length dest
  bytes :
      (j : ℕ)
      → get_or body j 0 ≡ (if leb i j && ltb j (i + n) then get_or src j 0 else get_or dest j 0)

-- One round puts byte `i` in place, and the others follow.
Copied-suc :
    (n i : ℕ) (src dest body : List ℕ)
    → i < length dest
    → Copied n (i + 1) src (set dest i (get_or src i 0)) body
    → Copied (suc n) i src dest body
Copied-suc n i src dest body p c = record {
  size_same = c.size_same ∙ length-set dest i (get_or src i 0);
  bytes = λ j. elim (ℕ_discrete i j) [
    | yes e ↦ rw (← e) (ground (arith, c.bytes i, get_or-set_self dest i (get_or src i 0) 0 p))
    | no ne ↦ ground (arith, c.bytes j, get_or-set_ne dest i j (get_or src i 0) 0 ne)
  ];
}

copy_from-Copied :
    (n i : ℕ) (src dest : List ℕ)
    → i + n ≤ length src
    → i + n ≤ length dest
    → (body : List ℕ) × (copy_from n i src dest ≡ some body) × Copied n i src dest body
unfolding copy_from
copy_from-Copied zero i src dest p q =
    (dest, refl, record { size_same = refl; bytes = λ j. ground arith })
copy_from-Copied (suc n) i src dest p q =
    let b = get_or src i 0 in
    let rest =
      copy_from-Copied n (i + 1) src (set dest i b) (omega arith)
        (omega (arith, length-set dest i b)) in
    (
      rest.0,
      ground (arith, get_elem?-eq-get_or src i 0, rest.1),
      Copied-suc n i src dest rest.0 (omega arith) rest.2,
    )

copy_from_short :
    (n i : ℕ) (src dest : List ℕ)
    → i ≤ length src
    → length src < i + n
    → copy_from n i src dest ≡ none
unfolding copy_from
copy_from_short zero i src dest p q = absurd (omega arith)
copy_from_short (suc n) i src dest p q = elim (dec_lt i (length src)) [
  | yes lt ↦
      rw (get_elem?-eq-get_or src i 0 lt, copy_from)
        (copy_from_short n (i + 1) src (set dest i (get_or src i 0)) (omega arith) (omega arith))
  | no ge ↦ ground (arith, get_elem?_beyond src i)
]

-- The message that `ipc_send_msg` builds: the caller's bytes, zeros behind them, no sender.
pub record Carries (type pid len : ℕ) (src : List ℕ) (m : Message) : Type 0 where
  pub kind : m.type ≡ type
  pub addressee : m.target ≡ pid
  pub length_field : m.size ≡ len
  pub unsigned : (m.source ≡ 0) × (m.timestamp ≡ 0) × (m.sequence ≡ 0)
  pub room : length m.payload ≡ ipc_max_data_size
  pub body : (j : ℕ) → get_or m.payload j 0 ≡ (if ltb j len then get_or src j 0 else 0)

length-zero_data : length zero_data ≡ ipc_max_data_size
unfolding zero_data
length-zero_data = length-replicate {A = ℕ} ipc_max_data_size 0

zero_data_zero : (j : ℕ) → get_or zero_data j 0 ≡ 0
unfolding zero_data
zero_data_zero j = get_or-replicate ipc_max_data_size 0 j

message_of-Carries :
    (type pid len : ℕ) (src body : List ℕ)
    → Copied len 0 src zero_data body
    → Carries type pid len src (message_of type pid len body)
message_of-Carries type pid len src body c = record {
  kind = refl;
  addressee = refl;
  length_field = refl;
  unsigned = (refl, refl, refl);
  room = c.size_same ∙ length-zero_data;
  body = λ j. ground (arith, c.bytes j, zero_data_zero j);
}

-- A send with room in the queue.
ipc_send_room :
    (t : ℕ) (m : Message) {s : Ipc}
    → IsValid s
    → pending s ≢ 31
    → (s' : Ipc) × (ipc_send t m s ≡ (eclib_ok, s'))
      × (contents s' ≡ contents s ++ record m { target = t } ∷ [])
unfolding push
ipc_send_room t m {s} v room =
    let r = ipc_send t m s in
    (
      r.1,
      ground (arith, ipc_send_refines t m v, length-contents s),
      ground (arith, ipc_send_refines t m v, length-contents s),
    )

-- With room in the queue, at most 4096 bytes to send and as many in the caller's buffer,
-- `ipc_send_msg` succeeds and appends exactly one message: it has the type, the addressee and the
-- length given, the caller's first `len` bytes followed by zeros up to 4096, and zero for the sender,
-- the time and the sequence number.
ipc_send_msg-Carries :
    (type flags pid len : ℕ) (src : List ℕ) {s : Ipc}
    → IsValid s
    → pending s ≢ 31
    → len ≤ ipc_max_data_size
    → len ≤ length src
    → (m : Message) × (s' : Ipc) × (ipc_send_msg type flags pid len src s ≡ some (eclib_ok, s'))
      × Carries type pid len src m
      × (contents s' ≡ contents s ++ m ∷ [])
unfolding ipc_send_msg
ipc_send_msg-Carries type flags pid len src {s} v room small held =
    let copied =
      copy_from-Copied len 0 src zero_data (omega arith) (omega (arith, length-zero_data)) in
    let m = message_of type pid len copied.0 in
    let sent = ipc_send_room pid m v room in
    (
      m,
      sent.0,
      ground (arith, copied.1, sent.1),
      message_of-Carries type pid len src copied.0 copied.2,
      sent.2,
    )

-- A length that is allowed and over what the caller's buffer holds makes `ipc_send_msg` read past it.
ipc_send_msg_short :
    (type flags pid len : ℕ) (src : List ℕ) (s : Ipc)
    → len ≤ ipc_max_data_size
    → length src < len
    → ipc_send_msg type flags pid len src s ≡ none
unfolding ipc_send_msg
ipc_send_msg_short type flags pid len src s h short =
    ground (arith, copy_from_short len 0 src zero_data (omega arith) (omega arith))
