-- ===== src/Kernel/Registry/Serve.antt =====
-- The rounds of the init service against the queue that `Kernel.Ipc.Fifo` promises.
use mathlib.Core.Path.{subst}
use e_comos.Prelude.{
  ℕ, ◌+◌, ◌/◌, ◌%◌, ◌^◌, ◌≤◌, ◌<◌, ◌≡◌, ◌≢◌, inl, inr, refl, sym, ap, ap₂, ◌∙◌, Option, none, some,
  List, [], ◌∷◌, ◌++◌, length, ◌==◌, if◌then◌else◌, arith, Bool-cases, if_true, if_false,
}
use e_comos.Prelude.Int.{ℤ}
use Prim.Native.Nat.{bit_or}
use e_comos.Prelude.Bits.{shift_left, bit_or-shift_left}
use e_comos.Kernel.Ipc.{zero_message, Ipc, Message, ipc_receive}
use e_comos.Kernel.Ipc.Fifo.{Fifo, pop}
use e_comos.Kernel.Ipc.Valid.{IsValid, ipc_receive-IsValid, ipc_send-IsValid}
use e_comos.Kernel.Ipc.Refine.{contents-ipc_send, contents, length-contents, ipc_receive_refines}
use e_comos.Kernel.Registry.{
  Service, Init, msg_service_register, msg_service_lookup, msg_service_reply, word_of, put_word,
  reply_to, registry_register, registry_lookup, serve, serve_if, init_round,
}

-- A client that reads a reply's first four bytes as `init_loop` reads a request gets the word that
-- `init_loop` wrote, for any 32-bit word and any buffer of at least four bytes.
word_of-put_word : (w : ℕ) (d : List ℕ) → w < 2 ^ 32 → 4 ≤ length d → word_of (put_word w d) ≡ w
unfolding word_of put_word shift_left
word_of-put_word w (a ∷ b ∷ c ∷ e ∷ d) h l =
    let low = bit_or-shift_left 8 (w % 256) (w / 2 ^ 8 % 256) (omega arith) in
    let mid =
      bit_or-shift_left 16 (w % 256 + shift_left 8 (w / 2 ^ 8 % 256)) (w / 2 ^ 16 % 256)
        (omega arith) in
    let high =
      bit_or-shift_left 24
        (w % 256 + shift_left 8 (w / 2 ^ 8 % 256) + shift_left 16 (w / 2 ^ 16 % 256))
        (w / 2 ^ 24 % 256) (omega arith) in
    ap
      (λ x. bit_or (bit_or x (shift_left 16 (w / 2 ^ 16 % 256))) (shift_left 24 (w / 2 ^ 24 % 256)))
      low
    ∙ ap (λ x. bit_or x (shift_left 24 (w / 2 ^ 24 % 256))) mid
    ∙ high
    ∙ omega arith
word_of-put_word w [] h l = absurd (omega arith)
word_of-put_word w (a ∷ []) h l = absurd (omega arith)
word_of-put_word w (a ∷ b ∷ []) h l = absurd (omega arith)
word_of-put_word w (a ∷ b ∷ c ∷ []) h l = absurd (omega arith)

-- The queue never refuses: a message was taken before.
abbrev pub serve_spec : Message → List Service → Fifo → List Service × Fifo
serve_spec m table q =
    if m.type == msg_service_register
    then ((registry_register (word_of m.payload) m.source table).1, q)
    else if m.type == msg_service_lookup
    then (table, q ++ reply_to m.source (registry_lookup (word_of m.payload) table) ∷ [])
    else (table, q)

-- One round on the promised queue.
abbrev pub round_spec : List Service → Fifo → List Service × Fifo
round_spec table [] = (table, [])
round_spec table (m ∷ q) = serve_spec m table q

abbrev seen : Init → List Service × Fifo
seen s = (s.table, contents s.ipc)

serve_refines :
    (m : Message) (s : Init)
    → IsValid s.ipc
    → length (contents s.ipc) ≢ 31
    → seen (serve m s) ≡ serve_spec m s.table (contents s.ipc)
unfolding serve reply_to
serve_refines m s v room =
    let reply = reply_to m.source (registry_lookup (word_of m.payload) s.table) in
    elim (Bool-cases (m.type == msg_service_register)) [
      | inl on ↦ ap seen (if_true _ _ on) ∙ sym (if_true _ _ on)
      | inr off ↦
          ap seen (if_false _ _ off)
          ∙ (elim (Bool-cases (m.type == msg_service_lookup)) [
            | inl on ↦
                ap seen (if_true _ _ on)
                ∙ ap (λ q. (s.table, q)) (contents-ipc_send m.source reply v room)
                ∙ sym (if_true _ _ on)
            | inr other ↦ ap seen (if_false _ _ other) ∙ sym (if_false _ _ other)
          ])
          ∙ sym (if_false _ _ off)
    ]

not_found : {m : Message} → some m ≡ none → ⊥
not_found e = cc

same_message : {m m' : Message} → some m ≡ some m' → m ≡ m'
same_message e = cc

-- On a valid queue, one round of `init_loop` does what the same round does on the first-in first-out
-- queue that holds the same messages, where a reply is always accepted: with no message nothing changes
-- in the registry and the queue, a registration is entered, a look-up is answered by one reply at the
-- end of the queue, and any other message is dropped.
pub init_round_refines :
    (s : Init)
    → IsValid s.ipc
    → ((init_round s).table, contents (init_round s).ipc) ≡ round_spec s.table (contents s.ipc)
unfolding init_round pop
init_round_refines s v = go (contents s.ipc) refl (ipc_receive s.ipc) refl
  where
    popped :
        (r : ℤ × Option Message × Ipc)
        → ipc_receive s.ipc ≡ r
        → (r.0, r.1, contents r.2) ≡ pop (contents s.ipc)
    popped r f =
        ap (λ (r : ℤ × Option Message × Ipc). (r.0, r.1, contents r.2)) (sym f)
        ∙ ipc_receive_refines v

    go :
        (q : Fifo)
        → contents s.ipc ≡ q
        → (r : ℤ × Option Message × Ipc) → ipc_receive s.ipc ≡ r
        → seen (serve_if s r) ≡ round_spec s.table q
    go [] e (rc, none, q) f =
        ap (λ (z : ℤ × Option Message × Fifo). (s.table, z.2)) (popped (rc, none, q) f ∙ ap pop e)
    go [] e (rc, some m, q) f = absurd (
        not_found
          (ap (λ (z : ℤ × Option Message × Fifo). z.1) (popped (rc, some m, q) f ∙ ap pop e)))
    go (m' ∷ ms) e (rc, none, q) f = absurd (
        not_found
          (sym (ap (λ (z : ℤ × Option Message × Fifo). z.1) (popped (rc, none, q) f ∙ ap pop e))))
    go (m' ∷ ms) e (rc, some m, q) f =
        let both = popped (rc, some m, q) f ∙ ap pop e in
        let rest : contents q ≡ ms = ap (λ (z : ℤ × Option Message × Fifo). z.2) both in
        let same : m ≡ m' = same_message (ap (λ (z : ℤ × Option Message × Fifo). z.1) both) in
        let few : length ms ≢ 31 = λ h.
          absurd (omega (arith, ap (λ (x : Fifo). length x) e, length-contents s.ipc, v.head_in)) in
        serve_refines m (record s { ipc = q })
          (subst IsValid (ap (λ (z : ℤ × Option Message × Ipc). z.2) f) (ipc_receive-IsValid v))
          (λ h. few (ap (λ (x : Fifo). length x) (sym rest) ∙ h))
        ∙ ap₂ (λ x y. serve_spec x s.table y) same rest

serve-IsValid : (m : Message) (s : Init) → IsValid s.ipc → IsValid (serve m s).ipc
unfolding serve
serve-IsValid m s v = elim (Bool-cases (m.type == msg_service_register)) [
  | inl on ↦ subst (λ (z : Init). IsValid z.ipc) (sym (if_true _ _ on)) v
  | inr off ↦
      subst (λ (z : Init). IsValid z.ipc) (sym (if_false _ _ off))
        (elim (Bool-cases (m.type == msg_service_lookup)) [
          | inl on ↦
              subst (λ (z : Init). IsValid z.ipc) (sym (if_true _ _ on))
                (ipc_send-IsValid m.source
                  (reply_to m.source (registry_lookup (word_of m.payload) s.table)) v)
          | inr other ↦ subst (λ (z : Init). IsValid z.ipc) (sym (if_false _ _ other)) v
        ])
]

init_round-IsValid : (s : Init) → IsValid s.ipc → IsValid (init_round s).ipc
unfolding init_round
init_round-IsValid s v = go (ipc_receive s.ipc) (ipc_receive-IsValid v)
  where
    go : (r : ℤ × Option Message × Ipc) → IsValid r.2 → IsValid (serve_if s r).ipc
    go (rc, none, q) w = w
    go (rc, some m, q) w = serve-IsValid m (record s { ipc = q }) w

-- The answer to the look-up `m`, addressed to its sender, with the provider in its first four bytes.
pub record Answers (m : Message) (table : List Service) (reply : Message) : Type 0 where
  pub type : reply.type ≡ msg_service_reply
  pub target : reply.target ≡ m.source
  pub provider : word_of reply.payload ≡ registry_lookup (word_of m.payload) table

reply_to-Answers :
    (m : Message) (table : List Service)
    → registry_lookup (word_of m.payload) table < 2 ^ 32
    → Answers m table (reply_to m.source (registry_lookup (word_of m.payload) table))
unfolding reply_to e_comos.Kernel.Ipc.zero_data
reply_to-Answers m table h = record {
  type = refl;
  target = refl;
  provider =
      word_of-put_word (registry_lookup (word_of m.payload) table) zero_message.payload h
        (omega arith);
}

-- The queue is shared by all threads and a receive takes whatever message comes first, so that the init
-- service takes its own reply and drops it. When a look-up is the only message in a valid queue, and the
-- provider found is a 32-bit word, then after one round the queue holds one message, a reply addressed to
-- the client that carries this provider; one round later the queue is empty, with nothing left for the
-- client, and the registry is as before.
pub reply_lost :
    (m : Message) (s : Init)
    → IsValid s.ipc
    → contents s.ipc ≡ m ∷ []
    → m.type ≡ msg_service_lookup
    → registry_lookup (word_of m.payload) s.table < 2 ^ 32
    → ((reply : Message) × (contents (init_round s).ipc ≡ reply ∷ []) × Answers m s.table reply)
      × (◌≡◌ {A = List Service × Fifo}
          ((init_round (init_round s)).table, contents (init_round (init_round s)).ipc)
          (s.table, []))
unfolding reply_to
reply_lost m s v only asked word =
    let first = init_round_refines s v ∙ ap (round_spec s.table) only in
    let reply = reply_to m.source (registry_lookup (word_of m.payload) s.table) in
    let replied : ◌≡◌ {A = List Service × Fifo} (serve_spec m s.table []) (s.table, reply ∷ []) =
      ground arith in
    let second = init_round_refines (init_round s) (init_round-IsValid s v) in
    (
      (
        reply,
        ap (λ (z : List Service × Fifo). z.1) (first ∙ replied),
        reply_to-Answers m s.table word,
      ),
      second ∙ ap (λ (z : List Service × Fifo). round_spec z.0 z.1) (first ∙ replied),
    )
