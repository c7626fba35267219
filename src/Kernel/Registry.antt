-- ===== src/Kernel/Registry.antt =====
-- The service registry of the init service and one round of its loop (source/kernel/src/kernel/init.c).
-- The system calls of the loop are the functions of `Kernel.Ipc` and `Kernel.Sched` that the dispatcher
-- calls for them.
pub mod Table
pub mod Serve
mod Tests
use Prim.Native.Nat.{bit_or}
use e_comos.Prelude.{
  ℕ, zero, suc, ◌+◌, ◌/◌, ◌%◌, ◌^◌, Bool, true, false, ◌&&◌, not, Option, none, some, List, [], ◌∷◌,
  get_or, set, replicate, ◌==◌, if◌then◌else◌,
}
use e_comos.Prelude.Int.{ℤ, pos, negsuc}
use e_comos.Prelude.Search.{find_from}
use e_comos.Prelude.Bits.{shift_left}
use e_comos.Kernel.Ipc.{Ipc, Message, eclib_ok, zero_message, ipc_send, ipc_receive}
use e_comos.Kernel.Sched.{Sched, sched_yield}

-- `service_entry_t`
pub record Service : Type 0 where
  pub service_id : ℕ
  pub provider_pid : ℕ
  pub active : Bool

abbrev pub max_services : ℕ
max_services = 32

abbrev pub no_service : Service
no_service = record { service_id = 0; provider_pid = 0; active = false }

abbrev pub service : List Service → ℕ → Service
service table i = get_or table i no_service

unfoldable pub registry_init : List Service → List Service
registry_init [] = []
registry_init (e ∷ es) = record e { active = false } ∷ registry_init es

abbrev pub fill_slot : ℕ → ℕ → List Service → Option ℕ → ℤ × List Service
fill_slot service_id provider_pid table none = (negsuc 0, table)
fill_slot service_id provider_pid table (some i) = (
  pos 0,
  set table i record { service_id = service_id; provider_pid = provider_pid; active = true },
)

unfoldable pub registry_register : ℕ → ℕ → List Service → ℤ × List Service
registry_register service_id provider_pid table =
    fill_slot service_id provider_pid table
      (find_from (λ i. not (service table i).active) max_services 0)

abbrev pub provides : ℕ → Service → Bool
provides service_id e = e.active && e.service_id == service_id

abbrev pub provider_at : List Service → Option ℕ → ℕ
provider_at table none = 0
provider_at table (some i) = (service table i).provider_pid

unfoldable pub registry_lookup : ℕ → List Service → ℕ
registry_lookup service_id table =
    provider_at table (find_from (λ i. provides service_id (service table i)) max_services 0)

abbrev pub msg_service_register : ℕ
msg_service_register = 1

abbrev pub msg_service_lookup : ℕ
msg_service_lookup = 2

abbrev pub msg_service_reply : ℕ
msg_service_reply = 3

-- `data[0] | data[1] << 8 | data[2] << 16 | data[3] << 24`
unfoldable pub word_of : List ℕ → ℕ
word_of d =
    bit_or
      (bit_or (bit_or (get_or d 0 0) (shift_left 8 (get_or d 1 0))) (shift_left 16 (get_or d 2 0)))
      (shift_left 24 (get_or d 3 0))

-- the four assignments to `reply.data`
unfoldable pub put_word : ℕ → List ℕ → List ℕ
put_word w d =
    set (set (set (set d 0 (w % 256)) 1 (w / 2 ^ 8 % 256)) 2 (w / 2 ^ 16 % 256)) 3
      (w / 2 ^ 24 % 256)

unfoldable pub reply_to : ℕ → ℕ → Message
reply_to source provider = record zero_message {
  type = msg_service_reply;
  target = source;
  size = 4;
  payload = put_word provider zero_message.payload;
}

pub record Init : Type 0 where
  pub table : List Service
  pub ipc : Ipc
  pub sched : Sched

-- the `switch` on the type of a message
unfoldable pub serve : Message → Init → Init
serve msg s =
    if msg.type == msg_service_register
    then record s { table = (registry_register (word_of msg.payload) msg.source s.table).1 }
    else if msg.type == msg_service_lookup
    then record s {
      ipc =
          (ipc_send msg.source (reply_to msg.source (registry_lookup (word_of msg.payload) s.table))
            s.ipc).1;
    }
    else s

abbrev pub serve_if : Init → ℤ × Option Message × Ipc → Init
serve_if s (rc, none, q) = record s { ipc = q; sched = sched_yield s.sched }
serve_if s (rc, some msg, q) = serve msg (record s { ipc = q })

-- One round of `init_loop`. A call that fails stores no message.
unfoldable pub init_round : Init → Init
init_round s = serve_if s (ipc_receive s.ipc)
