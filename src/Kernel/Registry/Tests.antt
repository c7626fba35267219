-- ===== src/Kernel/Registry/Tests.antt =====
-- The registry and the init service at concrete inputs.
use e_comos.Prelude.{◌≡◌, refl, true, List, [], ◌∷◌, replicate, arith}
use e_comos.Kernel.Ipc.{Ipc, Message, zero_message}
use e_comos.Kernel.Ipc.Valid
use e_comos.Kernel.Ipc.Fifo.{Fifo}
use e_comos.Kernel.Ipc.Refine.{contents}
use e_comos.Kernel.Sched.{free_thread}
use e_comos.Kernel.Registry.{
  Service, Init, max_services, registry_init, registry_lookup, word_of, registry_register,
  init_round,
}
use e_comos.Kernel.Registry.Table.{
  RegisterSpec, registry_register-RegisterSpec, registry_init-IsValid,
}
use e_comos.Kernel.Registry.Serve.{round_spec, init_round_refines, Answers, reply_lost}

abbrev memory_at_start : List Service
memory_at_start =
    replicate max_services (record { service_id = 5; provider_pid = 6; active = true })

registry_register-RegisterSpec_example :
    RegisterSpec 9 2
      (registry_init memory_at_start)
      (registry_register 9 2 (registry_init memory_at_start))
registry_register-RegisterSpec_example =
    registry_register-RegisterSpec 9 2 (registry_init memory_at_start)
      (registry_init-IsValid memory_at_start refl)

-- a look-up of service 9 by thread 4
abbrev lookup_nine : Message
lookup_nine = record zero_message { type = 2; source = 4; payload = 9 ∷ [] }

abbrev one_message : Ipc
one_message = record { queue = lookup_nine ∷ replicate 31 zero_message; head = 0; tail = 1 }

one_message-IsValid : e_comos.Kernel.Ipc.Valid.IsValid one_message
one_message-IsValid = record { slots = refl; head_in = omega arith; tail_in = omega arith }

abbrev with_lookup : Init
with_lookup = record {
  table = registry_init memory_at_start;
  ipc = one_message;
  sched = record {
    threads = replicate 64 free_thread;
    current_thread = 0;
    next_thread_id = 1;
    last_scheduled = 0;
  };
}

only_lookup : contents one_message ≡ lookup_nine ∷ []
unfolding contents
only_lookup = refl

init_round_refines_example :
    ((init_round with_lookup).table, contents (init_round with_lookup).ipc)
    ≡ round_spec (registry_init memory_at_start) (contents one_message)
init_round_refines_example = init_round_refines with_lookup one_message-IsValid

no_provider : registry_lookup (word_of lookup_nine.payload) (registry_init memory_at_start) ≡ 0
unfolding registry_lookup word_of registry_init e_comos.Prelude.Search.find_from
no_provider = refl

reply_lost_example :
    ((reply : Message) × (contents (init_round with_lookup).ipc ≡ reply ∷ [])
      × Answers lookup_nine (registry_init memory_at_start) reply)
    × (◌≡◌ {A = List Service × Fifo}
        (
          (init_round (init_round with_lookup)).table,
          contents (init_round (init_round with_lookup)).ipc,
        )
        (registry_init memory_at_start, []))
reply_lost_example =
    reply_lost lookup_nine with_lookup one_message-IsValid only_lookup refl
      (omega (arith, no_provider))
