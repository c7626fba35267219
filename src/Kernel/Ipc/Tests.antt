-- ===== src/Kernel/Ipc/Tests.antt =====
-- Runs of the message queue, and its theorems at concrete inputs.
use e_comos.Prelude.{ℕ, ◌≡◌, refl, none, some, List, [], ◌∷◌, ◌++◌, replicate, arith}
use e_comos.Kernel.Ipc.{Ipc, Message, zero_message, eclib_ok, ipc_timeout, ipc_send, ipc_receive}
use e_comos.Kernel.Ipc.Fifo.{Call, send, receive, run, run_fifo}
use e_comos.Kernel.Ipc.Valid.{IsValid}
use e_comos.Kernel.Ipc.Refine.{contents, run_refines}

abbrev note : ℕ → Message
note n = record zero_message { type = n; payload = [] }

abbrev hello : Message
hello = note 7

-- one message in the last slot, so that the next one goes to the first
abbrev wrapped : Ipc
wrapped = record { queue = replicate 31 hello ++ note 9 ∷ []; head = 31; tail = 0 }

wrapped-IsValid : IsValid wrapped
wrapped-IsValid = omega arith

abbrev script : List Call
script = send 4 hello ∷ receive ∷ receive ∷ receive ∷ []

run-script :
    run wrapped script
    ≡ (eclib_ok, none)
      ∷ (eclib_ok, some (note 9))
      ∷ (eclib_ok, some (record hello { target = 4 }))
      ∷ (ipc_timeout, none)
      ∷ []
unfolding run ipc_send ipc_receive
run-script = refl

run_refines_example : run wrapped script ≡ run_fifo (contents wrapped) script
run_refines_example = run_refines script wrapped-IsValid
