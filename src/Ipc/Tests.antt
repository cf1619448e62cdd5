-- ===== src/Ipc/Tests.antt =====
-- src/ipc.c: the theorems on messages at concrete rings and senders.
use shuttlesock.Base.{
  ℕ, suc, ◌+◌, ◌^◌, ◌<◌, ◌≡◌, refl, ◌≢◌, true, false, none, some, List, [], ◌∷◌, ◌++◌, arith, ◌==◌,
  if◌then◌else◌, length,
}
use shuttlesock.Ipc.Ring.{Message, Ring, fresh, send_direct, received, receive}
use shuttlesock.Ipc.Ring.Refine.{contents, IsValid, Sends, send-Sends}
use shuttlesock.Ipc.Ring.Receive.{receive-contents}
use shuttlesock.Ipc.Send.{
  Process, master, manager, worker, running, Sender, Memory, send_retry_cb, ipc_send,
  manager_proxy_message_handle, received_proxied_message_handle,
}
use shuttlesock.Ipc.Send.Order.{if_to, pending, Good}
use shuttlesock.Ipc.Send.Retry.{Retried, send_retry_cb-Retried}
use shuttlesock.Ipc.Send.Step.{Returns, ipc_send-Returns}
use shuttlesock.Ipc.Send.Fifo.{Call, send, retry, handle, World, run, run-balance}
use shuttlesock.Ipc.Send.Proxy.{sharing, to_manager, to_receiver, proxy-delivers}

fresh-IsValid : IsValid fresh
fresh-IsValid = record {
  read_le = omega arith;
  bound = omega arith;
  open_lem = λ _. refl;
  shut = λ h. absurd (ground (arith, h));
  filled = λ j lo hi. absurd (omega (arith, hi));
}

abbrev message : ℕ → Message
message ptr = record { code = 2; ptr = ptr }

two_ne : (message 7).code ≢ 0
two_ne = omega arith

send-Sends_example : Sends fresh (message 7) (send_direct fresh (message 7))
send-Sends_example = send-Sends fresh (message 7) fresh-IsValid two_ne (omega arith)

-- a ring with one message
abbrev one_message : Ring
one_message = record {
  next_read = 0;
  next_write_reserve = 1;
  next_write_release = 1;
  full = false;
  code = λ i. if 0 == i then 2 else 0;
  ptr = λ i. if 0 == i then 7 else 0;
}

one_message-IsValid : IsValid one_message
one_message-IsValid = record {
  read_le = omega arith;
  bound = omega arith;
  open_lem = λ _. refl;
  shut = λ h. absurd (ground (arith, h));
  filled = λ j lo hi z. ground (arith, lo, hi, z);
}

receive-contents_example :
    (b' : Ring) × (receive 2 one_message ≡ received (contents one_message) b')
    × IsValid b'
    × (contents b' ≡ [])
    × (b'.full ≡ false)
    × (b'.next_write_release ≡ 1)
receive-contents_example =
    receive-contents 1 one_message one_message-IsValid (omega arith) (omega arith)

abbrev sender_of : Process → Sender
sender_of p = record {
  procnum = p;
  outbuf = [];
  retry_active = false;
  state = λ _. running;
  ring = λ _. fresh;
  shm = λ _. none;
}

sender-Good : (k : ℕ) (p : Process) → k < 2 ^ 61 → Good k (sender_of p)
sender-Good k p h = record { valid = λ _. fresh-IsValid; fits = λ _. omega (arith, h); codes = tt }

abbrev memory : Memory
memory = record { malloc = true; slab = some 4096 }

-- with a message in its buffer
abbrev waiting_sender : Sender
waiting_sender = record (sender_of manager) {
  outbuf = record { dst = worker 0; msg = message 9 } ∷ [];
  retry_active = true;
}

waiting_sender-Good : Good 0 waiting_sender
waiting_sender-Good = record {
  valid = λ _. fresh-IsValid;
  fits = λ _. omega arith;
  codes = (two_ne, tt);
}

send_retry_cb-Retried_example :
    (s' : Sender) × (send_retry_cb waiting_sender ≡ some s') × Retried 0 waiting_sender s'
send_retry_cb-Retried_example = send_retry_cb-Retried 0 waiting_sender waiting_sender-Good

sends_to_first :
    Returns 0 memory
      (sender_of manager)
      (worker 0)
      (message 7)
      (ipc_send memory (sender_of manager) (worker 0) (message 7))
sends_to_first =
    ipc_send-Returns 0 memory (sender_of manager) (worker 0) (message 7) refl refl
      (sender-Good 1 manager (omega arith)) two_ne

abbrev calls : List Call
calls =
    send memory (worker 0) (message 7)
    ∷ send memory master (message 8)
    ∷ handle (worker 0)
    ∷ retry
    ∷ handle master
    ∷ []

abbrev world : World
world = record { sender = sender_of manager; accepted = λ _. []; handled = λ _. [] }

run-balance_example :
    (w' : World) × (run calls world ≡ some w')
    × ((p : Process) → w'.handled p ++ pending w'.sender p ≡ w'.accepted p)
    × Good 0 w'.sender
run-balance_example =
    run-balance 0 calls world (sender-Good (length calls + 0) manager (omega arith))
      ((two_ne, refl, refl), ((two_ne, refl, refl), (tt, (tt, (tt, tt))))) (λ p. refl)

proxy-delivers_example :
    (s' : Sender) × (t' : Sender) × (ipc_send memory (sender_of master) (worker 3) (message 7)
      ≡ some (true, s'))
    × ((p : Process)
        → pending s' p ≡ pending (sender_of master) p ++ if_to p manager (to_manager 4096))
    × (manager_proxy_message_handle memory (sharing s' (sender_of manager)) 4096 ≡ some t')
    × ((p : Process)
        → pending t' p
          ≡ pending (sharing s' (sender_of manager)) p ++ if_to p (worker 3) (to_receiver 4096))
    × (received_proxied_message_handle (sharing t' (sender_of (worker 3))) 4096 ≡ some (message 7))
proxy-delivers_example =
    proxy-delivers 0 memory (sender_of master) (sender_of manager) (sender_of (worker 3)) (worker 3)
      (message 7) 4096 refl refl refl refl refl refl
      (sender-Good (suc (0 + 1)) master (omega arith)) tt
