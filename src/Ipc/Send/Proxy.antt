-- ===== src/Ipc/Send/Proxy.antt =====
-- Messages between the master and a worker, by way of the manager.
use shuttlesock.Base.{
  ℕ, suc, ◌≡◌, refl, ◌≢◌, ap, ◌∙◌, true, false, Option, some, [], ◌++◌, arith, ◌==◌, if◌then◌else◌,
  inl, inr, sym, subst, ==_refl, length, All, ◌+◌,
}
use shuttlesock.Ipc.Ring.{Message, cmd_nil}
use shuttlesock.Ipc.Send.{
  Process, master, manager, worker, same_process, ProxyMsg, Sender, Sent, Memory, before_starting,
  needs_proxy, cmd_manager_proxy_message, cmd_receive_proxied_message, store_shm, send_or_buffer,
  send_with, ipc_send, manager_proxy_message_handle, received_proxied_message_handle,
}
use shuttlesock.Ipc.Send.Order.{if_to, pending, Good}
use shuttlesock.Ipc.Send.Step.{Returns, send_or_buffer-Returns, ipc_send-Returns}

-- the sender that has written the message to shared memory at `a`
abbrev written : Sender → Process → Message → ℕ → Sender
written s dst m a = record s {
  shm = store_shm s.shm a (record { code = m.code; src = s.procnum; dst = dst; pd = m.ptr });
}

abbrev pub to_manager : ℕ → Message
to_manager a = record { code = cmd_manager_proxy_message; ptr = a }

abbrev pub to_receiver : ℕ → Message
to_receiver a = record { code = cmd_receive_proxied_message; ptr = a }

needs_proxy_manager : (src : Process) → needs_proxy src manager ≡ false
needs_proxy_manager master = refl
needs_proxy_manager manager = refl
needs_proxy_manager (worker i) = refl

ipc_send-proxy :
    (mem : Memory) (s : Sender) (dst : Process) (m : Message) (a : ℕ)
    → before_starting (s.state dst) ≡ false
    → before_starting (s.state manager) ≡ false
    → needs_proxy s.procnum dst ≡ true
    → mem.slab ≡ some a
    → ipc_send mem s dst m ≡ send_or_buffer mem (written s dst m a) manager (to_manager a)
unfolding ipc_send send_with
ipc_send-proxy mem s dst m a up mup far slab =
    let near = needs_proxy_manager s.procnum in ground (arith, up, mup, far, slab, near)

Sure : ℕ → Sender → Process → Message → Sent → Type 0
Sure k s dst m r =
    (s' : Sender) × (r ≡ some (true, s'))
    × Good k s'
    × ((p : Process) → pending s' p ≡ pending s p ++ if_to p dst m)
    × (s'.shm ≡ s.shm)
    × (s'.state ≡ s.state)

with_memory :
    (k : ℕ) (mem : Memory) (s : Sender) (dst : Process) (m : Message) (r : Sent)
    → mem.malloc ≡ true
    → Returns k mem s dst m r
    → Sure k s dst m r
unfolding Sure
with_memory k mem s dst m r h (done, s', e, f, d) =
    let t : done ≡ true = elim f [ inl z ↦ absurd (ground (arith, z, h)) | inr y ↦ y ] in
    (
      s',
      e ∙ ap (λ c. some (c, s')) t,
      d.good,
      λ p. d.adds p ∙ ap (λ c. pending s p ++ (if c then if_to p dst m else [])) t,
      d.same_shm,
      d.same_state,
    )

code_ne_nil : (c : ℕ) → (c == cmd_nil) ≡ false → c ≢ cmd_nil
code_ne_nil c h e = ground (arith, h, e)

handle_eq :
    (mem : Memory) (t t' : Sender) (a : ℕ) (d : ProxyMsg)
    → same_process t.procnum manager ≡ true
    → t.shm a ≡ some d
    → ipc_send mem t d.dst (to_receiver a) ≡ some (true, t')
    → manager_proxy_message_handle mem t a ≡ some t'
unfolding manager_proxy_message_handle
handle_eq mem t t' a d same at e = ground (arith, same, at, e)

manager_handles :
    (k : ℕ) (mem : Memory) (t : Sender) (a : ℕ) (d : ProxyMsg)
    → t.procnum ≡ manager
    → t.shm a ≡ some d
    → before_starting (t.state d.dst) ≡ false
    → mem.malloc ≡ true
    → Good (suc k) t
    → (t' : Sender) × (manager_proxy_message_handle mem t a ≡ some t')
      × ((p : Process) → pending t' p ≡ pending t p ++ if_to p d.dst (to_receiver a))
      × (t'.shm ≡ t.shm)
unfolding Sure
manager_handles k mem t a d who at up h g =
    let near : needs_proxy t.procnum d.dst ≡ false =
      subst (λ src. needs_proxy src d.dst ≡ false) (sym who) refl in
    let r =
      ipc_send-Returns k mem t d.dst (to_receiver a) up near g
        (code_ne_nil cmd_receive_proxied_message refl) in
    let (t', e, g', adds, shm, states) =
      with_memory k mem t d.dst (to_receiver a) (ipc_send mem t d.dst (to_receiver a)) h r in
    let same : same_process t.procnum manager ≡ true =
      subst (λ p. same_process p manager ≡ true) (sym who) refl in
    (t', handle_eq mem t t' a d same at e, adds, shm)

receiver_handles :
    (t : Sender) (a : ℕ) (d : ProxyMsg)
    → t.shm a ≡ some d
    → received_proxied_message_handle t a ≡ some (record { code = d.code; ptr = d.pd })
unfolding received_proxied_message_handle
receiver_handles t a d at = ground (arith, at)

stored : (shm : ℕ → Option ProxyMsg) (a : ℕ) (d : ProxyMsg) → store_shm shm a d a ≡ some d
stored shm a d = let h = ==_refl a in ground (arith, h)

written-Good :
    (k : ℕ) (s : Sender) (dst : Process) (m : Message) (a : ℕ)
    → Good k s
    → Good k (written s dst m a)
written-Good k s dst m a g = record { valid = g.valid; fits = g.fits; codes = g.codes }

sends_to_manager :
    (k : ℕ) (mem : Memory) (s : Sender) (dst : Process) (m : Message) (a : ℕ)
    → before_starting (s.state dst) ≡ false
    → before_starting (s.state manager) ≡ false
    → needs_proxy s.procnum dst ≡ true
    → mem.slab ≡ some a
    → mem.malloc ≡ true
    → Good (suc k) s
    → (s' : Sender) × (ipc_send mem s dst m ≡ some (true, s'))
      × Good k s'
      × ((p : Process) → pending s' p ≡ pending s p ++ if_to p manager (to_manager a))
      × (s'.shm ≡ (written s dst m a).shm)
      × (s'.state ≡ s.state)
unfolding Sure
sends_to_manager k mem s dst m a up mup far slab h g =
    let w = written s dst m a in
    let r =
      send_or_buffer-Returns k mem w manager (to_manager a) (written-Good (suc k) s dst m a g)
        (code_ne_nil cmd_manager_proxy_message refl) in
    let (s', e, g', adds, shm, states) =
      with_memory k mem w manager (to_manager a) (send_or_buffer mem w manager (to_manager a)) h
        r in
    (s', ipc_send-proxy mem s dst m a up mup far slab ∙ e, g', adds, shm, states)

-- Another process with what the processes share as `s` has left it
abbrev pub sharing : Sender → Sender → Sender
sharing s t = record t { state = s.state; ring = s.ring; shm = s.shm }

sharing-Good :
    (k : ℕ) (s t : Sender)
    → Good (length t.outbuf + k) s
    → All (λ o. o.msg.code ≢ cmd_nil) t.outbuf
    → Good k (sharing s t)
sharing-Good k s t g c = record {
  valid = g.valid;
  fits = λ p. let f = g.fits p in omega (arith, f);
  codes = c;
}

-- A message between the master and a worker, to a process that is up while the manager is, with
-- memory for it in the shared slab, at `a`, and in `malloc`. The send returns true, and it makes
-- one message more pending, for the manager, with the pointer `a`. The manager `t`, which handles
-- that message with what is shared left as it is, then makes one message more pending, for the
-- destination, with the pointer `a`. Its handler, at a process `u` that shares the memory, calls
-- the handler of the code that was first sent with the pointer that was first sent. (Both senders
-- are in a state between two calls, with room in the indices for the messages.)
pub proxy-delivers :
    (k : ℕ) (mem : Memory) (s t u : Sender) (dst : Process) (m : Message) (a : ℕ)
    → before_starting (s.state dst) ≡ false
    → before_starting (s.state manager) ≡ false
    → needs_proxy s.procnum dst ≡ true
    → mem.slab ≡ some a
    → mem.malloc ≡ true
    → t.procnum ≡ manager
    → Good (suc (length t.outbuf + suc k)) s
    → All (λ o. o.msg.code ≢ cmd_nil) t.outbuf
    → (s' : Sender) × (t' : Sender) × (ipc_send mem s dst m ≡ some (true, s'))
      × ((p : Process) → pending s' p ≡ pending s p ++ if_to p manager (to_manager a))
      × (manager_proxy_message_handle mem (sharing s' t) a ≡ some t')
      × ((p : Process) → pending t' p ≡ pending (sharing s' t) p ++ if_to p dst (to_receiver a))
      × (received_proxied_message_handle (sharing t' u) a ≡ some m)
unfolding Sure
proxy-delivers k mem s t u dst m a up mup far slab h who g codes =
    let d : ProxyMsg = record { code = m.code; src = s.procnum; dst = dst; pd = m.ptr } in
    let (s', e, g', adds, shm, states) =
      sends_to_manager (length t.outbuf + suc k) mem s dst m a up mup far slab h g in
    let at : s'.shm a ≡ some d = ap (λ f. f a) shm ∙ stored s.shm a d in
    let tup : before_starting (s'.state dst) ≡ false =
      ap (λ f. before_starting (f dst)) states ∙ up in
    let (t', te, tadds, tshm) =
      manager_handles k mem (sharing s' t) a d who at tup h (sharing-Good (suc k) s' t g' codes) in
    (s', t', e, adds, te, tadds, receiver_handles (sharing t' u) a d (ap (λ f. f a) tshm ∙ at))
