-- ===== src/Ipc/Send/Fifo.antt =====
-- Runs of a sender and of the processes it sends to, in any order of their calls.
use shuttlesock.Base.{
  ℕ, suc, ◌+◌, ◌≡◌, refl, ◌≢◌, ap, ◌∙◌, Bool, true, false, Option, none, some, List, [], ◌∷◌, ◌++◌,
  arith, length, if◌then◌else◌, sym, subst, All,
}
use shuttlesock.Ipc.Ring.{
  Message, cmd_nil, Ring, Received, received, assertion_failed, looping, receive,
}
use shuttlesock.Ipc.Ring.Refine.{contents, IsValid, contents-bound}
use shuttlesock.Ipc.Ring.Receive.{receive-contents}
use shuttlesock.Ipc.Send.{
  Process, same_process, Runstate, Sender, store_ring, Sent, Memory, before_starting, needs_proxy,
  ipc_send, send_retry_cb,
}
use shuttlesock.Ipc.Send.Order.{
  if_to, messages_to, pending, Good, stored-IsValid, stored-release, same_process_eq,
}
use shuttlesock.Ipc.Send.Step.{put, Returns, ipc_send-Returns, less-Good}
use shuttlesock.Ipc.Send.Retry.{send_retry_cb-Retried}
use mathlib.Core.List.{append_assoc, append-nil}

-- A call of `shuso_ipc_send`, its timer's callback, and an `ipc_receive` of a process
pub data Call : Type 0 where
  send : Memory → Process → Message → Call
  retry : Call
  handle : Process → Call

-- The state, with a record of what the accepted sends were to bring, and of what was handled.
pub record World : Type 0 where
  pub sender : Sender
  pub accepted : Process → List Message
  pub handled : Process → List Message

sent : World → Process → Message → Sent → Option World
sent w dst m none = none
sent w dst m (some (done, s')) =
    some (record w {
      sender = s';
      accepted = λ p. w.accepted p ++ (if done then if_to p dst m else []);
    })

retried : World → Option Sender → Option World
retried w none = none
retried w (some s') = some (record w { sender = s' })

took : World → Process → Received → Option World
took w q (received ms b) = some (record w {
  sender = put w.sender q b;
  handled = λ p. w.handled p ++ (if same_process p q then ms else []);
})
took w q assertion_failed = none
took w q looping = none

-- A call; `none` is a failed assertion, or a loop of more than 257 rounds.
pub step : Call → World → Option World
unfolding sent retried took
step (send mem dst m) w = sent w dst m (ipc_send mem w.sender dst m)
step retry w = retried w (send_retry_cb w.sender)
step (handle q) w = took w q (receive 257 (w.sender.ring q))

pub run : List Call → World → Option World
unfolding step
run [] w = some w
run (c ∷ cs) w = elim (step c w) [ none ↦ none | some w' ↦ run cs w' ]

-- A call as it is allowed: no `nil` code, to a process that is up and needs no proxy.
abbrev pub Allowed : (Process → Runstate) → Process → Call → Type 0
Allowed state src (send mem dst m) =
    (m.code ≢ cmd_nil) × (before_starting (state dst) ≡ false) × (needs_proxy src dst ≡ false)
Allowed state src retry = Unit
Allowed state src (handle q) = Unit

-- What the calls have in common
record Keeps (k : ℕ) (w w' : World) : Type 0 where
  good : Good k w'.sender
  balance :
      (p : Process)
      → w.handled p ++ pending w.sender p ≡ w.accepted p
      → w'.handled p ++ pending w'.sender p ≡ w'.accepted p
  same_procnum : w'.sender.procnum ≡ w.sender.procnum
  same_state : w'.sender.state ≡ w.sender.state

sent-Keeps :
    (k : ℕ) (mem : Memory) (w : World) (dst : Process) (m : Message) (r : Sent)
    → Returns k mem w.sender dst m r
    → (w' : World) × (sent w dst m r ≡ some w') × Keeps k w w'
unfolding sent
sent-Keeps k mem w dst m r (done, s', e, h, d) = (
  record w { sender = s'; accepted = λ p. w.accepted p ++ (if done then if_to p dst m else []) },
  ap (sent w dst m) e,
  record {
    good = d.good;
    balance = λ p h.
        ap (λ ms. w.handled p ++ ms) (d.adds p)
        ∙ sym (append_assoc (w.handled p) (pending w.sender p) (if done then if_to p dst m else []))
        ∙ ap (λ ms. ms ++ (if done then if_to p dst m else [])) h;
    same_procnum = d.same_procnum;
    same_state = d.same_state;
  },
)

retried-Keeps :
    (k : ℕ) (w : World)
    → Good k w.sender
    → (w' : World) × (retried w (send_retry_cb w.sender) ≡ some w') × Keeps k w w'
unfolding retried
retried-Keeps k w g =
    let (s', e, t) = send_retry_cb-Retried k w.sender g in
    (
      record w { sender = s' },
      ap (retried w) e,
      record {
        good = t.good;
        balance = λ p h. ap (λ ms. w.handled p ++ ms) (t.kept p) ∙ h;
        same_procnum = t.same_procnum;
        same_state = t.same_state;
      },
    )

-- What is taken from a ring is what it held.
took_if :
    (c : Bool) (r b : Ring) (ms : List Message)
    → (c ≡ true → ms ≡ contents r)
    → contents b ≡ []
    → (if c then ms else []) ++ contents (if c then b else r) ≡ contents r
took_if true r b ms h e = ap (λ x. ms ++ x) e ∙ append-nil ms ∙ h refl
took_if false r b ms h e = refl

took-balance :
    (s : Sender) (h acc : List Message) (p q : Process) (b : Ring)
    → contents b ≡ []
    → h ++ pending s p ≡ acc
    → (h ++ (if same_process p q then contents (s.ring q) else [])) ++ pending (put s q b) p ≡ acc
took-balance s h acc p q b empty e =
    let x : List Message = if same_process p q then contents (s.ring q) else [] in
    let left = contents (store_ring s.ring q b p) in
    let waiting = messages_to p s.outbuf in
    let whole : x ++ left ≡ contents (s.ring p) =
      took_if (same_process p q) (s.ring p) b (contents (s.ring q))
        (λ same. ap (λ r. contents (s.ring r)) (sym (same_process_eq p q same))) empty in
    append_assoc h x (left ++ waiting)
    ∙ ap (λ ms. h ++ ms) (sym (append_assoc x left waiting) ∙ ap (λ ms. ms ++ waiting) whole)
    ∙ e

put-Good :
    (k : ℕ) (s : Sender) (q : Process) (b : Ring)
    → Good k s
    → IsValid b
    → b.next_write_release ≡ (s.ring q).next_write_release
    → Good k (put s q b)
put-Good k s q b g v rel = record {
  valid = stored-IsValid s.ring q b g.valid v;
  fits = λ p.
      let f = g.fits p in
      let r = stored-release s.ring q b 0 (omega (arith, rel)) p in omega (arith, f, r);
  codes = g.codes;
}

took-Keeps :
    (k : ℕ) (w : World) (q : Process)
    → Good k w.sender
    → (w' : World) × (took w q (receive 257 (w.sender.ring q)) ≡ some w') × Keeps k w w'
unfolding took
took-Keeps k w q g =
    let f = g.fits q in
    let s = w.sender in
    let (b, e, v, empty, unfull, rel) =
      receive-contents 256 (s.ring q) (g.valid q) (omega (arith, f))
        (contents-bound (s.ring q) (g.valid q)) in
    (
      record w {
        sender = put s q b;
        handled = λ p. w.handled p ++ (if same_process p q then contents (s.ring q) else []);
      },
      ap (took w q) e,
      record {
        good = put-Good k s q b g v rel;
        balance = λ p h. took-balance s (w.handled p) (w.accepted p) p q b empty h;
        same_procnum = refl;
        same_state = refl;
      },
    )

step-Keeps :
    (k : ℕ) (c : Call) (w : World)
    → Good (suc k) w.sender
    → Allowed w.sender.state w.sender.procnum c
    → (w' : World) × (step c w ≡ some w') × Keeps k w w'
unfolding step
step-Keeps k (send mem dst m) w g (code_ne, up, near) =
    sent-Keeps k mem w dst m (ipc_send mem w.sender dst m)
      (ipc_send-Returns k mem w.sender dst m up near g code_ne)
step-Keeps k retry w g a = retried-Keeps k w (less-Good k w.sender g)
step-Keeps k (handle q) w g a = took-Keeps k w q (less-Good k w.sender g)

run-cons :
    (c : Call) (cs : List Call) (w w' : World) → step c w ≡ some w' → run (c ∷ cs) w ≡ run cs w'
unfolding run
run-cons c cs w w' e = ground (arith, e)

same-Good : (i j : ℕ) (s : Sender) → i ≡ j → Good i s → Good j s
same-Good i j s e g = subst (λ k. Good k s) e g

same-Allowed :
    (cs : List Call) (s s' : Sender)
    → s'.procnum ≡ s.procnum
    → s'.state ≡ s.state
    → All (Allowed s.state s.procnum) cs
    → All (Allowed s'.state s'.procnum) cs
same-Allowed cs s s' e f h =
    subst (λ src. All (Allowed s'.state src) cs) (sym e)
      (subst (λ st. All (Allowed st s.procnum) cs) (sym f) h)

run-Keeps :
    (k : ℕ) (cs : List Call) (w : World)
    → Good (length cs + k) w.sender
    → All (Allowed w.sender.state w.sender.procnum) cs
    → (w' : World) × (run cs w ≡ some w') × Keeps k w w'
unfolding run
run-Keeps k [] w g h = (
  w,
  refl,
  record {
    good = same-Good (0 + k) k w.sender (omega arith) g;
    balance = λ p b. b;
    same_procnum = refl;
    same_state = refl;
  },
)
run-Keeps k (c ∷ cs) w g (h, hs) =
    let (w1, e, t) =
      step-Keeps (length cs + k) c w
        (same-Good (suc (length cs) + k) (suc (length cs + k)) w.sender (omega arith) g) h in
    let (w2, e2, t2) =
      run-Keeps k cs w1 t.good
        (same-Allowed cs w.sender w1.sender t.same_procnum t.same_state hs) in
    (
      w2,
      run-cons c cs w w1 e ∙ e2,
      record {
        good = t2.good;
        balance = λ p b. t2.balance p (t.balance p b);
        same_procnum = t2.same_procnum ∙ t.same_procnum;
        same_state = t2.same_state ∙ t.same_state;
      },
    )

-- For any sequence of sends, retries and receives that starts with nothing handled or accepted and
-- nothing pending, in a state between two calls: it runs to its end, no assertion fails and no
-- receive takes more than 257 rounds; and for each process, the messages that it has handled, then
-- those in its ring, then those that wait for it in the sender's buffer, are the messages of the
-- sends to it that returned true, in the order of those sends. The sends have a code that is not
-- `nil`, go to processes that are up, and need no proxy; fewer than 2^62 messages have gone
-- through each ring.
pub run-balance :
    (k : ℕ) (cs : List Call) (w : World)
    → Good (length cs + k) w.sender
    → All (Allowed w.sender.state w.sender.procnum) cs
    → ((p : Process) → w.handled p ++ pending w.sender p ≡ w.accepted p)
    → (w' : World) × (run cs w ≡ some w')
      × ((p : Process) → w'.handled p ++ pending w'.sender p ≡ w'.accepted p)
      × Good k w'.sender
run-balance k cs w g h b =
    let (w', e, t) = run-Keeps k cs w g h in (w', e, λ p. t.balance p (b p), t.good)
