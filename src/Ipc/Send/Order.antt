-- ===== src/Ipc/Send/Order.antt =====
-- Messages to a process stay in order, whether they go to its ring or wait in the sender's buffer.
use shuttlesock.Base.{
  ℕ, suc, ◌+◌, ◌^◌, ◌≤◌, ◌<◌, ◌≡◌, refl, ◌≢◌, ap, ◌∙◌, Bool, true, false, Option, none, some, List,
  [], ◌∷◌, ◌++◌, arith, ◌==◌, length, if◌then◌else◌, sym, subst, All, length-append,
}
use shuttlesock.Ipc.Ring.{Message, cmd_nil, Ring, send_direct}
use shuttlesock.Ipc.Ring.Refine.{contents, IsValid, Sends, send-Sends}
use shuttlesock.Ipc.Send.{
  Process, master, manager, worker, same_process, Outbuf, Sender, store_ring, Sent, Memory,
  from_ring, direct, outbuf_append,
}
use mathlib.Core.List.{append_assoc, append-nil}

-- the message, if it is one for `p`
abbrev pub if_to : Process → Process → Message → List Message
if_to p dst m = if same_process p dst then m ∷ [] else []

abbrev pub messages_to : Process → List Outbuf → List Message
messages_to p [] = []
messages_to p (o ∷ os) = if_to p o.dst o.msg ++ messages_to p os

-- What `p` has yet to handle: first what its ring holds.
abbrev pub pending : Sender → Process → List Message
pending s p = contents (s.ring p) ++ messages_to p s.outbuf

-- The state between two calls, with `k` messages still to be sent
pub record Good (k : ℕ) (s : Sender) : Type 0 where
  pub valid : (p : Process) → IsValid (s.ring p)
  pub fits : (p : Process) → (s.ring p).next_write_release + length s.outbuf + k < 2 ^ 62
  pub codes : All (λ o. o.msg.code ≢ cmd_nil) s.outbuf

pub same_process_eq : (p q : Process) → same_process p q ≡ true → p ≡ q
same_process_eq master master h = refl
same_process_eq manager manager h = refl
same_process_eq (worker i) (worker j) h = ap worker (ground (arith, h))
same_process_eq master manager h = absurd (ground (arith, h))
same_process_eq master (worker j) h = absurd (ground (arith, h))
same_process_eq manager master h = absurd (ground (arith, h))
same_process_eq manager (worker j) h = absurd (ground (arith, h))
same_process_eq (worker i) master h = absurd (ground (arith, h))
same_process_eq (worker i) manager h = absurd (ground (arith, h))

-- What `ipc_send_direct` comes to
pub data Direct (s : Sender) (dst : Process) (m : Message) : Sent → Type 0 where
  delivered :
      (b : Ring)
      → IsValid b
      → contents b ≡ contents (s.ring dst) ++ m ∷ []
      → b.next_write_release ≡ (s.ring dst).next_write_release + 1
      → Direct s dst m (some (true, record s { ring = store_ring s.ring dst b }))
  refused :
      (b : Ring)
      → IsValid b
      → contents b ≡ contents (s.ring dst)
      → b.next_write_release ≡ (s.ring dst).next_write_release
      → Direct s dst m (some (false, record s { ring = store_ring s.ring dst b }))

true_ne_false : true ≢ false
true_ne_false h = ground (arith, h)

abbrev offered : Bool → List Message → Message → Bool × List Message
offered at_cap q m = if at_cap then (false, q) else (true, q ++ m ∷ [])

offered-true :
    (c : Bool) (q q' : List Message) (m : Message) → (true, q') ≡ offered c q m → q' ≡ q ++ m ∷ []
offered-true true q q' m e = absurd (true_ne_false (ap (λ (r : Bool × List Message). r.0) e))
offered-true false q q' m e = ap (λ (r : Bool × List Message). r.1) e

offered-false :
    (c : Bool) (q q' : List Message) (m : Message) → (false, q') ≡ offered c q m → q' ≡ q
offered-false true q q' m e = ap (λ (r : Bool × List Message). r.1) e
offered-false false q q' m e =
    absurd (true_ne_false (sym (ap (λ (r : Bool × List Message). r.0) e)))

from_ring-Direct :
    (s : Sender) (dst : Process) (m : Message) (r : Option (Bool × Ring))
    → Sends (s.ring dst) m r
    → Direct s dst m (from_ring s dst r)
from_ring-Direct s dst m none h = absurd h
from_ring-Direct s dst m (some (true, b)) (e, v, g) =
    delivered b v
      (offered-true (length (contents (s.ring dst)) == 256) (contents (s.ring dst)) (contents b) m
        e)
      g
from_ring-Direct s dst m (some (false, b)) (e, v, g) =
    refused b v
      (offered-false (length (contents (s.ring dst)) == 256) (contents (s.ring dst)) (contents b) m
        e)
      g

pub direct-Direct :
    (s : Sender) (dst : Process) (m : Message)
    → IsValid (s.ring dst)
    → m.code ≢ cmd_nil
    → (s.ring dst).next_write_release + 1 < 2 ^ 62
    → Direct s dst m (direct s dst m)
unfolding direct
direct-Direct s dst m v code_ne small =
    from_ring-Direct s dst m (send_direct (s.ring dst) m)
      (send-Sends (s.ring dst) m v code_ne small)

-- A message more for `dst`
abbrev pub Adds : Sender → Process → Message → Sender → Type 0
Adds s dst m s' = (p : Process) → pending s' p ≡ pending s p ++ if_to p dst m

messages_to-append :
    (p : Process) (os : List Outbuf) (o : Outbuf)
    → messages_to p (os ++ o ∷ []) ≡ messages_to p os ++ if_to p o.dst o.msg
messages_to-append p [] o = append-nil (if_to p o.dst o.msg)
messages_to-append p (x ∷ os) o =
    ap (λ ms. if_to p x.dst x.msg ++ ms) (messages_to-append p os o)
    ∙ sym (append_assoc (if_to p x.dst x.msg) (messages_to p os) (if_to p o.dst o.msg))

-- With memory for it, a message is added to the buffer.
abbrev pub buffered : (s : Sender) (dst : Process) (m : Message) → Sender
buffered s dst m = record s {
  outbuf = s.outbuf ++ record { dst = dst; msg = m } ∷ [];
  retry_active = true;
}

pub outbuf_append-buffered :
    (mem : Memory) (s : Sender) (dst : Process) (m : Message)
    → mem.malloc ≡ true
    → outbuf_append mem s dst m ≡ (true, buffered s dst m)
unfolding outbuf_append
outbuf_append-buffered mem s dst m h = ground (arith, h)

pub buffered-Adds : (s : Sender) (dst : Process) (m : Message) → Adds s dst m (buffered s dst m)
buffered-Adds s dst m p =
    ap (λ ms. contents (s.ring p) ++ ms)
      (messages_to-append p s.outbuf (record { dst = dst; msg = m }))
    ∙ sym (append_assoc (contents (s.ring p)) (messages_to p s.outbuf) (if_to p dst m))

All-append_last {ℓ κ} :
    {A : Type ℓ} (P : A → Type κ) (xs : List A) (y : A) → All P xs → P y → All P (xs ++ y ∷ [])
All-append_last P [] y h k = (k, tt)
All-append_last P (x ∷ xs) y (h, hs) k = (h, All-append_last P xs y hs k)

pub buffered-Good :
    (k : ℕ) (s : Sender) (dst : Process) (m : Message)
    → Good (suc k) s
    → m.code ≢ cmd_nil
    → Good k (buffered s dst m)
buffered-Good k s dst m g code_ne = record {
  valid = g.valid;
  fits = λ p.
      let f = g.fits p in
      let l = length-append s.outbuf (record { dst = dst; msg = m } ∷ []) in omega (arith, f, l);
  codes =
      All-append_last (λ (o : Outbuf). o.msg.code ≢ cmd_nil) s.outbuf
        (record { dst = dst; msg = m }) g.codes code_ne;
}

put_if :
    (c : Bool) (r b : Ring) (m : Message)
    → (c ≡ true → contents b ≡ contents r ++ m ∷ [])
    → contents (if c then b else r) ≡ contents r ++ (if c then m ∷ [] else [])
put_if true r b m h = h refl
put_if false r b m h = sym (append-nil (contents r))

kept_if :
    (c : Bool) (r b : Ring)
    → (c ≡ true → contents b ≡ contents r)
    → contents (if c then b else r) ≡ contents r
kept_if true r b h = h refl
kept_if false r b h = refl

-- A ring with one message more
pub put-contents :
    (ring : Process → Ring) (dst p : Process) (m : Message) (b : Ring)
    → contents b ≡ contents (ring dst) ++ m ∷ []
    → contents (store_ring ring dst b p) ≡ contents (ring p) ++ if_to p dst m
put-contents ring dst p m b c =
    put_if (same_process p dst) (ring p) b m
      (λ h. subst (λ q. contents b ≡ contents (ring q) ++ m ∷ []) (sym (same_process_eq p dst h)) c)

-- A ring with the same messages
pub kept-contents :
    (ring : Process → Ring) (dst p : Process) (b : Ring)
    → contents b ≡ contents (ring dst)
    → contents (store_ring ring dst b p) ≡ contents (ring p)
kept-contents ring dst p b c =
    kept_if (same_process p dst) (ring p) b
      (λ h. subst (λ q. contents b ≡ contents (ring q)) (sym (same_process_eq p dst h)) c)

stored_if {ℓ} :
    (c : Bool) (r b : Ring) (P : Ring → Type ℓ) → P r → (c ≡ true → P b) → P (if c then b else r)
stored_if true r b P h k = k refl
stored_if false r b P h k = h

pub stored-IsValid :
    (ring : Process → Ring) (dst : Process) (b : Ring)
    → ((p : Process) → IsValid (ring p))
    → IsValid b
    → (p : Process) → IsValid (store_ring ring dst b p)
stored-IsValid ring dst b v w p =
    stored_if (same_process p dst) (ring p) b (λ r. IsValid r) (v p) (λ _. w)

pub stored-release :
    (ring : Process → Ring) (dst : Process) (b : Ring) (j : ℕ)
    → b.next_write_release ≡ (ring dst).next_write_release + j
    → (p : Process) → (store_ring ring dst b p).next_write_release ≤ (ring p).next_write_release + j
stored-release ring dst b j e p =
    stored_if (same_process p dst) (ring p) b
      (λ r. r.next_write_release ≤ (ring p).next_write_release + j) (omega arith)
      (λ h.
        let f : (ring dst).next_write_release ≡ (ring p).next_write_release =
          ap (λ q. (ring q).next_write_release) (sym (same_process_eq p dst h)) in
        omega (arith, e, f))
