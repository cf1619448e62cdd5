-- ===== src/Ipc/Send/Step.antt =====
-- One call of a sender: what it adds to what the processes have yet to handle.
use shuttlesock.Base.{
  ℕ, suc, ◌+◌, ◌≡◌, refl, ◌≢◌, ap, ◌∙◌, Bool, true, false, some, List, [], ◌∷◌, ◌++◌, arith,
  if◌then◌else◌, Bool-cases, inl, inr, ◌⊎◌, sym,
}
use shuttlesock.Ipc.Ring.{Message, cmd_nil, Ring}
use shuttlesock.Ipc.Ring.Refine.{contents, IsValid}
use shuttlesock.Ipc.Send.{
  Process, Outbuf, Sender, store_ring, Sent, Memory, direct, outbuf_append, is_empty, or_append,
  send_or_buffer, is_starting, before_starting, needs_proxy, send_with, ipc_send,
}
use shuttlesock.Ipc.Send.Order.{
  if_to, messages_to, pending, Good, Direct, delivered, refused, direct-Direct, Adds, buffered,
  buffered-Adds, buffered-Good, put-contents, kept-contents, stored-IsValid, stored-release,
}
use mathlib.Core.List.{append-nil}

-- A call that has returned `done`, `k` messages being still to be sent
pub record Done (k : ℕ) (s : Sender) (dst : Process) (m : Message) (done : Bool) (s' : Sender)
    : Type 0 where
  pub good : Good k s'
  pub adds : (p : Process) → pending s' p ≡ pending s p ++ (if done then if_to p dst m else [])
  pub same_procnum : s'.procnum ≡ s.procnum
  pub same_state : s'.state ≡ s.state
  pub same_shm : s'.shm ≡ s.shm

-- The call returns, and with memory it returns true.
abbrev pub Returns : ℕ → Memory → Sender → Process → Message → Sent → Type 0
Returns k mem s dst m r =
    (done : Bool) × (s' : Sender) × (r ≡ some (done, s'))
    × ((mem.malloc ≡ false) ⊎ (done ≡ true))
    × Done k s dst m done s'

abbrev pub put : Sender → Process → Ring → Sender
put s dst b = record s { ring = store_ring s.ring dst b }

put-Good :
    (i k j : ℕ) (s : Sender) (dst : Process) (b : Ring)
    → Good i s
    → i ≡ j + k
    → IsValid b
    → b.next_write_release ≡ (s.ring dst).next_write_release + j
    → Good k (put s dst b)
put-Good i k j s dst b g n v e = record {
  valid = stored-IsValid s.ring dst b g.valid v;
  fits =
      λ p. let f = g.fits p in let r = stored-release s.ring dst b j e p in omega (arith, f, r, n);
  codes = g.codes;
}

put-Adds :
    (s : Sender) (dst : Process) (m : Message) (b : Ring)
    → s.outbuf ≡ []
    → contents b ≡ contents (s.ring dst) ++ m ∷ []
    → Adds s dst m (put s dst b)
put-Adds s dst m b e c p =
    let empty : messages_to p s.outbuf ≡ [] = ap (messages_to p) e in
    let bare : (ms : List Message) → ms ++ messages_to p s.outbuf ≡ ms =
      λ ms. ap (λ x. ms ++ x) empty ∙ append-nil ms in
    bare (contents (store_ring s.ring dst b p))
    ∙ put-contents s.ring dst p m b c
    ∙ ap (λ ms. ms ++ if_to p dst m) (sym (bare (contents (s.ring p))))

pub less-Good : (k : ℕ) (s : Sender) → Good (suc k) s → Good k s
less-Good k s g = record {
  valid = g.valid;
  fits = λ p. let f = g.fits p in omega (arith, f);
  codes = g.codes;
}

-- `outbuf_append`, by what `malloc` answers
abbrev appended : Bool → Sender → Process → Message → Sender
appended true s dst m = buffered s dst m
appended false s dst m = s

outbuf_append-appended :
    (mem : Memory) (s : Sender) (dst : Process) (m : Message)
    → outbuf_append mem s dst m ≡ (mem.malloc, appended mem.malloc s dst m)
unfolding outbuf_append
outbuf_append-appended mem s dst m = elim (Bool-cases mem.malloc) [
  | inl h ↦ rw h refl
  | inr h ↦ rw h refl
]

appended-Done :
    (k : ℕ) (c : Bool) (s : Sender) (dst : Process) (m : Message)
    → Good (suc k) s
    → m.code ≢ cmd_nil
    → Done k s dst m c (appended c s dst m)
appended-Done k true s dst m g code_ne = record {
  good = buffered-Good k s dst m g code_ne;
  adds = buffered-Adds s dst m;
  same_procnum = refl;
  same_state = refl;
  same_shm = refl;
}
appended-Done k false s dst m g code_ne = record {
  good = less-Good k s g;
  adds = λ p. sym (append-nil (pending s p));
  same_procnum = refl;
  same_state = refl;
  same_shm = refl;
}

false_or_true : (c : Bool) → (c ≡ false) ⊎ (c ≡ true)
false_or_true true = inr refl
false_or_true false = inl refl

outbuf_append-Returns :
    (k : ℕ) (mem : Memory) (s : Sender) (dst : Process) (m : Message)
    → Good (suc k) s
    → m.code ≢ cmd_nil
    → Returns k mem s dst m (some (outbuf_append mem s dst m))
outbuf_append-Returns k mem s dst m g code_ne = (
  mem.malloc,
  appended mem.malloc s dst m,
  ap some (outbuf_append-appended mem s dst m),
  false_or_true mem.malloc,
  appended-Done k mem.malloc s dst m g code_ne,
)

refused-Returns :
    (k : ℕ) (mem : Memory) (s : Sender) (dst : Process) (m : Message) (b : Ring)
    → Good (suc k) s
    → m.code ≢ cmd_nil
    → IsValid b
    → contents b ≡ contents (s.ring dst)
    → b.next_write_release ≡ (s.ring dst).next_write_release
    → Returns k mem s dst m (some (outbuf_append mem (put s dst b) dst m))
refused-Returns k mem s dst m b g code_ne v c e =
    let g' = put-Good (suc k) (suc k) 0 s dst b g (omega arith) v (omega (arith, e)) in
    let (done, s', eq, h, d) = outbuf_append-Returns k mem (put s dst b) dst m g' code_ne in
    (
      done,
      s',
      eq,
      h,
      record {
        good = d.good;
        adds = λ p.
            d.adds p
            ∙ ap (λ ms. (ms ++ messages_to p s.outbuf) ++ (if done then if_to p dst m else []))
                (kept-contents s.ring dst p b c);
        same_procnum = d.same_procnum;
        same_state = d.same_state;
        same_shm = d.same_shm;
      },
    )

or_append-Returns :
    (k : ℕ) (mem : Memory) (s : Sender) (dst : Process) (m : Message) (r : Sent)
    → Direct s dst m r
    → s.outbuf ≡ []
    → Good (suc k) s
    → m.code ≢ cmd_nil
    → Returns k mem s dst m (or_append mem s dst m r)
or_append-Returns k mem s dst m r (delivered b v c e) nil g code_ne = (
  true,
  put s dst b,
  refl,
  inr refl,
  record {
    good = put-Good (suc k) k 1 s dst b g (omega arith) v e;
    adds = put-Adds s dst m b nil c;
    same_procnum = refl;
    same_state = refl;
    same_shm = refl;
  },
)
or_append-Returns k mem s dst m r (refused b v c e) nil g code_ne =
    refused-Returns k mem s dst m b g code_ne v c e

outbuf_empty : (os : List Outbuf) (x : Bool) → (if is_empty os then x else true) ≡ false → os ≡ []
outbuf_empty [] x h = refl
outbuf_empty (o ∷ os) x h = absurd (ground (arith, h))

pub send_or_buffer-Returns :
    (k : ℕ) (mem : Memory) (s : Sender) (dst : Process) (m : Message)
    → Good (suc k) s
    → m.code ≢ cmd_nil
    → Returns k mem s dst m (send_or_buffer mem s dst m)
unfolding send_or_buffer
send_or_buffer-Returns k mem s dst m g code_ne =
    elim (Bool-cases (if is_empty s.outbuf then is_starting (s.state dst) else true)) [
      | inl t ↦ rw t (outbuf_append-Returns k mem s dst m g code_ne)
      | inr t ↦
          let nil = outbuf_empty s.outbuf (is_starting (s.state dst)) t in
          let f = g.fits dst in
          let d = direct-Direct s dst m (g.valid dst) code_ne (omega (arith, f)) in
          rw t (or_append-Returns k mem s dst m (direct s dst m) d nil g code_ne)
    ]

-- A message whose way does not lead through the manager, to a process that is up
pub ipc_send-Returns :
    (k : ℕ) (mem : Memory) (s : Sender) (dst : Process) (m : Message)
    → before_starting (s.state dst) ≡ false
    → needs_proxy s.procnum dst ≡ false
    → Good (suc k) s
    → m.code ≢ cmd_nil
    → Returns k mem s dst m (ipc_send mem s dst m)
unfolding ipc_send send_with
ipc_send-Returns k mem s dst m up near g code_ne =
    rw (up, near) (send_or_buffer-Returns k mem s dst m g code_ne)
