-- ===== src/Ipc/Channel/Balance.antt =====
-- src/ipc.c: what a process holds after the creation of a channel, and after its destruction.
use shuttlesock.Base.{
  ℕ, ◌≡◌, ◌≢◌, ◌⊎◌, inl, inr, refl, ap, sym, subst, if◌then◌else◌, ◌∙◌, Bool, true, false, Option,
  none, some, List, ◌∷◌, arith,
}
use shuttlesock.Ipc.Send.{Process, is_worker}
use shuttlesock.Ipc.Channel.{
  Channel, Held, Answers, take_fds, take_eventfd, take_buffer, take_mapped, take_allocated,
  shared_create, without, shared_destroy,
}

abbrev pub NewPair : Option ℕ → Option (ℕ × ℕ) → Type 0
NewPair (some e) (some (a, b)) = (a ≢ e) × (b ≢ e) × (b ≢ a)
NewPair _ _ = Unit

-- The system gives descriptors that are not the same.
abbrev pub NewFds : Answers → Type 0
NewFds sys = NewPair sys.eventfd sys.socketpair

-- the channel of a process that has none
abbrev pub no_channel : Channel
no_channel = record { buf = 0; fd0 = none; fd1 = none; socket_fd0 = none; socket_fd1 = none }

-- the channel of a process, with the descriptor of an eventfd and two sockets
abbrev pub channel_of : (buf e : ℕ) → ℕ × ℕ → Channel
channel_of buf e (a, b) = record {
  buf = buf;
  fd0 = none;
  fd1 = some e;
  socket_fd0 = some a;
  socket_fd1 = some b;
}

-- What a creation comes to for a process that held `h`, by the answers for the buffer, the eventfd and
-- the sockets: without a buffer nothing is held; where eventfd or socketpair fails, the buffer, or the
-- buffer and the eventfd; if none fails, the channel, which a destruction gives back.
abbrev pub Creates :
    Held → (buffer eventfd : Option ℕ) → Option (ℕ × ℕ) → Bool × Channel × Held → Type 0
Creates h none e p (done, c', h') = (done ≡ false) × (h' ≡ h)
Creates h (some a) none p (done, c', h') =
    (done ≡ false) × (h' ≡ record h { buffers = a ∷ h.buffers })
Creates h (some a) (some e) none (done, c', h') =
    (done ≡ false) × (h' ≡ record { buffers = a ∷ h.buffers; fds = e ∷ h.fds })
Creates h (some a) (some e) (some p) (done, c', h') =
    (done ≡ true) × (c' ≡ channel_of a e p) × (shared_destroy c' h' ≡ (no_channel, h))

-- the answer for the buffer
abbrev pub buffer_answer : Process → Answers → Option ℕ
buffer_answer p sys = if is_worker p then sys.calloc else sys.mmap

without_third :
    (e a b : ℕ) (fds : List ℕ) → a ≢ e → b ≢ e → without e (b ∷ a ∷ e ∷ fds) ≡ b ∷ a ∷ fds
without_third e a b fds ne nb = ground (arith, ne, nb)

without_second : (a b : ℕ) (fds : List ℕ) → b ≢ a → without a (b ∷ a ∷ fds) ≡ b ∷ fds
without_second a b fds n = ground (arith, n)

without_first : (a : ℕ) (xs : List ℕ) → without a (a ∷ xs) ≡ xs
without_first a xs = ground arith

closed :
    (e a b : ℕ) (fds : List ℕ)
    → a ≢ e
    → b ≢ e
    → b ≢ a
    → without b (without a (without e (b ∷ a ∷ e ∷ fds))) ≡ fds
closed e a b fds ne nb nab =
    ap (λ l. without b (without a l)) (without_third e a b fds ne nb)
    ∙ ap (without b) (without_second a b fds nab)
    ∙ without_first b fds

destroyed :
    (buf e a b : ℕ) (h : Held)
    → a ≢ e
    → b ≢ e
    → b ≢ a
    → shared_destroy
        (record { buf = buf; fd0 = none; fd1 = some e; socket_fd0 = some a; socket_fd1 = some b })
        (record { buffers = buf ∷ h.buffers; fds = b ∷ a ∷ e ∷ h.fds })
      ≡ (no_channel, h)
unfolding shared_destroy
destroyed buf e a b h ne nb nab =
    ap
      (λ (l : List ℕ). (
        no_channel,
        record { buffers = l; fds = without b (without a (without e (b ∷ a ∷ e ∷ h.fds))) },
      ))
      (without_first buf h.buffers)
    ∙ ap (λ (l : List ℕ). (no_channel, record h { fds = l })) (closed e a b h.fds ne nb nab)

take_fds-Creates :
    (c : Channel) (h : Held) (buf e : ℕ) (o : Option (ℕ × ℕ))
    → NewPair (some e) o
    → Creates h (some buf) (some e) o (
        take_fds
          (record c { buf = buf; fd0 = none; fd1 = some e })
          (record { buffers = buf ∷ h.buffers; fds = e ∷ h.fds })
          o)
take_fds-Creates c h buf e none n = (refl, refl)
take_fds-Creates c h buf e (some (a, b)) (ne, nb, nab) =
    (refl, refl, destroyed buf e a b h ne nb nab)

take_eventfd-Creates :
    (c : Channel) (h : Held) (sys : Answers) (buf : ℕ) (o : Option ℕ)
    → NewPair o sys.socketpair
    → Creates h
        (some buf)
        o
        sys.socketpair
        (take_eventfd (record c { buf = buf }) (record h { buffers = buf ∷ h.buffers }) sys o)
take_eventfd-Creates c h sys buf none n = (refl, refl)
take_eventfd-Creates c h sys buf (some e) n = take_fds-Creates c h buf e sys.socketpair n

take_allocated-Creates :
    (c : Channel) (h : Held) (sys : Answers) (o : Option ℕ)
    → NewFds sys
    → (r : Bool × Channel × Held) × (take_allocated c h sys o ≡ some r)
      × Creates h o sys.eventfd sys.socketpair r
take_allocated-Creates c h sys none n = ((false, c, h), refl, (refl, refl))
take_allocated-Creates c h sys (some a) n =
    (take_buffer c h sys a, refl, take_eventfd-Creates c h sys a sys.eventfd n)

worker_create :
    (p : Process) (c : Channel) (h : Held) (sys : Answers)
    → c.buf ≡ 0
    → is_worker p ≡ true
    → shared_create p c h sys ≡ take_allocated c h sys sys.calloc
unfolding shared_create
worker_create p c h sys z w = ground (arith, z, w)

other_create :
    (p : Process) (c : Channel) (h : Held) (sys : Answers)
    → c.buf ≡ 0
    → is_worker p ≡ false
    → shared_create p c h sys ≡ take_mapped c h sys sys.mmap
unfolding shared_create
other_create p c h sys z w = ground (arith, z, w)

-- Where a process has no buffer, and mmap does not fail for the master or the manager, the creation of its
-- channel ends. It succeeds exactly if the buffer, the eventfd and the sockets are all given; the
-- channel then has these, and a destruction gives back what the process held. If one is not given,
-- exactly what was given before is still held: nothing, the buffer, or the buffer and the eventfd.
pub shared_create-Creates :
    (p : Process) (c : Channel) (h : Held) (sys : Answers)
    → c.buf ≡ 0
    → NewFds sys
    → (is_worker p ≡ true) ⊎ ((m : ℕ) × (is_worker p ≡ false) × (sys.mmap ≡ some m))
    → (r : Bool × Channel × Held) × (shared_create p c h sys ≡ some r)
      × Creates h (buffer_answer p sys) sys.eventfd sys.socketpair r
shared_create-Creates p c h sys z n (inl w) =
    let (r, e, m) = take_allocated-Creates c h sys sys.calloc n in
    (
      r,
      worker_create p c h sys z w ∙ e,
      subst (λ b. Creates h (if b then sys.calloc else sys.mmap) sys.eventfd sys.socketpair r)
          (sym w) m,
    )
shared_create-Creates p c h sys z n (inr (m, w, e)) = (
  take_buffer c h sys m,
  other_create p c h sys z w ∙ ap (take_mapped c h sys) e,
  subst
      (λ b.
        Creates h (if b then sys.calloc else sys.mmap) sys.eventfd sys.socketpair
          (take_buffer c h sys m))
      (sym w)
      (subst (λ o. Creates h o sys.eventfd sys.socketpair (take_buffer c h sys m)) (sym e)
        (take_eventfd-Creates c h sys m sys.eventfd n)),
)
