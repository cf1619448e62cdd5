-- ===== src/Procs/Run/Paths.antt =====
-- src/shuttlesock.c: what is held at the end of each path.
use shuttlesock.Base.{
  ℕ, true, false, Bool, Option, none, some, ◌∷◌, ◌≡◌, ◌⊎◌, inl, refl, ap, not, ◌&&◌, if◌then◌else◌,
  arith,
}
use shuttlesock.Ipc.Send.{worker, dead, stopped}
use shuttlesock.Ipc.Channel.{Channel, Held, Answers, shared_destroy}
use shuttlesock.Ipc.Channel.Balance.{Creates, NewFds, no_channel, shared_create-Creates}
use shuttlesock.Procs.Run.{
  WorkerHeld, WorkerAnswers, no_worker, with_channel, later_steps, worker_end, after_channel,
  initialize_worker, RunAnswers, run,
}

-- Whether the buffer, the eventfd and the sockets of a channel are given
abbrev pub all_given : Option ℕ → Option ℕ → Option (ℕ × ℕ) → Bool
all_given (some a) (some e) (some p) = true
all_given _ _ _ = false

-- What a process that held `h` holds after the creation of a channel that failed, by what was given; if all was,
-- after the channel was destroyed
abbrev pub kept : Held → Option ℕ → Option ℕ → Option (ℕ × ℕ) → Held
kept h (some a) (some e) none = record { buffers = a ∷ h.buffers; fds = e ∷ h.fds }
kept h (some a) none p = record h { buffers = a ∷ h.buffers }
kept h _ _ _ = h

abbrev pub channel_given : Answers → Bool
channel_given sys = all_given sys.calloc sys.eventfd sys.socketpair

-- Whether all that a worker needs is given
abbrev pub worker_well : WorkerAnswers → Bool
worker_well a =
    a.calloc
    && (channel_given a.shared_create
        && (a.pool_init
            && (a.resolver_init && (a.lua_create && (a.lua_initialize && a.initialize_modules)))))

-- Whether a Lua state was created for it
abbrev pub lua_made : WorkerAnswers → Bool
lua_made a =
    a.calloc
    && (channel_given a.shared_create && (a.pool_init && (a.resolver_init && a.lua_create)))

-- What the process holds of the creation of a channel, unless there was no memory for the worker
abbrev pub worker_kept : WorkerAnswers → Held → Held
worker_kept a h =
    if a.calloc
    then kept h a.shared_create.calloc a.shared_create.eventfd a.shared_create.socketpair
    else h

-- A worker is initialised just if `well`; if not, its structure, pool and resolver are given back. A
-- Lua state is held just if `lua`. Without the channel of a worker that was initialised, the buffers
-- and descriptors are `rest`.
pub record Holds (well lua : Bool) (rest : Held) (r : Bool × WorkerHeld) : Type 0 where
  pub decides : r.0 ≡ well
  pub worker_state : r.1.worker_state ≡ well
  pub worker_pool : r.1.worker_pool ≡ well
  pub resolver : r.1.resolver ≡ well
  pub worker_lua : r.1.worker_lua ≡ lua
  pub held : (if well then (shared_destroy r.1.channel r.1.held).1 else r.1.held) ≡ rest

abbrev taken : Channel → Held → WorkerHeld
taken c h = record (no_worker c h) { worker_state = true; shared_ipc_created = true }

-- Behind the channel, everything is given back but a Lua state.
later-Holds :
    (p r l i m : Bool) (c : Channel) (h h' : Held) (a : WorkerAnswers)
    → shared_destroy c h' ≡ (no_channel, h)
    → Holds (p && (r && (l && (i && m)))) (p && (r && l)) h (
        worker_end (
          later_steps
            (record a {
              pool_init = p;
              resolver_init = r;
              lua_create = l;
              lua_initialize = i;
              initialize_modules = m;
            })
            (true, taken c h')))
later-Holds true true true true true c h h' a e = record {
  decides = refl;
  worker_state = refl;
  worker_pool = refl;
  resolver = refl;
  worker_lua = refl;
  held = ap (λ x. x.1) e;
}
later-Holds true true true true false c h h' a e = record {
  decides = refl;
  worker_state = refl;
  worker_pool = refl;
  resolver = refl;
  worker_lua = refl;
  held = ap (λ x. x.1) e;
}
later-Holds true true true false m c h h' a e = record {
  decides = refl;
  worker_state = refl;
  worker_pool = refl;
  resolver = refl;
  worker_lua = refl;
  held = ap (λ x. x.1) e;
}
later-Holds true true false i m c h h' a e = record {
  decides = refl;
  worker_state = refl;
  worker_pool = refl;
  resolver = refl;
  worker_lua = refl;
  held = ap (λ x. x.1) e;
}
later-Holds true false l i m c h h' a e = record {
  decides = refl;
  worker_state = refl;
  worker_pool = refl;
  resolver = refl;
  worker_lua = refl;
  held = ap (λ x. x.1) e;
}
later-Holds false r l i m c h h' a e = record {
  decides = refl;
  worker_state = refl;
  worker_pool = refl;
  resolver = refl;
  worker_lua = refl;
  held = ap (λ x. x.1) e;
}

-- a channel that was not created
failed-Holds :
    (a : WorkerAnswers) (d : Bool) (c c' : Channel) (h h' k : Held)
    → d ≡ false
    → h' ≡ k
    → Holds false false k (
        worker_end (
          later_steps a
            (with_channel (record (no_worker c h) { worker_state = true }) (d, c', h'))))
failed-Holds a true c c' h h' k n q = absurd (ground (arith, n))
failed-Holds a false c c' h h' k n q = record {
  decides = refl;
  worker_state = refl;
  worker_pool = refl;
  resolver = refl;
  worker_lua = refl;
  held = q;
}

channel-Holds :
    (buffer e : Option ℕ) (p : Option (ℕ × ℕ)) (a : WorkerAnswers) (c : Channel) (h : Held)
    (r : Bool × Channel × Held)
    → Creates h buffer e p r
    → Holds
        (all_given buffer e p
          && (a.pool_init
              && (a.resolver_init && (a.lua_create && (a.lua_initialize && a.initialize_modules)))))
        (all_given buffer e p && (a.pool_init && (a.resolver_init && a.lua_create)))
        (kept h buffer e p)
        (worker_end
          (later_steps a (with_channel (record (no_worker c h) { worker_state = true }) r)))
channel-Holds none e p a c h (d, c', h') (n, q) = failed-Holds a d c c' h h' h n q
channel-Holds (some b) none p a c h (d, c', h') (n, q) =
    failed-Holds a d c c' h h' (record h { buffers = b ∷ h.buffers }) n q
channel-Holds (some b) (some e) none a c h (d, c', h') (n, q) =
    failed-Holds a d c c' h h' (record { buffers = b ∷ h.buffers; fds = e ∷ h.fds }) n q
channel-Holds (some b) (some e) (some p) a c h (true, c', h') (n, t, q) =
    later-Holds a.pool_init a.resolver_init a.lua_create a.lua_initialize a.initialize_modules c' h
      h' a q
channel-Holds (some b) (some e) (some p) a c h (false, c', h') (n, t, q) =
    absurd (ground (arith, n))

by_calloc :
    (b well lua : Bool) (k : Held) (c : Channel) (h : Held) (o : Option (Bool × WorkerHeld))
    → (r : Bool × WorkerHeld) × (o ≡ some r) × Holds well lua k r
    → (r : Bool × WorkerHeld) × ((if not b then some (worker_end (false, no_worker c h)) else o)
        ≡ some r)
      × Holds (b && well) (b && lua) (if b then k else h) r
by_calloc true well lua k c h o q = q
by_calloc false well lua k c h o q = (
  worker_end (false, no_worker c h),
  refl,
  record {
    decides = refl;
    worker_state = refl;
    worker_pool = refl;
    resolver = refl;
    worker_lua = refl;
    held = refl;
  },
)

-- Where a worker has no buffer yet, its initialisation succeeds exactly if all that it needs is given; a
-- destruction of its channel would then give back what that took. If anything is not given, its
-- structure, pool and resolver are given back, but a Lua state that was created is not, and neither are
-- the buffer and the eventfd of a channel whose creation failed behind them.
pub initialize_worker-Holds :
    (i : ℕ) (a : WorkerAnswers) (c : Channel) (h : Held)
    → c.buf ≡ 0
    → NewFds a.shared_create
    → (r : Bool × WorkerHeld) × (initialize_worker i a c h ≡ some r)
      × Holds (worker_well a) (lua_made a) (worker_kept a h) r
unfolding initialize_worker
initialize_worker-Holds i a c h z n =
    let (r, e, m) = shared_create-Creates (worker i) c h a.shared_create z n (inl refl) in
    let sys = a.shared_create in
    by_calloc a.calloc _ _ _ c h _ (
      worker_end (later_steps a (with_channel (record (no_worker c h) { worker_state = true }) r)),
      ap (after_channel a (record (no_worker c h) { worker_state = true })) e,
      channel-Holds sys.calloc sys.eventfd sys.socketpair a c h r m,
    )

-- On every path through the run of the master and of the manager, the channels of both and the shared
-- resolver are given back, and the process is stopped if the run succeeds and dead if it fails.
pub run-Releases :
    (a : RunAnswers)
    → let (ok, r) = run a in
      (r.master_channel ≡ false)
      × (r.manager_channel ≡ false)
      × (r.shared_resolver ≡ false)
      × (((ok ≡ true) × (r.run_state ≡ stopped)) ⊎ ((ok ≡ false) × (r.run_state ≡ dead)))
unfolding run
run-Releases a = ground arith
