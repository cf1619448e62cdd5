-- ===== src/Io/Ev/Complete.antt =====
-- Whatever pieces the kernel takes, an operation that is repeated to its completion transfers its
-- buffer.
use shuttlesock.Base.{
  ℕ, ◌<◌, ◌≡◌, refl, sym, ap, subst, ◌∙◌, ◌⊎◌, inl, inr, Bool, true, false, Option, none, some,
  List, [], ◌∷◌, length, arith, Bool-cases,
}
use shuttlesock.Io.{
  Opcode, op_read, op_write, op_sendto, op_send, op_recvfrom, op_recv, watch_none, watch_op_retry,
  Io, Handlers, minus_one, watch_update, run_handler,
}
use shuttlesock.Io.Ev.{
  Answer, ok, err, eagain, is_eintr, Outcome, waiting, resumed, after_call, after_ok, after_err,
  ev_operation, Events, watcher_handler, on_watch, retry_match, call_allowed, wait_for,
}
use shuttlesock.Io.Ev.Transfer.{
  is_buffer_op, has_address, Progress, Serves, moved, with_closed, update_closed-fields,
  check_op-advance, moved-Progress, after_part, after_rest,
}

abbrev pub both : Events
both = record { ev_read = true; ev_write = true }

watch_waits :
    (io : Io)
    → watch_update (record io { watch_type = watch_op_retry })
      ≡ record io { watch_type = watch_op_retry; active = true }
unfolding watch_update
watch_waits io = elim (Bool-cases io.active) [ inl e ↦ rw e refl | inr e ↦ rw e refl ]

closed-Progress :
    (b n : ℕ) (io : Io) (r w : Bool) → Progress b n io → Progress b n (with_closed io r w)
closed-Progress b n io r w p = record {
  buffer_op = p.buffer_op;
  peer = p.peer;
  repeats = p.repeats;
  place = p.place;
  left = p.left;
  in_memory = p.in_memory;
}

waits-Progress :
    (b n : ℕ) (io : Io)
    → Progress b n io
    → Progress b n (record io { watch_type = watch_op_retry; active = true })
waits-Progress b n io p = record {
  buffer_op = p.buffer_op;
  peer = p.peer;
  repeats = p.repeats;
  place = p.place;
  left = p.left;
  in_memory = p.in_memory;
}

-- It waits for more, of fewer answers;
pub record Waits (b n : ℕ) (io : Io) (given later : List Answer) : Type 0 where
  pub progress : Progress b n io
  pub some_left : 0 < io.len
  pub watched : io.watch_type ≡ watch_op_retry
  pub started : io.active ≡ true
  pub serves : Serves io.len later
  pub fewer : length later < length given

-- or the handlers run after the whole transfer.
unfoldable pub Advances :
    Handlers → (b n : ℕ) → List Answer → Option (Outcome × List Answer) → Type 0
Advances h b n given r =
    ((io : Io) × (later : List Answer) × (r ≡ some (waiting io, later)) × Waits b n io given later)
    ⊎ ((io : Io) × (later : List Answer) × (r ≡ some (resumed (run_handler h io), later))
        × Progress b n io
        × (io.len ≡ 0))

after_delay :
    (h : Handlers) (io : Io)
    → is_buffer_op io.opcode ≡ true
    → after_err h io eagain ≡ waiting (record io { watch_type = watch_op_retry; active = true })
unfolding after_err wait_for
after_delay h io op =
    let (_, _, c) = check_op-advance io.opcode none io 0 op in ground (arith, c, watch_waits io)

waited :
    (h : Handlers) (malloc : Option ℕ) (b n : ℕ) (io : Io) (given later : List Answer)
    (r : Option (Outcome × List Answer))
    → r ≡ some (waiting (record io { watch_type = watch_op_retry; active = true }), later)
    → Progress b n io
    → 0 < io.len
    → Serves io.len later
    → length later < length given
    → Advances h b n given r
unfolding Advances
waited h malloc b n io given later r e p pos s fewer = inl (
  record io { watch_type = watch_op_retry; active = true },
  later,
  e,
  record {
    progress = waits-Progress b n io p;
    some_left = pos;
    watched = refl;
    started = refl;
    serves = s;
    fewer = fewer;
  },
)

after_ok-Advances :
    (h : Handlers) (malloc : Option ℕ) (b n : ℕ) (io : Io) (k : ℕ) (later : List Answer)
    → Progress b n io
    → Serves io.len (ok k ∷ later)
    → Advances h b n (ok k ∷ later) (some (after_ok h malloc io k, later))
unfolding Advances
after_ok-Advances h malloc b n io k later p (pos, inl all) = inr (
  moved io k,
  later,
  ap (λ o. some (o, later))
      (subst (λ j. after_ok h malloc io j ≡ resumed (run_handler h (moved io j))) (sym all)
        (after_rest h malloc b n io p (omega (arith, pos, all)))),
  moved-Progress b n io k p (omega (arith, all)),
  omega (arith, all),
)
after_ok-Advances h malloc b n io k later p (pos, inr (lt, s)) =
    waited h malloc b n (moved io k) (ok k ∷ later) later (some (after_ok h malloc io k, later))
      (ap (λ o. some (o, later))
        (after_part h malloc b n io k p pos lt ∙ ap waiting (watch_waits (moved io k))))
      (moved-Progress b n io k p (omega (arith, lt))) (omega (arith, lt)) s (omega arith)

allowed :
    (op : Opcode) (len sockaddr : ℕ)
    → is_buffer_op op ≡ true
    → has_address op sockaddr ≡ true
    → 0 < len
    → call_allowed op len sockaddr ≡ true
allowed op_read len a h g pos = refl
allowed op_write len a h g pos = ground (arith, pos)
allowed op_sendto len a h g pos = g
allowed op_recvfrom len a h g pos = g
allowed op_send len a h g pos = refl
allowed op_recv len a h g pos = refl
allowed op len a h g pos = absurd (ground (arith, h))

interrupted :
    (h : Handlers) (malloc : Option ℕ) (io : Io) (a : Answer) (later : List Answer)
    → call_allowed io.opcode io.len io.sockaddr ≡ true
    → is_eintr a ≡ true
    → ev_operation h malloc io (a ∷ later) ≡ ev_operation h malloc io later
unfolding ev_operation
interrupted h malloc io a later c e = ground (arith, c, e)

called :
    (h : Handlers) (malloc : Option ℕ) (io : Io) (a : Answer) (later : List Answer)
    → call_allowed io.opcode io.len io.sockaddr ≡ true
    → is_eintr a ≡ false
    → ev_operation h malloc io (a ∷ later) ≡ some (after_call h malloc io a, later)
unfolding ev_operation
called h malloc io a later c e = ground (arith, c, e)

more_given :
    (h : Handlers) (b n : ℕ) (a : Answer) (given : List Answer) (r : Option (Outcome × List Answer))
    → Advances h b n given r
    → Advances h b n (a ∷ given) r
unfolding Advances
more_given h b n a given r (inl (io, later, e, w)) =
    let f = w.fewer in
    inl (
      io,
      later,
      e,
      record {
        progress = w.progress;
        some_left = w.some_left;
        watched = w.watched;
        started = w.started;
        serves = w.serves;
        fewer = omega (arith, f);
      },
    )
more_given h b n a given r (inr x) = inr x

called_ok :
    (h : Handlers) (malloc : Option ℕ) (b n : ℕ) (io : Io) (k : ℕ) (later : List Answer)
    → Progress b n io
    → Serves io.len (ok k ∷ later)
    → Advances h b n (ok k ∷ later) (some (after_call h malloc io (ok k), later))
unfolding after_call
called_ok h malloc b n io k later p s =
    let (r, w, e) = update_closed-fields io io.opcode k in
    subst (λ x. Advances h b n (ok k ∷ later) (some (after_ok h malloc x k, later))) (sym e)
      (after_ok-Advances h malloc b n (with_closed io r w) k later (closed-Progress b n io r w p) s)

called_delay :
    (h : Handlers) (malloc : Option ℕ) (b n : ℕ) (io : Io) (later : List Answer)
    → Progress b n io
    → 0 < io.len
    → Serves io.len later
    → Advances h b n (err eagain ∷ later) (some (after_call h malloc io (err eagain), later))
unfolding after_call
called_delay h malloc b n io later p pos s =
    let (r, w, e) = update_closed-fields io io.opcode minus_one in
    let x = with_closed io r w in
    waited h malloc b n x (err eagain ∷ later) later
      (some (after_call h malloc io (err eagain), later))
      (ap (λ o. some (o, later)) (ap (λ y. after_err h y eagain) e ∙ after_delay h x p.buffer_op))
      (closed-Progress b n io r w p) pos s (omega arith)

pub ev_operation-Advances :
    (h : Handlers) (malloc : Option ℕ) (b n : ℕ) (io : Io) (given : List Answer)
    → Progress b n io
    → 0 < io.len
    → Serves io.len given
    → Advances h b n given (ev_operation h malloc io given)
ev_operation-Advances h malloc b n io [] p pos s = absurd s
ev_operation-Advances h malloc b n io (err errno ∷ later) p pos (inl e, s) =
    let c = allowed io.opcode io.len io.sockaddr p.buffer_op p.peer pos in
    let i : is_eintr (err errno) ≡ true = ground (arith, e) in
    subst (λ r. Advances h b n (err errno ∷ later) r)
      (sym (interrupted h malloc io (err errno) later c i))
      (more_given h b n (err errno) later (ev_operation h malloc io later)
        (ev_operation-Advances h malloc b n io later p pos s))
ev_operation-Advances h malloc b n io (err errno ∷ later) p pos (inr e, s) =
    let c = allowed io.opcode io.len io.sockaddr p.buffer_op p.peer pos in
    let r : ev_operation h malloc io (err eagain ∷ later)
        ≡ some (after_call h malloc io (err eagain), later) =
      called h malloc io (err eagain) later c refl in
    subst (λ x. Advances h b n (err x ∷ later) (ev_operation h malloc io (err x ∷ later))) (sym e)
      (subst (λ x. Advances h b n (err eagain ∷ later) x) (sym r)
        (called_delay h malloc b n io later p pos s))
ev_operation-Advances h malloc b n io (ok k ∷ later) p pos s =
    let c = allowed io.opcode io.len io.sockaddr p.buffer_op p.peer pos in
    subst (λ r. Advances h b n (ok k ∷ later) r) (sym (called h malloc io (ok k) later c refl))
      (called_ok h malloc b n io k later p s)

retry_matches : (op : Opcode) → is_buffer_op op ≡ true → retry_match op both ≡ some true
unfolding retry_match
retry_matches op_read h = refl
retry_matches op_write h = refl
retry_matches op_sendto h = refl
retry_matches op_recvfrom h = refl
retry_matches op_send h = refl
retry_matches op_recv h = refl
retry_matches op h = absurd (ground (arith, h))

resumes :
    (h : Handlers) (malloc : Option ℕ) (io : Io) (later : List Answer)
    → is_buffer_op io.opcode ≡ true
    → on_watch watch_op_retry h malloc io both later
      ≡ ev_operation h malloc (record io { watch_type = watch_none }) later
unfolding on_watch
resumes h malloc io later op = let m = retry_matches io.opcode op in ground (arith, m)

stopped-Progress :
    (b n : ℕ) (io : Io) → Progress b n io → Progress b n (record io { watch_type = watch_none })
stopped-Progress b n io p = record {
  buffer_op = p.buffer_op;
  peer = p.peer;
  repeats = p.repeats;
  place = p.place;
  left = p.left;
  in_memory = p.in_memory;
}

-- The watcher's handler goes on with an operation that waits.
pub handler-Advances :
    (h : Handlers) (malloc : Option ℕ) (b n : ℕ) (io : Io) (given later : List Answer)
    → Waits b n io given later
    → Advances h b n later (watcher_handler h malloc io both later)
unfolding watcher_handler
handler-Advances h malloc b n io given later w =
    let e =
      ap (λ v. on_watch v h malloc io both later) w.watched
      ∙ resumes h malloc io later w.progress.buffer_op in
    subst (λ r. Advances h b n later r) (sym e)
      (ev_operation-Advances h malloc b n (record io { watch_type = watch_none }) later
        (stopped-Progress b n io w.progress) w.some_left w.serves)
