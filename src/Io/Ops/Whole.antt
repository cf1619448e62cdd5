-- ===== src/Io/Ops/Whole.antt =====
-- A read or a write from its start until its handler runs.
use shuttlesock.Base.{
  ℕ, zero, suc, ◌+◌, ◌^◌, ◌≤◌, ◌<◌, ◌≡◌, refl, sym, ap, subst, ◌∙◌, inl, inr, true, false, not,
  ◌==◌, Bool, Option, none, some, List, length, arith,
}
use shuttlesock.Io.{
  Opcode, op_read, op_write, op_sendto, op_send, op_recvfrom, op_recv, Io, Handlers, run_handler,
}
use shuttlesock.Io.Ev.{Answer, waiting, resumed, crashed, ev_operation, watcher_handler}
use shuttlesock.Io.Ev.Transfer.{is_buffer_op, has_address, Progress, Serves}
use shuttlesock.Io.Ev.Complete.{both, Advances, ev_operation-Advances, handler-Advances}
use shuttlesock.Io.Ops.{
  World, Result, load, prepared, op_run_new, write, read, send, recv, sendto, recvfrom, flagged,
  addressed,
}

-- The loop: as long as the operation waits, its watcher reports that the descriptor is ready,
-- `fuel` times at most.
pub drive : ℕ → Handlers → Option ℕ → Result → Result
drive fuel h malloc none = none
drive fuel h malloc (some (resumed io, later)) = some (resumed io, later)
drive fuel h malloc (some (crashed, later)) = some (crashed, later)
drive zero h malloc (some (waiting io, later)) = none
drive (suc fuel) h malloc (some (waiting io, later)) =
    drive fuel h malloc (watcher_handler h malloc io both later)

-- The handlers run with the whole buffer transferred.
pub Completes : Handlers → (b n : ℕ) → Result → Type 0
Completes h b n r =
    (io : Io) × (later : List Answer) × (r ≡ some (resumed (run_handler h io), later))
    × (io.result ≡ n)
    × (io.buf ≡ b + n)
    × (io.len ≡ 0)

drive-Completes :
    (fuel : ℕ) (h : Handlers) (malloc : Option ℕ) (b n : ℕ) (given : List Answer) (r : Result)
    → Advances h b n given r
    → length given ≤ fuel
    → Completes h b n (drive fuel h malloc r)
unfolding drive Completes Advances
drive-Completes fuel h malloc b n given r (inr (io, later, e, p, z)) le =
    let place = p.place in
    let left = p.left in
    (
      io,
      later,
      ap (drive fuel h malloc) e,
      omega (arith, left, z),
      omega (arith, place, left, z),
      z,
    )
drive-Completes zero h malloc b n given r (inl (io, later, e, w)) le =
    absurd (let f = w.fewer in omega (arith, f, le))
drive-Completes (suc fuel) h malloc b n given r (inl (io, later, e, w)) le =
    let f = w.fewer in
    let (end, rest, eq, t1, t2, t3) =
      drive-Completes fuel h malloc b n later (watcher_handler h malloc io both later)
        (handler-Advances h malloc b n io given later w) (omega (arith, f, le)) in
    (end, rest, ap (drive (suc fuel) h malloc) e ∙ eq, t1, t2, t3)

prepared-Progress :
    (io : Io) (op : Opcode) (b n : ℕ)
    → is_buffer_op op ≡ true
    → has_address op io.sockaddr ≡ true
    → b + n < 2 ^ 63
    → Progress b n (prepared io op b n false false) × ((prepared io op b n false false).len ≡ n)
unfolding prepared load
prepared-Progress io op_read b n h g top = (
  record {
    buffer_op = refl;
    peer = g;
    repeats = refl;
    place = omega arith;
    left = omega arith;
    in_memory = top;
  },
  refl,
)
prepared-Progress io op_write b n h g top = (
  record {
    buffer_op = refl;
    peer = g;
    repeats = refl;
    place = omega arith;
    left = omega arith;
    in_memory = top;
  },
  refl,
)
prepared-Progress io op_sendto b n h g top = (
  record {
    buffer_op = refl;
    peer = g;
    repeats = refl;
    place = omega arith;
    left = omega arith;
    in_memory = top;
  },
  refl,
)
prepared-Progress io op_send b n h g top = (
  record {
    buffer_op = refl;
    peer = g;
    repeats = refl;
    place = omega arith;
    left = omega arith;
    in_memory = top;
  },
  refl,
)
prepared-Progress io op_recvfrom b n h g top = (
  record {
    buffer_op = refl;
    peer = g;
    repeats = refl;
    place = omega arith;
    left = omega arith;
    in_memory = top;
  },
  refl,
)
prepared-Progress io op_recv b n h g top = (
  record {
    buffer_op = refl;
    peer = g;
    repeats = refl;
    place = omega arith;
    left = omega arith;
    in_memory = top;
  },
  refl,
)
prepared-Progress io op b n h g top = absurd (ground (arith, h))

op_run_new-Completes :
    (fuel : ℕ) (w : World) (io : Io) (op : Opcode) (b n : ℕ)
    → is_buffer_op op ≡ true
    → has_address op io.sockaddr ≡ true
    → 0 < n
    → b + n < 2 ^ 63
    → Serves n w.answers
    → length w.answers ≤ fuel
    → Completes w.handlers b n (drive fuel w.handlers w.malloc (op_run_new w io op b n false false))
unfolding op_run_new
op_run_new-Completes fuel w io op b n h g pos top s le =
    let (p, len) = prepared-Progress io op b n h g top in
    let x = prepared io op b n false false in
    drive-Completes fuel w.handlers w.malloc b n w.answers
      (ev_operation w.handlers w.malloc x w.answers)
      (ev_operation-Advances w.handlers w.malloc b n x w.answers p (omega (arith, len, pos))
        (subst (λ r. Serves r w.answers) (sym len) s))
      le

-- The functions that transfer a buffer to its end
pub data Transfer : Type 0 where
  a_read : Transfer
  a_write : Transfer
  a_recv : ℕ → Transfer
  a_send : ℕ → Transfer
  a_recvfrom : (sender flags : ℕ) → Transfer
  a_sendto : (to flags : ℕ) → Transfer

pub start : Transfer → World → Io → (b n : ℕ) → Result
start a_read w io b n = read w io b n
start a_write w io b n = write w io b n
start (a_recv flags) w io b n = recv w io b n flags
start (a_send flags) w io b n = send w io b n flags
start (a_recvfrom sender flags) w io b n = recvfrom w io b n sender flags
start (a_sendto to flags) w io b n = sendto w io b n to flags

-- Whether a function that takes the place of an address is given one
abbrev pub addresses : Transfer → Bool
addresses (a_recvfrom sender flags) = not (sender == 0)
addresses (a_sendto to flags) = not (to == 0)
addresses _ = true

-- A read, write, recv, send, recvfrom or sendto of the `n` bytes at `b`, with `n` not 0 and the
-- bytes below 2^63, and for recvfrom and sendto an address that is not NULL, if the system calls take
-- the bytes in pieces, of any size that is not 0, and
-- are in between interrupted (EINTR) or not ready (EAGAIN), any number of times: with a round of
-- the watcher for each answer, the operation ends in the handlers' run, with the result `n` and
-- all of the buffer behind it, and at no time fails an assertion.
pub start-Completes :
    (fuel : ℕ) (t : Transfer) (w : World) (io : Io) (b n : ℕ)
    → addresses t ≡ true
    → 0 < n
    → b + n < 2 ^ 63
    → Serves n w.answers
    → length w.answers ≤ fuel
    → Completes w.handlers b n (drive fuel w.handlers w.malloc (start t w io b n))
unfolding start read write recv send recvfrom sendto
start-Completes fuel a_read w io b n g pos top s le =
    op_run_new-Completes fuel w io op_read b n refl refl pos top s le
start-Completes fuel a_write w io b n g pos top s le =
    op_run_new-Completes fuel w io op_write b n refl refl pos top s le
start-Completes fuel (a_recv flags) w io b n g pos top s le =
    op_run_new-Completes fuel w (flagged io flags) op_recv b n refl refl pos top s le
start-Completes fuel (a_send flags) w io b n g pos top s le =
    op_run_new-Completes fuel w (flagged io flags) op_send b n refl refl pos top s le
start-Completes fuel (a_recvfrom a flags) w io b n g pos top s le =
    op_run_new-Completes fuel w (addressed io a flags) op_recvfrom b n refl g pos top s le
start-Completes fuel (a_sendto a flags) w io b n g pos top s le =
    op_run_new-Completes fuel w (addressed io a flags) op_sendto b n refl g pos top s le
