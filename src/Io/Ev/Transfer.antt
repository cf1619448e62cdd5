-- ===== src/Io/Ev/Transfer.antt =====
-- A transfer of a buffer that is repeated to its completion.
use shuttlesock.Base.{
  ℕ, ◌+◌, ◌-◌, ◌^◌, ◌≤◌, ◌<◌, ◌≡◌, refl, ap, ◌∙◌, ◌⊎◌, Bool, true, false, not, Option, some, List,
  [], ◌∷◌, ◌==◌, leb, add64, arith,
}
use shuttlesock.Io.{
  Opcode, op_none, op_readv, op_writev, op_read, op_write, op_sendmsg, op_sendto, op_send,
  op_recvmsg, op_recvfrom, op_recv, op_accept, op_connect, op_close, op_shutdown, watch_op_retry,
  Io, Handlers, watch_update, run_handler, update_closed, cleanup_op,
}
use shuttlesock.Io.Ev.{
  Answer, ok, err, eintr, eagain, waiting, resumed, update_and_check_completion, check_op, advance,
  after_check, after_ok, finish, wait_for, is_connect,
}

-- the operations on a plain buffer
abbrev pub is_buffer_op : Opcode → Bool
is_buffer_op op_read = true
is_buffer_op op_write = true
is_buffer_op op_sendto = true
is_buffer_op op_recvfrom = true
is_buffer_op op_send = true
is_buffer_op op_recv = true
is_buffer_op _ = false

-- Whether an operation that has a peer has the place of its address
abbrev pub has_address : Opcode → ℕ → Bool
has_address op_sendto sockaddr = not (sockaddr == 0)
has_address op_recvfrom sockaddr = not (sockaddr == 0)
has_address _ sockaddr = true

-- Of the `n` bytes at `b`, `result` are transferred.
pub record Progress (b n : ℕ) (io : Io) : Type 0 where
  pub buffer_op : is_buffer_op io.opcode ≡ true
  pub peer : has_address io.opcode io.sockaddr ≡ true
  pub repeats : io.op_repeat_to_completion ≡ true
  pub place : io.buf ≡ b + io.result
  pub left : io.result + io.len ≡ n
  pub in_memory : b + n < 2 ^ 63

-- Answers of a kernel that takes the rest in pieces, interrupted or delayed as often as it likes
abbrev pub Serves : ℕ → List Answer → Type 0
Serves r [] = ⊥
Serves r (err errno ∷ later) = ((errno ≡ eintr) ⊎ (errno ≡ eagain)) × Serves r later
Serves r (ok n ∷ later) = (0 < n) × ((n ≡ r) ⊎ ((n < r) × Serves (r - n) later))

abbrev pub with_closed : Io → Bool → Bool → Io
with_closed io r w = record io { closed_read = r; closed_write = w }

-- Nothing but the `closed` bits changes.
pub update_closed-fields :
    (io : Io) (op : Opcode) (k : ℕ)
    → (r : Bool) × (w : Bool) × (update_closed io op k ≡ with_closed io r w)
unfolding update_closed
update_closed-fields io op_read k = (_, _, refl)
update_closed-fields io op_readv k = (_, _, refl)
update_closed-fields io op_recvfrom k = (_, _, refl)
update_closed-fields io op_recv k = (_, _, refl)
update_closed-fields io op_recvmsg k = (_, _, refl)
update_closed-fields io op_write k = (_, _, refl)
update_closed-fields io op_writev k = (_, _, refl)
update_closed-fields io op_sendmsg k = (_, _, refl)
update_closed-fields io op_sendto k = (_, _, refl)
update_closed-fields io op_send k = (_, _, refl)
update_closed-fields io op_none k = (_, _, refl)
update_closed-fields io op_accept k = (_, _, refl)
update_closed-fields io op_connect k = (_, _, refl)
update_closed-fields io op_close k = (_, _, refl)
update_closed-fields io op_shutdown k = (_, _, refl)

pub check_op-advance :
    (op : Opcode) (malloc : Option ℕ) (io : Io) (k : ℕ)
    → is_buffer_op op ≡ true
    → (check_op op malloc io k ≡ advance io k) × (cleanup_op op io ≡ io) × (is_connect op ≡ false)
unfolding check_op cleanup_op
check_op-advance op_read malloc io k h = (refl, refl, refl)
check_op-advance op_write malloc io k h = (refl, refl, refl)
check_op-advance op_sendto malloc io k h = (refl, refl, refl)
check_op-advance op_recvfrom malloc io k h = (refl, refl, refl)
check_op-advance op_send malloc io k h = (refl, refl, refl)
check_op-advance op_recv malloc io k h = (refl, refl, refl)
check_op-advance op malloc io k h = absurd (ground (arith, h))

-- the state of an operation of which `k` bytes more are transferred
abbrev pub moved : Io → ℕ → Io
moved io k = record io { buf = add64 io.buf k; len = io.len - k; result = add64 io.result k }

pub moved-Progress :
    (b n : ℕ) (io : Io) (k : ℕ) → Progress b n io → k ≤ io.len → Progress b n (moved io k)
moved-Progress b n io k p le =
    let place = p.place in
    let left = p.left in
    let top = p.in_memory in
    record {
      buffer_op = p.buffer_op;
      peer = p.peer;
      repeats = p.repeats;
      place = omega (arith, place, left, top, le);
      left = omega (arith, place, left, top, le);
      in_memory = top;
    }

advance_eq :
    (io : Io) (k : ℕ)
    → k ≤ io.len
    → advance io k ≡ some (io.len - k == 0, record io { buf = add64 io.buf k; len = io.len - k })
unfolding advance
advance_eq io k le = let h : leb k io.len ≡ true = ground (arith, le) in ground (arith, h)

check_eq :
    (malloc : Option ℕ) (io : Io) (k : ℕ)
    → is_buffer_op io.opcode ≡ true
    → k ≤ io.len
    → update_and_check_completion malloc io k
      ≡ some (io.len - k == 0, record io { buf = add64 io.buf k; len = io.len - k })
unfolding update_and_check_completion
check_eq malloc io k op le =
    let (e, f, g) = check_op-advance io.opcode malloc io k op in e ∙ advance_eq io k le

after_ok_eq :
    (h : Handlers) (malloc : Option ℕ) (io : Io) (k : ℕ)
    → io.op_repeat_to_completion ≡ true
    → 0 < k
    → after_ok h malloc io k ≡ after_check h k (update_and_check_completion malloc io k)
unfolding after_ok
after_ok_eq h malloc io k rep pos =
    let nz : (k == 0) ≡ false = ground (arith, pos) in ground (arith, nz, rep)

-- A part of the rest
pub after_part :
    (h : Handlers) (malloc : Option ℕ) (b n : ℕ) (io : Io) (k : ℕ)
    → Progress b n io
    → 0 < k
    → k < io.len
    → after_ok h malloc io k
      ≡ waiting (watch_update (record (moved io k) { watch_type = watch_op_retry }))
unfolding wait_for
after_part h malloc b n io k p pos lt =
    let e = after_ok_eq h malloc io k p.repeats pos in
    let c = check_eq malloc io k p.buffer_op (omega arith) in
    let nz : (io.len - k == 0) ≡ false = ground (arith, lt) in
    e
    ∙ ap (after_check h k)
        (c ∙ ap (λ d. some (d, record io { buf = add64 io.buf k; len = io.len - k })) nz)

-- The whole rest
pub after_rest :
    (h : Handlers) (malloc : Option ℕ) (b n : ℕ) (io : Io)
    → Progress b n io
    → 0 < io.len
    → after_ok h malloc io io.len ≡ resumed (run_handler h (moved io io.len))
unfolding finish
after_rest h malloc b n io p pos =
    let e = after_ok_eq h malloc io io.len p.repeats pos in
    let c = check_eq malloc io io.len p.buffer_op (omega arith) in
    let z : (io.len - io.len == 0) ≡ true = ground arith in
    let (_, clean, _) =
      check_op-advance io.opcode malloc
        (record io { buf = add64 io.buf io.len; len = io.len - io.len }) 0 p.buffer_op in
    e
    ∙ ap (after_check h io.len)
        (c ∙ ap (λ d. some (d, record io { buf = add64 io.buf io.len; len = io.len - io.len })) z)
    ∙ ap (λ (x : Io). resumed (run_handler h (record x { result = add64 x.result io.len }))) clean
