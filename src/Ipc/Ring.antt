-- ===== src/Ipc/Ring.antt =====
-- src/ipc.c and src/include/shuttlesock/ipc.h: the ring buffer that a process receives from. Each
-- function here runs alone, so an `_Atomic` field is a plain one. An `int64_t` index is its bit
-- pattern; a pointer is its address; the 256 slots are functions of the slot number.
mod Window
pub mod Refine
pub mod Receive
use shuttlesock.Base.{
  ℕ, zero, suc, ◌+◌, ◌%◌, ◌^◌, Bool, true, false, Option, none, some, List, [], ◌∷◌, ◌==◌, ltb,
  if◌then◌else◌, add64, sub64, slt64,
}

-- a `uint8_t` code and a `void *`
pub record Message : Type 0 where
  pub code : ℕ
  pub ptr : ℕ

abbrev pub cmd_nil : ℕ
cmd_nil = 0

-- `shuso_ipc_ringbuf_t`
pub record Ring : Type 0 where
  pub next_read : ℕ
  pub next_write_reserve : ℕ
  pub next_write_release : ℕ
  pub full : Bool
  pub code : ℕ → ℕ
  pub ptr : ℕ → ℕ

-- a fresh channel: `calloc`, or an anonymous `mmap`
abbrev pub fresh : Ring
fresh = record {
  next_read = 0;
  next_write_reserve = 0;
  next_write_release = 0;
  full = false;
  code = λ _. 0;
  ptr = λ _. 0;
}

-- `a[i] = v`
abbrev pub store : (ℕ → ℕ) → ℕ → ℕ → ℕ → ℕ
store a i v j = if i == j then v else a j

-- `ipc_reserve_write_index`: the index, if there is one
pub reserve_write_index : Ring → Option ℕ × Ring
reserve_write_index b =
    if b.full
    then (none, b)
    else let next = b.next_write_reserve in
      let b' = record b { next_write_reserve = add64 next 1 } in
      if b'.full
      then (none, b')
      else if slt64 255 (sub64 next b'.next_read)
      then (none, record b' { full = true })
      else (some next, b')

-- `ipc_release_write_index`
pub release_write_index : Ring → Ring
release_write_index b = record b { next_write_release = add64 b.next_write_release 1 }

-- the writes of `ipc_send_direct` to slot `(uint8_t)index`
pub fill_slot : Ring → ℕ → Message → Ring
unfolding release_write_index
fill_slot b index m = release_write_index (record b {
  ptr = store b.ptr (index % 2 ^ 8) m.ptr;
  code = store b.code (index % 2 ^ 8) m.code;
})

-- `ipc_send_direct`: whether the message is in the ring, and its reader is notified; `none` is the
-- failed assertion that the index is not negative.
pub send_direct : Ring → Message → Option (Bool × Ring)
unfolding reserve_write_index fill_slot
send_direct b m =
    let (reserved, b') = reserve_write_index b in
    elim reserved [
      | none ↦ some (false, b')
      | some index ↦ if slt64 index 0 then none else some (true, fill_slot b' index m)
    ]

-- How `ipc_receive` ends: it has called the handlers with the messages; or its assertion fails; or
-- it has not come to the end of its loop in so many rounds.
pub data Received : Type 0 where
  received : List Message → Ring → Received
  assertion_failed : Received
  looping : Received

-- The part behind the loop.
pub clear_full : List Message → Ring → Received
clear_full ms b =
    if b.full
    then (if b.next_read == b.next_write_release
        then received ms (record b { next_write_reserve = b.next_read; full = false })
        else assertion_failed)
    else received ms b

abbrev pub and_first : Message → Received → Received
and_first m (received ms b) = received (m ∷ ms) b
and_first m assertion_failed = assertion_failed
and_first m looping = looping

-- The loop of `ipc_receive`, and what is behind it, for so many rounds. `read_index` and
-- `next_read` agree all along, since the reader alone moves them. The handlers' own work is not
-- part of it.
pub receive_loop : ℕ → Ring → Received
unfolding clear_full
receive_loop zero b = looping
receive_loop (suc fuel) b =
    let i = b.next_read % 2 ^ 8 in
    let c = b.code i in
    let retry = receive_loop fuel b in
    let rest =
      receive_loop fuel
        (record b { code = store b.code i cmd_nil; next_read = add64 b.next_read 1 }) in
    if slt64 b.next_read b.next_write_release
    then (if c == cmd_nil then retry else and_first (record { code = c; ptr = b.ptr i }) rest)
    else clear_full [] b

-- `ipc_receive`, for so many rounds of its loop
pub receive : ℕ → Ring → Received
unfolding receive_loop
receive fuel b = if slt64 b.next_read 0 then assertion_failed else receive_loop fuel b
