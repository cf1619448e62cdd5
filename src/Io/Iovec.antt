-- ===== src/Io/Iovec.antt =====
-- src/io/io.c: what is left of an operation of which a part is done.
pub mod Account
pub mod Cut
use shuttlesock.Base.{
  ℕ, zero, suc, ◌+◌, ◌-◌, ◌*◌, ◌%◌, ◌^◌, Bool, true, false, Option, none, some, ◌==◌, ltb,
  if◌then◌else◌, add64, sub64, bind_crash,
}
use shuttlesock.Io.{
  Opcode, Iov, Msg, Io, minus_one, op_none, op_readv, op_writev, op_read, op_write, op_sendmsg,
  op_sendto, op_send, op_recvmsg, op_recvfrom, op_recv, op_accept, op_connect, op_close,
  op_shutdown,
}

-- What a call returns: the value and what the pointers point to then. `none` is a failed
-- assertion, or an access outside of an array.
pub record Left : Type 0 where
  pub done : Bool
  pub io : Io
  pub iov : ℕ
  pub iovcnt : ℕ

-- the address of element `i`
abbrev pub at : ℕ → ℕ → ℕ
at iov i = add64 iov (16 * i)

abbrev pub store_iov : (ℕ → Iov) → ℕ → Iov → ℕ → Iov
store_iov m a v i = if i == a then v else m i

-- The copy loop, for `i` up to `i + n`, of elements into an array of `cap`
pub copy_iovs : (ℕ → Iov) → (tmp iov offset cap : ℕ) → (i n : ℕ) → Option (ℕ → Iov)
copy_iovs m tmp iov offset cap i zero = some m
copy_iovs m tmp iov offset cap i (suc n) =
    let rest =
      copy_iovs (store_iov m (at tmp i) (m (at iov (i + offset)))) tmp iov offset cap (i + 1) n in
    if ltb i cap then rest else none

-- `io_iovec_update_on_incomplete_op` with `iov_start_offset` 0
pub skip_iovs : Io → (iov iovcnt offset : ℕ) → Option Left
skip_iovs io iov iovcnt offset =
    let io' = if io.sockaddr == 0 then record io { sockaddr = iov } else io in
    if ltb offset iovcnt
    then some (record { done = true; io = io'; iov = at iov offset; iovcnt = iovcnt - offset })
    else none

-- With an array copied to `tmp`
pub cut_first : Io → (ℕ → Iov) → (tmp iov iovcnt offset start : ℕ) → Option Left
cut_first io m tmp iov iovcnt offset start =
    let first = m tmp in
    let cut : Iov = record {
      iov_base = add64 first.iov_base start;
      iov_len = first.iov_len - start;
    } in
    if ltb start first.iov_len
    then some (record {
      done = true;
      io = record io {
        iovs = store_iov m tmp cut;
        flags = tmp;
        sockaddr = if io.sockaddr == 0 then iov else io.sockaddr;
      };
      iov = tmp;
      iovcnt = iovcnt - offset;
    })
    else none

-- `io_iovec_update_on_incomplete_op`, with what `malloc` gives (`NULL` is `none`, and `errno` is
-- `ENOMEM`)
pub update_on_incomplete : Option ℕ → Io → (iov iovcnt offset start : ℕ) → Option Left
unfolding copy_iovs skip_iovs cut_first
update_on_incomplete malloc io iov iovcnt offset start =
    if start == 0
    then skip_iovs io iov iovcnt offset
    else if io.flags == 0
    then (if ltb offset iovcnt
        then elim malloc [
          | none ↦ some (record {
            done = false;
            io = record io { error = 12; result = minus_one };
            iov = iov;
            iovcnt = iovcnt;
          })
          | some tmp ↦
              bind_crash (copy_iovs io.iovs tmp iov offset (iovcnt - offset) 0 (iovcnt + offset))
                (λ m. cut_first io m tmp iov iovcnt offset start)
        ]
        else none)
    else if io.sockaddr == 0
    then none
    else if ltb start (io.iovs (at iov offset)).iov_len
    then (if ltb offset iovcnt
        then some (record { done = true; io = io; iov = at iov offset; iovcnt = iovcnt - offset })
        else none)
    else none

-- the end of the loop: whether the operation is complete, as the update succeeded or not
abbrev pub unless_error : Option Left → Option Left
unless_error none = none
unless_error (some l) =
    if l.done
    then some (record l { done = false })
    else if l.io.error == 0
    then none
    else some (record l { done = true })

-- `io_iovec_op_update_and_check_completion`, from element `i` on, of which `n` are left
pub account : Option ℕ → Io → (iov iovcnt i n unaccounted : ℕ) → Option Left
unfolding update_on_incomplete
account malloc io iov iovcnt i zero unaccounted =
    if unaccounted == 0
    then some (record { done = true; io = io; iov = iov; iovcnt = iovcnt })
    else unless_error (update_on_incomplete malloc io iov iovcnt i 0)
account malloc io iov iovcnt i (suc n) unaccounted =
    let len = (io.iovs (at iov i)).iov_len in
    let rest = account malloc io iov iovcnt (i + 1) n (unaccounted - len) in
    if unaccounted == 0
    then some (record { done = true; io = io; iov = iov; iovcnt = iovcnt })
    else if ltb unaccounted len
    then unless_error (update_on_incomplete malloc io iov iovcnt i unaccounted)
    else rest

pub iovec_check_completion : Option ℕ → Io → (iov iovcnt written : ℕ) → Option Left
unfolding account
iovec_check_completion malloc io iov iovcnt written = account malloc io iov iovcnt 0 iovcnt written
