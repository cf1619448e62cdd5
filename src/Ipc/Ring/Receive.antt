-- ===== src/Ipc/Ring/Receive.antt =====
-- The reader takes every message of the ring, in order, and leaves it empty and open.
use shuttlesock.Base.{
  ℕ, zero, suc, ◌+◌, ◌-◌, ◌^◌, ◌≤◌, ◌<◌, ◌≡◌, refl, ◌≢◌, ap, ◌∙◌, true, false, [], ◌∷◌, arith, ◌==◌,
  length, add64, slt64, if◌then◌else◌, Bool-cases, inl, inr, ◌⊎◌, sym,
}
use shuttlesock.Ipc.Ring.{
  assertion_failed, cmd_nil, Ring, store, received, clear_full, and_first, receive_loop, receive,
}
use shuttlesock.Ipc.Ring.Window.{slot, message, window, window-clear, length-window}
use shuttlesock.Ipc.Ring.Refine.{contents, IsValid}

-- The ring during the loop
record Draining (b : Ring) : Type 0 where
  read_le : b.next_read ≤ b.next_write_release
  bound : b.next_write_release ≤ b.next_read + 256
  open_lem : b.full ≡ false → b.next_write_reserve ≡ b.next_write_release
  filled : (j : ℕ) → b.next_read ≤ j → j < b.next_write_release → b.code (slot j) ≢ cmd_nil

-- the ring without its oldest message
rest_of : Ring → Ring
rest_of b = record b {
  code = store b.code (slot b.next_read) cmd_nil;
  next_read = add64 b.next_read 1;
}

receive_step :
    (fuel : ℕ) (b : Ring)
    → slt64 b.next_read b.next_write_release ≡ true
    → (b.code (slot b.next_read) == cmd_nil) ≡ false
    → receive_loop (suc fuel) b
      ≡ and_first (message b.code b.ptr b.next_read) (receive_loop fuel (rest_of b))
unfolding receive_loop rest_of
receive_step fuel b h k = ground (arith, h, k)

receive_end :
    (fuel : ℕ) (b : Ring)
    → slt64 b.next_read b.next_write_release ≡ false
    → receive_loop (suc fuel) b ≡ clear_full [] b
unfolding receive_loop
receive_end fuel b h = ground (arith, h)

rest_of-Draining :
    (b : Ring)
    → Draining b
    → b.next_read < b.next_write_release
    → b.next_write_release < 2 ^ 62
    → Draining (rest_of b)
unfolding rest_of
rest_of-Draining b d lt small =
    let f = d.filled in
    record {
      read_le = omega arith;
      bound = let u = d.bound in omega arith;
      open_lem = d.open_lem;
      filled = λ j lo hi.
          let u = d.bound in
          let ne : slot b.next_read ≢ slot j = omega arith in
          let at = f j (omega arith) hi in λ z. at (ground (arith, ne, z));
    }

rest_of-contents :
    (b : Ring)
    → Draining b
    → b.next_read < b.next_write_release
    → b.next_write_release < 2 ^ 62
    → contents b ≡ message b.code b.ptr b.next_read ∷ contents (rest_of b)
unfolding rest_of
rest_of-contents b d lt small =
    let u = d.bound in
    let n : b.next_write_release - b.next_read ≡ suc (b.next_write_release - add64 b.next_read 1) =
      omega arith in
    let i : add64 b.next_read 1 ≡ b.next_read + 1 = omega arith in
    let k = b.next_write_release - add64 b.next_read 1 in
    let clear =
      window-clear b.code b.ptr cmd_nil (add64 b.next_read 1) k b.next_read (omega arith)
        (omega arith) in
    let tail = ap (λ x. window b.code b.ptr x k) (sym i) ∙ sym clear in
    rw n (ap (λ ms. message b.code b.ptr b.next_read ∷ ms) tail)

record Drained (b : Ring) (b' : Ring) : Type 0 where
  valid : IsValid b'
  read_all : b'.next_read ≡ b.next_write_release
  same_release : b'.next_write_release ≡ b.next_write_release
  opened : b'.full ≡ false

clear_full-Drained :
    (b : Ring)
    → Draining b
    → b.next_read ≡ b.next_write_release
    → (b' : Ring) × (clear_full [] b ≡ received [] b') × Drained b b'
unfolding clear_full
clear_full-Drained b d e = elim (Bool-cases b.full) [
  | inl h ↦
      let same : (b.next_read == b.next_write_release) ≡ true = ground (arith, e) in
      let b' : Ring = record b { next_write_reserve = b.next_read; full = false } in
      (
        b',
        ground (arith, h, same),
        record {
          valid = record {
            read_le = d.read_le;
            bound = d.bound;
            open_lem = λ _. e;
            shut = λ k. absurd (ground (arith, k));
            filled = d.filled;
          };
          read_all = e;
          same_release = refl;
          opened = refl;
        },
      )
  | inr h ↦ (
    b,
    ground (arith, h),
    record {
      valid = record {
        read_le = d.read_le;
        bound = d.bound;
        open_lem = d.open_lem;
        shut = λ k. absurd (ground (arith, h, k));
        filled = d.filled;
      };
      read_all = e;
      same_release = refl;
      opened = h;
    },
  )
]

rest_of-length :
    (b : Ring) (n : ℕ)
    → b.next_read < b.next_write_release
    → b.next_write_release < 2 ^ 62
    → b.next_write_release - b.next_read ≤ suc n
    → (rest_of b).next_write_release - (rest_of b).next_read ≤ n
unfolding rest_of
rest_of-length b n lt small len = omega arith

rest_of-small : (b : Ring) → b.next_write_release < 2 ^ 62 → (rest_of b).next_write_release < 2 ^ 62
unfolding rest_of
rest_of-small b h = h

rest_of-Drained : (b b' : Ring) → Drained (rest_of b) b' → Drained b b'
unfolding rest_of
rest_of-Drained b b' t = record {
  valid = t.valid;
  read_all = t.read_all;
  same_release = t.same_release;
  opened = t.opened;
}

le_cases : (i j : ℕ) → i ≤ j → (i ≡ j) ⊎ (i < j)
le_cases i j h = ground arith

drains_at_end :
    (fuel : ℕ) (b : Ring)
    → Draining b
    → b.next_read ≡ b.next_write_release
    → (b' : Ring) × (receive_loop (suc fuel) b ≡ received (contents b) b') × Drained b b'
drains_at_end fuel b d e =
    let stop : slt64 b.next_read b.next_write_release ≡ false = ground (arith, e) in
    let (b', eq, t) = clear_full-Drained b d e in
    let len : 0 ≡ b.next_write_release - b.next_read = omega arith in
    let none_left : [] ≡ contents b = ap (λ k. window b.code b.ptr b.next_read k) len in
    (b', receive_end fuel b stop ∙ eq ∙ ap (λ ms. received ms b') none_left, t)

receive-drains :
    (fuel : ℕ) (b : Ring)
    → Draining b
    → b.next_write_release < 2 ^ 62
    → b.next_write_release - b.next_read ≤ fuel
    → (b' : Ring) × (receive_loop (suc fuel) b ≡ received (contents b) b') × Drained b b'
receive-drains zero b d small len = let le = d.read_le in drains_at_end 0 b d (omega arith)
receive-drains (suc fuel) b d small len =
    let le = d.read_le in
    elim (le_cases b.next_read b.next_write_release le) [
      | inl e ↦ drains_at_end (suc fuel) b d e
      | inr lt ↦
          let go : slt64 b.next_read b.next_write_release ≡ true = ground (arith, lt) in
          let at = d.filled b.next_read (omega arith) lt in
          let code_ne : (b.code (slot b.next_read) == cmd_nil) ≡ false = ground (arith, at) in
          let (b', eq, t) =
            receive-drains fuel (rest_of b) (rest_of-Draining b d lt small) (rest_of-small b small)
              (rest_of-length b fuel lt small len) in
          (
            b',
            receive_step (suc fuel) b go code_ne
                ∙ ap (and_first (message b.code b.ptr b.next_read)) eq
                ∙ ap (λ ms. received ms b') (sym (rest_of-contents b d lt small)),
            rest_of-Drained b b' t,
          )
    ]

-- From any state between two calls, with one round more than there are messages or any greater
-- number of rounds, `ipc_receive` ends: it has handled exactly the messages of the ring, oldest
-- first. The ring is then empty, not full, and again in a state between two calls; no index of a
-- writer has moved but for the reservations that are given back.
pub receive-contents :
    (fuel : ℕ) (b : Ring)
    → IsValid b
    → b.next_write_release < 2 ^ 62
    → length (contents b) ≤ fuel
    → (b' : Ring) × (receive (suc fuel) b ≡ received (contents b) b')
      × IsValid b'
      × (contents b' ≡ [])
      × (b'.full ≡ false)
      × (b'.next_write_release ≡ b.next_write_release)
unfolding receive
receive-contents fuel b v small enough =
    let le = v.read_le in
    let d : Draining b = record {
      read_le = le;
      bound = v.bound;
      open_lem = v.open_lem;
      filled = v.filled;
    } in
    let len = length-window b.code b.ptr b.next_read (b.next_write_release - b.next_read) in
    let (b', eq, t) = receive-drains fuel b d small (omega (arith, len, enough)) in
    let left : b'.next_write_release - b'.next_read ≡ 0 =
      let e = t.read_all in let f = t.same_release in omega arith in
    (
      b',
      nonneg ∙ eq,
      t.valid,
      ap (λ k. window b'.code b'.ptr b'.next_read k) left,
      t.opened,
      t.same_release,
    )
  where
    nonneg :
        (if slt64 b.next_read 0 then assertion_failed else receive_loop (suc fuel) b)
        ≡ receive_loop (suc fuel) b
    nonneg = let le = v.read_le in ground (arith, le, small)
