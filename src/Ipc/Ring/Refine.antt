-- ===== src/Ipc/Ring/Refine.antt =====
-- A ring whose calls run one at a time behaves as a queue of at most 256 messages.
use shuttlesock.Base.{
  ℕ, suc, ◌+◌, ◌-◌, ◌%◌, ◌^◌, ◌≤◌, ◌<◌, ◌≡◌, refl, ◌≢◌, ap, Bool, true, false, Option, none, some,
  List, [], ◌∷◌, ◌++◌, arith, ◌==◌, length, if◌then◌else◌, add64, sub64, slt64, Bool-cases, inl,
  inr,
}
use shuttlesock.Ipc.Ring.{Message, cmd_nil, Ring, store, send_direct}
use shuttlesock.Ipc.Ring.Window.{slot, window, length-window, window-extend}

-- What the ring holds, oldest first.
abbrev pub contents : Ring → List Message
contents b = window b.code b.ptr b.next_read (b.next_write_release - b.next_read)

-- The state of a ring between two calls. A reservation that failed is given back by the reader.
pub record IsValid (b : Ring) : Type 0 where
  pub read_le : b.next_read ≤ b.next_write_release
  pub bound : b.next_write_release ≤ b.next_read + 256
  pub open_lem : b.full ≡ false → b.next_write_reserve ≡ b.next_write_release
  pub shut :
      b.full ≡ true
      → (b.next_write_reserve ≡ b.next_write_release + 1)
        × (b.next_write_release ≡ b.next_read + 256)
  pub filled : (j : ℕ) → b.next_read ≤ j → j < b.next_write_release → b.code (slot j) ≢ cmd_nil

pub contents-bound : (b : Ring) → IsValid b → length (contents b) ≤ 256
contents-bound b v =
    let top = v.bound in
    let len = length-window b.code b.ptr b.next_read (b.next_write_release - b.next_read) in
    omega (arith, top, len)

-- The queue's own `send`: whether there was room.
abbrev pub offer : List Message → Message → Bool × List Message
offer q m = if length q == 256 then (false, q) else (true, q ++ m ∷ [])

abbrev pub Sends : Ring → Message → Option (Bool × Ring) → Type 0
Sends b m none = ⊥
Sends b m (some (done, b')) =
    ((done, contents b') ≡ offer (contents b) m)
    × IsValid b'
    × (b'.next_write_release ≡ (if done then b.next_write_release + 1 else b.next_write_release))

send_shut : (b : Ring) (m : Message) → b.full ≡ true → send_direct b m ≡ some (false, b)
unfolding send_direct
send_shut b m h = ground (arith, h)

send_full :
    (b : Ring) (m : Message)
    → b.full ≡ false
    → slt64 255 (sub64 b.next_write_reserve b.next_read) ≡ true
    → send_direct b m
      ≡ some (false, record b { next_write_reserve = add64 b.next_write_reserve 1; full = true })
unfolding send_direct
send_full b m h k = ground (arith, h, k)

filled_ring : Ring → Message → Ring
filled_ring b m = record b {
  next_write_reserve = add64 b.next_write_reserve 1;
  next_write_release = add64 b.next_write_release 1;
  ptr = store b.ptr (b.next_write_reserve % 2 ^ 8) m.ptr;
  code = store b.code (b.next_write_reserve % 2 ^ 8) m.code;
}

send_room :
    (b : Ring) (m : Message)
    → b.full ≡ false
    → slt64 255 (sub64 b.next_write_reserve b.next_read) ≡ false
    → slt64 b.next_write_reserve 0 ≡ false
    → send_direct b m ≡ some (true, filled_ring b m)
unfolding send_direct filled_ring
send_room b m h k l = ground (arith, h, k, l)

store_filled : (a : ℕ → ℕ) (i v j : ℕ) → v ≢ 0 → (i ≢ j → a j ≢ 0) → store a i v j ≢ 0
store_filled a i v j hv ha = elim (Bool-cases (i == j)) [
  | inl e ↦ λ z. hv (ground (arith, e, z))
  | inr n ↦ λ z. ha (ground (arith, n)) (ground (arith, n, z))
]

below_new :
    (reserve release j : ℕ)
    → reserve ≡ release
    → release + 1 < 2 ^ 62
    → slot reserve ≢ slot j
    → j < add64 release 1
    → j < release
below_new reserve release j e small ne hi = omega arith

filled_ring-IsValid :
    (b : Ring) (m : Message)
    → IsValid b
    → m.code ≢ cmd_nil
    → b.full ≡ false
    → b.next_write_release < b.next_read + 256
    → b.next_write_release + 1 < 2 ^ 62
    → IsValid (filled_ring b m)
unfolding filled_ring
filled_ring-IsValid b m v code_ne h room small =
    let e = v.open_lem h in
    let f = v.filled in
    record {
      read_le = let le = v.read_le in omega arith;
      bound = omega arith;
      open_lem = λ _. ap (λ i. add64 i 1) e;
      shut = λ k. absurd (ground (arith, k, h));
      filled = λ j lo hi.
          store_filled b.code (slot b.next_write_reserve) m.code (slot j) code_ne
            (λ ne. f j lo (below_new b.next_write_reserve b.next_write_release j e small ne hi));
    }

filled_ring-release :
    (b : Ring) (m : Message)
    → b.next_write_release + 1 < 2 ^ 62
    → (filled_ring b m).next_write_release ≡ b.next_write_release + 1
unfolding filled_ring
filled_ring-release b m small = omega arith

filled_ring-contents :
    (b : Ring) (m : Message)
    → IsValid b
    → b.full ≡ false
    → b.next_write_release < b.next_read + 256
    → b.next_write_release + 1 < 2 ^ 62
    → contents (filled_ring b m) ≡ contents b ++ m ∷ []
unfolding filled_ring
filled_ring-contents b m v h room small =
    let e = v.open_lem h in
    let le = v.read_le in
    let n : add64 b.next_write_release 1 - b.next_read ≡ suc (b.next_write_release - b.next_read) =
      omega arith in
    let ext =
      window-extend b.code b.ptr m.code m.ptr b.next_read (b.next_write_release - b.next_read)
        b.next_write_reserve (omega arith) (omega arith) in
    rw n ext

-- The call is the queue's `send`
pub send-Sends :
    (b : Ring) (m : Message)
    → IsValid b
    → m.code ≢ cmd_nil
    → b.next_write_release + 1 < 2 ^ 62
    → Sends b m (send_direct b m)
send-Sends b m v code_ne small =
    let le = v.read_le in
    let top = v.bound in
    let len = length-window b.code b.ptr b.next_read (b.next_write_release - b.next_read) in
    elim (Bool-cases b.full) [
      | inl h ↦
          let s = v.shut h in
          let at_cap : (length (contents b) == 256) ≡ true = ground (arith, len, s) in
          rw (send_shut b m h, at_cap) (refl, v, refl)
      | inr h ↦
          let e = v.open_lem h in
          elim (Bool-cases (length (contents b) == 256)) [
            | inl at_cap ↦
                let n : b.next_write_release ≡ b.next_read + 256 = ground (arith, len, at_cap) in
                let s : slt64 255 (sub64 b.next_write_reserve b.next_read) ≡ true =
                  ground (arith, e, n) in
                rw (send_full b m h s, at_cap)
                  (
                    refl,
                    record {
                      read_le = le;
                      bound = top;
                      open_lem = λ k. absurd (ground (arith, k));
                      shut = λ k. (omega arith, n);
                      filled = v.filled;
                    },
                    refl,
                  )
            | inr below ↦
                let n : b.next_write_release < b.next_read + 256 = ground (arith, len, below) in
                let s : slt64 255 (sub64 b.next_write_reserve b.next_read) ≡ false =
                  ground (arith, e, n) in
                let p : slt64 b.next_write_reserve 0 ≡ false = ground (arith, e) in
                rw (send_room b m h s p, below)
                  (
                    ap (λ q. (true, q)) (filled_ring-contents b m v h n small),
                    filled_ring-IsValid b m v code_ne h n small,
                    filled_ring-release b m small,
                  )
          ]
    ]
