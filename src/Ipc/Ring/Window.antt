-- ===== src/Ipc/Ring/Window.antt =====
-- What lies in consecutive slots of a ring, and that writes elsewhere leave it.
use shuttlesock.Base.{
  ℕ, zero, suc, ◌+◌, ◌%◌, ◌^◌, ◌≤◌, ◌<◌, ◌≡◌, refl, ◌≢◌, ap, List, [], ◌∷◌, ◌++◌, arith, length,
}
use shuttlesock.Ipc.Ring.{Message, store}

abbrev pub slot : ℕ → ℕ
slot i = i % 2 ^ 8

abbrev pub message : (code ptr : ℕ → ℕ) → ℕ → Message
message code ptr i = record { code = code (slot i); ptr = ptr (slot i) }

-- the messages of indices `i` to `i + n`
abbrev pub window : (code ptr : ℕ → ℕ) → ℕ → ℕ → List Message
window code ptr i zero = []
window code ptr i (suc n) = message code ptr i ∷ window code ptr (i + 1) n

pub length-window : (code ptr : ℕ → ℕ) (i n : ℕ) → length (window code ptr i n) ≡ n
length-window code ptr i zero = refl
length-window code ptr i (suc n) = ap suc (length-window code ptr (i + 1) n)

store_ne : (a : ℕ → ℕ) (i j v : ℕ) → i ≢ j → store a i v j ≡ a j
store_ne a i j v h = ground arith

store_self : (a : ℕ → ℕ) (i v : ℕ) → store a i v i ≡ v
store_self a i v = ground arith

-- Indices less than 256 apart have different slots.
pub slot_ne : (i j : ℕ) → i < j → j < i + 256 → slot j ≢ slot i
slot_ne i j h k = omega arith

-- A message written behind the window leaves it.
pub window-store :
    (code ptr : ℕ → ℕ) (c p i n j : ℕ)
    → i + n ≤ j
    → j < i + 256
    → window (store code (slot j) c) (store ptr (slot j) p) i n ≡ window code ptr i n
window-store code ptr c p i zero j h k = refl
window-store code ptr c p i (suc n) j h k =
    let ne = slot_ne i j (omega arith) k in
    ground (
      arith,
      store_ne code (slot j) (slot i) c ne,
      store_ne ptr (slot j) (slot i) p ne,
      window-store code ptr c p (i + 1) n j (omega arith) (omega arith),
    )

-- Written just behind it, it extends the window.
pub window-extend :
    (code ptr : ℕ → ℕ) (c p i n j : ℕ)
    → i + n ≡ j
    → n < 256
    → window (store code (slot j) c) (store ptr (slot j) p) i (suc n)
      ≡ window code ptr i n ++ record { code = c; ptr = p } ∷ []
window-extend code ptr c p i zero j h k =
    let e : slot i ≡ slot j = omega arith in
    ground (
      arith,
      e,
      store_self code (slot j) c,
      store_self ptr (slot j) p,
      ap (store code (slot j) c) e,
      ap (store ptr (slot j) p) e,
    )
window-extend code ptr c p i (suc n) j h k =
    let ne = slot_ne i j (omega arith) (omega arith) in
    ground (
      arith,
      store_ne code (slot j) (slot i) c ne,
      store_ne ptr (slot j) (slot i) p ne,
      window-extend code ptr c p (i + 1) n j (omega arith) (omega arith),
    )

-- Clearing a slot that lies before the window leaves it.
pub window-clear :
    (code ptr : ℕ → ℕ) (c i n j : ℕ)
    → j < i
    → i + n ≤ j + 256
    → window (store code (slot j) c) ptr i n ≡ window code ptr i n
window-clear code ptr c i zero j h k = refl
window-clear code ptr c i (suc n) j h k =
    let ne : slot j ≢ slot i = omega arith in
    ground (
      arith,
      store_ne code (slot j) (slot i) c ne,
      window-clear code ptr c (i + 1) n j (omega arith) (omega arith),
    )
