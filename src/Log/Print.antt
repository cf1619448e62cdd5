-- ===== src/Log/Print.antt =====
-- What the buffer of the log holds after a text was printed into it.
use shuttlesock.Base.{
  ℕ, zero, suc, ◌+◌, ◌-◌, ◌^◌, ◌≤◌, ◌<◌, ◌≡◌, sym, ap, subst, ◌∙◌, inl, inr, Option, none, some,
  List, [], ◌∷◌, ◌++◌, ltb, if◌then◌else◌, length, get_elem?, take, arith, Bool-cases, sub64,
  length-append, get_elem?-take, get_elem?-append_left, get_elem?-append_right, get_elem?-within,
}
use shuttlesock.Log.{Logbuf, store, stored_byte, printed, print, last}

-- `all` was printed into the buffer, of which it holds the first 4094 bytes.
pub record Printed (b : Logbuf) (all : List ℕ) : Type 0 where
  pub ends : b.cur ≡ length all
  pub held : (j : ℕ) → j < length all → j < 4094 → get_elem? all j ≡ some (b.mem j)

-- Bytes below the stored ones stay.
pub store-below : (bs : List ℕ) (a : ℕ) (m : ℕ → ℕ) (j : ℕ) → j < a → store bs a m j ≡ m j
store-below bs a m j lt = ground (arith, lt)

some_stored : (o : Option ℕ) (x old : ℕ) → o ≡ some x → o ≡ some (stored_byte o old)
some_stored o x old e = e ∙ sym (ap (λ q. some (stored_byte q old)) e)

-- The stored bytes are read back.
pub store-at :
    (bs : List ℕ) (a : ℕ) (m : ℕ → ℕ) (i : ℕ)
    → i < length bs
    → get_elem? bs i ≡ some (store bs a m (a + i))
store-at bs a m i lt =
    let (x, e) = get_elem?-within bs i lt in
    some_stored (get_elem? bs i) x (m (a + i)) e ∙ sym (ap some (here bs a m i))
  where
    offset : (a i : ℕ) → a + i - a ≡ i
    offset a i = omega arith

    here :
        (bs : List ℕ) (a : ℕ) (m : ℕ → ℕ) (i : ℕ)
        → store bs a m (a + i) ≡ stored_byte (get_elem? bs i) (m (a + i))
    here bs a m i =
        subst (λ k. store bs a m (a + i) ≡ stored_byte (get_elem? bs k) (m (a + i))) (offset a i)
          (ground arith)

length-take_le : (k : ℕ) (t : List ℕ) → length (take k t) ≤ k
length-take_le zero t = omega arith
length-take_le (suc k) [] = omega arith
length-take_le (suc k) (x ∷ t) = let le = length-take_le k t in omega (arith, le)

within_take : (k : ℕ) (t : List ℕ) (i : ℕ) → i < length t → i < k → i < length (take k t)
within_take zero t i lt lt' = omega (arith, lt')
within_take (suc k) [] i lt lt' = omega (arith, lt)
within_take (suc k) (x ∷ t) zero lt lt' = omega arith
within_take (suc k) (x ∷ t) (suc i) lt lt' =
    let r = within_take k t i (omega (arith, lt)) (omega (arith, lt')) in omega (arith, r)

length-printed : (k : ℕ) (t : List ℕ) → length (take k t ++ 0 ∷ []) ≤ suc k
length-printed k t =
    let le = length-take_le k t in let e = length-append (take k t) (0 ∷ []) in omega (arith, le, e)

-- the buffer after a print with room for `k` bytes
abbrev pub printed_into : ℕ → List ℕ → Logbuf → Logbuf
printed_into k t b = record { mem = store (take k t ++ 0 ∷ []) b.cur b.mem; cur = b.cur + length t }

pub print_eq :
    (k : ℕ) (t : List ℕ) (b : Logbuf)
    → b.cur + suc k ≡ last
    → length t < 2 ^ 31
    → print t b ≡ some (printed_into k t b)
print_eq k t b room lt =
    subst
      (λ s.
        (if ltb 4096 (b.cur + length (printed s t))
          then none
          else if ltb (length t) (2 ^ 31)
          then some (record { mem = store (printed s t) b.cur b.mem; cur = b.cur + length t })
          else none)
        ≡ some (printed_into k t b))
      (sym size) (let le = length-printed k t in ground (arith, le, lt, room))
  where
    size : sub64 last b.cur ≡ suc k
    size = omega (arith, room)

held_left :
    (k : ℕ) (t : List ℕ) (b : Logbuf) (xs : List ℕ)
    → Printed b xs
    → (j : ℕ) → j < length xs
    → j < 4094
    → get_elem? (xs ++ t) j ≡ some ((printed_into k t b).mem j)
held_left k t b xs p j lt lt' =
    get_elem?-append_left xs t j lt
    ∙ p.held j lt lt'
    ∙ sym (ap some (store-below (take k t ++ 0 ∷ []) b.cur b.mem j below))
  where
    below : j < b.cur
    below = let e = p.ends in omega (arith, e, lt)

held_right :
    (k : ℕ) (t : List ℕ) (b : Logbuf) (xs : List ℕ)
    → Printed b xs
    → b.cur + suc k ≡ last
    → (i : ℕ) → i < length t
    → i < k
    → get_elem? (xs ++ t) (length xs + i) ≡ some ((printed_into k t b).mem (length xs + i))
held_right k t b xs p room i lt lt' =
    get_elem?-append_right xs t i
    ∙ sym (get_elem?-take k t i lt')
    ∙ sym (get_elem?-append_left (take k t) (0 ∷ []) i in_text)
    ∙ store-at (take k t ++ 0 ∷ []) b.cur b.mem i in_bytes
    ∙ ap (λ c. some ((printed_into k t b).mem (c + i))) p.ends
  where
    in_text : i < length (take k t)
    in_text = within_take k t i lt lt'

    in_bytes : i < length (take k t ++ 0 ∷ [])
    in_bytes = let e = length-append (take k t) (0 ∷ []) in omega (arith, e, in_text)

printed_into-Printed :
    (k : ℕ) (t : List ℕ) (b : Logbuf) (xs : List ℕ)
    → Printed b xs
    → b.cur + suc k ≡ last
    → Printed (printed_into k t b) (xs ++ t)
printed_into-Printed k t b xs p room = record {
  ends = (let e = p.ends in let l = length-append xs t in omega (arith, e, l));
  held = λ j lt lt'. elim (Bool-cases (ltb j (length xs))) [
    | inl e ↦ held_left k t b xs p j (ground (arith, e)) lt'
    | inr e ↦ right j lt lt' (ground (arith, e))
  ];
}
  where
    right :
        (j : ℕ)
        → j < length (xs ++ t)
        → j < 4094
        → length xs ≤ j
        → get_elem? (xs ++ t) j ≡ some ((printed_into k t b).mem j)
    right j lt lt' le =
        subst (λ i. get_elem? (xs ++ t) i ≡ some ((printed_into k t b).mem i))
          (the_same j (length xs) le)
          (held_right k t b xs p room (j - length xs)
            (let l = length-append xs t in omega (arith, l, lt, le))
            (let e = p.ends in omega (arith, e, lt', le, room)))
      where
        the_same : (j n : ℕ) → n ≤ j → n + (j - n) ≡ j
        the_same j n le = omega (arith, le)

pub print-Printed :
    (t : List ℕ) (b : Logbuf) (xs : List ℕ)
    → Printed b xs
    → length xs < last
    → length t < 2 ^ 31
    → (c : Logbuf) × (print t b ≡ some c) × Printed c (xs ++ t)
print-Printed t b xs p lt lt' = (
  printed_into (last - 1 - b.cur) t b,
  print_eq (last - 1 - b.cur) t b room lt',
  printed_into-Printed (last - 1 - b.cur) t b xs p room,
)
  where
    room : b.cur + suc (last - 1 - b.cur) ≡ last
    room = let e = p.ends in omega (arith, e, lt)
