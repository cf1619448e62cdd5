-- ===== src/Log/Line.antt =====
-- The line that is written to the log, for every text.
use shuttlesock.Base.{
  ℕ, suc, ◌+◌, ◌-◌, ◌^◌, ◌≤◌, ◌<◌, ◌≡◌, refl, sym, ap, subst, ◌∙◌, inl, inr, true, false, Option,
  some, List, Bool, [], ◌∷◌, ◌++◌, ltb, leb, ◌==◌, if◌then◌else◌, length, get_elem?, take, arith,
  Bool-cases, length-append, length-take, get_elem?-take, get_elem?-append_left,
  get_elem?-append_right, bind_crash, ℤ,
}
use shuttlesock.Log.{
  Loglevel, Logbuf, stored_byte, print, end_line, read, write, last, prefix, log_level,
}
use shuttlesock.Log.Print.{Printed, store-below, store-at, printed_into, print_eq, print-Printed}
use shuttlesock.Log.Prefix.{length-prefix}

-- The bytes of a list that the memory holds are read as that list.
read_eq :
    (m : ℕ → ℕ) (a : ℕ) (xs : List ℕ)
    → ((j : ℕ) → j < length xs → get_elem? xs j ≡ some (m (a + j)))
    → read m a (length xs) ≡ xs
read_eq m a [] h = refl
read_eq m a (x ∷ xs) h = cons_eq (first (h 0 (omega arith))) (
    read_eq m (suc a) xs (λ j lt. h (suc j) (omega (arith, lt)) ∙ ap (λ i. some (m i)) (shift a j)))
  where
    cons_eq :
        {y : ℕ} {ys : List ℕ}
        → m a ≡ y
        → read m (suc a) (length xs) ≡ ys
        → m a ∷ read m (suc a) (length xs) ≡ y ∷ ys
    cons_eq e es = cc (e, es)

    first : some x ≡ some (m (a + 0)) → m a ≡ x
    first e = ap m (omega arith) ∙ sym (ap (λ o. stored_byte o 0) e)

    shift : (a j : ℕ) → a + suc j ≡ suc a + j
    shift a j = omega arith

Printed-read :
    (b : Logbuf) (xs : List ℕ) → Printed b xs → length xs ≤ 4094 → read b.mem 0 b.cur ≡ xs
Printed-read b xs p le =
    ap (read b.mem 0) p.ends
    ∙ read_eq b.mem 0 xs
        (λ j lt. p.held j lt (omega (arith, lt, le)) ∙ ap (λ i. some (b.mem i)) (omega arith))

-- What is written of a line: as much as fits, with `...` at its end if that is not all. A line of 4094
-- bytes ends in a zero byte, in place of the newline.
abbrev pub line_of : List ℕ → List ℕ
line_of all =
    if leb last (length all)
    then take (last - 5) all ++ 46 ∷ 46 ∷ 46 ∷ 10 ∷ []
    else if length all == 4094
    then all ++ 0 ∷ []
    else all ++ 10 ∷ []

write_eq :
    (o : Option Logbuf) (xs : List ℕ)
    → length xs ≤ 4094
    → (c : Logbuf) × (o ≡ some c) × Printed c xs
    → (c : Logbuf) × (bind_crash o write ≡ some (xs, c))
write_eq o xs le (c, e, p) =
    (c, ap (λ q. bind_crash q write) e ∙ ap (λ l. some (l, c)) (Printed-read c xs p le))

cut-Printed :
    (b : Logbuf) (all : List ℕ)
    → Printed b all
    → last ≤ length all
    → Printed (record b { cur = last - 5 }) (take (last - 5) all)
cut-Printed b all p le = record {
  ends = sym (length-take 4090 all (omega (arith, le)));
  held = λ j lt lt'.
      get_elem?-take 4090 all j
        (let t = length-take 4090 all (omega (arith, le)) in omega (arith, t, lt))
      ∙ p.held j (let t = length-take 4090 all (omega (arith, le)) in omega (arith, t, lt, le)) lt';
}

held_left_zero :
    (b : Logbuf) (all : List ℕ)
    → Printed b all
    → length all ≡ 4094
    → (j : ℕ) → j < length all
    → get_elem? (all ++ 0 ∷ []) j ≡ some ((printed_into 0 (10 ∷ []) b).mem j)
held_left_zero b all p e j lt =
    get_elem?-append_left all (0 ∷ []) j lt
    ∙ p.held j lt (omega (arith, lt, e))
    ∙ sym (ap some (store-below (0 ∷ []) b.cur b.mem j below))
  where
    below : j < b.cur
    below = let q = p.ends in omega (arith, q, lt)

held_last :
    (b : Logbuf) (all : List ℕ)
    → Printed b all
    → (j : ℕ) → j ≡ length all
    → get_elem? (all ++ 0 ∷ []) j ≡ some ((printed_into 0 (10 ∷ []) b).mem j)
held_last b all p j e =
    ap (get_elem? (all ++ 0 ∷ [])) (the_end (length all) j e)
    ∙ get_elem?-append_right all (0 ∷ []) 0
    ∙ store-at (0 ∷ []) b.cur b.mem 0 (omega arith)
    ∙ ap (λ i. some ((printed_into 0 (10 ∷ []) b).mem i)) (the_cur b.cur (length all) j p.ends e)
  where
    the_end : (n j : ℕ) → j ≡ n → j ≡ n + 0
    the_end n j e = omega (arith, e)

    the_cur : (c n j : ℕ) → c ≡ n → j ≡ n → c + 0 ≡ j
    the_cur c n j q e = omega (arith, q, e)

full_line :
    (b : Logbuf) (all : List ℕ)
    → Printed b all
    → length all ≡ 4094
    → (c : Logbuf) × (bind_crash (print (10 ∷ []) b) write ≡ some (all ++ 0 ∷ [], c))
full_line b all p e = (
  printed_into 0 (10 ∷ []) b,
  ap (λ o. bind_crash o write) (print_eq 0 (10 ∷ []) b room (omega arith))
      ∙ ap (λ l. some (l, printed_into 0 (10 ∷ []) b))
          (ap (read (printed_into 0 (10 ∷ []) b).mem 0) long
            ∙ read_eq (printed_into 0 (10 ∷ []) b).mem 0 (all ++ 0 ∷ []) held),
)
  where
    room : b.cur + 1 ≡ last
    room = let q = p.ends in omega (arith, q, e)

    long : b.cur + 1 ≡ length (all ++ 0 ∷ [])
    long = let q = p.ends in let l = length-append all (0 ∷ []) in omega (arith, q, l)

    from_zero :
        (j : ℕ)
        → some ((printed_into 0 (10 ∷ []) b).mem j)
          ≡ some ((printed_into 0 (10 ∷ []) b).mem (0 + j))
    from_zero j = ap (λ i. some ((printed_into 0 (10 ∷ []) b).mem i)) (omega arith)

    held :
        (j : ℕ)
        → j < length (all ++ 0 ∷ [])
        → get_elem? (all ++ 0 ∷ []) j ≡ some ((printed_into 0 (10 ∷ []) b).mem (0 + j))
    held j lt = elim (Bool-cases (ltb j (length all))) [
      | inl l ↦ held_left_zero b all p e j (ground (arith, l)) ∙ from_zero j
      | inr l ↦
          held_last b all p j (let a = length-append all (0 ∷ []) in ground (arith, a, l, lt))
          ∙ from_zero j
    ]

abbrev dots : List ℕ
dots = 46 ∷ 46 ∷ 46 ∷ 10 ∷ []

-- The end of the line, `long` and `full` being the answers of the tests
abbrev Ended : Logbuf → List ℕ → (long full : Bool) → Type 0
Ended b all long full =
    (c : Logbuf) × (bind_crash
        (if long then print dots (record b { cur = last - 5 }) else print (10 ∷ []) b) write
      ≡ some (
        if long
            then take (last - 5) all ++ dots
            else if full
            then all ++ 0 ∷ []
            else all ++ 10 ∷ [],
        c,
      ))

long_Ended :
    (b : Logbuf) (all : List ℕ)
    → Printed b all
    → last ≤ length all
    → (full : Bool) → Ended b all true full
long_Ended b all p le full =
    write_eq (print dots (record b { cur = last - 5 })) (take (last - 5) all ++ dots)
      (let l = length-append (take (last - 5) all) dots in omega (arith, l, cut))
      (print-Printed dots (record b { cur = last - 5 }) (take (last - 5) all)
        (cut-Printed b all p le) (omega (arith, cut)) (omega arith))
  where
    cut : length (take (last - 5) all) ≡ last - 5
    cut = length-take (last - 5) all (omega (arith, le))

fits_Ended :
    (b : Logbuf) (all : List ℕ) → Printed b all → length all < 4094 → Ended b all false false
fits_Ended b all p lt =
    write_eq (print (10 ∷ []) b) (all ++ 10 ∷ [])
      (let l = length-append all (10 ∷ []) in omega (arith, l, lt))
      (print-Printed (10 ∷ []) b all p (omega (arith, lt)) (omega arith))

short_Ended :
    (b : Logbuf) (all : List ℕ)
    → Printed b all
    → length all < last
    → Ended b all false (length all == 4094)
short_Ended b all p lt = elim (Bool-cases (length all == 4094)) [
  | inl f ↦ subst (Ended b all false) (sym f) (full_line b all p (ground (arith, f)))
  | inr f ↦ subst (Ended b all false) (sym f) (fits_Ended b all p (ground (arith, f, lt)))
]

end_line-Line :
    (b : Logbuf) (all : List ℕ)
    → Printed b all
    → (c : Logbuf) × (bind_crash (end_line b) write ≡ some (line_of all, c))
end_line-Line b all p =
    subst
      (λ n.
        (c : Logbuf) × (bind_crash
            (if leb last n then print dots (record b { cur = last - 5 }) else print (10 ∷ []) b)
            write
          ≡ some (line_of all, c)))
      (sym p.ends)
      (elim (Bool-cases (leb last (length all))) [
        | inl e ↦
            subst (λ x. Ended b all x (length all == 4094)) (sym e)
              (long_Ended b all p (ground (arith, e)) (length all == 4094))
        | inr e ↦
            subst (λ x. Ended b all x (length all == 4094)) (sym e)
              (short_Ended b all p (ground (arith, e)))
      ])

then_text :
    (o : Option Logbuf) (text front : List ℕ)
    → length front < last
    → length text < 2 ^ 31
    → (b : Logbuf) × (o ≡ some b) × Printed b front
    → (d : Logbuf) × (bind_crash o
          (λ b. bind_crash (print text b) (λ c. bind_crash (end_line c) write))
        ≡ some (line_of (front ++ text), d))
then_text o text front lt lt' (b, e, p) =
    let (c, e', p') = print-Printed text b front p lt lt' in
    let (d, e'') = end_line-Line c (front ++ text) p' in
    (
      d,
      ap (λ q. bind_crash q (λ b. bind_crash (print text b) (λ c. bind_crash (end_line c) write))) e
          ∙ ap (λ q. bind_crash q (λ c. bind_crash (end_line c) write)) e'
          ∙ e'',
    )

-- A text of less than 2^31 bytes is logged, whatever is in the buffer, without storing anything behind
-- the buffer's end. The line is the prefix and the text, and a newline behind them if they are less
-- than 4094 bytes, a zero byte if they are 4094, and if they are more, their first 4090 bytes,
-- `...` and a newline.
pub log_level-Line :
    (pid : ℕ) (procnum : ℤ) (level : Loglevel) (text : List ℕ) (m : ℕ → ℕ)
    → length text < 2 ^ 31
    → (b : Logbuf) × (log_level pid procnum level text m
        ≡ some (line_of (prefix pid procnum level ++ text), b))
unfolding log_level
log_level-Line pid procnum level text m lt =
    let short = length-prefix pid procnum level in
    then_text (print (prefix pid procnum level) (record { mem = m; cur = 0 })) text
      (prefix pid procnum level) (omega (arith, short)) lt
      (print-Printed (prefix pid procnum level) (record { mem = m; cur = 0 }) []
        (record { ends = refl; held = λ j lt lt'. absurd (omega (arith, lt)) }) (omega arith)
        (omega (arith, short)))
