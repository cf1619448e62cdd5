-- ===== src/Instring/Copy.antt =====
-- src/instring.c: the copy of a setting's instrings for a worker.
use shuttlesock.Base.{
  ℕ, zero, suc, ◌≡◌, refl, sym, ap, ◌∙◌, ◌⊎◌, inl, inr, Bool, true, false, Option, none, some, List,
  [], ◌∷◌, ◌==◌, length, not, ◌&&◌, if◌then◌else◌, All, ==_refl, arith, ◌≢◌,
}
use shuttlesock.Instring.{Token, Instring, variables_of, iov_of}

-- Whether `shuso_palloc` has memory for the variables, the tokens and the iovecs of a copy
pub record CopyMemory : Type 0 where
  pub variables : Bool
  pub tokens : Bool
  pub iov : Bool

abbrev is_empty {ℓ} : {A : Type ℓ} → List A → Bool
is_empty [] = true
is_empty (x ∷ xs) = false

-- the loop on the tokens, and the assertion behind it
abbrev copy_tokens : Instring → Option (Bool × Instring)
copy_tokens old =
    if length (variables_of old.tokens) == length old.variables
    then some (true, record old { variables = variables_of old.tokens; iov = iov_of old.tokens })
    else none

-- `shuso_instring_copy_for_worker`: what it returns, and the copy, which counts only if that is true
pub copy_for_worker : CopyMemory → Instring → Option (Bool × Instring)
copy_for_worker m old =
    if is_empty old.variables
    then some (true, old)
    else if is_empty old.tokens
    then none
    else if not (m.variables && m.tokens)
    then some (false, old)
    else if not m.iov
    then some (false, old)
    else copy_tokens old

abbrev and_cons : Instring → Option (Option (List Instring)) → Option (Option (List Instring))
and_cons x none = none
and_cons x (some none) = some none
and_cons x (some (some xs)) = some (some (x ∷ xs))

abbrev then_copy :
    Option (Bool × Instring) → Option (Option (List Instring)) → Option (Option (List Instring))
then_copy none rest = none
then_copy (some (false, x)) rest = some none
then_copy (some (true, x)) rest = and_cons x rest

-- the loop of `shuso_instrings_copy_for_worker`, with the memory for each copy
pub copy_each : (ℕ → CopyMemory) → ℕ → List Instring → Option (Option (List Instring))
unfolding copy_for_worker
copy_each memory i [] = some (some [])
copy_each memory i (x ∷ xs) =
    let rest = copy_each memory (suc i) xs in then_copy (copy_for_worker (memory i) x) rest

abbrev all_literal : List Instring → Bool
all_literal [] = true
all_literal (x ∷ xs) = is_empty x.variables && all_literal xs

-- `shuso_instrings_copy_for_worker`: `none` for a failed assertion, `some none` for NULL
unfoldable pub instrings_copy_for_worker :
    (array : Bool) → (ℕ → CopyMemory) → List Instring → Option (Option (List Instring))
unfolding copy_each
instrings_copy_for_worker array memory olds =
    if is_empty olds
    then some (some olds)
    else if all_literal olds
    then some (some olds)
    else if not array
    then some none
    else copy_each memory 0 olds

-- The variables of an instring are those of its tokens.
abbrev pub Matches : Instring → Type 0
Matches s = s.variables ≡ variables_of s.tokens

-- A copy of a constant instring is the same; another has the iovecs of its tokens again, without
-- values of variables.
abbrev pub Fresh : Instring → Instring → Type 0
Fresh old new =
    ((old.variables ≡ []) × (new ≡ old)) ⊎ (new ≡ record old { iov = iov_of old.tokens })

pub data Copies : List Instring → List Instring → Type 0 where
  no_more : Copies [] []
  one_more :
      {x y : Instring} {xs ys : List Instring} → Fresh x y → Copies xs ys → Copies (x ∷ xs) (y ∷ ys)

abbrev pub has_memory : CopyMemory → Bool
has_memory m = m.variables && (m.tokens && m.iov)

-- Whether there is memory for `n` copies from the `i`-th on
abbrev pub all_memory : (ℕ → CopyMemory) → ℕ → ℕ → Bool
all_memory memory i zero = true
all_memory memory i (suc n) = has_memory (memory i) && all_memory memory (suc i) n

-- A copy is made, or memory is missing.
abbrev Copied : Bool → Instring → Option (Bool × Instring) → Type 0
Copied enough old r =
    ((new : Instring) × (r ≡ some (true, new)) × Fresh old new)
    ⊎ ((enough ≡ false) × (r ≡ some (false, old)))

-- the copy of an instring with variables
abbrev with_variables : Instring → Instring
with_variables s = record s { variables = variables_of s.tokens; iov = iov_of s.tokens }

copy_tokens_eq : (s : Instring) → Matches s → copy_tokens s ≡ some (true, with_variables s)
copy_tokens_eq s e =
    ap (λ b. if b then some (true, with_variables s) else none)
      (ap (λ n. length (variables_of s.tokens) == n) (ap length e)
        ∙ ==_refl (length (variables_of s.tokens)))

with_memory :
    (a b c : Bool) (s : Instring) (x : Option (Bool × Instring))
    → Fresh s (with_variables s)
    → x ≡ some (true, with_variables s)
    → Copied
        (a && (b && c))
        s
        (if not (a && b) then some (false, s) else if not c then some (false, s) else x)
with_memory true true true s x f e = inl (with_variables s, e, f)
with_memory true true false s x f e = inr (refl, refl)
with_memory true false c s x f e = inr (refl, refl)
with_memory false b c s x f e = inr (refl, refl)

cons-nil : (v : ℕ) (vs : List ℕ) → v ∷ vs ≢ []
cons-nil v vs e = ground (arith, e)

and_false : (a b : Bool) → b ≡ false → (a && b) ≡ false
and_false true b e = e
and_false false b e = refl

and_left : (a b : Bool) → (a && b) ≡ true → a ≡ true
and_left true b e = refl
and_left false b e = e

and_right : (a b : Bool) → (a && b) ≡ true → b ≡ true
and_right true b e = e
and_right false b e = ground (arith, e)

by_lists :
    (enough : Bool) (s : Instring) (x : Option (Bool × Instring)) (vs : List ℕ) (ts : List Token)
    → s.variables ≡ vs
    → vs ≡ variables_of ts
    → Copied enough s x
    → Copied enough s (if is_empty vs then some (true, s) else if is_empty ts then none else x)
by_lists enough s x [] ts e m c = inl (s, refl, inl (e, refl))
by_lists enough s x (v ∷ vs) [] e m c = absurd (cons-nil v vs m)
by_lists enough s x (v ∷ vs) (t ∷ ts) e m c = c

copy_for_worker-Copied :
    (m : CopyMemory) (s : Instring) → Matches s → Copied (has_memory m) s (copy_for_worker m s)
unfolding copy_for_worker
copy_for_worker-Copied m s e = by_lists (has_memory m) s _ s.variables s.tokens refl e (
    with_memory m.variables m.tokens m.iov s (copy_tokens s)
      (inr (ap (λ vs. record s { variables = vs; iov = iov_of s.tokens }) (sym e)))
      (copy_tokens_eq s e))

-- All copies are made, or memory is missing and NULL is returned.
abbrev pub AllCopied : Bool → List Instring → Option (Option (List Instring)) → Type 0
AllCopied enough olds r =
    ((news : List Instring) × (r ≡ some (some news)) × Copies olds news)
    ⊎ ((enough ≡ false) × (r ≡ some none))

then_copy-Copied :
    (a b : Bool) (x : Instring) (xs : List Instring) (r : Option (Bool × Instring))
    (rest : Option (Option (List Instring)))
    → Copied a x r
    → AllCopied b xs rest
    → AllCopied (a && b) (x ∷ xs) (then_copy r rest)
then_copy-Copied a b x xs r rest (inl (new, e, f)) (inl (news, e', c)) =
    inl (new ∷ news, ap (λ q. then_copy q rest) e ∙ ap (and_cons new) e', one_more f c)
then_copy-Copied a b x xs r rest (inl (new, e, f)) (inr (g, e')) =
    inr (and_false a b g, ap (λ q. then_copy q rest) e ∙ ap (and_cons new) e')
then_copy-Copied a b x xs r rest (inr (g, e)) c =
    inr (ap (λ q. q && b) g, ap (λ q. then_copy q rest) e)

copy_each-AllCopied :
    (memory : ℕ → CopyMemory) (i : ℕ) (olds : List Instring)
    → All Matches olds
    → AllCopied (all_memory memory i (length olds)) olds (copy_each memory i olds)
unfolding copy_each
copy_each-AllCopied memory i [] m = inl ([], refl, no_more)
copy_each-AllCopied memory i (x ∷ xs) m =
    then_copy-Copied (has_memory (memory i)) (all_memory memory (suc i) (length xs)) x xs
      (copy_for_worker (memory i) x) (copy_each memory (suc i) xs)
      (copy_for_worker-Copied (memory i) x m.0) (copy_each-AllCopied memory (suc i) xs m.1)

literal-Copies : (olds : List Instring) → all_literal olds ≡ true → Copies olds olds
literal-Copies [] e = no_more
literal-Copies (x ∷ xs) e =
    one_more (inl (empty_eq x.variables (and_left (is_empty x.variables) (all_literal xs) e), refl))
      (literal-Copies xs (and_right (is_empty x.variables) (all_literal xs) e))
  where
    empty_eq : (vs : List ℕ) → is_empty vs ≡ true → vs ≡ []
    empty_eq [] e = refl
    empty_eq (v ∷ vs) e = ground (arith, e)

by_kind :
    (literal array : Bool) (enough : Bool) (olds : List Instring)
    (r : Option (Option (List Instring)))
    → all_literal olds ≡ literal
    → AllCopied enough olds r
    → AllCopied
        (array && enough)
        olds
        (if literal then some (some olds) else if not array then some none else r)
by_kind true array enough olds r e c = inl (olds, refl, literal-Copies olds e)
by_kind false true enough olds r e c = c
by_kind false false enough olds r e c = inr (refl, refl)

-- For instrings whose variables are those of their tokens, no assertion fails. A worker gets the
-- constant instrings as they are, and the others with the iovecs of their tokens, whatever
-- values of variables the master had put there; only where memory is missing it gets NULL.
pub instrings_copy_for_worker-AllCopied :
    (array : Bool) (memory : ℕ → CopyMemory) (olds : List Instring)
    → All Matches olds
    → AllCopied
        (array && all_memory memory 0 (length olds))
        olds
        (instrings_copy_for_worker array memory olds)
unfolding instrings_copy_for_worker
instrings_copy_for_worker-AllCopied array memory [] m = inl ([], refl, no_more)
instrings_copy_for_worker-AllCopied array memory (x ∷ xs) m =
    by_kind (all_literal (x ∷ xs)) array (all_memory memory 0 (length (x ∷ xs))) (x ∷ xs)
      (copy_each memory 0 (x ∷ xs)) refl (copy_each-AllCopied memory 0 (x ∷ xs) m)
