-- ===== src/Instring/Text.antt =====
-- src/instring.c: the text of an instring after its variables are interpolated.
use mathlib.Core.List.{map}
use shuttlesock.Base.{
  ℕ, zero, suc, ◌≤◌, ◌≡◌, refl, ap, ◌∙◌, Bool, true, false, Option, none, some, List, [], ◌∷◌, ◌++◌,
  length, arith,
}
use shuttlesock.Instring.{
  Bytes, Token, literal, variable, Instring, variables_of, iov_of, lua_to_c, on_eval,
  interpolate_from, after_interpolate, interpolate,
}

abbrev pub drop {ℓ} : {A : Type ℓ} → ℕ → List A → List A
drop zero xs = xs
drop (suc n) [] = []
drop (suc n) (x ∷ xs) = drop n xs

-- the text that a token stands for, where each variable has a value
abbrev pub token_text : (ℕ → Bytes) → Token → Bytes
token_text val (literal s) = s
token_text val (variable v) = val v

abbrev under : Bytes → Bool × List Bytes → Bool × List Bytes
under x (b, ys) = (b, x ∷ ys)

interpolate_from-under :
    (eval : ℕ → Option Bytes) (vs : List ℕ) (i : ℕ) (x : Bytes) (r : Bool × List Bytes)
    → interpolate_from eval vs (suc i) (under x r) ≡ under x (interpolate_from eval vs i r)
unfolding interpolate_from
interpolate_from-under eval [] i x r = refl
interpolate_from-under eval (v ∷ vs) i x r =
    ap (interpolate_from eval vs (suc (suc i))) (on_eval-under (eval v) i x r)
    ∙ interpolate_from-under eval vs (suc i) x (on_eval (eval v) i r)
  where
    on_eval-under :
        (o : Option Bytes) (i : ℕ) (x : Bytes) (r : Bool × List Bytes)
        → on_eval o (suc i) (under x r) ≡ under x (on_eval o i r)
    on_eval-under none i x r = refl
    on_eval-under (some b) i x r = refl

interpolate_from-all :
    (val : ℕ → Bytes) (vs : List ℕ) (b : Bool) (iov : List Bytes)
    → length vs ≤ length iov
    → (interpolate_from (λ v. some (val v)) vs 0 (b, iov)).1 ≡ map val vs ++ drop (length vs) iov
unfolding interpolate_from
interpolate_from-all val [] b iov h = refl
interpolate_from-all val (v ∷ vs) b [] h = absurd (omega arith)
interpolate_from-all val (v ∷ vs) b (x ∷ iov) h =
    ap (λ (r : Bool × List Bytes). r.1)
      (interpolate_from-under (λ v. some (val v)) vs 0 (val v) (true, iov))
    ∙ ap (λ l. val v ∷ l) (interpolate_from-all val vs true iov (omega arith))

length-variables_of : (ts : List Token) → length (variables_of ts) ≤ length (iov_of ts)
length-variables_of [] = omega arith
length-variables_of (literal s ∷ ts) = omega (arith, length-variables_of ts)
length-variables_of (variable v ∷ ts) = omega (arith, length-variables_of ts)

iov-after : (s : Instring) (r : Bool × List Bytes) → (after_interpolate s r).iov ≡ r.1
iov-after s (true, iov) = refl
iov-after s (false, iov) = refl

-- Where every variable has a value, an interpolation puts the values, in order, into the first
-- iovecs, whichever tokens these belong to, and leaves the others as the tokens gave them.
pub iov-interpolate :
    (val : ℕ → Bytes) (ts : List Token)
    → (interpolate (λ v. some (val v)) (lua_to_c ts)).iov
      ≡ map val (variables_of ts) ++ drop (length (variables_of ts)) (iov_of ts)
unfolding interpolate lua_to_c
iov-interpolate val ts =
    iov-after (lua_to_c ts)
      (interpolate_from (λ v. some (val v)) (variables_of ts) 0 (false, iov_of ts))
    ∙ interpolate_from-all val (variables_of ts) false (iov_of ts) (length-variables_of ts)

abbrev pub literals : List Bytes → List Token
literals [] = []
literals (s ∷ ss) = literal s ∷ literals ss

-- variables, and literals behind them
abbrev pub variables_then : List ℕ → List Bytes → List Token
variables_then [] ss = literals ss
variables_then (v ∷ vs) ss = variable v ∷ variables_then vs ss

variables_of-literals : (ss : List Bytes) → variables_of (literals ss) ≡ []
variables_of-literals [] = refl
variables_of-literals (s ∷ ss) = variables_of-literals ss

iov_of-literals :
    (val : ℕ → Bytes) (ss : List Bytes) → iov_of (literals ss) ≡ map (token_text val) (literals ss)
iov_of-literals val [] = refl
iov_of-literals val (s ∷ ss) = ap (λ l. s ∷ l) (iov_of-literals val ss)

values_then :
    (val : ℕ → Bytes) (vs : List ℕ) (ss : List Bytes)
    → map val (variables_of (variables_then vs ss))
        ++ drop (length (variables_of (variables_then vs ss))) (iov_of (variables_then vs ss))
      ≡ map (token_text val) (variables_then vs ss)
values_then val [] ss =
    ap (λ l. map val l ++ drop (length l) (iov_of (literals ss))) (variables_of-literals ss)
    ∙ iov_of-literals val ss
values_then val (v ∷ vs) ss = ap (λ l. val v ∷ l) (values_then val vs ss)

-- Where every variable has a value, and no literal stands before a variable, each iovec holds the
-- text of its token after an interpolation.
pub iov-interpolate_text :
    (val : ℕ → Bytes) (vs : List ℕ) (ss : List Bytes)
    → (interpolate (λ v. some (val v)) (lua_to_c (variables_then vs ss))).iov
      ≡ map (token_text val) (variables_then vs ss)
iov-interpolate_text val vs ss = iov-interpolate val (variables_then vs ss) ∙ values_then val vs ss
