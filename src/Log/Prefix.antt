-- ===== src/Log/Prefix.antt =====
-- The length of the text in front of a line of the log.
use shuttlesock.Base.{
  ℕ, zero, suc, ◌+◌, ◌/◌, ◌%◌, ltz, ◌≤◌, ◌<◌, ◌≡◌, refl, true, false, List, Bool, [], ◌∷◌, ◌++◌,
  ltb, if◌then◌else◌, length, arith, length-append, ℤ, pos, negsuc,
}
use shuttlesock.Log.{
  fatal, critical, error, warning, notice, info, debug, Loglevel, prefix, decimal, procname, lvl,
  number_of,
}

length-decimal : (d n : ℕ) → length (decimal d n) ≤ d
unfolding decimal
length-decimal zero n = omega arith
length-decimal (suc d) n =
    let le = length-decimal d (n / 10) in
    let l = length-append (if ltb n 10 then [] else decimal d (n / 10)) ((48 + n % 10) ∷ []) in
    ground (arith, le, l)

length-procname : (n : ℤ) → length (procname n) ≤ 9
length-procname n = ground arith

length-lvl : (level : Loglevel) → length (lvl level) ≡ 8
length-lvl fatal = refl
length-lvl critical = refl
length-lvl error = refl
length-lvl warning = refl
length-lvl notice = refl
length-lvl info = refl
length-lvl debug = refl

length-number_of : (n : ℤ) → length (number_of n) ≤ 10
length-number_of (pos n) = length-decimal 10 n
length-number_of (negsuc n) = omega arith

short_without :
    (d p l : List ℕ)
    → length d ≤ 10
    → length p ≤ 9
    → length l ≡ 8
    → length (91 ∷ d ++ 32 ∷ p ++ 93 ∷ 32 ∷ l ++ 58 ∷ 32 ∷ []) < 100
short_without d p l ld lp ll = grind (arith, length-append, ld, lp, ll)

short_with_number :
    (d p n l : List ℕ)
    → length d ≤ 10
    → length p ≤ 9
    → length n ≤ 10
    → length l ≡ 8
    → length (91 ∷ d ++ 32 ∷ p ++ 32 ∷ n ++ 93 ∷ 32 ∷ l ++ 58 ∷ 32 ∷ []) < 100
short_with_number d p n l ld lp ln ll = simp (length-append) (omega (arith, ld, lp, ln, ll))

either_short :
    (t : Bool) (xs ys : List ℕ)
    → length xs < 100
    → length ys < 100
    → length (if t then xs else ys) < 100
either_short true xs ys lx ly = lx
either_short false xs ys lx ly = ly

pub length-prefix :
    (pid : ℕ) (procnum : ℤ) (level : Loglevel) → length (prefix pid procnum level) < 100
unfolding prefix
length-prefix pid procnum level =
    either_short (ltz procnum (pos 0)) _ _
      (short_without (decimal 10 pid) (procname procnum) (lvl level) (length-decimal 10 pid)
        (length-procname procnum) (length-lvl level))
      (short_with_number (decimal 10 pid) (procname procnum) (number_of procnum) (lvl level)
        (length-decimal 10 pid) (length-procname procnum) (length-number_of procnum)
        (length-lvl level))
