-- ===== src/Io/Iovec/Account.antt =====
-- What an operation on several buffers makes of a part that is done.
use shuttlesock.Base.{
  ℕ, zero, suc, ◌+◌, ◌-◌, ◌≤◌, ◌<◌, ◌≡◌, refl, sym, ap, subst, ◌∙◌, inl, inr, true, false, Option,
  none, some, ◌==◌, ltb, arith, Bool-cases,
}
use shuttlesock.Io.{Iov, Io}
use shuttlesock.Io.Iovec.{
  Left, at, store_iov, copy_iovs, update_on_incomplete, account, iovec_check_completion,
  unless_error,
}

-- the bytes of elements `i` to `i + k`
abbrev pub bytes : (ℕ → Iov) → (iov i k : ℕ) → ℕ
bytes m iov i zero = 0
bytes m iov i (suc k) = (m (at iov i)).iov_len + bytes m iov (i + 1) k

abbrev complete : Io → (iov iovcnt : ℕ) → Option Left
complete io iov iovcnt = some (record { done = true; io = io; iov = iov; iovcnt = iovcnt })

account-none_left :
    (malloc : Option ℕ) (io : Io) (iov iovcnt i n : ℕ)
    → account malloc io iov iovcnt i n 0 ≡ complete io iov iovcnt
unfolding account
account-none_left malloc io iov iovcnt i zero = refl
account-none_left malloc io iov iovcnt i (suc n) = refl

account-next :
    (malloc : Option ℕ) (io : Io) (iov iovcnt i n u : ℕ)
    → (u == 0) ≡ false
    → ltb u (io.iovs (at iov i)).iov_len ≡ false
    → account malloc io iov iovcnt i (suc n) u
      ≡ account malloc io iov iovcnt (i + 1) n (u - (io.iovs (at iov i)).iov_len)
unfolding account
account-next malloc io iov iovcnt i n u h k = ground (arith, h, k)

account-inside :
    (malloc : Option ℕ) (io : Io) (iov iovcnt i n u : ℕ)
    → (u == 0) ≡ false
    → ltb u (io.iovs (at iov i)).iov_len ≡ true
    → account malloc io iov iovcnt i (suc n) u
      ≡ unless_error (update_on_incomplete malloc io iov iovcnt i u)
unfolding account
account-inside malloc io iov iovcnt i n u h k = ground (arith, h, k)

account-boundary :
    (malloc : Option ℕ) (io : Io) (iov iovcnt i k n u : ℕ)
    → u ≡ bytes io.iovs iov i k
    → k ≤ n
    → account malloc io iov iovcnt i n u ≡ complete io iov iovcnt
account-boundary malloc io iov iovcnt i zero n u e le =
    ap (account malloc io iov iovcnt i n) e ∙ account-none_left malloc io iov iovcnt i n
account-boundary malloc io iov iovcnt i (suc k) zero u e le = absurd (omega (arith, le))
account-boundary malloc io iov iovcnt i (suc k) (suc n) u e le = elim (Bool-cases (u == 0)) [
  | inl z ↦
      ap (account malloc io iov iovcnt i (suc n)) (ground (arith, z))
      ∙ account-none_left malloc io iov iovcnt i (suc n)
  | inr nz ↦
      let past : ltb u (io.iovs (at iov i)).iov_len ≡ false = ground (arith, e) in
      account-next malloc io iov iovcnt i n u nz past
      ∙ account-boundary malloc io iov iovcnt (i + 1) k n (u - (io.iovs (at iov i)).iov_len)
          (omega (arith, e)) (omega (arith, le))
]

-- A transfer that ends behind the first `k` of the buffers is taken for the whole operation, also
-- where `k` is less than their number; nothing changes.
pub check_completion-boundary :
    (malloc : Option ℕ) (io : Io) (iov iovcnt k : ℕ)
    → k ≤ iovcnt
    → iovec_check_completion malloc io iov iovcnt (bytes io.iovs iov 0 k)
      ≡ some (record { done = true; io = io; iov = iov; iovcnt = iovcnt })
unfolding iovec_check_completion
check_completion-boundary malloc io iov iovcnt k le =
    account-boundary malloc io iov iovcnt 0 k iovcnt (bytes io.iovs iov 0 k) refl le

-- The copy loop leaves its array when it is longer.
copy_iovs-overrun :
    (m : ℕ → Iov) (tmp iov offset cap i n : ℕ)
    → i ≤ cap
    → cap < i + n
    → copy_iovs m tmp iov offset cap i n ≡ none
unfolding copy_iovs
copy_iovs-overrun m tmp iov offset cap i zero le lt = absurd (omega (arith, le, lt))
copy_iovs-overrun m tmp iov offset cap i (suc n) le lt = elim (Bool-cases (ltb i cap)) [
  | inl h ↦
      let r =
        copy_iovs-overrun (store_iov m (at tmp i) (m (at iov (i + offset)))) tmp iov offset cap
          (i + 1) n (ground (arith, h)) (omega (arith, lt)) in
      ground (arith, h, r)
  | inr h ↦ ground (arith, h)
]

update-overrun :
    (tmp : ℕ) (io : Io) (iov iovcnt i u : ℕ)
    → (u == 0) ≡ false
    → (io.flags == 0) ≡ true
    → ltb i iovcnt ≡ true
    → 0 < i
    → update_on_incomplete (some tmp) io iov iovcnt i u ≡ none
unfolding update_on_incomplete
update-overrun tmp io iov iovcnt i u nz fresh lt pos =
    let r =
      copy_iovs-overrun io.iovs tmp iov i (iovcnt - i) 0 (iovcnt + i) (omega arith)
        (ground (arith, lt, pos)) in
    ground (arith, nz, fresh, lt, r)

past : (l b u : ℕ) → ltb (l + b + u) l ≡ false
past l b u = ground arith

pub account-within :
    (malloc : Option ℕ) (io : Io) (iov iovcnt i k n u : ℕ)
    → 0 < u
    → u < (io.iovs (at iov (i + k))).iov_len
    → k < n
    → account malloc io iov iovcnt i n (bytes io.iovs iov i k + u)
      ≡ unless_error (update_on_incomplete malloc io iov iovcnt (i + k) u)
account-within malloc io iov iovcnt i k zero u pos lt le = absurd (omega (arith, le))
account-within malloc io iov iovcnt i zero (suc n) u pos lt le =
    let e : i + 0 ≡ i = omega arith in
    let lt' = subst (λ j. u < (io.iovs (at iov j)).iov_len) e lt in
    ap (account malloc io iov iovcnt i (suc n)) (omega arith)
    ∙ account-inside malloc io iov iovcnt i n u (ground (arith, pos)) (ground (arith, lt'))
    ∙ ap (λ j. unless_error (update_on_incomplete malloc io iov iovcnt j u)) (sym e)
account-within malloc io iov iovcnt i (suc k) (suc n) u pos lt le =
    let l = (io.iovs (at iov i)).iov_len in
    let b = bytes io.iovs iov (i + 1) k in
    let e : i + suc k ≡ (i + 1) + k = omega arith in
    let lt' = subst (λ j. u < (io.iovs (at iov j)).iov_len) e lt in
    account-next malloc io iov iovcnt i n (l + b + u) (ground (arith, pos)) (past l b u)
    ∙ ap (account malloc io iov iovcnt (i + 1) n) (omega arith)
    ∙ account-within malloc io iov iovcnt (i + 1) k n u pos lt' (omega (arith, le))
    ∙ ap (λ j. unless_error (update_on_incomplete malloc io iov iovcnt j u)) (sym e)

-- A transfer that ends inside of a buffer that is not the first, of an operation without a
-- temporary array yet, runs out of its temporary array.
pub check_completion-overrun :
    (tmp : ℕ) (io : Io) (iov iovcnt k u : ℕ)
    → io.flags ≡ 0
    → 0 < k
    → k < iovcnt
    → 0 < u
    → u < (io.iovs (at iov k)).iov_len
    → iovec_check_completion (some tmp) io iov iovcnt (bytes io.iovs iov 0 k + u) ≡ none
unfolding iovec_check_completion
check_completion-overrun tmp io iov iovcnt k u fresh pos lt upos ult =
    let e : 0 + k ≡ k = omega arith in
    account-within (some tmp) io iov iovcnt 0 k iovcnt u upos
      (subst (λ j. u < (io.iovs (at iov j)).iov_len) (sym e) ult) lt
    ∙ ap unless_error (
        update-overrun tmp io iov iovcnt (0 + k) u (ground (arith, upos)) (ground (arith, fresh))
          (ground (arith, lt)) (omega (arith, pos)))
