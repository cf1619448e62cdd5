-- ===== src/Io/Iovec/Cut.antt =====
-- A transfer that ends inside of the first of several buffers.
use shuttlesock.Base.{
  ℕ, zero, suc, ◌+◌, ◌-◌, ◌*◌, ◌^◌, ◌≤◌, ◌<◌, ◌≡◌, ◌≢◌, refl, sym, ap, subst, ◌∙◌, inl, inr, true,
  false, some, ◌==◌, ltb, if◌then◌else◌, add64, arith, Bool-cases,
}
use shuttlesock.Io.{Iov, Io}
use shuttlesock.Io.Iovec.{
  Left, at, store_iov, copy_iovs, cut_first, update_on_incomplete, account, iovec_check_completion,
  unless_error,
}
use shuttlesock.Io.Iovec.Account.{account-within}

store_ne : (m : ℕ → Iov) (a b : ℕ) (v : Iov) → b ≢ a → store_iov m a v b ≡ m b
store_ne m a b v ne = ground (arith, ne)

store_self : (m : ℕ → Iov) (a : ℕ) (v : Iov) → store_iov m a v a ≡ v
store_self m a v = ground arith

-- Elements of an array that lies below 2^64 have different addresses.
at_ne : (tmp i j n : ℕ) → tmp + 16 * n < 2 ^ 64 → i < n → j < n → i ≢ j → at tmp i ≢ at tmp j
at_ne tmp i j n top hi hj ne = omega arith

-- The arrays of `n` elements at `tmp` and at `iov` share none, and that at `tmp` lies below 2^64.
pub record Apart (tmp iov n : ℕ) : Type 0 where
  pub below : tmp + 16 * n < 2 ^ 64
  pub apart : (i j : ℕ) → i < n → j < n → at iov j ≢ at tmp i

-- `m'` has the elements of `m` from `i` on copied, and is otherwise as `m`.
record Copied (m m' : ℕ → Iov) (tmp iov i n : ℕ) : Type 0 where
  copied : (j : ℕ) → i ≤ j → j < n → m' (at tmp j) ≡ m (at iov j)
  others : (a : ℕ) → ((j : ℕ) → i ≤ j → j < n → a ≢ at tmp j) → m' a ≡ m a

Copied-next :
    (m m' : ℕ → Iov) (tmp iov i n : ℕ)
    → Apart tmp iov n
    → i < n
    → Copied (store_iov m (at tmp i) (m (at iov i))) m' tmp iov (i + 1) n
    → Copied m m' tmp iov i n
Copied-next m m' tmp iov i n ap' lt c = record {
  copied = λ j lo hi. elim (Bool-cases (i == j)) [
    | inl e ↦
        let same : i ≡ j = ground (arith, e) in
        subst (λ k. m' (at tmp k) ≡ m (at iov k)) same
          (c.others (at tmp i) (λ k klo khi. at_ne tmp i k n ap'.below lt khi (omega (arith, klo)))
            ∙ store_self m (at tmp i) (m (at iov i)))
    | inr e ↦
        c.copied j (ground (arith, e, lo)) hi
        ∙ store_ne m (at tmp i) (at iov j) (m (at iov i)) (ap'.apart i j lt hi)
  ];
  others = λ a f.
      c.others a (λ j lo hi. f j (omega (arith, lo)) hi)
      ∙ store_ne m (at tmp i) a (m (at iov i)) (f i (omega arith) lt);
}

copy_iovs-Copied :
    (m : ℕ → Iov) (tmp iov cap i n : ℕ)
    → Apart tmp iov cap
    → i + n ≡ cap
    → (m' : ℕ → Iov) × (copy_iovs m tmp iov 0 cap i n ≡ some m') × Copied m m' tmp iov i cap
unfolding copy_iovs
copy_iovs-Copied m tmp iov cap i zero apart e = (
  m,
  refl,
  record { copied = λ j lo hi. absurd (omega (arith, lo, hi, e)); others = λ a f. refl },
)
copy_iovs-Copied m tmp iov cap i (suc n) apart e =
    let h : ltb i cap ≡ true = ground (arith, e) in
    let z : i + 0 ≡ i = omega arith in
    let (m', eq, c) =
      copy_iovs-Copied (store_iov m (at tmp i) (m (at iov i))) tmp iov cap (i + 1) n apart
        (omega (arith, e)) in
    (m', rw (h, z) eq, Copied-next m m' tmp iov i cap apart (omega (arith, e)) c)

cut_first-eq :
    (io : Io) (m : ℕ → Iov) (tmp iov iovcnt u : ℕ)
    → ltb u (m tmp).iov_len ≡ true
    → cut_first io m tmp iov iovcnt 0 u
      ≡ some (record {
        done = true;
        io = record io {
          iovs =
              store_iov m tmp
                (record { iov_base = add64 (m tmp).iov_base u; iov_len = (m tmp).iov_len - u });
          flags = tmp;
          sockaddr = if io.sockaddr == 0 then iov else io.sockaddr;
        };
        iov = tmp;
        iovcnt = iovcnt - 0;
      })
unfolding cut_first
cut_first-eq io m tmp iov iovcnt u h = ground (arith, h)

update_first :
    (tmp : ℕ) (io : Io) (iov iovcnt u : ℕ) (m : ℕ → Iov)
    → (u == 0) ≡ false
    → (io.flags == 0) ≡ true
    → ltb 0 iovcnt ≡ true
    → copy_iovs io.iovs tmp iov 0 iovcnt 0 iovcnt ≡ some m
    → update_on_incomplete (some tmp) io iov iovcnt 0 u ≡ cut_first io m tmp iov iovcnt 0 u
unfolding update_on_incomplete
update_first tmp io iov iovcnt u m nz fresh lt e =
    let a : iovcnt - 0 ≡ iovcnt = omega arith in
    let b : iovcnt + 0 ≡ iovcnt = omega arith in rw (nz, fresh, lt, a, b, e) refl

-- What is left of `iovcnt` buffers when `u` bytes of the first are done: an array of as many, at
-- `tmp`
pub record CutAt (io : Io) (tmp iov iovcnt u : ℕ) (l : Left) : Type 0 where
  pub incomplete : l.done ≡ false
  pub at_tmp : l.iov ≡ tmp
  pub as_many : l.iovcnt ≡ iovcnt
  pub temporary : l.io.flags ≡ tmp
  pub first_cut : l.io.iovs (at tmp 0) ≡ record {
    iov_base = add64 (io.iovs (at iov 0)).iov_base u;
    iov_len = (io.iovs (at iov 0)).iov_len - u;
  }
  pub rest_copied : (j : ℕ) → 0 < j → j < iovcnt → l.io.iovs (at tmp j) ≡ io.iovs (at iov j)
  pub others : (a : ℕ) → ((j : ℕ) → j < iovcnt → a ≢ at tmp j) → l.io.iovs a ≡ io.iovs a

abbrev cut_iov : Iov → ℕ → Iov
cut_iov f u = record { iov_base = add64 f.iov_base u; iov_len = f.iov_len - u }

cut_of : (io : Io) (m : ℕ → Iov) (tmp iov iovcnt u : ℕ) → Left
cut_of io m tmp iov iovcnt u = record {
  done = false;
  io = record io {
    iovs =
        store_iov m tmp
          (record { iov_base = add64 (m tmp).iov_base u; iov_len = (m tmp).iov_len - u });
    flags = tmp;
    sockaddr = if io.sockaddr == 0 then iov else io.sockaddr;
  };
  iov = tmp;
  iovcnt = iovcnt - 0;
}

at_zero : (tmp n : ℕ) → tmp + 16 * n < 2 ^ 64 → at tmp 0 ≡ tmp
at_zero tmp n h = omega arith

cut_of-CutAt :
    (io : Io) (m : ℕ → Iov) (tmp iov iovcnt u : ℕ)
    → Apart tmp iov iovcnt
    → 0 < iovcnt
    → Copied io.iovs m tmp iov 0 iovcnt
    → CutAt io tmp iov iovcnt u (cut_of io m tmp iov iovcnt u)
unfolding cut_of
cut_of-CutAt io m tmp iov iovcnt u apart pos c =
    let z = at_zero tmp iovcnt apart.below in
    let first : m tmp ≡ io.iovs (at iov 0) = ap m (sym z) ∙ c.copied 0 (omega arith) pos in
    record {
      incomplete = refl;
      at_tmp = refl;
      as_many = omega arith;
      temporary = refl;
      first_cut =
          subst (λ a. store_iov m tmp (cut_iov (m tmp) u) a ≡ cut_iov (io.iovs (at iov 0)) u)
            (sym z) (store_self m tmp (cut_iov (m tmp) u) ∙ ap (λ f. cut_iov f u) first);
      rest_copied = λ j lo hi.
          store_ne m tmp (at tmp j) (cut_iov (m tmp) u)
            (λ e. at_ne tmp j 0 iovcnt apart.below hi pos (omega (arith, lo)) (e ∙ sym z))
          ∙ c.copied j (omega arith) hi;
      others = λ a f.
          store_ne m tmp a (cut_iov (m tmp) u) (λ e. f 0 pos (e ∙ sym z))
          ∙ c.others a (λ j lo hi. f j hi);
    }

none_before : (u : ℕ) → u ≡ 0 + u
none_before u = omega arith

-- A transfer that ends inside of the first of the buffers, of an operation without a temporary
-- array yet, with memory for one that is apart: the operation is not complete, and it goes on with
-- as many buffers, in the temporary array; the first starts behind the bytes that are done and is
-- shorter by them, the others are those of the operation. The rest of the memory does not change.
pub check_completion-CutAt :
    (tmp : ℕ) (io : Io) (iov iovcnt u : ℕ)
    → Apart tmp iov iovcnt
    → 0 < iovcnt
    → io.flags ≡ 0
    → 0 < u
    → u < (io.iovs (at iov 0)).iov_len
    → (l : Left) × (iovec_check_completion (some tmp) io iov iovcnt u ≡ some l)
      × CutAt io tmp iov iovcnt u l
unfolding iovec_check_completion cut_of
check_completion-CutAt tmp io iov iovcnt u apart pos fresh upos ult =
    let (m, e, c) = copy_iovs-Copied io.iovs tmp iov iovcnt 0 iovcnt apart (omega arith) in
    let z = at_zero tmp iovcnt apart.below in
    let first : m tmp ≡ io.iovs (at iov 0) = ap m (sym z) ∙ c.copied 0 (omega arith) pos in
    let lt : ltb u (m tmp).iov_len ≡ true =
      subst (λ (f : Iov). ltb u f.iov_len ≡ true) (sym first) (ground (arith, ult)) in
    (
      cut_of io m tmp iov iovcnt u,
      ap (account (some tmp) io iov iovcnt 0 iovcnt) (none_before u)
          ∙ account-within (some tmp) io iov iovcnt 0 0 iovcnt u upos ult pos
          ∙ ap unless_error (
              update_first tmp io iov iovcnt u m (ground (arith, upos)) (ground (arith, fresh))
                (ground (arith, pos)) e
              ∙ cut_first-eq io m tmp iov iovcnt u lt),
      cut_of-CutAt io m tmp iov iovcnt u apart pos c,
    )
