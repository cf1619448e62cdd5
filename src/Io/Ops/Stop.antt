-- ===== src/Io/Ops/Stop.antt =====
-- The end of an operation from outside.
use shuttlesock.Base.{◌≡◌, refl, sym, subst, inl, inr, true, false, arith, Bool-cases}
use shuttlesock.Io.{watch_none, Io, minus_one, ecanceled, watch_update, op_cleanup, is_watch_none}
use shuttlesock.Io.Ops.{abort}

-- Nothing is watched any more, and the result says that the operation was canceled.
pub record Stopped (io : Io) : Type 0 where
  pub unwatched : io.watch_type ≡ watch_none
  pub inactive : io.active ≡ false
  pub failed : io.result ≡ minus_one
  pub canceled : io.error ≡ ecanceled

pub update_none :
    (io : Io) → is_watch_none io.watch_type ≡ true → watch_update io ≡ record io { active = false }
unfolding watch_update
update_none io h = elim (Bool-cases io.active) [
  | inl a ↦ ground (arith, h, a)
  | inr a ↦ ground (arith, h, a)
]

pub update_some :
    (io : Io) → is_watch_none io.watch_type ≡ false → watch_update io ≡ record io { active = true }
unfolding watch_update
update_some io h = elim (Bool-cases io.active) [
  | inl a ↦ ground (arith, h, a)
  | inr a ↦ ground (arith, h, a)
]

pub abort-Stopped : (io : Io) → Stopped (abort io)
unfolding abort
abort-Stopped io =
    let x : Io = record (op_cleanup io) {
      watch_type = watch_none;
      error = ecanceled;
      result = minus_one;
    } in
    subst (λ (y : Io). Stopped y) (sym (update_none x refl))
      (record { unwatched = refl; inactive = refl; failed = refl; canceled = refl })
