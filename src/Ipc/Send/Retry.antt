-- ===== src/Ipc/Send/Retry.antt =====
-- The retry of buffered messages loses none and keeps their order.
use shuttlesock.Base.{
  ℕ, ◌+◌, ◌≡◌, refl, ap, ◌∙◌, true, false, Option, none, some, List, [], ◌∷◌, ◌++◌, arith, inl, inr,
  ◌⊎◌, Option-cases,
}
use shuttlesock.Ipc.Ring.{Ring}
use shuttlesock.Ipc.Ring.Refine.{contents, IsValid}
use shuttlesock.Ipc.Send.{Process, Outbuf, Sender, Sent, direct, send_retry, send_retry_cb}
use shuttlesock.Ipc.Send.Order.{
  if_to, messages_to, pending, Good, Direct, delivered, refused, direct-Direct, put-contents,
  kept-contents, stored-IsValid, stored-release,
}
use shuttlesock.Ipc.Send.Step.{put}
use mathlib.Core.List.{append_assoc}

-- The same messages are pending, in the same order; those that still wait have an active timer.
pub record Retried (k : ℕ) (s s' : Sender) : Type 0 where
  pub good : Good k s'
  pub kept : (p : Process) → pending s' p ≡ pending s p
  pub armed : (s'.outbuf ≡ []) ⊎ (s'.retry_active ≡ true)
  pub same_procnum : s'.procnum ≡ s.procnum
  pub same_state : s'.state ≡ s.state
  pub same_shm : s'.shm ≡ s.shm

abbrev at : Sender → List Outbuf → Sender
at s os = record s { outbuf = os }

-- The rest of the loop, by how the call for the first message ends
abbrev and_rest : List Outbuf → Sent → Option Sender
and_rest rest none = none
and_rest rest (some (true, s')) = send_retry rest (at s' rest)
and_rest rest (some (false, s')) = some (record s' { retry_active = true })

send_retry_eq :
    (cur : Outbuf) (rest : List Outbuf) (s : Sender)
    → send_retry (cur ∷ rest) s ≡ and_rest rest (direct s cur.dst cur.msg)
unfolding send_retry
send_retry_eq cur rest s = elim (Option-cases (direct s cur.dst cur.msg)) [
  | inl e ↦ ground (arith, e)
  | inr ((true, s'), e) ↦ ground (arith, e)
  | inr ((false, s'), e) ↦ ground (arith, e)
]

delivered-Good :
    (k : ℕ) (s : Sender) (cur : Outbuf) (rest : List Outbuf) (b : Ring)
    → Good k (at s (cur ∷ rest))
    → IsValid b
    → b.next_write_release ≡ (s.ring cur.dst).next_write_release + 1
    → Good k (at (put s cur.dst b) rest)
delivered-Good k s cur rest b g v e = record {
  valid = stored-IsValid s.ring cur.dst b g.valid v;
  fits =
      λ p. let f = g.fits p in let r = stored-release s.ring cur.dst b 1 e p in omega (arith, f, r);
  codes = let (c, cs) = g.codes in cs;
}

refused-Good :
    (k : ℕ) (s : Sender) (cur : Outbuf) (b : Ring)
    → Good k s
    → IsValid b
    → b.next_write_release ≡ (s.ring cur.dst).next_write_release
    → Good k (record (put s cur.dst b) { retry_active = true })
refused-Good k s cur b g v e = record {
  valid = stored-IsValid s.ring cur.dst b g.valid v;
  fits = λ p.
      let f = g.fits p in
      let r = stored-release s.ring cur.dst b 0 (omega (arith, e)) p in omega (arith, f, r);
  codes = g.codes;
}

and_rest-Retried :
    (k : ℕ) (cur : Outbuf) (rest : List Outbuf) (s : Sender) (r : Sent)
    → ((t : Sender)
        → Good k (at t rest)
        → (s' : Sender) × (send_retry rest (at t rest) ≡ some s') × Retried k (at t rest) s')
    → Good k (at s (cur ∷ rest))
    → Direct (at s (cur ∷ rest)) cur.dst cur.msg r
    → (s' : Sender) × (and_rest rest r ≡ some s') × Retried k (at s (cur ∷ rest)) s'
and_rest-Retried k cur rest s r ih g (delivered b v c e) =
    let (s', eq, t) = ih (put s cur.dst b) (delivered-Good k s cur rest b g v e) in
    (
      s',
      eq,
      record {
        good = t.good;
        kept = λ p.
            t.kept p
            ∙ ap (λ ms. ms ++ messages_to p rest) (put-contents s.ring cur.dst p cur.msg b c)
            ∙ append_assoc (contents (s.ring p)) (if_to p cur.dst cur.msg) (messages_to p rest);
        armed = t.armed;
        same_procnum = t.same_procnum;
        same_state = t.same_state;
        same_shm = t.same_shm;
      },
    )
and_rest-Retried k cur rest s r ih g (refused b v c e) = (
  record (put (at s (cur ∷ rest)) cur.dst b) { retry_active = true },
  refl,
  record {
    good = refused-Good k (at s (cur ∷ rest)) cur b g v e;
    kept = λ p. ap (λ ms. ms ++ messages_to p (cur ∷ rest)) (kept-contents s.ring cur.dst p b c);
    armed = inr refl;
    same_procnum = refl;
    same_state = refl;
    same_shm = refl;
  },
)

send_retry-Retried :
    (k : ℕ) (os : List Outbuf) (s : Sender)
    → Good k (at s os)
    → (s' : Sender) × (send_retry os (at s os) ≡ some s') × Retried k (at s os) s'
unfolding send_retry
send_retry-Retried k [] s g = (
  at s [],
  refl,
  record {
    good = g;
    kept = λ p. refl;
    armed = inl refl;
    same_procnum = refl;
    same_state = refl;
    same_shm = refl;
  },
)
send_retry-Retried k (cur ∷ rest) s g =
    let f = g.fits cur.dst in
    let (c, cs) = g.codes in
    let d =
      direct-Direct (at s (cur ∷ rest)) cur.dst cur.msg (g.valid cur.dst) c (omega (arith, f)) in
    let (s', e, t) =
      and_rest-Retried k cur rest s (direct (at s (cur ∷ rest)) cur.dst cur.msg)
        (λ t h. send_retry-Retried k rest t h) g d in
    (s', send_retry_eq cur rest (at s (cur ∷ rest)) ∙ e, t)

pub send_retry_cb-Retried :
    (k : ℕ) (s : Sender) → Good k s → (s' : Sender) × (send_retry_cb s ≡ some s') × Retried k s s'
unfolding send_retry_cb
send_retry_cb-Retried k s g = send_retry-Retried k s.outbuf s g
