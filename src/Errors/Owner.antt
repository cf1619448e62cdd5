-- ===== src/Errors/Owner.antt =====
-- src/shuttlesock.c: who owns the memory of the last error's message.
use shuttlesock.Base.{
  ℕ, ◌+◌, ◌^◌, ◌<◌, Bool, true, false, Option, some, List, [], ◌∷◌, ◌++◌, ◌≡◌, refl, ap, ◌∙◌, arith,
  length, length-append, bind_crash, if◌then◌else◌, not, ◌&&◌,
}
use shuttlesock.Errors.{
  Msg, no_msg, out_of_memory, allocd, Errors, Calls, done, set_error, free, free_oldmsg, store_msg,
  log_error, publish_error, set_error_internal, run,
}

-- The message's memory is the only one that is live, and it is marked as static just if it is.
abbrev pub OwnsMsg : Msg → Bool → List ℕ → ℕ → Type 0
OwnsMsg no_msg static live next = live ≡ []
OwnsMsg out_of_memory static live next = (static ≡ true) × (live ≡ [])
OwnsMsg (allocd k) static live next = (static ≡ false) × (live ≡ k ∷ []) × (k < next)

abbrev pub Owns : Errors → Type 0
Owns s = OwnsMsg s.msg s.static_memory s.live s.next_alloc

-- The calls that run: all at the top, and those of the listeners of each, if it is heard.
abbrev pub calls_run : (heard : Bool) → Calls → ℕ
calls_run heard done = 0
calls_run true (set_error n malloc listeners rest) =
    1 + calls_run false listeners + calls_run true rest
calls_run false (set_error n malloc listeners rest) = 1 + calls_run false rest

abbrev pub calls_heard : (heard : Bool) → Calls → ℕ
calls_heard false calls = 0
calls_heard true done = 0
calls_heard true (set_error n malloc listeners rest) = 1 + calls_heard true rest

-- whether an error is published
abbrev pub is_heard : Errors → Bool
is_heard s = not s.do_not_publish_event && s.past_configuring

abbrev pub is_done : Calls → Bool
is_done done = true
is_done _ = false

abbrev pub is_msg : Msg → Bool
is_msg no_msg = false
is_msg _ = true

-- What calls keep, and what they count.
pub record Ran (heard : Bool) (calls : Calls) (s s' : Errors) : Type 0 where
  pub owns : Owns s'
  pub counted : s'.error_count ≡ s.error_count + calls_run heard calls
  pub published : length s'.published ≡ length s.published + calls_heard heard calls
  pub same_log : s'.do_not_log ≡ s.do_not_log
  pub same_publish : s'.do_not_publish_event ≡ s.do_not_publish_event
  pub same_configuring : s'.past_configuring ≡ s.past_configuring
  pub quiet_log : (if s.do_not_log then s'.logged else s.logged) ≡ s.logged
  pub quiet_events : (if heard then s.published else s'.published) ≡ s.published
  pub has_msg : (if is_done calls then is_msg s.msg else true) ≡ is_msg s'.msg

-- what a new message changes before it is published
record Renewed (s s' : Errors) : Type 0 where
  owns : Owns s'
  counted : s'.error_count ≡ s.error_count + 1
  same_published : length s'.published ≡ length s.published
  same_log : s'.do_not_log ≡ s.do_not_log
  same_publish : s'.do_not_publish_event ≡ s.do_not_publish_event
  same_configuring : s'.past_configuring ≡ s.past_configuring
  quiet_log : (if s.do_not_log then s'.logged else s.logged) ≡ s.logged
  same_events : s'.published ≡ s.published
  has_msg : is_msg s'.msg ≡ true

free-fresh : (a n : ℕ) (live : List ℕ) → a < n → live ≡ a ∷ [] → free a (n ∷ live) ≡ some (n ∷ [])
free-fresh a n live h e = ground (arith, ap (λ l. free a (n ∷ l)) e)

free-only : (a : ℕ) (live : List ℕ) → live ≡ a ∷ [] → free a live ≡ some []
free-only a live e = ground (arith, ap (free a) e)

-- the state with the new message, and nothing else in memory
renew : Bool → Errors → Errors
renew malloc s =
    let r = log_error (store_msg malloc (record s { error_count = s.error_count + 1 })) in
    record r { live = if malloc then s.next_alloc ∷ [] else [] }

free_oldmsg-renew :
    (malloc : Bool) (s : Errors) (old : Msg) (static : Bool)
    → OwnsMsg old static s.live s.next_alloc
    → free_oldmsg old static
        (log_error (store_msg malloc (record s { error_count = s.error_count + 1 })))
      ≡ some (renew malloc s)
unfolding renew
free_oldmsg-renew true s no_msg static h = ground arith
free_oldmsg-renew false s no_msg static h = ground arith
free_oldmsg-renew true s out_of_memory true h = ground arith
free_oldmsg-renew false s out_of_memory true h = ground arith
free_oldmsg-renew malloc s out_of_memory false h = cc
free_oldmsg-renew malloc s (allocd a) true h = cc
free_oldmsg-renew true s (allocd a) false h = ground (arith, free-fresh a s.next_alloc s.live)
free_oldmsg-renew false s (allocd a) false h = ground (arith, free-only a s.live)

renew-Renewed : (malloc : Bool) (s : Errors) → Renewed s (renew malloc s)
unfolding renew
renew-Renewed true s = ground arith
renew-Renewed false s = ground arith

set_error_internal-renew :
    (malloc : Bool) (listeners : Errors → Option Errors) (s : Errors)
    → Owns s
    → s.error_count + 1 < 2 ^ 31
    → set_error_internal malloc listeners s ≡ publish_error listeners (renew malloc s)
unfolding set_error_internal
set_error_internal-renew malloc listeners s h b =
    ground (arith, free_oldmsg-renew malloc s s.msg s.static_memory h)

-- the state in which the listeners run
abbrev telling : Errors → Errors
telling s = record s { do_not_publish_event = true; published = s.published ++ s.msg ∷ [] }

publish_error-heard :
    (l : Errors → Option Errors) (s s' : Errors)
    → is_heard s ≡ true
    → l (telling s) ≡ some s'
    → publish_error l s ≡ some (record s' { do_not_publish_event = false })
publish_error-heard l s s' h e = ground (arith, e)

publish_error-quiet :
    (l : Errors → Option Errors) (s : Errors) → is_heard s ≡ false → publish_error l s ≡ some s
publish_error-quiet l s h = ground arith

abbrev pub Runs : Bool → Calls → Errors → Type 0
Runs heard c s = (s' : Errors) × (run c s ≡ some s') × Ran heard c s s'

abbrev back : Errors → Errors
back s = record s { do_not_publish_event = false }

back-is_heard :
    {listeners : Calls} {s s1 s2 : Errors}
    → is_heard s ≡ true
    → Renewed s s1
    → Ran false listeners (telling s1) s2
    → is_heard (back s2) ≡ true
back-is_heard q new r = ground arith

back-count :
    {listeners : Calls} {s s1 s2 : Errors}
    → Renewed s s1
    → Ran false listeners (telling s1) s2
    → s2.error_count ≡ s.error_count + 1 + calls_run false listeners
back-count new r = omega (arith, new.counted, r.counted)

heard-Ran :
    {n : ℕ} {malloc : Bool} {listeners rest : Calls} {s s1 s2 s3 : Errors}
    → is_heard s ≡ true
    → Renewed (record s { error_number = n }) s1
    → Ran false listeners (telling s1) s2
    → Ran true rest (back s2) s3
    → Ran true (set_error n malloc listeners rest) s s3
heard-Ran {s1 = s1} q new r2 r3 = ground (arith, length-append s1.published (s1.msg ∷ []))

quiet-Ran :
    {n : ℕ} {malloc : Bool} {listeners rest : Calls} {s s1 s3 : Errors}
    → is_heard s ≡ false
    → Renewed (record s { error_number = n }) s1
    → Ran false rest s1 s3
    → Ran false (set_error n malloc listeners rest) s s3
quiet-Ran q new r3 = ground arith

run-step :
    (n : ℕ) (malloc : Bool) (listeners rest : Calls) (s s2 s3 : Errors)
    → set_error_internal malloc (run listeners) (record s { error_number = n }) ≡ some s2
    → run rest s2 ≡ some s3
    → run (set_error n malloc listeners rest) s ≡ some s3
unfolding run
run-step n malloc listeners rest s s2 s3 e e' = ap (λ o. bind_crash o (run rest)) e ∙ e'

heard_step :
    (n : ℕ) (malloc : Bool) (listeners rest : Calls) (s : Errors)
    → is_heard s ≡ true
    → Owns s
    → s.error_count + calls_run true (set_error n malloc listeners rest) < 2 ^ 31
    → ((t : Errors)
        → is_heard t ≡ false
        → Owns t
        → t.error_count + calls_run false listeners < 2 ^ 31
        → Runs false listeners t)
    → ((t : Errors)
        → is_heard t ≡ true
        → Owns t
        → t.error_count + calls_run true rest < 2 ^ 31
        → Runs true rest t)
    → Runs true (set_error n malloc listeners rest) s
heard_step n malloc listeners rest s q h b run_listeners run_rest =
    then_listeners
      (run_listeners (telling (renew malloc s0)) refl new.owns (omega (arith, new.counted)))
  where
    s0 : Errors
    s0 = record s { error_number = n }

    new : Renewed s0 (renew malloc s0)
    new = renew-Renewed malloc s0

    then_rest :
        (s2 : Errors)
        → run listeners (telling (renew malloc s0)) ≡ some s2
        → Ran false listeners (telling (renew malloc s0)) s2
        → Runs true rest (back s2)
        → Runs true (set_error n malloc listeners rest) s
    then_rest s2 e r (s3, e3, r3) = (
      s3,
      run-step n malloc listeners rest s (back s2) s3
          (set_error_internal-renew malloc (run listeners) s0 h (omega arith)
            ∙ publish_error-heard (run listeners) (renew malloc s0) s2 (ground (arith, new)) e)
          e3,
      heard-Ran {s = s} q new r r3,
    )

    then_listeners :
        Runs false listeners (telling (renew malloc s0))
        → Runs true (set_error n malloc listeners rest) s
    then_listeners (s2, e, r) = then_rest s2 e r (
        run_rest (back s2) (back-is_heard {s = s0} q new r) r.owns
          (omega (arith, back-count {s = s0} new r)))

quiet_step :
    (n : ℕ) (malloc : Bool) (listeners rest : Calls) (s : Errors)
    → is_heard s ≡ false
    → Owns s
    → s.error_count + calls_run false (set_error n malloc listeners rest) < 2 ^ 31
    → ((t : Errors)
        → is_heard t ≡ false
        → Owns t
        → t.error_count + calls_run false rest < 2 ^ 31
        → Runs false rest t)
    → Runs false (set_error n malloc listeners rest) s
quiet_step n malloc listeners rest s q h b run_rest =
    then_rest
      (run_rest (renew malloc s0) (ground (arith, new)) new.owns (omega (arith, new.counted)))
  where
    s0 : Errors
    s0 = record s { error_number = n }

    new : Renewed s0 (renew malloc s0)
    new = renew-Renewed malloc s0

    then_rest : Runs false rest (renew malloc s0) → Runs false (set_error n malloc listeners rest) s
    then_rest (s3, e3, r3) = (
      s3,
      run-step n malloc listeners rest s (renew malloc s0) s3
          (set_error_internal-renew malloc (run listeners) s0 h (omega arith)
            ∙ publish_error-quiet (run listeners) (renew malloc s0) (ground (arith, new)))
          e3,
      quiet-Ran {s = s} q new r3,
    )

-- Calls that set errors, made where the memory of the last message is all that is live, run to
-- the end unless there are 2^31 errors. No memory is leaked, freed twice or freed though it is static: at the
-- end that of the last message is again all that is live. Where errors are published each call is
-- heard once, and the calls that a listener makes are counted, but not heard.
pub run-Ran :
    (heard : Bool) (c : Calls) (s : Errors)
    → is_heard s ≡ heard
    → Owns s
    → s.error_count + calls_run heard c < 2 ^ 31
    → (s' : Errors) × (run c s ≡ some s') × Ran heard c s s'
unfolding run
run-Ran heard done s q h b = (s, refl, ground arith)
run-Ran true (set_error n malloc listeners rest) s q h b =
    heard_step n malloc listeners rest s q h b (run-Ran false listeners) (run-Ran true rest)
run-Ran false (set_error n malloc listeners rest) s q h b =
    quiet_step n malloc listeners rest s q h b (run-Ran false rest)
