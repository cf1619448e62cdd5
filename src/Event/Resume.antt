-- ===== src/Event/Resume.antt =====
-- Which listeners a firing and its resumptions call.
use shuttlesock.Base.{
  ℕ, zero, suc, ◌+◌, ◌-◌, ◌%◌, ◌^◌, ◌≤◌, ◌<◌, ◌≡◌, ◌≢◌, refl, sym, ap, subst, ◌∙◌, ◌⊎◌, inl, inr,
  Bool, true, false, Option, none, some, List, [], ◌∷◌, ◌++◌, ◌==◌, if◌then◌else◌, length, arith,
  Bool-cases, Option-cases,
}
use shuttlesock.Event.{
  Interrupt, no_interrupt, paused, canceled, delayed, Request, ask_pause, ask_cancel, ask_delay,
  Listener, Event, Pause, Firing, try_to_interrupt, if_allowed, cancel, pause, delay, ask, ask_all,
  is_interrupted, calling, next, loop, drop, fire_event, resume,
}
use mathlib.Core.List.{append_assoc, append-nil}

-- i, i + 1, ... of `n` numbers
abbrev pub range : (i n : ℕ) → List ℕ
range i zero = []
range i (suc n) = i ∷ range (i + 1) n

pub range-append : (i n k : ℕ) → range i n ++ range (i + n) k ≡ range i (n + k)
range-append i zero k =
    let a : i + 0 ≡ i = omega arith in
    let b : k ≡ 0 + k = omega arith in ap (λ j. range j k) a ∙ ap (range i) b
range-append i (suc n) k =
    let a : i + suc n ≡ (i + 1) + n = omega arith in
    let b : suc (n + k) ≡ suc n + k = omega arith in
    ap (λ l. i ∷ l) (ap (λ j. range (i + 1) n ++ range j k) a ∙ range-append (i + 1) n k)
    ∙ ap (range i) b

-- What is stored for an interrupted firing: a pause goes on behind the listener at `index`, a
-- delay with it.
abbrev pub StoredFor : Interrupt → ℕ → Option Pause → Type 0
StoredFor paused i s = (p : Pause) × (s ≡ some p) × (p.next_listener_index ≡ (i + 1) % 2 ^ 16)
StoredFor delayed i s = (p : Pause) × (s ≡ some p) × (p.next_listener_index ≡ i % 2 ^ 16)
StoredFor _ i s = Unit

record Kept (f f' : Firing) : Type 0 where
  same_index : f'.index ≡ f.index
  same_calls : f'.calls ≡ f.calls
  stored : StoredFor f.interrupt f.index f.stored → StoredFor f'.interrupt f'.index f'.stored

true_ne_false : true ≢ false
true_ne_false h = ground (arith, h)

some_eq : (f g : Firing) → some f ≡ some g → f ≡ g
some_eq f g e = cc

if_allowed-cases :
    (t : Option (Bool × ℕ)) (f : Firing) (g : ℕ → Firing) (f' : Firing)
    → if_allowed t f g ≡ some f'
    → (f' ≡ f) ⊎ ((msec : ℕ) × (f' ≡ g msec))
if_allowed-cases none f g f' e = absurd (ground (arith, e))
if_allowed-cases (some (false, msec)) f g f' e = inl (some_eq f' f (sym e))
if_allowed-cases (some (true, msec)) f g f' e = inr (msec, some_eq f' (g msec) (sym e))

Kept-refl : (f : Firing) → Kept f f
Kept-refl f = record { same_index = refl; same_calls = refl; stored = λ h. h }

allowed-Kept :
    (t : Option (Bool × ℕ)) (f : Firing) (g : ℕ → Firing) (f' : Firing)
    → ((msec : ℕ) → Kept f (g msec))
    → if_allowed t f g ≡ some f'
    → Kept f f'
allowed-Kept t f g f' k e = elim (if_allowed-cases t f g f' e) [
  | inl h ↦ subst (λ x. Kept f x) (sym h) (Kept-refl f)
  | inr (msec, h) ↦ subst (λ x. Kept f x) (sym h) (k msec)
]

if_delayed :
    (c : Bool) (f : Firing) (reason : ℕ)
    → Kept f (
        if c then f else record f {
          interrupt = delayed;
          stored = some (record { reason = reason; next_listener_index = f.index % 2 ^ 16 });
          timer_started = true;
        })
if_delayed true f reason = Kept-refl f
if_delayed false f reason = record {
  same_index = refl;
  same_calls = refl;
  stored = λ _. (_, refl, refl);
}

ask-Kept : (ev : Event) (f : Firing) (r : Request) (f' : Firing) → ask ev f r ≡ some f' → Kept f f'
unfolding ask cancel pause delay
ask-Kept ev f (ask_pause reason) f' e =
    allowed-Kept (try_to_interrupt ev paused 0) f _ f'
      (λ msec. record { same_index = refl; same_calls = refl; stored = λ _. (_, refl, refl) }) e
ask-Kept ev f ask_cancel f' e =
    allowed-Kept (try_to_interrupt ev canceled 0) f _ f'
      (λ msec. record { same_index = refl; same_calls = refl; stored = λ _. tt }) e
ask-Kept ev f (ask_delay reason msec) f' e =
    allowed-Kept (try_to_interrupt ev delayed msec) f _ f'
      (λ allowed. if_delayed (allowed == 0) f reason) e

ask_all-Kept :
    (ev : Event) (f : Firing) (rs : List Request) (f' : Firing)
    → ask_all ev f rs ≡ some f'
    → Kept f f'
unfolding ask_all
ask_all-Kept ev f [] f' e = subst (λ x. Kept f x) (some_eq f f' e) (Kept-refl f)
ask_all-Kept ev f (r ∷ rs) f' e = elim (Option-cases (ask ev f r)) [
  | inl h ↦ absurd (ground (arith, h, e))
  | inr (g, h) ↦
      let k = ask-Kept ev f r g h in
      let l = ask_all-Kept ev g rs f' (ground (arith, h, e)) in
      record {
        same_index = l.same_index ∙ k.same_index;
        same_calls = l.same_calls ∙ k.same_calls;
        stored = λ x. l.stored (k.stored x);
      }
]

-- What the loop comes to from `f` on: `n` listeners more are called, all that there are if it is
-- not interrupted.
record Went (left : ℕ) (f f' : Firing) (n : ℕ) : Type 0 where
  index_lem : f'.index ≡ f.index + n
  calls_lem : f'.calls ≡ f.calls ++ range f.index n
  at_most : n ≤ left
  to_end : f'.interrupt ≡ no_interrupt → n ≡ left
  some_called : f'.interrupt ≢ no_interrupt → 0 < n
  held :
      f'.interrupt ≢ no_interrupt
      → (i : ℕ) × (f'.index ≡ i + 1) × StoredFor f'.interrupt i f'.stored

not_interrupted : (i : Interrupt) → is_interrupted i ≡ false → i ≡ no_interrupt
not_interrupted no_interrupt h = refl
not_interrupted paused h = absurd (ground (arith, h))
not_interrupted canceled h = absurd (ground (arith, h))
not_interrupted delayed h = absurd (ground (arith, h))

interrupted_ne : (i : Interrupt) → is_interrupted i ≡ true → i ≢ no_interrupt
interrupted_ne i h e = true_ne_false (sym h ∙ ap (λ (j : Interrupt). is_interrupted j) e)

stopped-Went :
    (m : ℕ) (f g : Firing)
    → f.interrupt ≡ no_interrupt
    → Kept (calling f) g
    → is_interrupted g.interrupt ≡ true
    → Went (suc m) f (next g) 1
stopped-Went m f g none_yet k stop =
    let same = k.same_index in
    record {
      index_lem = ap (λ i. i + 1) same;
      calls_lem = k.same_calls;
      at_most = omega arith;
      to_end = λ h. absurd (interrupted_ne g.interrupt stop h);
      some_called = λ h. omega arith;
      held = λ h.
          (g.index, refl, k.stored (subst (λ i. StoredFor i f.index f.stored) (sym none_yet) tt));
    }

on-Went :
    (m n : ℕ) (f g f' : Firing)
    → Kept (calling f) g
    → Went m (next g) f' n
    → Went (suc m) f f' (suc n)
on-Went m n f g f' k w =
    let same = k.same_index in
    let at = w.index_lem in
    let le = w.at_most in
    record {
      index_lem = omega (arith, same, at);
      calls_lem =
          w.calls_lem
          ∙ ap (λ c. c ++ range (g.index + 1) n) k.same_calls
          ∙ ap (λ i. (f.calls ++ f.index ∷ []) ++ range (i + 1) n) same
          ∙ append_assoc f.calls (f.index ∷ []) (range (f.index + 1) n);
      at_most = omega (arith, le);
      to_end = λ h. ap suc (w.to_end h);
      some_called = λ h. omega arith;
      held = w.held;
    }

loop-Went :
    (ev : Event) (firing : ℕ) (ls : List Listener) (f f' : Firing)
    → f.interrupt ≡ no_interrupt
    → loop ev firing ls f ≡ some f'
    → (n : ℕ) × Went (length ls) f f' n
unfolding loop
loop-Went ev firing [] f f' none_yet e = (
  0,
  subst (λ x. Went 0 f x 0) (some_eq f f' e)
      (record {
        index_lem = omega arith;
        calls_lem = sym (append-nil f.calls);
        at_most = omega arith;
        to_end = λ _. refl;
        some_called = λ h. absurd (h none_yet);
        held = λ h. absurd (h none_yet);
      }),
)
loop-Went ev firing (l ∷ ls) f f' none_yet e =
    elim (Option-cases (ask_all ev (calling f) (l.fn firing))) [
      | inl h ↦ absurd (ground (arith, h, e))
      | inr (g, h) ↦
          let k = ask_all-Kept ev (calling f) (l.fn firing) g h in
          elim (Bool-cases (is_interrupted g.interrupt)) [
            | inl stop ↦
                let eq : next g ≡ f' = some_eq (next g) f' (ground (arith, h, e, stop)) in
                (
                  1,
                  subst (λ x. Went (suc (length ls)) f x 1) eq
                      (stopped-Went (length ls) f g none_yet k stop),
                )
            | inr go ↦
                let eq : loop ev firing ls (next g) ≡ some f' = ground (arith, h, e, go) in
                let (n, w) =
                  loop-Went ev firing ls (next g) f' (not_interrupted g.interrupt go) eq in
                (suc n, on-Went (length ls) n f g f' k w)
          ]
    ]

length-drop {ℓ} : {A : Type ℓ} (n : ℕ) (xs : List A) → length (drop n xs) ≡ length xs - n
length-drop zero xs = omega arith
length-drop (suc n) [] = omega arith
length-drop (suc n) (x ∷ xs) = let h = length-drop n xs in omega (arith, h)

fired : ℕ → Firing
fired start = record {
  index = start;
  interrupt = no_interrupt;
  stored = none;
  timer_started = false;
  calls = [];
}

-- A firing from listener `start` on calls listeners one after another without a gap; it calls all
-- of the rest unless it is interrupted.
fire_event-Went :
    (ev : Event) (firing start : ℕ) (f : Firing)
    → fire_event ev firing start ≡ some f
    → (n : ℕ) × Went (length ev.listeners - start) (fired start) f n
unfolding fire_event fired
fire_event-Went ev firing start f e =
    let (n, w) = loop-Went ev firing (drop start ev.listeners) (fired start) f refl e in
    (n, subst (λ k. Went k (fired start) f n) (length-drop start ev.listeners) w)

-- A firing and its resumptions, up to one that nothing interrupts: what is called is called in the
-- order of the list. A firing that is paused goes on where the pause says.
pub data Fires (ev : Event) : ℕ → List ℕ → Type 0 where
  ends :
      (firing start : ℕ) (f : Firing)
      → fire_event ev firing start ≡ some f
      → f.interrupt ≡ no_interrupt
      → Fires ev start f.calls
  goes_on :
      (firing start : ℕ) (f : Firing) (p : Pause) (rest : List ℕ)
      → fire_event ev firing start ≡ some f
      → f.interrupt ≡ paused
      → f.stored ≡ some p
      → Fires ev p.next_listener_index rest
      → Fires ev start (f.calls ++ rest)

pause_eq : (p q : Pause) → some p ≡ some q → p ≡ q
pause_eq p q e = cc

paused_ne : paused ≢ no_interrupt
paused_ne e = interrupted_ne paused refl e

delayed_ne : delayed ≢ no_interrupt
delayed_ne e = interrupted_ne delayed refl e

next_index :
    (ev : Event) (firing start : ℕ) (f : Firing) (p : Pause)
    → fire_event ev firing start ≡ some f
    → f.interrupt ≡ paused
    → f.stored ≡ some p
    → start ≤ length ev.listeners
    → length ev.listeners < 2 ^ 16
    → (n : ℕ) × (f.calls ≡ range start n)
      × (p.next_listener_index ≡ start + n)
      × (start + n ≤ length ev.listeners)
unfolding fired
next_index ev firing start f p e h s le small =
    let (n, w) = fire_event-Went ev firing start f e in
    let (i, at, st) = w.held (λ k. paused_ne (sym h ∙ k)) in
    let (q, same, place) = subst (λ x. StoredFor x i f.stored) h st in
    let index = w.index_lem in
    let most = w.at_most in
    let eq : p.next_listener_index ≡ q.next_listener_index =
      ap (λ (x : Pause). x.next_listener_index) (pause_eq p q (sym s ∙ same)) in
    (n, w.calls_lem, omega (arith, eq, place, at, index, most, le, small), omega (arith, most, le))

-- Of an event with fewer than 2^16 listeners, a firing from listener `start` on that is paused any
-- number of times, each time is resumed with the pause that it stored, and in the end is not
-- interrupted, has called each of the listeners from `start` on exactly once, in their order.
pub Fires-range :
    (ev : Event) (start : ℕ) (calls : List ℕ)
    → Fires ev start calls
    → start ≤ length ev.listeners
    → length ev.listeners < 2 ^ 16
    → calls ≡ range start (length ev.listeners - start)
unfolding fired
Fires-range ev _ calls (ends firing start f e h) le small =
    let (n, w) = fire_event-Went ev firing start f e in w.calls_lem ∙ ap (range start) (w.to_end h)
Fires-range ev _ calls (goes_on firing start f p rest e h s more) le small =
    let (n, calls_eq, at, le') = next_index ev firing start f p e h s le small in
    let ih = Fires-range ev p.next_listener_index rest more (omega (arith, at, le')) small in
    let total : n + (length ev.listeners - (start + n)) ≡ length ev.listeners - start =
      omega (arith, le') in
    ap (λ c. c ++ rest) calls_eq
    ∙ ap (λ c. range start n ++ c) (ih ∙ ap (λ i. range i (length ev.listeners - i)) at)
    ∙ range-append start n (length ev.listeners - (start + n))
    ∙ ap (range start) total

-- A firing that a listener has delayed and that is resumed once, without an interrupt, calls the
-- listeners from `start` up to the one that delayed it, and then that same listener again and all
-- behind it.
pub delay-calls_again :
    (ev : Event) (firing again start : ℕ) (f g : Firing) (p : Pause)
    → fire_event ev firing start ≡ some f
    → f.interrupt ≡ delayed
    → f.stored ≡ some p
    → resume ev again p ≡ some g
    → g.interrupt ≡ no_interrupt
    → start ≤ length ev.listeners
    → length ev.listeners < 2 ^ 16
    → (j : ℕ) × (f.calls ++ g.calls
        ≡ range start (j + 1) ++ range (start + j) (length ev.listeners - (start + j)))
      × (start + j < length ev.listeners)
unfolding fired resume
delay-calls_again ev firing again start f g p e h s r done le small =
    let (n, w) = fire_event-Went ev firing start f e in
    let (i, at, st) = w.held (λ k. delayed_ne (sym h ∙ k)) in
    let (q, same, place) = subst (λ x. StoredFor x i f.stored) h st in
    let index = w.index_lem in
    let most = w.at_most in
    let eq : p.next_listener_index ≡ q.next_listener_index =
      ap (λ (x : Pause). x.next_listener_index) (pause_eq p q (sym s ∙ same)) in
    let (m, v) = fire_event-Went ev again p.next_listener_index g r in
    let one = w.some_called (λ k. delayed_ne (sym h ∙ k)) in
    let here : p.next_listener_index ≡ start + (n - 1) =
      omega (arith, eq, place, at, index, most, le, small, one) in
    let back : n ≡ (n - 1) + 1 = omega (arith, one) in
    (
      n - 1,
      ap (λ c. c ++ g.calls) (w.calls_lem ∙ ap (range start) back)
          ∙ ap (λ c. range start ((n - 1) + 1) ++ c)
              (v.calls_lem
                ∙ ap (range p.next_listener_index) (v.to_end done)
                ∙ ap (λ k. range k (length ev.listeners - k)) here),
      omega (arith, most, one, le),
    )
