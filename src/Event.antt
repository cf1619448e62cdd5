-- ===== src/Event.antt =====
-- src/event.c: how an event is fired, interrupted and resumed. A listener is known by what it asks
-- for when it is called; the Lua registry in which delays are kept is a parameter.
pub mod Resume
mod Tests
use shuttlesock.Base.{
  ℕ, zero, suc, ◌+◌, Bool, true, false, Option, none, some, List, [], ◌∷◌, ◌++◌, ◌%◌, ◌^◌, ◌==◌,
  if◌then◌else◌,
}

-- `shuso_event_interrupt_t`
pub data Interrupt : Type 0 where
  no_interrupt : Interrupt
  paused : Interrupt
  canceled : Interrupt
  delayed : Interrupt

-- What a listener asks for: a pause with a reason, a cancelation, or a delay with a reason and a
-- number of milliseconds, 0 for one that is not positive.
pub data Request : Type 0 where
  ask_pause : (reason : ℕ) → Request
  ask_cancel : Request
  ask_delay : (reason msec : ℕ) → Request

-- `shuso_event_listener_t`: the module, and what the function asks for when it is called in a
-- firing
pub record Listener : Type 0 where
  pub module_index : ℕ
  pub fn : (firing : ℕ) → List Request

-- `shuso_event_t`: the listeners up to that without a function, and the interrupt handler, if
-- there is one; it answers a request with whether it is allowed, and the delay that it allows.
pub record Event : Type 0 where
  pub listeners : List Listener
  pub interrupt_handler : Option (Interrupt → ℕ → Bool × ℕ)

-- `shuso_event_pause_t`, as also kept in `shuso_event_delay_t`, without the event, code and data
pub record Pause : Type 0 where
  pub reason : ℕ
  pub next_listener_index : ℕ

-- `shuso_complete_event_state_t`, `index` being that of `cur`, with what the calls have left: the
-- pause that was stored last, whether a delay's timer was started for it, and the listeners called
-- so far.
pub record Firing : Type 0 where
  pub index : ℕ
  pub interrupt : Interrupt
  pub stored : Option Pause
  pub timer_started : Bool
  pub calls : List ℕ

-- `try_to_interrupt_event`; `none` is SIGABRT
pub try_to_interrupt : Event → Interrupt → ℕ → Option (Bool × ℕ)
try_to_interrupt ev interrupt msec = elim ev.interrupt_handler [
  | none ↦ none
  | some handler ↦ some (handler interrupt msec)
]

abbrev if_allowed : Option (Bool × ℕ) → Firing → (ℕ → Firing) → Option Firing
if_allowed none f g = none
if_allowed (some (false, msec)) f g = some f
if_allowed (some (true, msec)) f g = some (g msec)

-- `shuso_event_cancel`
pub cancel : Event → Firing → Option Firing
unfolding try_to_interrupt
cancel ev f = if_allowed (try_to_interrupt ev canceled 0) f (λ _. record f { interrupt = canceled })

-- `shuso_event_pause`
pub pause : Event → Firing → ℕ → Option Firing
unfolding try_to_interrupt
pause ev f reason = if_allowed (try_to_interrupt ev paused 0) f (λ _. record f {
  interrupt = paused;
  stored = some (record { reason = reason; next_listener_index = (f.index + 1) % 2 ^ 16 });
})

-- `shuso_event_delay` for an event that the registry has, with memory for the delay
pub delay : Event → Firing → (reason msec : ℕ) → Option Firing
unfolding try_to_interrupt
delay ev f reason msec = if_allowed (try_to_interrupt ev delayed msec) f (λ allowed.
    if allowed == 0 then f else record f {
      interrupt = delayed;
      stored = some (record { reason = reason; next_listener_index = f.index % 2 ^ 16 });
      timer_started = true;
    })

pub ask : Event → Firing → Request → Option Firing
unfolding cancel pause delay
ask ev f (ask_pause reason) = pause ev f reason
ask ev f ask_cancel = cancel ev f
ask ev f (ask_delay reason msec) = delay ev f reason msec

-- a call of a listener
pub ask_all : Event → Firing → List Request → Option Firing
unfolding ask
ask_all ev f [] = some f
ask_all ev f (r ∷ rs) = elim (ask ev f r) [ none ↦ none | some f' ↦ ask_all ev f' rs ]

abbrev pub is_interrupted : Interrupt → Bool
is_interrupted no_interrupt = false
is_interrupted _ = true

abbrev calling : Firing → Firing
calling f = record f { calls = f.calls ++ f.index ∷ [] }

abbrev next : Firing → Firing
next f = record f { index = f.index + 1 }

-- The loops of `fire_event`. Without an interrupt handler it does not look at `interrupt`; a
-- request is then SIGABRT, so that the one loop stands for both.
pub loop : Event → ℕ → List Listener → Firing → Option Firing
unfolding ask_all
loop ev firing [] f = some f
loop ev firing (l ∷ ls) f = elim (ask_all ev (calling f) (l.fn firing)) [
  | none ↦ none
  | some f' ↦ if is_interrupted f'.interrupt then some (next f') else loop ev firing ls (next f')
]

abbrev pub drop {ℓ} : {A : Type ℓ} → ℕ → List A → List A
drop zero xs = xs
drop (suc n) [] = []
drop (suc n) (x ∷ xs) = drop n xs

-- `fire_event`
pub fire_event : Event → (firing listener_start_index : ℕ) → Option Firing
unfolding loop
fire_event ev firing start = loop ev firing (drop start ev.listeners) (record {
  index = start;
  interrupt = no_interrupt;
  stored = none;
  timer_started = false;
  calls = [];
})

-- `shuso_event_publish`
pub publish : Event → ℕ → Option Firing
unfolding fire_event
publish ev firing = fire_event ev firing 0

-- `shuso_event_resume_paused`, `shuso_event_resume_delayed` and the timer of a delay
pub resume : Event → ℕ → Pause → Option Firing
unfolding fire_event
resume ev firing p = fire_event ev firing p.next_listener_index
