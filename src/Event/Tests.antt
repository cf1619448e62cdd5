-- ===== src/Event/Tests.antt =====
-- src/event.c: the theorems on events at a concrete event.
use shuttlesock.Base.{
  ℕ, ◌+◌, ◌-◌, ◌<◌, ◌≡◌, refl, Bool, true, false, Option, none, some, List, [], ◌∷◌, ◌++◌, ◌==◌,
  if◌then◌else◌, length, arith,
}
use shuttlesock.Event.{
  Interrupt, no_interrupt, paused, delayed, ask_pause, ask_delay, Listener, Event, Pause, Firing,
  fire_event, resume, loop, ask_all, ask, pause, delay, try_to_interrupt,
}
use shuttlesock.Event.Resume.{range, Fires, ends, goes_on, Fires-range, delay-calls_again}

abbrev quiet : Listener
quiet = record { module_index = 1; fn = λ firing. [] }

-- A listener that asks for a pause in the first firing
abbrev pausing : Listener
pausing = record { module_index = 2; fn = λ firing. if firing == 0 then ask_pause 5 ∷ [] else [] }

abbrev delaying : Listener
delaying = record {
  module_index = 3;
  fn = λ firing. if firing == 0 then ask_delay 6 100 ∷ [] else [];
}

abbrev event_of : List Listener → Event
event_of ls = record { listeners = ls; interrupt_handler = some (λ interrupt msec. (true, msec)) }

abbrev with_pause : Event
with_pause = event_of (quiet ∷ pausing ∷ quiet ∷ [])

abbrev with_delay : Event
with_delay = event_of (quiet ∷ delaying ∷ quiet ∷ [])

abbrev a_pause : (reason next_listener_index : ℕ) → Pause
a_pause reason next_listener_index = record {
  reason = reason;
  next_listener_index = next_listener_index;
}

abbrev firing_of : ℕ → Interrupt → Option Pause → Bool → List ℕ → Firing
firing_of index interrupt stored timer calls = record {
  index = index;
  interrupt = interrupt;
  stored = stored;
  timer_started = timer;
  calls = calls;
}

first_firing :
    fire_event with_pause 0 0 ≡ some (firing_of 2 paused (some (a_pause 5 2)) false (0 ∷ 1 ∷ []))
unfolding fire_event loop ask_all ask pause try_to_interrupt
first_firing = refl

second_firing : fire_event with_pause 1 2 ≡ some (firing_of 3 no_interrupt none false (2 ∷ []))
unfolding fire_event loop ask_all
second_firing = refl

with_pause-Fires : Fires with_pause 0 (0 ∷ 1 ∷ 2 ∷ [])
with_pause-Fires =
    goes_on 0 0 (firing_of 2 paused (some (a_pause 5 2)) false (0 ∷ 1 ∷ [])) (a_pause 5 2) (2 ∷ [])
      first_firing refl refl
      (ends 1 2 (firing_of 3 no_interrupt none false (2 ∷ [])) second_firing refl)

Fires-range_example : (0 ∷ 1 ∷ 2 ∷ []) ≡ range 0 (length with_pause.listeners - 0)
Fires-range_example =
    Fires-range with_pause 0 (0 ∷ 1 ∷ 2 ∷ []) with_pause-Fires (omega arith) (omega arith)

delayed_firing :
    fire_event with_delay 0 0 ≡ some (firing_of 2 delayed (some (a_pause 6 1)) true (0 ∷ 1 ∷ []))
unfolding fire_event loop ask_all ask delay try_to_interrupt
delayed_firing = refl

resumed_firing :
    resume with_delay 1 (a_pause 6 1) ≡ some (firing_of 3 no_interrupt none false (1 ∷ 2 ∷ []))
unfolding resume fire_event loop ask_all
resumed_firing = refl

delayed_calls_again :
    (j : ℕ) × ((0 ∷ 1 ∷ []) ++ (1 ∷ 2 ∷ [])
      ≡ range 0 (j + 1) ++ range (0 + j) (length with_delay.listeners - (0 + j)))
    × (0 + j < length with_delay.listeners)
delayed_calls_again =
    delay-calls_again with_delay 0 1 0 (firing_of 2 delayed (some (a_pause 6 1)) true (0 ∷ 1 ∷ []))
      (firing_of 3 no_interrupt none false (1 ∷ 2 ∷ [])) (a_pause 6 1) delayed_firing refl refl
      resumed_firing refl (omega arith) (omega arith)
