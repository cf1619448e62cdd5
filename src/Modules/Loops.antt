-- ===== src/Modules/Loops.antt =====
-- What a loop on the modules calls, and what it returns.
use shuttlesock.Base.{
  ℕ, suc, ◌+◌, ◌≡◌, refl, sym, ap, subst, ◌∙◌, inl, inr, Bool, true, false, Option, none, some,
  List, [], ◌∷◌, ◌++◌, ltb, ◌&&◌, ◌==◌, if◌then◌else◌, arith, Bool-cases,
}
use mathlib.Core.List.{append_assoc, append-nil}
use shuttlesock.Modules.{
  add_errors, after_call, Outcome, Module, Call, freeze, initialize, initialize_worker, finalize,
  State, each_module, freeze_step, finalize_step, set_error, call, activate, initialize_module,
  initialize_for_worker,
}

-- whether a function that a module may have is well, if it has it
abbrev pub well : Option Outcome → Bool
well none = true
well (some o) = o.ok && (o.errors == 0)

abbrev pub all_well : (Module → Bool) → List Module → Bool
all_well good [] = true
all_well good (m ∷ ms) = good m && all_well good ms

-- The calls of a loop from the module at `i` on, up to the first that is not well, its call included
abbrev pub calls_until : (Module → Bool) → (Module → ℕ → List Call) → List Module → ℕ → List Call
calls_until good called [] i = []
calls_until good called (m ∷ ms) i =
    called m i ++ (if good m then calls_until good called ms (suc i) else [])

abbrev if_has : Option Outcome → Call → List Call
if_has none c = []
if_has (some o) c = c ∷ []

abbrev pub frozen : Module → ℕ → List Call
frozen m i = freeze i ∷ []

abbrev pub initialized : Module → ℕ → List Call
initialized m i = if_has m.initialize (initialize i)

abbrev pub finalized : Module → ℕ → List Call
finalized m i = finalize i ∷ []

abbrev pub initialized_for_worker : Module → ℕ → List Call
initialized_for_worker m i = if_has m.initialize_worker (initialize_worker i)

-- What a step of a loop does for a module.
pub record Stepped (good : Bool) (called : List Call) (s : State) (r : Bool × State) : Type 0 where
  pub decides : r.0 ≡ good
  pub calls : r.1.calls ≡ s.calls ++ called

pub assoc_from : (a b c x : List Call) → x ≡ a ++ b → x ++ c ≡ a ++ (b ++ c)
assoc_from a b c x e = ap (λ l. l ++ c) e ∙ append_assoc a b c

then_if :
    (good rest : Bool) (c cs : List Call) (s t : State) (r : Bool × State)
    → t.calls ≡ s.calls ++ c
    → Stepped rest cs t r
    → Stepped (good && rest) (c ++ (if good then cs else [])) s (if good then r else (false, t))
then_if true rest c cs s t r e q = record {
  decides = q.decides;
  calls = q.calls ∙ assoc_from s.calls c cs t.calls e;
}
then_if false rest c cs s t r e q = record {
  decides = refl;
  calls = e ∙ ap (λ l. s.calls ++ l) (sym (append-nil c));
}

then_rest :
    (good : Bool) (rest : Bool) (c cs : List Call) (s : State) (r r' : Bool × State)
    → Stepped good c s r
    → Stepped rest cs r.1 r'
    → Stepped (good && rest) (c ++ (if good then cs else [])) s (if r.0 then r' else (false, r.1))
then_rest good rest c cs s r r' p q =
    subst
      (λ b.
        Stepped (good && rest) (c ++ (if good then cs else [])) s (if b then r' else (false, r.1)))
      (sym p.decides) (then_if good rest c cs s r.1 r' p.calls q)

pub each_module-Stepped :
    (f : Module → ℕ → State → Bool × State) (good : Module → Bool) (called : Module → ℕ → List Call)
    → ((m : Module) (i : ℕ) (s : State) → Stepped (good m) (called m i) s (f m i s))
    → (ms : List Module) (i : ℕ) (s : State)
    → Stepped (all_well good ms) (calls_until good called ms i) s (each_module f ms i s)
each_module-Stepped f good called step [] i s = record {
  decides = refl;
  calls = sym (append-nil s.calls);
}
each_module-Stepped f good called step (m ∷ ms) i s =
    then_rest (good m) (all_well good ms) (called m i) (calls_until good called ms (suc i)) s
      (f m i s) (each_module f ms (suc i) (f m i s).1) (step m i s)
      (each_module-Stepped f good called step ms (suc i) (f m i s).1)

pub freeze_step-Stepped :
    (m : Module) (i : ℕ) (s : State) → Stepped m.freezes (frozen m i) s (freeze_step m i s)
freeze_step-Stepped m i s = record { decides = refl; calls = refl }

pub finalize_step-Stepped :
    (m : Module) (i : ℕ) (s : State) → Stepped m.finalizes (finalized m i) s (finalize_step m i s)
finalize_step-Stepped m i s = record { decides = refl; calls = refl }

-- An answer with no new errors is taken as it is.
after_call-Stepped :
    (ok : Bool) (n : ℕ) (c : Call) (s t : State)
    → t.calls ≡ s.calls ++ c ∷ []
    → t.error_count ≡ s.error_count + n
    → Stepped (ok && (n == 0)) (c ∷ []) s (after_call s.error_count ok t)
after_call-Stepped true n c s t e f = elim (Bool-cases (ltb s.error_count t.error_count)) [
  | inl l ↦
      subst (λ b. Stepped (n == 0) (c ∷ []) s (if b then set_error t else (true, t))) (sym l)
        (record { decides = ground (arith, f, l); calls = e })
  | inr l ↦
      subst (λ b. Stepped (n == 0) (c ∷ []) s (if b then set_error t else (true, t))) (sym l)
        (record { decides = ground (arith, f, l); calls = e })
]
after_call-Stepped false n c s t e f = record { decides = refl; calls = e }

pub initialize_module-Stepped :
    (o : Option Outcome) (i : ℕ) (s : State)
    → Stepped (well o) (if_has o (initialize i)) s (initialize_module o i s)
initialize_module-Stepped none i s = record { decides = refl; calls = sym (append-nil s.calls) }
initialize_module-Stepped (some o) i s =
    after_call-Stepped o.ok o.errors (initialize i) s
      (add_errors o.errors (call (initialize i) (activate i s))) refl refl

pub initialize_for_worker-Stepped :
    (o : Option Outcome) (i : ℕ) (s : State)
    → Stepped (well o) (if_has o (initialize_worker i)) s (initialize_for_worker o i s)
initialize_for_worker-Stepped none i s = record { decides = refl; calls = sym (append-nil s.calls) }
initialize_for_worker-Stepped (some o) i s =
    after_call-Stepped o.ok o.errors (initialize_worker i) s
      (add_errors o.errors (call (initialize_worker i) s)) refl refl
