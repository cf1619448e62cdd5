-- ===== src/Ipc/Handlers/Table.antt =====
-- src/ipc.c: what registrations make of the table of handlers.
use shuttlesock.Base.{
  ℕ, zero, suc, ◌+◌, ◌≤◌, ◌<◌, ◌≡◌, ◌≢◌, ◌⊎◌, inl, inr, refl, sym, ap, subst, Bool, true, false,
  some, ◌==◌, if◌then◌else◌, ltb, arith, ◌&&◌,
}
use shuttlesock.Ipc.Handlers.{
  Handlers, Request, code_automatic, code_automatic_min, is_set, first_free, new_handler,
  store_handler, Added, aborted, out_of_table, refused, added, add_at, add_handler,
}
use shuttlesock.Ipc.Send.{configuring}
use shuttlesock.Procs.Check.{runstate_check}

-- the codes from `i` on, `n` of them, that have a handler
abbrev pub all_set : (n i : ℕ) → Handlers → Bool
all_set zero i t = true
all_set (suc n) i t = is_set (t i) && all_set n (suc i) t

-- The least free code of a range, or that of an automatic code if there is none.
pub record LeastFree (n i : ℕ) (t : Handlers) (code : ℕ) : Type 0 where
  pub found : (code ≡ code_automatic) ⊎ ((i ≤ code) × (code < i + n) × (is_set (t code) ≡ false))
  pub least : (k : ℕ) → i ≤ k → k < i + n → k < code → is_set (t k) ≡ true

LeastFree-set :
    (n i : ℕ) (t : Handlers) (code : ℕ)
    → is_set (t i) ≡ true
    → LeastFree n (suc i) t code
    → LeastFree (suc n) i t code
LeastFree-set n i t code e l = record {
  found = ground (arith, l.found);
  least = λ k a b c. ground (arith, e, l.least k);
}

LeastFree-free : (n i : ℕ) (t : Handlers) → is_set (t i) ≡ false → LeastFree (suc n) i t i
LeastFree-free n i t e = record {
  found = inr (omega arith, omega arith, e);
  least = λ k a b c. absurd (omega arith);
}

first_free-LeastFree : (n i : ℕ) (t : Handlers) → LeastFree n i t (first_free n i t)
unfolding first_free
first_free-LeastFree zero i t = record { found = inl refl; least = λ k a b c. absurd (omega arith) }
first_free-LeastFree (suc n) i t = of_entry (is_set (t i)) refl (first_free-LeastFree n (suc i) t)
  where
    of_entry :
        (b : Bool)
        → is_set (t i) ≡ b
        → LeastFree n (suc i) t (first_free n (suc i) t)
        → LeastFree (suc n) i t (first_free (suc n) i t)
    of_entry true e rest =
        subst (LeastFree (suc n) i t) (sym (ap (λ b. if b then first_free n (suc i) t else i) e))
          (LeastFree-set n i t (first_free n (suc i) t) e rest)
    of_entry false e rest =
        subst (LeastFree (suc n) i t) (sym (ap (λ b. if b then first_free n (suc i) t else i) e))
          (LeastFree-free n i t e)

-- the code that a request without an automatic code asks for, or the least free automatic code
abbrev pub AsksFor : Handlers → Request → ℕ → Type 0
AsksFor t r code =
    ((r.code ≢ code_automatic) × (code ≡ r.code))
    ⊎ ((r.code ≡ code_automatic) × LeastFree 236 code_automatic_min t code)

-- What a registration comes to while the server is configured.
abbrev pub AddedWell : Handlers → Request → Added → Type 0
AddedWell t r aborted = ⊥
AddedWell t r out_of_table = (256 ≤ r.code) × (r.code ≢ code_automatic)
AddedWell t r refused =
    (is_set (t r.code) ≡ true)
    ⊎ ((r.code ≡ code_automatic)
        × ((k : ℕ) → code_automatic_min ≤ k → k < 256 → is_set (t k) ≡ true))
AddedWell t r (added code t') =
    AsksFor t r code
    × (code < 256)
    × (is_set (t code) ≡ false)
    × (t' code ≡ some (new_handler r code))
    × ((k : ℕ) → k ≢ code → t' k ≡ t k)

stored :
    (t : Handlers) (r : Request) (code : ℕ)
    → (store_handler t code (new_handler r code) code ≡ some (new_handler r code))
      × ((k : ℕ) → k ≢ code → store_handler t code (new_handler r code) k ≡ t k)
stored t r code = (ground arith, λ k h. ground (arith, h))

add_at-out :
    (t : Handlers) (r : Request) (code : ℕ) → ltb code 256 ≡ false → add_at t r code ≡ out_of_table
add_at-out t r code e = ground (arith, e)

add_at-taken :
    (t : Handlers) (r : Request) (code : ℕ)
    → ltb code 256 ≡ true
    → is_set (t code) ≡ true
    → add_at t r code ≡ refused
add_at-taken t r code e f = ground (arith, e, f)

add_at-free :
    (t : Handlers) (r : Request) (code : ℕ)
    → ltb code 256 ≡ true
    → is_set (t code) ≡ false
    → add_at t r code ≡ added code (store_handler t code (new_handler r code))
add_at-free t r code e f = ground (arith, e, f)

added_free :
    (t : Handlers) (r : Request) (code : ℕ)
    → ltb code 256 ≡ true
    → is_set (t code) ≡ false
    → AsksFor t r code
    → AddedWell t r (add_at t r code)
added_free t r code e f a =
    subst (AddedWell t r) (sym (add_at-free t r code e f))
      (a, ground (arith, e), f, (stored t r code).0, (stored t r code).1)

add_own :
    (t : Handlers) (r : Request) (inside taken : Bool)
    → ltb r.code 256 ≡ inside
    → is_set (t r.code) ≡ taken
    → r.code ≢ code_automatic
    → AddedWell t r (add_at t r r.code)
add_own t r false taken e f n =
    subst (AddedWell t r) (sym (add_at-out t r r.code e)) (ground (arith, e), n)
add_own t r true true e f n = subst (AddedWell t r) (sym (add_at-taken t r r.code e f)) (inl f)
add_own t r true false e f n = added_free t r r.code e f (inl (n, refl))

abbrev add_automatic : Handlers → Request → ℕ → Added
add_automatic t r free = if free == code_automatic then refused else add_at t r free

add_automatic-none :
    (t : Handlers) (r : Request) (free : ℕ)
    → free ≡ code_automatic
    → add_automatic t r free ≡ refused
add_automatic-none t r free e = ground (arith, e)

add_automatic-some :
    (t : Handlers) (r : Request) (free : ℕ) → free < 256 → add_automatic t r free ≡ add_at t r free
add_automatic-some t r free e = ground (arith, e)

add_automatic-Well :
    (t : Handlers) (r : Request) (free : ℕ)
    → r.code ≡ code_automatic
    → LeastFree 236 code_automatic_min t free
    → AddedWell t r (add_automatic t r free)
add_automatic-Well t r free a l = elim l.found [
  | inl e ↦
      subst (AddedWell t r) (sym (add_automatic-none t r free e))
        (inr (a, λ k h h'. l.least k h (omega arith) (omega (arith, e))))
  | inr (from, to, f) ↦
      subst (AddedWell t r) (sym (add_automatic-some t r free (omega arith)))
        (added_free t r free (ground arith) f (inr (a, l)))
]

add_handler-own :
    (t : Handlers) (r : Request)
    → (r.code == code_automatic) ≡ false
    → add_handler configuring t r ≡ add_at t r r.code
unfolding add_handler runstate_check
add_handler-own t r e = ground (arith, e)

add_handler-automatic :
    (t : Handlers) (r : Request)
    → (r.code == code_automatic) ≡ true
    → add_handler configuring t r ≡ add_automatic t r (first_free 236 code_automatic_min t)
unfolding add_handler runstate_check
add_handler-automatic t r e = ground (arith, e)

add_handler-by :
    (automatic : Bool) (t : Handlers) (r : Request)
    → (r.code == code_automatic) ≡ automatic
    → AddedWell t r (add_handler configuring t r)
add_handler-by true t r e = subst (AddedWell t r) (sym (add_handler-automatic t r e)) (
    add_automatic-Well t r (first_free 236 code_automatic_min t) (ground (arith, e))
      (first_free-LeastFree 236 code_automatic_min t))
add_handler-by false t r e =
    subst (AddedWell t r) (sym (add_handler-own t r e))
      (add_own t r _ _ refl refl (ground (arith, e)))

-- While the server is configured, a registration puts its handler at the code that it asks for, or at the
-- least free one from 20 on if it asks for an automatic code, where no handler was, and changes no
-- other entry. It is refused only if the code has a handler, or all automatic codes have one. It
-- writes past the table for a code from 256 on, other than that of an automatic code.
pub add_handler-Well : (t : Handlers) (r : Request) → AddedWell t r (add_handler configuring t r)
add_handler-Well t r = add_handler-by _ t r refl
