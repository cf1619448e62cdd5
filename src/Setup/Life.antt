-- ===== src/Setup/Life.antt =====
-- What is held after an instance was created, configured and destroyed.
use shuttlesock.Base.{
  ℕ, ◌+◌, ◌≡◌, ◌≢◌, refl, sym, ap, subst, ◌∙◌, Bool, true, false, Option, none, some, not,
  if◌then◌else◌, arith, inl, inr,
}
use shuttlesock.Setup.{
  Instance, CreateAnswers, FinishAnswers, Finished, configure_finish, destroy, destroy_held, create,
  create_with_lua,
}
use shuttlesock.Setup.Held.{Created, created, creates, create_with_lua-Created}
use shuttlesock.Setup.Finish.{Configured, Ends, finishes, stores_slab, configure_finish-Ends}

-- An instance that is created, configured and destroyed by the master
abbrev destroy_all : Finished → Option Instance
destroy_all none = none
destroy_all (some (ok, reason, s)) = destroy false s

abbrev pub life : CreateAnswers → FinishAnswers → Option Instance
life c a = destroy_all (configure_finish a (create c).1)

-- Nothing is held any more; munmap was called `n` times for a slab that was not mapped.
pub record Gone (s : Instance) (n : ℕ) : Type 0 where
  pub no_common : s.common ≡ false
  pub no_self : s.self ≡ false
  pub no_resolver : s.resolver ≡ false
  pub no_lua : s.lua ≡ false
  pub no_pool : s.pool ≡ false
  pub no_modules_array : s.modules_array ≡ false
  pub no_error_msg : s.error_msg ≡ false
  pub no_event_loop : s.event_loop ≡ false
  pub no_slab : s.slab_mapped ≡ false
  pub stray_unmaps : s.stray_unmaps ≡ n

-- munmap calls of `shuso_destroy` for a slab that is not mapped
abbrev pub strays : (ok known : Bool) → ℕ
strays true known = 0
strays false known = if known then 1 else 0

abbrev rest_freed : Instance → Instance
rest_freed s = record s {
  modules_array = false;
  common = false;
  error_msg = false;
  self = false;
  resolver = false;
}

rest-Gone :
    (mapped known : Bool) (t : Instance)
    → t.slab_mapped ≡ mapped
    → t.lua ≡ false
    → t.event_loop ≡ false
    → t.pool ≡ false
    → t.stray_unmaps ≡ 0
    → Gone
        (rest_freed (
          if mapped
          then record t { slab_mapped = false }
          else if known
          then record t { stray_unmaps = t.stray_unmaps + 1 }
          else t))
        (strays mapped known)
rest-Gone true known t e l v p n = record {
  no_common = refl;
  no_self = refl;
  no_resolver = refl;
  no_lua = l;
  no_pool = p;
  no_modules_array = refl;
  no_error_msg = refl;
  no_event_loop = v;
  no_slab = refl;
  stray_unmaps = n;
}
rest-Gone false true t e l v p n = record {
  no_common = refl;
  no_self = refl;
  no_resolver = refl;
  no_lua = l;
  no_pool = p;
  no_modules_array = refl;
  no_error_msg = refl;
  no_event_loop = v;
  no_slab = e;
  stray_unmaps = ap (λ k. k + 1) n;
}
rest-Gone false false t e l v p n = record {
  no_common = refl;
  no_self = refl;
  no_resolver = refl;
  no_lua = l;
  no_pool = p;
  no_modules_array = refl;
  no_error_msg = refl;
  no_event_loop = v;
  no_slab = e;
  stray_unmaps = n;
}

-- An instance that owns its Lua state
held-Gone :
    (mapped known : Bool) (t : Instance)
    → t.slab_mapped ≡ mapped
    → t.slab_known ≡ known
    → t.stray_unmaps ≡ 0
    → Gone (destroy_held false t) (strays mapped known)
held-Gone mapped known t e f n =
    subst (λ m. Gone (destroy_held false t) (strays m known)) e
      (subst (λ k. Gone (destroy_held false t) (strays t.slab_mapped k)) f
        (rest-Gone t.slab_mapped t.slab_known
          (record t { lua = false; event_loop = false; pool = false }) refl refl refl refl n))

destroy-Gone :
    (ok known : Bool) (s t : Instance)
    → s.lua ≡ true
    → s.external ≡ false
    → s.stray_unmaps ≡ 0
    → Configured ok known s t
    → (u : Instance) × (destroy false t ≡ some u) × Gone u (strays ok known)
unfolding destroy
destroy-Gone ok known s t l e n c = (
  destroy_held false t,
  ap (λ x. if x then none else if not t.lua then none else some (destroy_held false t))
        (c.external ∙ e)
      ∙ ap (λ x. if not x then none else some (destroy_held false t)) (c.lua ∙ l),
  held-Gone ok known t c.slab_mapped c.slab_known (c.stray_unmaps ∙ n),
)

ended-Gone :
    (ok known : Bool) (s : Instance) (r : Finished)
    → s.lua ≡ true
    → s.external ≡ false
    → s.stray_unmaps ≡ 0
    → Ends ok known s r
    → (u : Instance) × (destroy_all r ≡ some u) × Gone u (strays ok known)
ended-Gone ok known s r l e n (reason, t, q, c) =
    let (u, d, g) = destroy-Gone ok known s t l e n c in (u, ap destroy_all q ∙ d, g)

configure_finish-Gone :
    (c : CreateAnswers) (a : FinishAnswers) (r : Bool × Instance)
    → r ≡ (true, created false c)
    → a.workers ≢ 0
    → (u : Instance) × (destroy_all (configure_finish a r.1) ≡ some u)
      × Gone u (strays (finishes a) (stores_slab a))
configure_finish-Gone c a r e ne =
    subst
      (λ i.
        (u : Instance) × (destroy_all (configure_finish a i) ≡ some u)
        × Gone u (strays (finishes a) (stores_slab a)))
      (sym (ap (λ q. q.1) e))
      (ended-Gone (finishes a) (stores_slab a) (created false c)
        (configure_finish a (created false c)) refl refl refl
        (configure_finish-Ends a (created false c) refl ne refl refl))

made : (ok : Bool) (s : Instance) (r : Bool × Instance) → ok ≡ true → Created ok s r → r ≡ (true, s)
made ok s r e (inl (o, q)) = q
made ok s r e (inr (o, q, f)) = absurd (ground (arith, e, o))

-- An instance that was created by `shuso_create`, then configured, with whatever outcome, and then
-- destroyed leaves nothing allocated or mapped. But if the configuration failed after the slab was
-- mapped, also where its mutex could not be set up, munmap is called once more for the place of the slab,
-- which is not mapped then.
pub life-Gone :
    (c : CreateAnswers) (a : FinishAnswers)
    → creates false c ≡ true
    → a.workers ≢ 0
    → (s : Instance) × (life c a ≡ some s) × Gone s (strays (finishes a) (stores_slab a))
unfolding create
life-Gone c a ok ne =
    configure_finish-Gone c a (create_with_lua false c)
      (made (creates false c) (created false c) (create_with_lua false c) ok
        (create_with_lua-Created false c))
      ne
