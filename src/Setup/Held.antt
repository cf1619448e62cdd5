-- ===== src/Setup/Held.antt =====
-- What is held after an instance was created.
use shuttlesock.Base.{
  ◌≡◌, ◌⊎◌, inl, inr, refl, sym, subst, ◌∙◌, Bool, true, false, not, ◌&&◌, if◌then◌else◌, arith,
}
use shuttlesock.Setup.{
  Instance, nothing, CreateAnswers, create_fail, create_modules, create_pool, create_lua,
  create_with_lua,
}
use shuttlesock.Ipc.Send.{nil, configuring}

-- Whether all that `shuso_create_with_lua` needs succeeds
abbrev pub creates : (lua : Bool) → CreateAnswers → Bool
creates lua a =
    a.calloc_common
    && (a.calloc_self
        && (a.resolver_global_init
            && ((if lua then true else a.lua_create)
                && (a.pool_init
                    && (a.lua_initialize && (a.config_system_initialize && a.add_core_modules))))))

-- What an instance holds that was created
abbrev pub created : (lua : Bool) → CreateAnswers → Instance
created lua a = record nothing {
  common = true;
  self = true;
  resolver = true;
  lua = true;
  external = lua;
  pool = true;
  modules_array = a.makes_array;
  error_msg = a.leaves_message;
  state = configuring;
}

-- Of what `shuso_create_with_lua` allocates, what it frees when it fails, and that it leaves the Lua state if
-- that is the caller's
pub record Released (s : Instance) : Type 0 where
  pub no_common : s.common ≡ false
  pub no_self : s.self ≡ false
  pub no_resolver : s.resolver ≡ false
  pub no_pool : s.pool ≡ false
  pub the_lua : s.lua ≡ s.external

-- A success that holds `s`, or a failure
abbrev pub Created : (ok : Bool) → Instance → Bool × Instance → Type 0
Created ok s r = ((ok ≡ true) × (r ≡ (true, s))) ⊎ ((ok ≡ false) × (r.0 ≡ false) × Released r.1)

guard-Created :
    (b ok : Bool) (s : Instance) (x y : Bool × Instance)
    → Created false s y
    → Created ok s x
    → Created (b && ok) s (if not b then y else x)
guard-Created true ok s x y f c = c
guard-Created false ok s x y f c = f

-- A failure before there is a Lua state, and one behind that
fail-Created :
    (s t : Instance) → t.lua ≡ false → t.external ≡ false → Created false s (create_fail t)
fail-Created s t e f = inr (
  refl,
  refl,
  record {
    no_common = refl;
    no_self = refl;
    no_resolver = refl;
    no_pool = refl;
    the_lua = without t.self t.lua t.external e f;
  },
)
  where
    without :
        (self lua external : Bool)
        → lua ≡ false
        → external ≡ false
        → (if self && lua && not external then false else lua) ≡ external
    without true lua external e f = cc (e, f)
    without false lua external e f = e ∙ sym f

late_fail-Created :
    (s t : Instance) → t.self ≡ true → t.lua ≡ true → Created false s (create_fail t)
late_fail-Created s t e f = inr (
  refl,
  refl,
  record {
    no_common = refl;
    no_self = refl;
    no_resolver = refl;
    no_pool = refl;
    the_lua = whose t.self t.lua t.external e f;
  },
)
  where
    whose :
        (self lua external : Bool)
        → self ≡ true
        → lua ≡ true
        → (if self && lua && not external then false else lua) ≡ external
    whose true true true e f = refl
    whose true true false e f = refl
    whose true false x e f = ground (arith, f)
    whose false l x e f = ground (arith, e)

modules-Created :
    (lua : Bool) (a : CreateAnswers) (s : Instance)
    → s.self ≡ true
    → s.lua ≡ true
    → Created a.add_core_modules
        (record s { modules_array = a.makes_array; error_msg = a.leaves_message })
        (create_modules a s)
modules-Created lua a s e f =
    either a.add_core_modules
      (record s { modules_array = a.makes_array; error_msg = a.leaves_message }) e f
  where
    either :
        (b : Bool) (t : Instance)
        → t.self ≡ true
        → t.lua ≡ true
        → Created b t (if b then (true, t) else create_fail t)
    either true t e f = inl (refl, refl)
    either false t e f = late_fail-Created t t e f

pool-Created :
    (lua : Bool) (a : CreateAnswers) (s : Instance)
    → s.self ≡ true
    → s.lua ≡ true
    → Created
        (a.pool_init && (a.lua_initialize && (a.config_system_initialize && a.add_core_modules)))
        (record s { pool = true; modules_array = a.makes_array; error_msg = a.leaves_message })
        (create_pool a s)
pool-Created lua a s e f =
    let t = record s { pool = true; modules_array = a.makes_array; error_msg = a.leaves_message } in
    let u = record s { pool = true } in
    let c = modules-Created lua a u e f in
    guard-Created a.pool_init _ t _ (create_fail s) (late_fail-Created t s e f) (
      guard-Created a.lua_initialize _ t _ (create_fail u) (late_fail-Created t u e f) (
        guard-Created a.config_system_initialize _ t _ (create_fail u) (late_fail-Created t u e f)
          c))

lua-Created :
    (lua : Bool) (a : CreateAnswers) (s : Instance)
    → s.self ≡ true
    → s.lua ≡ false
    → s.external ≡ false
    → Created
        ((if lua then true else a.lua_create)
          && (a.pool_init
              && (a.lua_initialize && (a.config_system_initialize && a.add_core_modules))))
        (record s {
          lua = true;
          external = lua;
          pool = true;
          modules_array = a.makes_array;
          error_msg = a.leaves_message;
          state = configuring;
        })
        (create_lua lua a s)
lua-Created true a s e f g =
    pool-Created true a (record s { lua = true; external = true; state = configuring }) e refl
lua-Created false a s e f g =
    let t = record s { lua = true; state = configuring } in
    let x = if not a.lua_create then create_fail s else create_pool a t in
    subst
      (λ ext.
        Created
          (a.lua_create
            && (a.pool_init
                && (a.lua_initialize && (a.config_system_initialize && a.add_core_modules))))
          (record s {
            lua = true;
            external = ext;
            pool = true;
            modules_array = a.makes_array;
            error_msg = a.leaves_message;
            state = configuring;
          })
          x)
      g
      (guard-Created a.lua_create _ _ _ (create_fail s) (fail-Created _ s f g)
        (pool-Created false a t e refl))

-- An instance is created exactly if all that this needs succeeds. It then holds the memory of both
-- structs, the resolver's library, a Lua state and a pool, and is being configured. If
-- anything fails, all of these are given back, the Lua state only if it is not the caller's.
pub create_with_lua-Created :
    (lua : Bool) (a : CreateAnswers)
    → Created (creates lua a) (created lua a) (create_with_lua lua a)
unfolding create_with_lua
create_with_lua-Created lua a =
    let w = created lua a in
    let s = record nothing { common = true; state = nil } in
    guard-Created a.calloc_common _ w _ (create_fail nothing) (fail-Created w nothing refl refl) (
      guard-Created a.calloc_self _ w _ (create_fail s) (fail-Created w s refl refl) (
        guard-Created a.resolver_global_init _ w _ (create_fail (record s { self = true }))
          (fail-Created w (record s { self = true }) refl refl)
          (lua-Created lua a (record s { self = true; resolver = true }) refl refl refl)))
