-- ===== src/Instring/Cache.antt =====
-- src/instring.c: the cached values of an instring and its text.
use mathlib.Core.Option as Option
use shuttlesock.Base.{
  ℕ, suc, ◌≡◌, ◌⊎◌, inl, inr, refl, sym, ap, subst, ◌∙◌, Bool, true, false, Option, none, some,
  List, [], ◌∷◌, if◌then◌else◌,
}
use shuttlesock.Instring.{
  Bytes, Validity, unknown, invalid, valid, Instring, LuaInstring, Answer, Fetch, crash, known,
  fetched, failed, unknown_state, on_eval, interpolate_from, after_interpolate, interpolate,
  iovec_as_string, tovalue, fetch, from_value, to_int, via_double, boolean_answer, boolean_value,
  integer_answer, integer_value, number_answer, number_value, size_answer, size_value,
  string_answer, string_value,
}

-- A cached value is what is read from the text.
abbrev pub Agrees {ℓ} : {A : Type ℓ} → Validity → A → Option (Option A) → Type ℓ
Agrees unknown a v = Unit
Agrees invalid a v = v ≡ some none
Agrees valid a v = v ≡ some (some a)

-- The registry holds a string only if there is a valid one.
abbrev pub Referenced : Validity → Bool → Type 0
Referenced valid ref = Unit
Referenced _ ref = ref ≡ false

abbrev pub id {ℓ} : {A : Type ℓ} → A → A
id a = a

abbrev pub boolean_of : LuaInstring → Bytes → Option Bool
boolean_of lua t = Option.map id (lua.toboolean t)

abbrev pub number_of : LuaInstring → Bytes → Option ℕ
number_of lua t = Option.map id (lua.tonumber t)

abbrev pub string_of : LuaInstring → Bytes → Option Bytes
string_of lua t = Option.map id (lua.tostring t)

abbrev pub int_of : LuaInstring → Bytes → Option ℕ
int_of lua t = Option.map to_int (lua.tointeger t)

abbrev pub size_of : LuaInstring → Bytes → Option ℕ
size_of lua t = Option.map via_double (lua.tosize t)

pub record Coherent (lua : LuaInstring) (s : Instring) : Type 0 where
  pub boolean :
      Agrees s.state.boolean s.boolean_cached (tovalue (boolean_of lua) (iovec_as_string s.iov))
  pub integer :
      Agrees s.state.integer s.integer_cached (tovalue (int_of lua) (iovec_as_string s.iov))
  pub number :
      Agrees s.state.number s.number_cached (tovalue (number_of lua) (iovec_as_string s.iov))
  pub size : Agrees s.state.size s.size_cached (tovalue (size_of lua) (iovec_as_string s.iov))
  pub string :
      Agrees s.state.string s.string_cached (tovalue (string_of lua) (iovec_as_string s.iov))
  pub referenced : Referenced s.state.string s.string_lua_ref
  pub resets : s.reset_state ≡ unknown_state

on_eval-none :
    (o : Option Bytes) (i : ℕ) (r : Bool × List Bytes)
    → (on_eval o i r).0 ≡ false
    → (r.0 ≡ false) × ((on_eval o i r).1 ≡ r.1)
on_eval-none none i r h = (h, refl)
on_eval-none (some b) i r h = cc

interpolate_from-none :
    (eval : ℕ → Option Bytes) (vs : List ℕ) (i : ℕ) (r : Bool × List Bytes)
    → (interpolate_from eval vs i r).0 ≡ false
    → (r.0 ≡ false) × ((interpolate_from eval vs i r).1 ≡ r.1)
unfolding interpolate_from
interpolate_from-none eval [] i r h = (h, refl)
interpolate_from-none eval (v ∷ vs) i r h =
    let (e, same) = interpolate_from-none eval vs (suc i) (on_eval (eval v) i r) h in
    let (e', same') = on_eval-none (eval v) i r e in (e', same ∙ same')

after_interpolate-Coherent :
    (lua : LuaInstring) (s : Instring) (r : Bool × List Bytes)
    → Coherent lua s
    → (r.0 ≡ true) ⊎ (r.1 ≡ s.iov)
    → Coherent lua (after_interpolate s r)
after_interpolate-Coherent lua s (true, iov) c h =
    subst (λ st. Coherent lua (record s { iov = iov; state = st; string_lua_ref = false }))
      (sym c.resets)
      (record {
        boolean = tt;
        integer = tt;
        number = tt;
        size = tt;
        string = tt;
        referenced = refl;
        resets = c.resets;
      })
after_interpolate-Coherent lua s (false, iov) c (inl e) = cc
after_interpolate-Coherent lua s (false, iov) c (inr e) =
    subst (λ i. Coherent lua (record s { iov = i })) (sym e) c

-- either a variable gave a value, or the text is the same
changed_or_same :
    (eval : ℕ → Option Bytes) (vs : List ℕ) (iov : List Bytes) (b : Bool)
    → (interpolate_from eval vs 0 (false, iov)).0 ≡ b
    → ((interpolate_from eval vs 0 (false, iov)).0 ≡ true)
      ⊎ ((interpolate_from eval vs 0 (false, iov)).1 ≡ iov)
changed_or_same eval vs iov true h = inl h
changed_or_same eval vs iov false h = inr (interpolate_from-none eval vs 0 (false, iov) h).1

pub interpolate-Coherent :
    (lua : LuaInstring) (eval : ℕ → Option Bytes) (s : Instring)
    → Coherent lua s
    → Coherent lua (interpolate eval s)
unfolding interpolate
interpolate-Coherent lua eval s c =
    after_interpolate-Coherent lua s (interpolate_from eval s.variables 0 (false, s.iov)) c
      (changed_or_same eval s.variables s.iov _ refl)

abbrev pub is_some {ℓ} : {A : Type ℓ} → Option A → Bool
is_some none = false
is_some (some a) = true

-- The answer of a function of values: `v`, the text left as it is in `s`, and a cache that agrees with it.
abbrev pub Reads {ℓ} : {A : Type ℓ} → LuaInstring → Instring → Answer A → Option A → Type ℓ
Reads lua s answer v =
    (s' : Instring) × (answer ≡ some (is_some v, v, s')) × Coherent lua s' × (s'.iov ≡ s.iov)

-- What a fetch comes to, where Lua reads `v`, and the value is `conv` of that.
abbrev Fetched : {A : Type 0} → (A → A) → Fetch A → Option A → Type 0
Fetched conv crash v = ⊥
Fetched conv (known o) v = o ≡ Option.map conv v
Fetched conv failed v = v ≡ none
Fetched conv (fetched a) v = v ≡ some a

from_value-Fetched :
    {A : Type 0} (conv : A → A) (v : Option A) → Fetched conv (from_value (some v)) v
from_value-Fetched conv none = refl
from_value-Fetched conv (some a) = refl

fetch-Fetched :
    {A : Type 0} (conv : A → A) (vd : Validity) (a : A) (v : Option A)
    → Agrees vd a (some (Option.map conv v))
    → Fetched conv (fetch vd a (some v)) v
fetch-Fetched conv unknown a v h = from_value-Fetched conv v
fetch-Fetched conv invalid a v h = cc
fetch-Fetched conv valid a v h = cc

-- the same for the text `t` of the iovecs
text-Fetched :
    {A : Type 0} (conv : A → A) (f : Bytes → Option A) (vd : Validity) (a : A) (i : List Bytes)
    (t : Bytes)
    → iovec_as_string i ≡ some t
    → Agrees vd a (tovalue (λ t. Option.map conv (f t)) (iovec_as_string i))
    → Fetched conv (fetch vd a (tovalue f (iovec_as_string i))) (f t)
text-Fetched conv f vd a i t e h =
    subst (λ o. Fetched conv (fetch vd a (tovalue f o)) (f t)) (sym e)
      (fetch-Fetched conv vd a (f t)
        (subst (λ o. Agrees vd a (tovalue (λ t. Option.map conv (f t)) o)) e h))

read_text :
    {A : Type 0} (f : Bytes → Option A) (i : List Bytes) (t : Bytes) {o : Option A}
    → iovec_as_string i ≡ some t
    → f t ≡ o
    → tovalue f (iovec_as_string i) ≡ some o
read_text f i t e h = ap (tovalue f) e ∙ ap some h

reads :
    {A : Type 0} (lua : LuaInstring) (s s' : Instring) (answer : Answer A) (o v : Option A)
    → o ≡ v
    → answer ≡ some (is_some o, o, s')
    → Coherent lua s'
    → s'.iov ≡ s.iov
    → Reads lua s answer v
reads lua s s' answer o v e h c same = (s', h ∙ ap (λ o. some (is_some o, o, s')) e, c, same)

boolean_answer-Reads :
    (lua : LuaInstring) (s : Instring) (t : Bytes)
    → Coherent lua s
    → iovec_as_string s.iov ≡ some t
    → (f : Fetch Bool) → Fetched id f (lua.toboolean t)
    → Reads lua s (boolean_answer true s f) (boolean_of lua t)
boolean_answer-Reads lua s t c e crash h = absurd h
boolean_answer-Reads lua s t c e (known none) h = reads lua s s _ none _ h refl c refl
boolean_answer-Reads lua s t c e (known (some a)) h = reads lua s s _ (some a) _ h refl c refl
boolean_answer-Reads lua s t c e failed h =
    let v : boolean_of lua t ≡ none = ap (Option.map id) h in
    reads lua s (record s { state = record s.state { boolean = invalid } }) _ none _ (sym v) refl
      (record {
        boolean = read_text (boolean_of lua) s.iov t e v;
        integer = c.integer;
        number = c.number;
        size = c.size;
        string = c.string;
        referenced = c.referenced;
        resets = c.resets;
      })
      refl
boolean_answer-Reads lua s t c e (fetched a) h =
    let v : boolean_of lua t ≡ some (id a) = ap (Option.map id) h in
    reads lua s (record s { state = record s.state { boolean = valid }; boolean_cached = id a }) _
      (some (id a)) _ (sym v) refl
      (record {
        boolean = read_text (boolean_of lua) s.iov t e v;
        integer = c.integer;
        number = c.number;
        size = c.size;
        string = c.string;
        referenced = c.referenced;
        resets = c.resets;
      })
      refl

integer_answer-Reads :
    (lua : LuaInstring) (s : Instring) (t : Bytes)
    → Coherent lua s
    → iovec_as_string s.iov ≡ some t
    → (f : Fetch ℕ) → Fetched to_int f (lua.tointeger t)
    → Reads lua s (integer_answer true s f) (int_of lua t)
integer_answer-Reads lua s t c e crash h = absurd h
integer_answer-Reads lua s t c e (known none) h = reads lua s s _ none _ h refl c refl
integer_answer-Reads lua s t c e (known (some a)) h = reads lua s s _ (some a) _ h refl c refl
integer_answer-Reads lua s t c e failed h =
    let v : int_of lua t ≡ none = ap (Option.map to_int) h in
    reads lua s (record s { state = record s.state { integer = invalid } }) _ none _ (sym v) refl
      (record {
        boolean = c.boolean;
        integer = read_text (int_of lua) s.iov t e v;
        number = c.number;
        size = c.size;
        string = c.string;
        referenced = c.referenced;
        resets = c.resets;
      })
      refl
integer_answer-Reads lua s t c e (fetched a) h =
    let v : int_of lua t ≡ some (to_int a) = ap (Option.map to_int) h in
    reads lua s (record s { state = record s.state { integer = valid }; integer_cached = to_int a })
      _ (some (to_int a)) _ (sym v) refl
      (record {
        boolean = c.boolean;
        integer = read_text (int_of lua) s.iov t e v;
        number = c.number;
        size = c.size;
        string = c.string;
        referenced = c.referenced;
        resets = c.resets;
      })
      refl

number_answer-Reads :
    (lua : LuaInstring) (s : Instring) (t : Bytes)
    → Coherent lua s
    → iovec_as_string s.iov ≡ some t
    → (f : Fetch ℕ) → Fetched id f (lua.tonumber t)
    → Reads lua s (number_answer true s f) (number_of lua t)
number_answer-Reads lua s t c e crash h = absurd h
number_answer-Reads lua s t c e (known none) h = reads lua s s _ none _ h refl c refl
number_answer-Reads lua s t c e (known (some a)) h = reads lua s s _ (some a) _ h refl c refl
number_answer-Reads lua s t c e failed h =
    let v : number_of lua t ≡ none = ap (Option.map id) h in
    reads lua s (record s { state = record s.state { number = invalid } }) _ none _ (sym v) refl
      (record {
        boolean = c.boolean;
        integer = c.integer;
        number = read_text (number_of lua) s.iov t e v;
        size = c.size;
        string = c.string;
        referenced = c.referenced;
        resets = c.resets;
      })
      refl
number_answer-Reads lua s t c e (fetched a) h =
    let v : number_of lua t ≡ some (id a) = ap (Option.map id) h in
    reads lua s (record s { state = record s.state { number = valid }; number_cached = id a }) _
      (some (id a)) _ (sym v) refl
      (record {
        boolean = c.boolean;
        integer = c.integer;
        number = read_text (number_of lua) s.iov t e v;
        size = c.size;
        string = c.string;
        referenced = c.referenced;
        resets = c.resets;
      })
      refl

size_answer-Reads :
    (lua : LuaInstring) (s : Instring) (t : Bytes)
    → Coherent lua s
    → iovec_as_string s.iov ≡ some t
    → (f : Fetch ℕ) → Fetched via_double f (lua.tosize t)
    → Reads lua s (size_answer true s f) (size_of lua t)
size_answer-Reads lua s t c e crash h = absurd h
size_answer-Reads lua s t c e (known none) h = reads lua s s _ none _ h refl c refl
size_answer-Reads lua s t c e (known (some a)) h = reads lua s s _ (some a) _ h refl c refl
size_answer-Reads lua s t c e failed h =
    let v : size_of lua t ≡ none = ap (Option.map via_double) h in
    reads lua s (record s { state = record s.state { size = invalid } }) _ none _ (sym v) refl
      (record {
        boolean = c.boolean;
        integer = c.integer;
        number = c.number;
        size = read_text (size_of lua) s.iov t e v;
        string = c.string;
        referenced = c.referenced;
        resets = c.resets;
      })
      refl
size_answer-Reads lua s t c e (fetched a) h =
    let v : size_of lua t ≡ some (via_double a) = ap (Option.map via_double) h in
    reads lua s (record s { state = record s.state { size = valid }; size_cached = via_double a }) _
      (some (via_double a)) _ (sym v) refl
      (record {
        boolean = c.boolean;
        integer = c.integer;
        number = c.number;
        size = read_text (size_of lua) s.iov t e v;
        string = c.string;
        referenced = c.referenced;
        resets = c.resets;
      })
      refl

-- A string is read only where the registry does not hold one.
abbrev Unreferenced : Fetch Bytes → Bool → Type 0
Unreferenced (known o) ref = Unit
Unreferenced _ ref = ref ≡ false

fetch-Unreferenced :
    (vd : Validity) (a : Bytes) (o : Option (Option Bytes)) (ref : Bool)
    → Referenced vd ref
    → Unreferenced (fetch vd a o) ref
fetch-Unreferenced unknown a none ref h = h
fetch-Unreferenced unknown a (some none) ref h = h
fetch-Unreferenced unknown a (some (some b)) ref h = h
fetch-Unreferenced invalid a o ref h = tt
fetch-Unreferenced valid a o ref h = tt

string_answer-Reads :
    (lua : LuaInstring) (s : Instring) (t : Bytes)
    → Coherent lua s
    → iovec_as_string s.iov ≡ some t
    → (f : Fetch Bytes) → Fetched id f (lua.tostring t)
    → Unreferenced f s.string_lua_ref
    → Reads lua s (string_answer true s f) (string_of lua t)
string_answer-Reads lua s t c e crash h r = absurd h
string_answer-Reads lua s t c e (known none) h r = reads lua s s _ none _ h refl c refl
string_answer-Reads lua s t c e (known (some a)) h r = reads lua s s _ (some a) _ h refl c refl
string_answer-Reads lua s t c e failed h r =
    let v : string_of lua t ≡ none = ap (Option.map id) h in
    reads lua s (record s { state = record s.state { string = invalid } }) _ none _ (sym v) refl
      (record {
        boolean = c.boolean;
        integer = c.integer;
        number = c.number;
        size = c.size;
        string = read_text (string_of lua) s.iov t e v;
        referenced = r;
        resets = c.resets;
      })
      refl
string_answer-Reads lua s t c e (fetched a) h r =
    let v : string_of lua t ≡ some a = ap (Option.map id) h in
    let s' = record s {
      state = record s.state { string = valid };
      string_cached = a;
      string_lua_ref = true;
    } in
    reads lua s s' _ (some a) _ (sym v)
      (ap (λ ref. if ref then none else some (true, some a, s')) r)
      (record {
        boolean = c.boolean;
        integer = c.integer;
        number = c.number;
        size = c.size;
        string = read_text (string_of lua) s.iov t e v;
        referenced = tt;
        resets = c.resets;
      })
      refl

-- Where the cache agrees with the text, each of the five functions of values, called with somewhere to
-- store the value, answers what would be read from the text as it is after the variables are
-- interpolated, for a text that passes the assertion; its cache then agrees again, and it leaves the text.
pub values-Read :
    (lua : LuaInstring) (eval : ℕ → Option Bytes) (s : Instring) (t : Bytes)
    → Coherent lua s
    → iovec_as_string (interpolate eval s).iov ≡ some t
    → Reads lua (interpolate eval s) (boolean_value lua eval true s) (boolean_of lua t)
      × Reads lua (interpolate eval s) (integer_value lua eval true s) (int_of lua t)
      × Reads lua (interpolate eval s) (number_value lua eval true s) (number_of lua t)
      × Reads lua (interpolate eval s) (size_value lua eval true s) (size_of lua t)
      × Reads lua (interpolate eval s) (string_value lua eval true s) (string_of lua t)
unfolding boolean_value integer_value number_value size_value string_value
values-Read lua eval s0 t c0 e =
    let s = interpolate eval s0 in
    let c = interpolate-Coherent lua eval s0 c0 in
    (
      boolean_answer-Reads lua s t c e _
          (text-Fetched id lua.toboolean s.state.boolean s.boolean_cached s.iov t e c.boolean),
      integer_answer-Reads lua s t c e _
          (text-Fetched to_int lua.tointeger s.state.integer s.integer_cached s.iov t e c.integer),
      number_answer-Reads lua s t c e _
          (text-Fetched id lua.tonumber s.state.number s.number_cached s.iov t e c.number),
      size_answer-Reads lua s t c e _
          (text-Fetched via_double lua.tosize s.state.size s.size_cached s.iov t e c.size),
      string_answer-Reads lua s t c e _
          (text-Fetched id lua.tostring s.state.string s.string_cached s.iov t e c.string)
          (fetch-Unreferenced s.state.string s.string_cached _ s.string_lua_ref c.referenced),
    )
