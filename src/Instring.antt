-- ===== src/Instring.antt =====
-- src/instring.c and src/include/shuttlesock/instring.h: a setting's text with variables in it, and the
-- values that are read from it and cached. A string is its bytes. The functions of
-- "shuttlesock.core.instring" in Lua, which read a value from a text, are a parameter, and so is what
-- the variables give; a result `none` is a failed assertion.
pub mod Text
pub mod Cache
pub mod Copy
mod Tests
use shuttlesock.Base.{
  ℕ, zero, suc, ◌+◌, ◌*◌, ◌/◌, ◌%◌, ◌^◌, Bool, true, false, Option, none, some, List, [], ◌∷◌, ◌++◌,
  ltb, length, not, if◌then◌else◌,
}

abbrev pub Bytes : Type 0
Bytes = List ℕ

-- SHUTTLESOCK_INSTRING_VALUE_UNKNOWN, SHUTTLESOCK_INSTRING_VALUE_INVALID, SHUTTLESOCK_INSTRING_VALUE_VALID
pub data Validity : Type 0 where
  unknown : Validity
  invalid : Validity
  valid : Validity

-- `shuso_instring_token_t`; a variable is known by a number
pub data Token : Type 0 where
  literal : Bytes → Token
  variable : ℕ → Token

-- `shuso_instring_value_state_t`
pub record ValueState : Type 0 where
  pub boolean : Validity
  pub integer : Validity
  pub number : Validity
  pub size : Validity
  pub string : Validity

-- `shuso_instring_t`: the buffer's iovecs, and the cached values. A double or an int is its bit pattern; the
-- reference is whether the Lua registry holds the string.
pub record Instring : Type 0 where
  pub variables : List ℕ
  pub tokens : List Token
  pub iov : List Bytes
  pub reset_state : ValueState
  pub state : ValueState
  pub boolean_cached : Bool
  pub integer_cached : ℕ
  pub number_cached : ℕ
  pub size_cached : ℕ
  pub string_cached : Bytes
  pub string_lua_ref : Bool

-- The functions `toboolean`, `tointeger`, `tonumber`, `tosize` and `tostring` of
-- "shuttlesock.core.instring", `none` being nil
pub record LuaInstring : Type 0 where
  pub toboolean : Bytes → Option Bool
  pub tointeger : Bytes → Option ℕ
  pub tonumber : Bytes → Option ℕ
  pub tosize : Bytes → Option ℕ
  pub tostring : Bytes → Option Bytes

abbrev pub unknown_state : ValueState
unknown_state = record {
  boolean = unknown;
  integer = unknown;
  number = unknown;
  size = unknown;
  string = unknown;
}

abbrev pub variables_of : List Token → List ℕ
variables_of [] = []
variables_of (literal s ∷ ts) = variables_of ts
variables_of (variable v ∷ ts) = v ∷ variables_of ts

-- the iovecs of new tokens: a literal's, or none
abbrev pub iov_of : List Token → List Bytes
iov_of [] = []
iov_of (literal s ∷ ts) = s ∷ iov_of ts
iov_of (variable v ∷ ts) = [] ∷ iov_of ts

-- `luaS_instring_lua_to_c_generic` for tokens of which at least one is a variable and none is a
-- constant one, whose text would be known here
pub lua_to_c : List Token → Instring
lua_to_c ts = record {
  variables = variables_of ts;
  tokens = ts;
  iov = iov_of ts;
  reset_state = unknown_state;
  state = unknown_state;
  boolean_cached = false;
  integer_cached = 0;
  number_cached = 0;
  size_cached = 0;
  string_cached = [];
  string_lua_ref = false;
}

-- iov[i] = val
abbrev pub store_iov : List Bytes → ℕ → Bytes → List Bytes
store_iov [] i val = []
store_iov (x ∷ xs) zero val = val ∷ xs
store_iov (x ∷ xs) (suc i) val = x ∷ store_iov xs i val

abbrev pub on_eval : Option Bytes → ℕ → Bool × List Bytes → Bool × List Bytes
on_eval none i (reset, iov) = (reset, iov)
on_eval (some val) i (reset, iov) = (true, store_iov iov i val)

-- the loop of `shuso_instring_interpolate`
pub interpolate_from :
    (eval : ℕ → Option Bytes) → List ℕ → ℕ → Bool × List Bytes → Bool × List Bytes
interpolate_from eval [] i r = r
interpolate_from eval (v ∷ vs) i r = interpolate_from eval vs (suc i) (on_eval (eval v) i r)

abbrev after_interpolate : Instring → Bool × List Bytes → Instring
after_interpolate s (reset, iov) =
    if reset
    then record s { iov = iov; state = s.reset_state; string_lua_ref = false }
    else record s { iov = iov }

-- `shuso_instring_interpolate`, with what the variables give, `none` for one that fails
pub interpolate : (eval : ℕ → Option Bytes) → Instring → Instring
unfolding interpolate_from
interpolate eval s = after_interpolate s (interpolate_from eval s.variables 0 (false, s.iov))

abbrev and_append : Bytes → Option Bytes → Option Bytes
and_append x none = none
and_append x (some r) = some (x ++ r)

-- `luaS_push_iovec_as_string`
pub iovec_as_string : List Bytes → Option Bytes
iovec_as_string [] = some []
iovec_as_string (x ∷ xs) =
    let rest = iovec_as_string xs in if ltb (length x) 1000 then and_append x rest else none

-- `luaS_instring_tovalue`: `none` if the assertion fails, `some none` for nil
abbrev pub tovalue {ℓ} : {A : Type ℓ} → (Bytes → Option A) → Option Bytes → Option (Option A)
tovalue f none = none
tovalue f (some t) = some (f t)

-- What a function of values does with its cache: a value that is known is given, with nothing
-- stored; an unknown one is read.
pub data Fetch {ℓ} (A : Type ℓ) : Type ℓ where
  crash : Fetch A
  known : Option A → Fetch A
  fetched : A → Fetch A
  failed : Fetch A

abbrev pub from_value {ℓ} : {A : Type ℓ} → Option (Option A) → Fetch A
from_value none = crash
from_value (some none) = failed
from_value (some (some a)) = fetched a

abbrev pub fetch {ℓ} : {A : Type ℓ} → Validity → A → Option (Option A) → Fetch A
fetch valid cached v = known (some cached)
fetch invalid cached v = known none
fetch unknown cached v = from_value v

-- *retval, where it is asked for
abbrev pub given {ℓ} : {A : Type ℓ} → Bool → A → Option A
given want a = if want then some a else none

-- What a function of values returns: whether there is a value, what it stores for the caller, and the
-- instring.
abbrev pub Answer {ℓ} : Type ℓ → Type ℓ
Answer A = Option (Bool × Option A × Instring)

abbrev boolean_answer : Bool → Instring → Fetch Bool → Answer Bool
boolean_answer want s crash = none
boolean_answer want s (known none) = some (false, none, s)
boolean_answer want s (known (some b)) = some (true, given want b, s)
boolean_answer want s failed =
    some (false, none, record s { state = record s.state { boolean = invalid } })
boolean_answer want s (fetched b) = some (
  true,
  given want b,
  record s { state = record s.state { boolean = valid }; boolean_cached = b },
)

-- `shuso_instring_boolean_value`
pub boolean_value : LuaInstring → (ℕ → Option Bytes) → Bool → Instring → Answer Bool
unfolding interpolate iovec_as_string
boolean_value lua eval want s0 =
    let s = interpolate eval s0 in
    boolean_answer want s
      (fetch s.state.boolean s.boolean_cached (tovalue lua.toboolean (iovec_as_string s.iov)))

-- an int of the 64 bits of a Lua integer
abbrev pub to_int : ℕ → ℕ
to_int n = n % 2 ^ 32

abbrev integer_answer : Bool → Instring → Fetch ℕ → Answer ℕ
integer_answer want s crash = none
integer_answer want s (known none) = some (false, none, s)
integer_answer want s (known (some n)) = some (true, given want n, s)
integer_answer want s failed =
    some (false, none, record s { state = record s.state { integer = invalid } })
integer_answer want s (fetched n) = some (
  true,
  given want (to_int n),
  record s { state = record s.state { integer = valid }; integer_cached = to_int n },
)

-- `shuso_instring_integer_value`
pub integer_value : LuaInstring → (ℕ → Option Bytes) → Bool → Instring → Answer ℕ
unfolding interpolate iovec_as_string
integer_value lua eval want s0 =
    let s = interpolate eval s0 in
    integer_answer want s
      (fetch s.state.integer s.integer_cached (tovalue lua.tointeger (iovec_as_string s.iov)))

abbrev number_answer : Bool → Instring → Fetch ℕ → Answer ℕ
number_answer want s crash = none
number_answer want s (known none) = some (false, none, s)
number_answer want s (known (some n)) = some (true, given want n, s)
number_answer want s failed =
    some (false, none, record s { state = record s.state { number = invalid } })
number_answer want s (fetched n) =
    some (
      true,
      given want n,
      record s { state = record s.state { number = valid }; number_cached = n },
    )

-- `shuso_instring_number_value`
pub number_value : LuaInstring → (ℕ → Option Bytes) → Bool → Instring → Answer ℕ
unfolding interpolate iovec_as_string
number_value lua eval want s0 =
    let s = interpolate eval s0 in
    number_answer want s
      (fetch s.state.number s.number_cached (tovalue lua.tonumber (iovec_as_string s.iov)))

-- `q` units of `n` by rounding half to even
abbrev round_half_even : ℕ → ℕ → ℕ
round_half_even n unit =
    let q = n / unit in
    let r = n % unit in
    if ltb (2 * r) unit then q else if ltb unit (2 * r) then q + 1 else q + q % 2

-- the number of low bits by which a number below 2^64 is longer than the 53 bits of a double
pub excess_bits : (tries : ℕ) → ℕ → ℕ
excess_bits zero n = 0
excess_bits (suc t) n = let more = excess_bits t (n / 2) in if ltb n (2 ^ 53) then 0 else suc more

-- a size that went through a double; it is not negative
pub via_double : ℕ → ℕ
unfolding excess_bits
via_double n = let unit = 2 ^ excess_bits 11 n in round_half_even n unit * unit

abbrev size_answer : Bool → Instring → Fetch ℕ → Answer ℕ
size_answer want s crash = none
size_answer want s (known none) = some (false, none, s)
size_answer want s (known (some n)) = some (true, given want n, s)
size_answer want s failed =
    some (false, none, record s { state = record s.state { size = invalid } })
size_answer want s (fetched n) = some (
  true,
  given want (via_double n),
  record s { state = record s.state { size = valid }; size_cached = via_double n },
)

-- `shuso_instring_size_value`
pub size_value : LuaInstring → (ℕ → Option Bytes) → Bool → Instring → Answer ℕ
unfolding interpolate iovec_as_string via_double
size_value lua eval want s0 =
    let s = interpolate eval s0 in
    size_answer want s
      (fetch s.state.size s.size_cached (tovalue lua.tosize (iovec_as_string s.iov)))

abbrev string_answer : Bool → Instring → Fetch Bytes → Answer Bytes
string_answer want s crash = none
string_answer want s (known none) = some (false, none, s)
string_answer want s (known (some t)) = some (true, given want t, s)
string_answer want s failed =
    some (false, none, record s { state = record s.state { string = invalid } })
string_answer want s (fetched t) =
    if s.string_lua_ref
    then none
    else some (
      true,
      given want t,
      record s {
        state = record s.state { string = valid };
        string_cached = if want then t else s.string_cached;
        string_lua_ref = true;
      },
    )

-- `shuso_instring_string_value`
pub string_value : LuaInstring → (ℕ → Option Bytes) → Bool → Instring → Answer Bytes
unfolding interpolate iovec_as_string
string_value lua eval want s0 =
    let s = interpolate eval s0 in
    string_answer want s
      (fetch s.state.string s.string_cached (tovalue lua.tostring (iovec_as_string s.iov)))
