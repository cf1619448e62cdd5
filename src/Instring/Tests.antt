-- ===== src/Instring/Tests.antt =====
-- Instrings at concrete inputs.
use shuttlesock.Base.{ℕ, false, ◌&&◌, ◌≡◌, refl, true, none, some, List, [], ◌∷◌, length}
use shuttlesock.Instring.{
  unknown_state, Bytes, Token, literal, variable, Instring, LuaInstring, lua_to_c, interpolate,
  interpolate_from, iovec_as_string, boolean_value, integer_value, number_value, size_value,
  string_value, via_double, excess_bits,
}
use shuttlesock.Instring.Text.{iov-interpolate, variables_then, iov-interpolate_text}
use shuttlesock.Instring.Copy.{
  CopyMemory, AllCopied, all_memory, instrings_copy_for_worker, instrings_copy_for_worker-AllCopied,
}
use shuttlesock.Instring.Cache.{
  Coherent, Reads, values-Read, boolean_of, int_of, number_of, size_of, string_of,
}

-- "a$x", the value of each variable being "b"
abbrev mixed : List Token
mixed = literal (97 ∷ []) ∷ variable 7 ∷ []

abbrev value : ℕ → Bytes
value v = 98 ∷ []

-- The literal is overwritten, and the text is "b".
mixed_text :
    iovec_as_string (interpolate (λ v. some (value v)) (lua_to_c mixed)).iov ≡ some (98 ∷ [])
unfolding interpolate interpolate_from lua_to_c iovec_as_string
mixed_text = refl

iov-interpolate_example :
    (interpolate (λ v. some (value v)) (lua_to_c mixed)).iov ≡ (98 ∷ []) ∷ [] ∷ []
iov-interpolate_example = iov-interpolate value mixed

variable_then_literal :
    (interpolate (λ v. some (value v)) (lua_to_c (variables_then (7 ∷ []) ((97 ∷ []) ∷ [])))).iov
    ≡ (98 ∷ []) ∷ (97 ∷ []) ∷ []
variable_then_literal = iov-interpolate_text value (7 ∷ []) ((97 ∷ []) ∷ [])

-- A size beyond 2^53 is rounded.
large_size : via_double 9007199254740993 ≡ 9007199254740992
unfolding via_double excess_bits
large_size = refl

abbrev lua : LuaInstring
lua = record {
  toboolean = λ t. some true;
  tointeger = λ t. some (length t);
  tonumber = λ t. none;
  tosize = λ t. some (length t);
  tostring = λ t. some t;
}

abbrev one_variable : Instring
one_variable = lua_to_c (variable 7 ∷ [])

one_variable-Coherent : Coherent lua one_variable
unfolding lua_to_c
one_variable-Coherent = record {
  boolean = tt;
  integer = tt;
  number = tt;
  size = tt;
  string = tt;
  referenced = refl;
  resets = refl;
}

one_variable_text :
    iovec_as_string (interpolate (λ v. some (value v)) one_variable).iov ≡ some (98 ∷ [])
unfolding interpolate interpolate_from lua_to_c iovec_as_string
one_variable_text = refl

values-Read_example :
    Reads lua
      (interpolate (λ v. some (value v)) one_variable)
      (boolean_value lua (λ v. some (value v)) true one_variable)
      (boolean_of lua (98 ∷ []))
    × Reads lua
        (interpolate (λ v. some (value v)) one_variable)
        (integer_value lua (λ v. some (value v)) true one_variable)
        (int_of lua (98 ∷ []))
    × Reads lua
        (interpolate (λ v. some (value v)) one_variable)
        (number_value lua (λ v. some (value v)) true one_variable)
        (number_of lua (98 ∷ []))
    × Reads lua
        (interpolate (λ v. some (value v)) one_variable)
        (size_value lua (λ v. some (value v)) true one_variable)
        (size_of lua (98 ∷ []))
    × Reads lua
        (interpolate (λ v. some (value v)) one_variable)
        (string_value lua (λ v. some (value v)) true one_variable)
        (string_of lua (98 ∷ []))
values-Read_example =
    values-Read lua (λ v. some (value v)) one_variable (98 ∷ []) one_variable-Coherent
      one_variable_text

abbrev mixed_instring : Instring
mixed_instring = record {
  variables = 7 ∷ [];
  tokens = mixed;
  iov = (98 ∷ []) ∷ (99 ∷ []) ∷ [];
  reset_state = unknown_state;
  state = unknown_state;
  boolean_cached = false;
  integer_cached = 0;
  number_cached = 0;
  size_cached = 0;
  string_cached = [];
  string_lua_ref = false;
}

abbrev much_memory : ℕ → CopyMemory
much_memory i = record { variables = true; tokens = true; iov = true }

-- The values of variables in the iovecs are not copied.
copied_iov :
    instrings_copy_for_worker true much_memory (mixed_instring ∷ [])
    ≡ some (some (record mixed_instring { iov = (97 ∷ []) ∷ [] ∷ [] } ∷ []))
unfolding instrings_copy_for_worker
copied_iov = refl

instrings_copy_for_worker-AllCopied_example :
    AllCopied
      (true && all_memory much_memory 0 (length (mixed_instring ∷ [])))
      (mixed_instring ∷ [])
      (instrings_copy_for_worker true much_memory (mixed_instring ∷ []))
instrings_copy_for_worker-AllCopied_example =
    instrings_copy_for_worker-AllCopied true much_memory (mixed_instring ∷ []) (refl, tt)
