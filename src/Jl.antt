-- ===== src/Jl.antt =====
-- jl.h: abstract objects that wrap a C pointer, and the pointer behind a Janet value. The block of an
-- abstract object whose first word the model does not keep is read through `first_word`.
pub mod Pointers
use janetland.Prelude.{ℕ, Bool, true, false, ◌||◌, String, codes, has_prefix, if◌then◌else◌}
use janetland.Janet.{
  Janet, Value, nil, symbol, table, pointer, abstract, Content, wraps, cell, Result, ok, panic,
  ◌>>=◌,
}

-- `jl_get_abstract_type_by_name`: the type is found by the name it was registered under.
unfoldable pub get_abstract_type_by_name : Janet → String → Result String
get_abstract_type_by_name J name =
    if J.registered name then ok name else panic "cant't find abstract type %v"

-- `jl_get_abstract_type_by_key`: the key is the name as a symbol; no other value names a type.
unfoldable pub get_abstract_type_by_key : Janet → Value → Result String
unfolding get_abstract_type_by_name
get_abstract_type_by_key J (symbol name) = get_abstract_type_by_name J name
get_abstract_type_by_key J _ = panic "cant't find abstract type %v"

-- `janet_wrap_abstract(jl_pointer_to_abs_obj(ptr, at))`
unfoldable pub pointer_to_abs_obj : ℕ → String → Value
pointer_to_abs_obj ptr at = abstract at (wraps ptr)

unfoldable pub pointer_to_abs_obj_by_key : Janet → ℕ → Value → Result Value
unfolding get_abstract_type_by_key pointer_to_abs_obj
pointer_to_abs_obj_by_key J ptr key = do
  at ← get_abstract_type_by_key J key
  ok (pointer_to_abs_obj ptr at)

unfoldable pub pointer_to_abs_obj_by_name : Janet → ℕ → String → Result Value
unfolding get_abstract_type_by_name pointer_to_abs_obj
pointer_to_abs_obj_by_name J ptr name = do
  at ← get_abstract_type_by_name J name
  ok (pointer_to_abs_obj ptr at)

-- `*(void **)p` of an abstract object.
abbrev pub word : (ℕ → ℕ) → Content → ℕ
word first_word (wraps p) = p
word first_word (cell a) = first_word a

unfoldable pub get_abs_obj_pointer : Janet → (ℕ → ℕ) → Value → String → Result ℕ
get_abs_obj_pointer J first_word v at = do c ← J.getabstract at v; ok (word first_word c)

unfoldable pub get_abs_obj_pointer_by_key : Janet → (ℕ → ℕ) → Value → Value → Result ℕ
unfolding get_abstract_type_by_key get_abs_obj_pointer
get_abs_obj_pointer_by_key J first_word v key = do
  at ← get_abstract_type_by_key J key
  get_abs_obj_pointer J first_word v at

unfoldable pub get_abs_obj_pointer_by_name : Janet → (ℕ → ℕ) → Value → String → Result ℕ
unfolding get_abstract_type_by_name get_abs_obj_pointer
get_abs_obj_pointer_by_name J first_word v name = do
  at ← get_abstract_type_by_name J name
  get_abs_obj_pointer J first_word v at

-- The four prefix tests of `jl_value_to_data_pointer`.
unfoldable pub built_by_us : String → Bool
built_by_us at_name =
    has_prefix (codes "wl/") (codes at_name)
    || has_prefix (codes "wlr/") (codes at_name)
    || has_prefix (codes "xkb/") (codes at_name)
    || has_prefix (codes "util/") (codes at_name)

unfoldable pub value_to_data_pointer : (ℕ → ℕ) → Value → Result ℕ
unfolding built_by_us
value_to_data_pointer first_word nil = ok 0
value_to_data_pointer first_word (pointer p) = ok p
value_to_data_pointer first_word (abstract at c) =
    if built_by_us at then ok (word first_word c) else panic "unknown abstract type: %s"
value_to_data_pointer first_word (table t) = ok t
value_to_data_pointer first_word _ = panic "expected abstract type or a pointer, got %v"
