-- ===== src/Wlr/Calls.antt =====
-- wlr.c: what the functions that it registers share. wlroots is not part of the repository: a call of one of its functions
-- is `call` of `Wlroots` with the function's name and arguments, and can change everything that the
-- state `S` holds. An object of the bindings is read and made as in jl.h.
pub mod Effects
pub mod Steps
pub mod Rules
pub mod Setup
pub mod Layouts
pub mod Cursors
pub mod Keyboards
pub mod Seats
pub mod KeyCodes
pub mod Outputs
pub mod Surfaces
pub mod XdgShell
pub mod SceneGraph
pub mod Xwayland
use janetland.Prelude.{
  ℕ, ◌%◌, ◌^◌, ◌-◌, ltb, ◌≢◌, Bool, true, false, Option, none, some, List, [], ◌∷◌, String, ◌==◌,
  if◌then◌else◌,
}
use janetland.Prelude.Int.{ℤ, pos, negsuc, signed32, unsigned32}
use janetland.Janet.{
  Janet, Value, nil, boolean, number, string, tuple, abstract, wraps, cell, from_list, Result, ok,
  panic, arg, ◌>>=◌ as bind, fixarity as arity, address,
}
use janetland.Jl.{
  get_abs_obj_pointer, get_abs_obj_pointer_by_name, get_abstract_type_by_name, pointer_to_abs_obj,
}
use janetland.KeyDefs.{KeyDef, get_key_def, get_key_flags}
use janetland.Action.{Action, then_do}

-- An argument of a C function. Doubles and floats are the numbers that their bits spell; an enum is
-- a `uint`; `out` is the address of a variable of the caller, with what it holds if it was set.
pub data CArg : Type 0 where
  ptr : ℕ → CArg
  int : ℤ → CArg
  uint : ℕ → CArg
  flag : Bool → CArg
  double : ℕ → CArg
  float : ℕ → CArg
  text : Option String → CArg
  bytes : List ℕ → CArg
  words : List ℕ → CArg
  out : Option ℕ → CArg

-- What a C function hands back: the bits of its value (none for `void`), and the bits that the
-- variables behind its `out` arguments hold then.
pub record Returned : Type 0 where
  pub value : ℕ
  pub first : ℕ
  pub second : ℕ

pub record Wlroots (S : Type 0) : Type 0 where
  pub call : String → List CArg → S → Returned × S
  -- `*(void **)p` of an object whose block is a struct of its own
  pub first_word : S → ℕ → ℕ
  -- `janet_abstract`, with the address of the block
  pub new_abstract : S → ℕ × S
  pub new_abstract_nonzero : (s : S) → (new_abstract s).0 ≢ 0
  -- `(float)x` of a double
  pub to_float : ℕ → ℕ
  -- `node->type` of a scene node
  pub node_type : S → ℕ → ℕ

module _ {S A B : Type 0} where
  infixl 5 ◌>>=◌
  unfoldable pub ◌>>=◌ : Action S A → (A → Action S B) → Action S B
  (m >>= f) s = then_do f (m s)

infixl 5 ◌>>◌
abbrev pub ◌>>◌ : {S B : Type 0} → Action S (Unit {0}) → Action S B → Action S B
m >> k = m >>= λ _. k

-- A step that reads the arguments or makes the answer, and changes nothing.
unfoldable pub pure : {S A : Type 0} → Result A → Action S A
pure r s = (r, s)

abbrev pub give : {S A : Type 0} → A → Action S A
give a = pure (ok a)

abbrev pub fail : {S A : Type 0} → String → Action S A
fail m = pure (panic m)

abbrev pub is_nil : Value → Bool
is_nil nil = true
is_nil _ = false

module _ {S : Type 0} where
  abbrev pub fixarity : List Value → ℕ → Action S (Unit {0})
  fixarity argv n = pure (arity argv n)

  -- `janet_getX(argv, n)` for the X that `get` reads
  abbrev pub read_arg : {A : Type 0} → (Value → Result A) → List Value → ℕ → Action S A
  read_arg get argv n = pure (bind (arg argv n) get)

module _ {S : Type 0} (J : Janet) where
  -- `janet_getabstract(argv, n, &at)` of a struct that is the block itself
  unfoldable pub struct_arg : List Value → ℕ → String → Action S ℕ
  struct_arg argv n at = pure (bind (arg argv n) (λ v. bind (J.getabstract at v) address))

  -- `janet_getabstract(argv, n, jl_get_abstract_type_by_name(name))`
  unfoldable pub struct_by_name_arg : List Value → ℕ → String → Action S ℕ
  struct_by_name_arg argv n name = pure (
      bind (get_abstract_type_by_name J name)
        (λ at. bind (arg argv n) (λ v. bind (J.getabstract at v) address)))

  -- the numbers, flags and texts that stand at their place in `argv`
  unfoldable pub integer_arg : List Value → ℕ → Action S ℤ
  integer_arg = read_arg J.getinteger

  unfoldable pub uint64_arg : List Value → ℕ → Action S ℕ
  uint64_arg = read_arg J.getuinteger64

  unfoldable pub number_arg : List Value → ℕ → Action S ℕ
  number_arg = read_arg J.getnumber

  unfoldable pub boolean_arg : List Value → ℕ → Action S Bool
  boolean_arg = read_arg J.getboolean

  unfoldable pub cstring_arg : List Value → ℕ → Action S String
  cstring_arg = read_arg J.getcstring

  unfoldable pub string_arg : List Value → ℕ → Action S String
  string_arg = read_arg J.getstring

  unfoldable pub optional_string_arg : List Value → ℕ → Action S (Option String)
  optional_string_arg =
      read_arg λ v. if is_nil v then ok none else bind (J.getstring v) (λ s. ok (some s))

  unfoldable pub buffer_arg : List Value → ℕ → Action S (List ℕ)
  buffer_arg = read_arg J.getbuffer

  unfoldable pub indexed_arg : List Value → ℕ → Action S (List Value)
  indexed_arg = read_arg J.getindexed

  unfoldable pub key_def_arg : List Value → ℕ → List KeyDef → Action S ℕ
  key_def_arg argv n defs = read_arg (λ v. get_key_def J v defs) argv n

  unfoldable pub key_flags_arg : List Value → ℕ → List KeyDef → Action S ℕ
  key_flags_arg argv n defs = read_arg (λ v. get_key_flags J v defs) argv n

module _ {S : Type 0} (J : Janet) (L : Wlroots S) where
  unfoldable pub pointer_arg : List Value → ℕ → String → Action S ℕ
  pointer_arg argv n at s =
      (bind (arg argv n) (λ v. get_abs_obj_pointer J (L.first_word s) v at), s)

  unfoldable pub pointer_by_name_arg : List Value → ℕ → String → Action S ℕ
  pointer_by_name_arg argv n name s =
      (bind (arg argv n) (λ v. get_abs_obj_pointer_by_name J (L.first_word s) v name), s)

  -- `if (janet_checktype(argv[n], JANET_NIL)) p = NULL; else p = jl_get_abs_obj_pointer(argv, n, &at);`
  unfoldable pub optional_pointer_arg : List Value → ℕ → String → Action S ℕ
  optional_pointer_arg argv n at s = (
    bind (arg argv n) (λ v. if is_nil v then ok 0 else get_abs_obj_pointer J (L.first_word s) v at),
    s,
  )

module _ {S : Type 0} (L : Wlroots S) where
  -- `wlr_x(...)`
  unfoldable pub call : String → List CArg → Action S Returned
  call name args s = (ok (L.call name args s).0, (L.call name args s).1)

  -- `node->type`
  unfoldable pub node_type_of : ℕ → Action S ℕ
  node_type_of node s = (ok (L.node_type s node), s)

  -- `box = janet_abstract(&jwlr_at_box, sizeof(*box))`
  unfoldable pub new_box : Action S ℕ
  new_box s = (ok (L.new_abstract s).0, (L.new_abstract s).1)

-- `if (!p) janet_panic(message); return janet_wrap_abstract(jl_pointer_to_abs_obj(p, &at));`
unfoldable pub object_or_panic : {S : Type 0} → ℕ → String → String → Action S Value
unfolding pointer_to_abs_obj
object_or_panic p at message = if p == 0 then fail message else give (pointer_to_abs_obj p at)

-- `p ? janet_wrap_abstract(jl_pointer_to_abs_obj(p, &at)) : janet_wrap_nil()`
unfoldable pub object_or_nil : ℕ → String → Value
unfolding pointer_to_abs_obj
object_or_nil p at = if p == 0 then nil else pointer_to_abs_obj p at

-- `janet_wrap_boolean` of a `bool` that C returned.
unfoldable pub wrap_boolean : ℕ → Value
wrap_boolean b = boolean (if b == 0 then false else true)

-- `janet_wrap_integer` of a `uint32_t` serial, or of the bits of an `int`.
unfoldable pub wrap_bits : Janet → ℕ → Value
unfolding signed32
wrap_bits J n = J.wrap_integer (signed32 n)

unfoldable pub wrap_box : ℕ → Value
wrap_box box = abstract "wlr/box" (cell box)

-- `(int16_t)i` and `(uint16_t)i` of an `int32_t`, two's complement.
unfoldable pub to_uint16 : ℤ → ℕ
unfolding unsigned32
to_uint16 i = unsigned32 i % 2 ^ 16

unfoldable pub to_int16 : ℤ → ℤ
unfolding to_uint16
to_int16 i = let n = to_uint16 i in if ltb n (2 ^ 15) then pos n else negsuc (2 ^ 16 - 1 - n)

-- `janet_wrap_tuple(janet_tuple_n(ret_tuple, n))`
abbrev pub wrap_tuple : List Value → Value
wrap_tuple vs = tuple (from_list vs)
