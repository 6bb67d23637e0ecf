-- ===== src/KeyDefs.antt =====
-- The key tables of types.h: `jl_key_def_t`, `jl_get_key_def`, `jl_get_key_flags` and
-- `jl_get_flag_keys`. A table is the C array with its terminating `{NULL, 0}` row as a row of its
-- own, so a scan that meets no such row runs off the list, which is a fault. The `int32_t` key is
-- its bit pattern, so the casts to `uint32_t` in the source leave it as it is.
pub mod Scan
pub mod Flags
pub mod Sets
use janetland.Prelude.{
  ℕ, zero, suc, ◌+◌, ◌-◌, ◌≡◌, Bool, true, false, Option, none, some, List, [], ◌∷◌, ◌++◌, String,
  bit_and, bit_or, length, get_elem?, ◌==◌, str_eq, if◌then◌else◌,
}
use janetland.Janet.{
  Janet, Value, nil, boolean, number, string, keyword, symbol, buffer, tuple, array, table,
  function, cfunction, pointer, abstract, to_list, Result, ok, panic, fault, ◌>>=◌, ◌>>◌, guard,
}

-- `jl_key_def_t`; `none` is a NULL name.
pub record KeyDef : Type 0 where
  pub name : Option String
  pub key : ℕ

abbrev pub def : String → ℕ → KeyDef
def n k = record { name = some n; key = k }

abbrev pub terminator : KeyDef
terminator = record { name = none; key = 0 }

-- The array that an initialiser with a last row `{NULL, 0}` makes.
abbrev pub terminated : List (String × ℕ) → List KeyDef
terminated [] = terminator ∷ []
terminated ((n, k) ∷ rows) = def n k ∷ terminated rows

-- `JL_KEY_DEF_COUNT`
unfoldable pub key_def_count : List KeyDef → ℕ
key_def_count defs = length defs - 1

-- The loop of `jl_get_key_def`.
unfoldable pub find_key : List KeyDef → String → Result ℕ
find_key [] kw = fault
find_key (d ∷ defs) kw = elim d.name [
  | none ↦ panic "unknown key: %v"
  | some n ↦ if str_eq kw n then ok d.key else find_key defs kw
]

unfoldable pub get_key_def : Janet → Value → List KeyDef → Result ℕ
get_key_def J v defs = do kw ← J.getkeyword v; find_key defs kw

abbrev pub is_keyword : Value → Bool
is_keyword (keyword s) = true
is_keyword _ = false

-- The loop of `jl_get_key_flags` over a tuple or an array.
unfoldable pub key_flags_loop : Janet → List KeyDef → List Value → ℕ → Result ℕ
key_flags_loop J defs [] flags = ok flags
key_flags_loop J defs (v ∷ vs) flags = do
  guard (is_keyword v) "expected keyword flags, got %v"
  key ← get_key_def J v defs
  key_flags_loop J defs vs (bit_or flags key)

unfoldable pub get_key_flags : Janet → Value → List KeyDef → Result ℕ
unfolding key_flags_loop
get_key_flags J (keyword s) defs = get_key_def J (keyword s) defs
get_key_flags J (tuple vs) defs = key_flags_loop J defs (to_list vs) 0
get_key_flags J (array vs) defs = key_flags_loop J defs (to_list vs) 0
get_key_flags J _ defs = panic "bad slot #%d: expected keyword or sequence of keywords, got %v"

-- The loop of `jl_get_flag_keys`; the keys are pushed to an array.
unfoldable pub flag_keys_loop : ℕ → List KeyDef → List Value → Result (List Value)
flag_keys_loop flags [] keys = fault
flag_keys_loop flags (d ∷ defs) keys = elim d.name [
  | none ↦ ok keys
  | some n ↦
      flag_keys_loop flags defs (if bit_and flags d.key == 0 then keys else keys ++ keyword n ∷ [])
]

unfoldable pub get_flag_keys : ℕ → List KeyDef → Result (List Value)
unfolding flag_keys_loop
get_flag_keys flags defs = flag_keys_loop flags defs []

-- `janet_ckeywordv(defs[i].name)`: past the array, or at the NULL name of the last row, undefined.
unfoldable pub name_at : List KeyDef → ℕ → Result Value
name_at defs i = elim (get_elem? defs i) [
  | none ↦ fault
  | some d ↦ elim d.name [ none ↦ fault | some n ↦ ok (keyword n) ]
]
