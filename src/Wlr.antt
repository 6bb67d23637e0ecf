-- ===== src/Wlr.antt =====
-- wlr.c: what its getters and setters share. `Headers` stands for the constants and the struct
-- layouts that the headers of wlroots, libwayland and xkbcommon fix; a getter reads a record with the
-- fields of the C struct that it uses, where `addr` is the address of the struct and `at_m` that of
-- its member `m`.
pub mod Tables
pub mod SignalTables
pub mod Members
pub mod Overrun
pub mod UserData
pub mod Safety
pub mod Address
pub mod Box
pub mod Backend
pub mod Output
pub mod Scene
pub mod Xdg
pub mod Surface
pub mod Input
pub mod PointerEvents
pub mod Seat
pub mod Cursor
pub mod Xwayland
pub mod Arrays
pub mod Xcursor
pub mod Keyboard
pub mod XwaylandSurface
pub mod Log
pub mod Calls
pub mod Registration
use janetland.Prelude.{
  ℕ, ◌+◌, Bool, true, false, Option, none, some, List, [], ◌∷◌, String, leb, ◌==◌, str_eq,
  if◌then◌else◌,
}
use janetland.Janet.{
  Janet, Value, nil, string, keyword, pointer, abstract, array, from_list, wraps, Result, ok, panic,
  fault, ◌>>=◌,
}
use janetland.KeyDefs.{KeyDef, key_def_count, name_at, get_flag_keys}
pub use janetland.Headers.{Headers}
use janetland.Jl.{pointer_to_abs_obj, pointer_to_abs_obj_by_name}

-- `jl_offset_def_t`; `none` is a NULL name.
pub record OffsetDef : Type 0 where
  pub name : Option String
  pub offset : ℕ

-- The array of the `JWLR_OFFSET_DEF` rows of one struct, with the last row `{NULL, 0}` and without.
abbrev pub offsets_terminated : (String → ℕ) → List String → List OffsetDef
offsets_terminated offset [] = record { name = none; offset = 0 } ∷ []
offsets_terminated offset (m ∷ ms) =
    record { name = some m; offset = offset m } ∷ offsets_terminated offset ms

abbrev pub offsets_unterminated : (String → ℕ) → List String → List OffsetDef
offsets_unterminated offset [] = []
offsets_unterminated offset (m ∷ ms) =
    record { name = some m; offset = offset m } ∷ offsets_unterminated offset ms

-- The loop of both lookups of a member by its name; `none` is the NULL that they return.
unfoldable pub find_member : Janet → String → ℕ → String → List OffsetDef → Result (Option Value)
find_member J at p kw [] = fault
find_member J at p kw (o ∷ offsets) = elim o.name [
  | none ↦ ok none
  | some n ↦
      if str_eq kw n
      then (do v ← pointer_to_abs_obj_by_name J (p + o.offset) at; ok (some v))
      else find_member J at p kw offsets
]

unfoldable pub get_abstract_struct_signal_member :
    Janet → ℕ → String → List OffsetDef → Result (Option Value)
unfolding find_member
get_abstract_struct_signal_member J p kw offsets = find_member J "wl/wl-signal" p kw offsets

unfoldable pub get_abstract_struct_list_member :
    Janet → ℕ → String → List OffsetDef → Result (Option Value)
unfolding find_member
get_abstract_struct_list_member J p kw offsets = find_member J "wl/wl-list" p kw offsets

-- A `get` method: `some v` is a return of 1 with `*out = v`, `none` a return of 0.
abbrev pub Getter : Type 0
Getter = Result (Option Value)

abbrev pub found : Value → Getter
found v = ok (some v)

abbrev pub missing : Getter
missing = ok none

-- `if (member_p) { *out = ...; return 1; }`, and the rest of the method behind it.
abbrev pub or_else : Option Value → Getter → Getter
or_else (some v) rest = found v
or_else none rest = rest

-- `if (!janet_checktype(key, JANET_KEYWORD)) janet_panicf(...)`, and the unwrapped keyword.
abbrev pub keyword_of : Value → Result String
keyword_of (keyword s) = ok s
keyword_of _ = panic "expected keyword, got %v"

abbrev pub pointer_or_nil : ℕ → Value
pointer_or_nil p = if p == 0 then nil else pointer p

abbrev pub object_or_nil : ℕ → String → Value
object_or_nil p at = if p == 0 then nil else abstract at (wraps p)

abbrev pub text_or_nil : Option String → Value
text_or_nil none = nil
text_or_nil (some s) = string s

-- `janet_cstringv` without a test for NULL.
abbrev pub found_text : Option String → Getter
found_text none = fault
found_text (some s) = found (string s)

abbrev pub found_by_name : Janet → ℕ → String → Getter
found_by_name J p at = do v ← pointer_to_abs_obj_by_name J p at; found v

abbrev pub object_by_name_or_nil : Janet → ℕ → String → Getter
object_by_name_or_nil J p at = if p == 0 then found nil else found_by_name J p at

-- `*out = janet_ckeywordv(defs[v].name)`, without and with the test `v >= JL_KEY_DEF_COUNT(defs)`.
abbrev pub found_name : List KeyDef → ℕ → Getter
found_name defs v = do k ← name_at defs v; found k

abbrev pub enum_keyword : ℕ → List KeyDef → String → Getter
enum_keyword v defs message =
    if leb (key_def_count defs) v then panic message else found_name defs v

abbrev pub found_flags : ℕ → List KeyDef → Getter
found_flags flags defs = do keys ← get_flag_keys flags defs; found (array (from_list keys))
