-- ===== src/Wlr/Safety.antt =====
-- The getters whose tables end in their NULL row: no key of any type makes them read past an array.
pub mod Outputs
pub mod Shells
pub mod Devices
pub mod Arrays
use janetland.Prelude.{
  ℕ, zero, suc, ◌+◌, ◌≤◌, ◌<◌, ◌≡◌, Bool, true, false, Option, none, some, List, [], ◌∷◌, String,
  leb, ◌==◌, inl, inr, Bool-cases, if◌then◌else◌, arith, get_elem?, length,
}
use janetland.Janet.{
  Janet, Value, nil, keyword, Result, ok, panic, fault, ◌>>=◌, IsSafe, safe_ok, safe_panic,
  bind-IsSafe, if-IsSafe,
}
use janetland.KeyDefs.{terminated, key_def_count, name_at, get_flag_keys}
use janetland.KeyDefs.Scan.{key_def_count-terminated}
use janetland.KeyDefs.Flags.{get_flag_keys-names_of}
use janetland.Wlr.{
  Headers, Getter, or_else, keyword_of, found_name, enum_keyword, found_flags,
  object_by_name_or_nil,
}
use janetland.Wlr.Members.{
  signal_member-IsSafe, list_member-IsSafe, pointer_to_abs_obj_by_name-IsSafe,
}
use janetland.Wlr.Output.{
  WlrOutputLayout, WlrOutput, WlrOutputMode, method_wlr_output_layout_get, method_wlr_output_get,
  method_wlr_output_mode_get,
}

pub keyword_of-IsSafe : (key : Value) → IsSafe (keyword_of key)
keyword_of-IsSafe (keyword s) = safe_ok s
keyword_of-IsSafe nil = safe_panic _
keyword_of-IsSafe _ = safe_panic _

pub or_else-IsSafe : (o : Option Value) {rest : Getter} → IsSafe rest → IsSafe (or_else o rest)
or_else-IsSafe none h = h
or_else-IsSafe (some v) h = safe_ok (some v)

pub name_at-IsSafe :
    (rows : List (String × ℕ)) (v : ℕ) → v < length rows → IsSafe (name_at (terminated rows) v)
unfolding name_at
name_at-IsSafe [] v h = absurd (omega arith)
name_at-IsSafe ((n, k) ∷ rows) zero h = safe_ok (keyword n)
name_at-IsSafe ((n, k) ∷ rows) (suc v) h = name_at-IsSafe rows v (omega arith)

pub enum_keyword-IsSafe :
    (v : ℕ) (rows : List (String × ℕ)) (message : String)
    → IsSafe (enum_keyword v (terminated rows) message)
enum_keyword-IsSafe v rows message = elim (Bool-cases (leb (key_def_count (terminated rows)) v)) [
  | inl e ↦ rw e (safe_panic message)
  | inr e ↦ rw e (
      bind-IsSafe (name_at-IsSafe rows v (ground (arith, key_def_count-terminated rows)))
        (λ k. safe_ok (some k)))
]

pub found_flags-IsSafe :
    (flags : ℕ) (rows : List (String × ℕ)) → IsSafe (found_flags flags (terminated rows))
found_flags-IsSafe flags rows = rw (get_flag_keys-names_of flags rows) (safe_ok _)

pub object_by_name_or_nil-IsSafe :
    (J : Janet) (p : ℕ) (at : String) → IsSafe (object_by_name_or_nil J p at)
object_by_name_or_nil-IsSafe J p at =
    if-IsSafe (p == 0) (safe_ok (some nil))
      (bind-IsSafe (pointer_to_abs_obj_by_name-IsSafe J p at) (λ v. safe_ok (some v)))

pub ruleset safe = (
  bind-IsSafe, or_else-IsSafe, if-IsSafe, safe_ok, safe_panic, keyword_of-IsSafe,
  signal_member-IsSafe, list_member-IsSafe, enum_keyword-IsSafe, found_flags-IsSafe,
  object_by_name_or_nil-IsSafe,
)
