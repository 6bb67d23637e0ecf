-- ===== src/AbstractTypes/Safe.antt =====
-- What it means that the getter of an abstract type is safe, and two getters that are.
use janetland.Prelude.{ℕ, ◌≡◌, ◌≢◌, ==_differ, true, ◌⊎◌, Option, none, some, List, [], ◌∷◌, String}
use janetland.Janet.{Janet, Value, IsSafe, safe_ok, bind-IsSafe}
use janetland.Headers.{Headers}
use janetland.Wlr.{Getter, missing, found_flags}
use janetland.KeyDefs.{terminated}
use janetland.Wlr.Tables.{wlr_keyboard_modifier_rows}
use janetland.Wlr.Input.{modifiers_member}
use janetland.Wlr.Members.{has_name}
use janetland.Wlr.Safety.{safe, keyword_of-IsSafe, found_flags-IsSafe}
use janetland.AbstractTypes.{AbstractType, struct_get}
use janetland.Wlr.Box.{method_box_get, WlrBox}
use janetland.Wlr.Input.{method_wlr_keyboard_modifiers_get, WlrKeyboardModifiers}

-- The types whose getters read an array by its count, an enum's table without a test of the value, or a table
-- of members without its NULL row.
abbrev pub conditional_types : List String
conditional_types =
    "wlr/wlr-scene" ∷ "wlr/wlr-xdg-surface" ∷ "wlr/wlr-xcursor-image" ∷ "wlr/wlr-xcursor"
    ∷ "wlr/wlr-pointer" ∷ "wlr/wlr-keyboard-key-event" ∷ "wlr/wlr-keyboard"
    ∷ "wlr/wlr-xwayland-surface" ∷ []

abbrev pub IsSafeGet : {O : Type 0} → ℕ → Option ((ℕ → O) → ℕ → Value → Getter) → Type 0
IsSafeGet p none = Unit
IsSafeGet {O = O} p (some get) = (memory : ℕ → O) (key : Value) → IsSafe (get memory p key)

pub struct_get-IsSafe :
    {O : Type 0} {get : O → Value → Getter} (p : ℕ)
    → p ≢ 0
    → ((o : O) (key : Value) → IsSafe (get o key))
    → (memory : ℕ → O) (key : Value) → IsSafe (struct_get get memory p key)
struct_get-IsSafe p nonzero safe_at memory key = rw (==_differ p 0 nonzero) (safe_at (memory p) key)

-- The type is one of them, or its getter is safe where the object wraps `p`.
abbrev pub AnswersSafely : ℕ → AbstractType → Type 0
AnswersSafely p type = (has_name type.name conditional_types ≡ true) ⊎ IsSafeGet p type.get

module _ (J : Janet) (H : Headers) where
  pub box_get-IsSafe : (s : WlrBox) (key : Value) → IsSafe (method_box_get J s key)
  unfolding method_box_get
  box_get-IsSafe s key = search safe depth 40

  flags_or_missing-IsSafe :
      (m : Option ℕ) (rows : List (String × ℕ))
      → IsSafe {A = Option Value}
          (elim m [ none ↦ missing | some flags ↦ found_flags flags (terminated rows) ])
  flags_or_missing-IsSafe none rows = safe_ok none
  flags_or_missing-IsSafe (some flags) rows = found_flags-IsSafe flags rows

  pub keyboard_modifiers_get-IsSafe :
      (s : WlrKeyboardModifiers) (key : Value)
      → IsSafe (method_wlr_keyboard_modifiers_get J H s key)
  unfolding method_wlr_keyboard_modifiers_get
  keyboard_modifiers_get-IsSafe s key =
      bind-IsSafe (keyword_of-IsSafe key)
        (λ kw. flags_or_missing-IsSafe (modifiers_member s kw) (wlr_keyboard_modifier_rows H))
