-- ===== src/Xkb.antt =====
-- xkb.c: contexts, rule names, keymaps and key symbols of xkbcommon.
pub mod RuleNames
pub mod Symbols
use janetland.Prelude.{
  ℕ, zero, suc, ◌%◌, ◌^◌, Bool, true, false, Option, none, some, List, [], ◌∷◌, ◌++◌, String,
  bit_and, ◌==◌, str_eq, if◌then◌else◌,
}
use janetland.Janet.{
  Janet, Value, nil, string, array, abstract, Result, ok, panic, fault, ◌>>=◌ as bind, guard, arg,
  argc, address, fixarity, from_list, to_list, boolean, number, keyword, symbol, buffer, tuple,
  table, function, cfunction, pointer,
}
use janetland.Headers.{Headers}
use janetland.KeyDefs.{terminated, get_key_flags}
use janetland.Jl.{pointer_to_abs_obj, get_abs_obj_pointer}
use janetland.Action.{Action, ◌>>=◌, ◌>>◌, lift, give, reading, change}

-- `struct xkb_rule_names`; `none` is NULL.
pub record XkbRuleNames : Type 0 where
  pub rules : Option String
  pub model : Option String
  pub layout : Option String
  pub variant : Option String
  pub options : Option String

abbrev pub empty_names : XkbRuleNames
empty_names = record { rules = none; model = none; layout = none; variant = none; options = none }

abbrev pub marked : Option String → List Value
marked none = []
marked (some s) = string s ∷ []

-- The values that the collector is told to mark, in order.
unfoldable pub method_xkb_rule_names_gcmark : XkbRuleNames → List Value
method_xkb_rule_names_gcmark names =
    marked names.rules
    ++ marked names.model
    ++ marked names.layout
    ++ marked names.variant
    ++ marked names.options

unfoldable pub get_xkb_rule_names_member : Janet → Value → Result (Option String)
get_xkb_rule_names_member J nil = ok none
get_xkb_rule_names_member J (string s) = bind (J.getcstring (string s)) (λ t. ok (some t))
get_xkb_rule_names_member J _ = panic "bad slot #%d: expected string or nil, got %v"

-- The member that a keyword names, as the function that writes it; the tests of the loop.
unfoldable pub rule_names_member : String → Result (Option String → XkbRuleNames → XkbRuleNames)
rule_names_member kw =
    if str_eq kw "rules"
    then ok (λ s names. record names { rules = s })
    else if str_eq kw "model"
    then ok (λ s names. record names { model = s })
    else if str_eq kw "layout"
    then ok (λ s names. record names { layout = s })
    else if str_eq kw "variant"
    then ok (λ s names. record names { variant = s })
    else if str_eq kw "options"
    then ok (λ s names. record names { options = s })
    else panic "unknown key: %v"

-- The loop, at the pairs that are left; a key with no value behind it would be a read past `argv`.
unfoldable pub rule_names_loop : Janet → List Value → XkbRuleNames → Result XkbRuleNames
unfolding rule_names_member get_xkb_rule_names_member
rule_names_loop J [] names = ok names
rule_names_loop J (k ∷ []) names = fault
rule_names_loop J (k ∷ v ∷ rest) names = bind (J.getkeyword k) (λ kw.
    bind (rule_names_member kw)
      (λ write. bind (get_xkb_rule_names_member J v) (λ s. rule_names_loop J rest (write s names))))

unfoldable pub cfun_xkb_rule_names : Janet → List Value → Result XkbRuleNames
cfun_xkb_rule_names J argv =
    bind (guard (bit_and (argc argv) 0x01 == 0) "expected even number of arguments, got %d")
      (λ _. rule_names_loop J argv empty_names)

-- The functions of xkbcommon that xkb.c calls, on a state of its own.
pub record Xkbcommon (S : Type 0) : Type 0 where
  pub first_word : S → ℕ → ℕ
  pub context_new : ℕ → S → ℕ × S
  pub context_unref : ℕ → S → S
  -- with the addresses of the context and of the rule names
  pub keymap_new_from_names : ℕ → ℕ → ℕ → S → ℕ × S
  pub keymap_unref : ℕ → S → S
  pub state_key_get_syms : S → ℕ → ℕ → List ℕ

unfoldable pub xkb_context_flags_rows : Headers → List (String × ℕ)
xkb_context_flags_rows H =
    ("no-flags", H.const "XKB_CONTEXT_NO_FLAGS")
    ∷ ("no-default-includes", H.const "XKB_CONTEXT_NO_DEFAULT_INCLUDES")
    ∷ ("no-environment-names", H.const "XKB_CONTEXT_NO_ENVIRONMENT_NAMES")
    ∷ []

unfoldable pub xkb_keymap_compile_flags_rows : Headers → List (String × ℕ)
xkb_keymap_compile_flags_rows H = ("no-flags", H.const "XKB_KEYMAP_COMPILE_NO_FLAGS") ∷ []

abbrev pub is_nil : Value → Bool
is_nil nil = true
is_nil _ = false

module _ {S : Type 0} (J : Janet) (H : Headers) (X : Xkbcommon S) where
  abbrev pub object_pointer : List Value → ℕ → String → Action S ℕ
  object_pointer argv n at s =
      (bind (arg argv n) (λ v. get_abs_obj_pointer J (X.first_word s) v at), s)

  abbrev pub call : (S → ℕ × S) → Action S ℕ
  call f s = (ok (f s).0, (f s).1)

  unfoldable pub cfun_xkb_context_new : List Value → Action S Value
  cfun_xkb_context_new argv = do
    lift (fixarity argv 1)
    flags_v ← lift (arg argv 0)
    flags ← lift (get_key_flags J flags_v (terminated (xkb_context_flags_rows H)))
    context ← call (X.context_new flags)
    if context == 0
        then lift (panic "failed to create xkb context")
        else give (pointer_to_abs_obj context "xkb/xkb-context")

  unfoldable pub cfun_xkb_context_unref : List Value → Action S Value
  cfun_xkb_context_unref argv = do
    lift (fixarity argv 1)
    context ← object_pointer argv 0 "xkb/xkb-context"
    change (X.context_unref context)
    give nil

  -- The address of the rule names, 0 for nil.
  unfoldable pub names_pointer : Value → Result ℕ
  names_pointer v = if is_nil v then ok 0 else bind (J.getabstract "xkb/xkb-rule-names" v) address

  unfoldable pub cfun_xkb_keymap_new_from_names : List Value → Action S Value
  unfolding names_pointer
  cfun_xkb_keymap_new_from_names argv = do
    lift (fixarity argv 3)
    context ← object_pointer argv 0 "xkb/xkb-context"
    names_v ← lift (arg argv 1)
    names ← lift (names_pointer names_v)
    flags_v ← lift (arg argv 2)
    flags ← lift (get_key_flags J flags_v (terminated (xkb_keymap_compile_flags_rows H)))
    keymap ← call (X.keymap_new_from_names context names flags)
    if keymap == 0
        then lift (panic "failed to create xkb keymap")
        else give (pointer_to_abs_obj keymap "xkb/xkb-keymap")

  unfoldable pub cfun_xkb_keymap_unref : List Value → Action S Value
  cfun_xkb_keymap_unref argv = do
    lift (fixarity argv 1)
    keymap ← object_pointer argv 0 "xkb/xkb-keymap"
    change (X.keymap_unref keymap)
    give nil

  -- The loop over the symbols.
  unfoldable pub wrap_syms : List ℕ → List Value
  wrap_syms [] = []
  wrap_syms (sym ∷ syms) = J.wrap_u64 sym ∷ wrap_syms syms

  unfoldable pub cfun_xkb_state_key_get_syms : List Value → Action S Value
  cfun_xkb_state_key_get_syms argv = do
    lift (fixarity argv 2)
    state ← object_pointer argv 0 "xkb/xkb-state"
    code_v ← lift (arg argv 1)
    code ← lift (J.getuinteger64 code_v)
    syms ← reading (λ s. X.state_key_get_syms s state (code % 2 ^ 32))
    give (array (from_list (wrap_syms syms)))
