-- ===== src/Examples/Arguments.antt =====
-- Argument lists, members and pointers at concrete values.
use janetland.Prelude.{
  String, ℕ, ◌≡◌, ◌≢◌, ◌<◌, ◌+◌, ◌^◌, ◌↔◌, refl, none, some, List, [], ◌∷◌, arith, All,
}
use janetland.Prelude.Int.{ℤ, pos, IsInt32}
use janetland.Janet.{
  Value, nil, number, string, symbol, keyword, pointer, array, abstract, wraps, from_list, to_list,
  ok, IsPanic, IsSafe,
}
use janetland.Jl.{pointer_to_abs_obj, get_abs_obj_pointer, value_to_data_pointer}
use janetland.Jl.Pointers.{
  get_abs_obj_pointer-pointer_to_abs_obj, value_to_data_pointer-abstract, OurName,
}
use janetland.Util.{cfun_get_abstract_listener_data, cfun_pointer_to_abstract_object}
use janetland.Util.Data.{get_abs_obj_pointer-listener_data}
use janetland.Wlr.{found}
use janetland.Wlr.Surface.{WlrSurface, method_wlr_surface_get, method_wlr_surface_put}
use janetland.Wlr.UserData.{surface_put-surface_get}
use janetland.Wlr.Address.{addr_description, read_description, read_description-addr_description}
use janetland.Wlr.Box.{empty_box, method_box_get, method_box_put, cfun_box}
use janetland.Wlr.Box.Members.{box_put-box_get}
use janetland.Wlr.Box.Construct.{cfun_box-box_of, cfun_box-IsSafe}
use janetland.Xkb.{Xkbcommon, cfun_xkb_rule_names, cfun_xkb_state_key_get_syms}
use janetland.Xkb.RuleNames.{cfun_xkb_rule_names-names_of}
use janetland.Xkb.Symbols.{read_syms, read_syms-key_get_syms}
use janetland.Examples.{janet, headers}

-- The hypotheses of the examples.
not_null : ◌≢◌ {A = ℕ} 64 0
not_null e = omega (arith, e)

small :
    All {A = String × ℤ}
      (λ p. IsInt32 p.1)
      (("x", pos 3) ∷ ("depth", pos 9) ∷ ("width", pos 5) ∷ ("x", pos 4) ∷ [])
small = (omega arith, (omega arith, (omega arith, (omega arith, tt))))

code_fits : 2 ^ 32 + 24 < 2 ^ 64
code_fits = omega arith

syms_fit : All (λ sym. sym < 2 ^ 32) (24 ∷ 25 ∷ [])
syms_fit = (omega arith, (omega arith, tt))

get_abs_obj_pointer-pointer_to_abs_obj_example :
    (get_abs_obj_pointer janet (λ p. 0) (pointer_to_abs_obj 64 "wl/wl-list") "wl/wl-list" ≡ ok 64)
    × IsPanic
        (get_abs_obj_pointer janet (λ p. 0) (pointer_to_abs_obj 64 "wl/wl-list") "wl/wl-signal")
get_abs_obj_pointer-pointer_to_abs_obj_example =
    get_abs_obj_pointer-pointer_to_abs_obj janet (λ p. 0) 64 "wl/wl-list" "wl/wl-signal" refl

value_to_data_pointer-abstract_example :
    ((value_to_data_pointer (λ p. 0) (abstract "wlr/wlr-output" (wraps 64)) ≡ ok 64)
      ↔ OurName "wlr/wlr-output")
    × (IsPanic (value_to_data_pointer (λ p. 0) (abstract "wlr/wlr-output" (wraps 64)))
        ↔ (¬ OurName "wlr/wlr-output"))
value_to_data_pointer-abstract_example =
    value_to_data_pointer-abstract (λ p. 0) "wlr/wlr-output" (wraps 64)

get_abs_obj_pointer-listener_data_example :
    (v : Value) × (cfun_get_abstract_listener_data janet (pointer 64 ∷ symbol "wlr/wlr-output" ∷ [])
      ≡ ok v)
    × (cfun_pointer_to_abstract_object janet (pointer 64 ∷ symbol "wlr/wlr-output" ∷ []) ≡ ok v)
    × (get_abs_obj_pointer janet (λ p. 0) v "wlr/wlr-output" ≡ ok 64)
get_abs_obj_pointer-listener_data_example =
    get_abs_obj_pointer-listener_data janet (λ p. 0) 64 "wlr/wlr-output" not_null refl

abbrev surface : WlrSurface
surface = record { addr = 1; renderer = 1; sx = pos 1; sy = pos 1; at_current = 1; data_p = 1 }

data_pointer : value_to_data_pointer (λ p. 0) (pointer 64) ≡ ok 64
unfolding value_to_data_pointer
data_pointer = refl

surface_put-surface_get_example :
    (t : WlrSurface) × (method_wlr_surface_put janet (λ p. 0) surface (keyword "data") (pointer 64)
      ≡ ok t)
    × (method_wlr_surface_get janet headers t (keyword "data") ≡ found (pointer 64))
    × (method_wlr_surface_get janet headers t (keyword "mapped")
        ≡ method_wlr_surface_get janet headers surface (keyword "mapped"))
surface_put-surface_get_example =
    surface_put-surface_get janet headers (λ p. 0) surface (pointer 64) 64 "mapped" data_pointer
      refl

read_description-addr_description_example : read_description (addr_description [] 0xbeef) ≡ 0xbeef
read_description-addr_description_example = read_description-addr_description 0xbeef

cfun_box-box_of_example :
    cfun_box janet (
      keyword "x"
      ∷ number 3
      ∷ keyword "depth"
      ∷ number 9
      ∷ keyword "width"
      ∷ number 5
      ∷ keyword "x"
      ∷ number 4
      ∷ [])
    ≡ ok (record { x = pos 4; y = pos 0; width = pos 5; height = pos 0 })
cfun_box-box_of_example =
    cfun_box-box_of janet (("x", pos 3) ∷ ("depth", pos 9) ∷ ("width", pos 5) ∷ ("x", pos 4) ∷ [])
      small

cfun_box-IsSafe_example : IsSafe (cfun_box janet (keyword "x" ∷ []))
cfun_box-IsSafe_example = cfun_box-IsSafe janet (keyword "x" ∷ [])

box_put-box_get_example :
    (method_box_put janet empty_box (keyword "y") (number 7)
      ≡ ok (record { x = pos 0; y = pos 7; width = pos 0; height = pos 0 }))
    × (method_box_get janet
          (record { x = pos 0; y = pos 7; width = pos 0; height = pos 0 })
          (keyword "y")
        ≡ found (number 7))
    × (method_box_get janet
          (record { x = pos 0; y = pos 7; width = pos 0; height = pos 0 })
          (keyword "x")
        ≡ method_box_get janet empty_box (keyword "x"))
box_put-box_get_example = box_put-box_get janet empty_box "y" "x" (number 7) (pos 7) refl refl refl

cfun_xkb_rule_names-names_of_example :
    cfun_xkb_rule_names janet (keyword "layout" ∷ string "us" ∷ keyword "model" ∷ nil ∷ [])
    ≡ ok (record { rules = none; model = none; layout = some "us"; variant = none; options = none })
cfun_xkb_rule_names-names_of_example =
    cfun_xkb_rule_names-names_of janet (("layout", some "us") ∷ ("model", none) ∷ [])
      ((refl, refl), ((refl, tt), tt))

-- An xkbcommon whose every key has the code and its successor as symbols.
abbrev xkbcommon : Xkbcommon ℕ
xkbcommon = record {
  first_word = λ s p. 0;
  context_new = λ flags s. (64, s);
  context_unref = λ p s. s;
  keymap_new_from_names = λ context names flags s. (64, s);
  keymap_unref = λ p s. s;
  state_key_get_syms = λ s state code. code ∷ (code + 1) ∷ [];
}

read_syms-key_get_syms_example :
    (vs : List Value) × (cfun_xkb_state_key_get_syms janet headers xkbcommon
        (abstract "xkb/xkb-state" (wraps 64) ∷ abstract "core/u64" (wraps (2 ^ 32 + 24)) ∷ [])
        0
      ≡ (ok (array (from_list vs)), 0))
    × (read_syms janet (to_list (from_list vs)) ≡ ok (24 ∷ 25 ∷ []))
read_syms-key_get_syms_example =
    read_syms-key_get_syms janet headers xkbcommon 0 64 (2 ^ 32 + 24) code_fits syms_fit
