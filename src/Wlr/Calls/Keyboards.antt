-- ===== src/Wlr/Calls/Keyboards.antt =====
-- wlr.c: the functions for keyboards.
use janetland.Prelude.{List, [], ◌∷◌}
use janetland.Janet.{Janet, Value, nil}
use janetland.Headers.{Headers}
use janetland.KeyDefs.{terminated}
use janetland.Action.{Action}
use janetland.Wlr.Tables.{wlr_keyboard_modifier_rows}
use janetland.Wlr.Calls.{
  Wlroots, ◌>>=◌, ◌>>◌, give, fixarity, call, int, integer_arg, object_or_panic, pointer_arg,
  pointer_by_name_arg, ptr, pure, wrap_boolean,
}
use janetland.Janet.{array, from_list}
use janetland.KeyDefs.{get_flag_keys}

module _ {S : Type 0} (H : Headers) (J : Janet) (L : Wlroots S) where
  unfoldable pub cfun_wlr_keyboard_from_input_device : List Value → Action S Value
  cfun_wlr_keyboard_from_input_device argv = do
    fixarity argv 1
    device ← pointer_arg J L argv 0 "wlr/wlr-input-device"
    keyboard ← call L "wlr_keyboard_from_input_device" (ptr device ∷ [])
    object_or_panic keyboard.value "wlr/wlr-keyboard"
        "failed to get keyboard object from input device"

  unfoldable pub cfun_wlr_keyboard_set_keymap : List Value → Action S Value
  cfun_wlr_keyboard_set_keymap argv = do
    fixarity argv 2
    keyboard ← pointer_arg J L argv 0 "wlr/wlr-keyboard"
    keymap ← pointer_by_name_arg J L argv 1 "xkb/xkb-keymap"
    ret ← call L "wlr_keyboard_set_keymap" (ptr keyboard ∷ ptr keymap ∷ [])
    give (wrap_boolean ret.value)

  unfoldable pub cfun_wlr_keyboard_set_repeat_info : List Value → Action S Value
  cfun_wlr_keyboard_set_repeat_info argv = do
    fixarity argv 3
    keyboard ← pointer_arg J L argv 0 "wlr/wlr-keyboard"
    rate ← integer_arg J argv 1
    delay ← integer_arg J argv 2
    done ← call L "wlr_keyboard_set_repeat_info" (ptr keyboard ∷ int rate ∷ int delay ∷ [])
    give nil

  unfoldable pub cfun_wlr_keyboard_get_modifiers : List Value → Action S Value
  cfun_wlr_keyboard_get_modifiers argv = do
    fixarity argv 1
    keyboard ← pointer_arg J L argv 0 "wlr/wlr-keyboard"
    modifiers ← call L "wlr_keyboard_get_modifiers" (ptr keyboard ∷ [])
    keys ← pure (get_flag_keys modifiers.value (terminated (wlr_keyboard_modifier_rows H)))
    give (array (from_list keys))
