-- ===== src/Wlr/Keyboard.antt =====
-- The getter of wlr.c for keyboards.
use janetland.Prelude.{ℕ, ◌%◌, ◌^◌, ltb, Option, none, some, List, str_eq, if◌then◌else◌}
use janetland.Janet.{Janet, Value, nil, buffer, fault, ◌>>=◌}
use janetland.Jl.{pointer_to_abs_obj}
use janetland.Wlr.{
  Headers, Getter, found, missing, or_else, keyword_of, pointer_or_nil, found_by_name,
  get_abstract_struct_signal_member,
}
use janetland.Wlr.SignalTables.{wlr_keyboard_signal_offsets}
use janetland.Wlr.Arrays.{numbers_or_nil}
use janetland.Wlr.Xcursor.{pushed}

-- What `method_wlr_keyboard_get` reads of a `struct wlr_keyboard`; `keymap_string` are the bytes that it points
-- to, and `keycodes` the words of the array in the struct.
pub record WlrKeyboard : Type 0 where
  pub addr : ℕ
  pub at_base : ℕ
  pub keymap_string : Option (List ℕ)
  pub keymap_size : ℕ
  pub xkb_state : ℕ
  pub keycodes : List ℕ
  pub num_keycodes : ℕ
  pub at_modifiers : ℕ
  pub data_p : ℕ

-- The size becomes an `int32_t`, and one that is negative then is copied from as a huge `size_t`.
unfoldable pub keymap_buffer : ℕ → Option (List ℕ) → Getter
keymap_buffer size none = found nil
keymap_buffer size (some bytes) =
    let n = size % 2 ^ 32 in
    if ltb n (2 ^ 31) then (do text ← pushed n bytes; found (buffer text)) else fault

unfoldable pub method_wlr_keyboard_get : Janet → Headers → WlrKeyboard → Value → Getter
unfolding pointer_to_abs_obj keymap_buffer
method_wlr_keyboard_get J H s key = do
  kw ← keyword_of key
  signal ← get_abstract_struct_signal_member J s.addr kw (wlr_keyboard_signal_offsets H)
  or_else signal (
      if str_eq kw "base"
      then found (pointer_to_abs_obj s.at_base "wlr/wlr-input-device")
      else if str_eq kw "keymap-string"
      then keymap_buffer s.keymap_size s.keymap_string
      else if str_eq kw "xkb-state"
      then found_by_name J s.xkb_state "xkb/xkb-state"
      else if str_eq kw "keycodes"
      then numbers_or_nil J s.num_keycodes (some s.keycodes)
      else if str_eq kw "modifiers"
      then found (pointer_to_abs_obj s.at_modifiers "wlr/wlr-keyboard-modifiers")
      else if str_eq kw "data"
      then found (pointer_or_nil s.data_p)
      else missing)
