-- ===== src/Wlr/Input.antt =====
-- The getters of wlr.c for input devices, pointers and keyboards.
use janetland.Prelude.{ℕ, some, none, Bool, Option, String, str_eq, if◌then◌else◌}
use janetland.Prelude.Int.{signed32}
use janetland.Janet.{Janet, Value, ◌>>=◌, boolean}
use janetland.KeyDefs.{terminated}
use janetland.Jl.{pointer_to_abs_obj}
use janetland.Wlr.{
  Headers, Getter, found, missing, or_else, keyword_of, pointer_or_nil, text_or_nil, found_text,
  found_name, enum_keyword, found_flags, get_abstract_struct_signal_member,
}
use janetland.Wlr.Tables.{
  wl_keyboard_key_state_rows, wlr_input_device_rows, wlr_keyboard_modifier_rows,
}
use janetland.Wlr.SignalTables.{wlr_input_device_signal_offsets, wlr_pointer_signal_offsets}

-- What `method_wlr_input_device_get` reads of a `struct wlr_input_device`.
pub record WlrInputDevice : Type 0 where
  pub addr : ℕ
  pub type : ℕ
  pub vendor : ℕ
  pub product : ℕ
  pub name : Option String
  pub data_p : ℕ

unfoldable pub method_wlr_input_device_get : Janet → Headers → WlrInputDevice → Value → Getter
method_wlr_input_device_get J H s key = do
  kw ← keyword_of key
  signal ← get_abstract_struct_signal_member J s.addr kw (wlr_input_device_signal_offsets H)
  or_else signal (
      if str_eq kw "type"
      then enum_keyword s.type (terminated (wlr_input_device_rows H))
          "unknown device type from wlroots input device: %d"
      else if str_eq kw "vendor"
      then found (J.wrap_integer (signed32 s.vendor))
      else if str_eq kw "product"
      then found (J.wrap_integer (signed32 s.product))
      else if str_eq kw "name"
      then found (text_or_nil s.name)
      else if str_eq kw "data"
      then found (pointer_or_nil s.data_p)
      else missing)

-- What `method_wlr_pointer_get` reads of a `struct wlr_pointer`.
pub record WlrPointer : Type 0 where
  pub addr : ℕ
  pub at_base : ℕ
  pub output_name : Option String
  pub data_p : ℕ

unfoldable pub method_wlr_pointer_get : Janet → Headers → WlrPointer → Value → Getter
method_wlr_pointer_get J H s key = do
  kw ← keyword_of key
  signal ← get_abstract_struct_signal_member J s.addr kw (wlr_pointer_signal_offsets H)
  or_else signal (
      if str_eq kw "base"
      then found (pointer_to_abs_obj s.at_base "wlr/wlr-input-device")
      else if str_eq kw "output-name"
      then found_text s.output_name
      else if str_eq kw "data"
      then found (pointer_or_nil s.data_p)
      else missing)

-- What `method_wlr_keyboard_key_event_get` reads of a `struct wlr_keyboard_key_event`.
pub record WlrKeyboardKeyEvent : Type 0 where
  pub addr : ℕ
  pub time_msec : ℕ
  pub keycode : ℕ
  pub update_state : Bool
  pub state : ℕ

unfoldable pub method_wlr_keyboard_key_event_get :
    Janet → Headers → WlrKeyboardKeyEvent → Value → Getter
method_wlr_keyboard_key_event_get J H s key = do
  kw ← keyword_of key
  if str_eq kw "time-msec"
      then found (J.wrap_u64 s.time_msec)
      else if str_eq kw "keycode"
      then found (J.wrap_u64 s.keycode)
      else if str_eq kw "update-state"
      then found (boolean s.update_state)
      else if str_eq kw "state"
      then found_name (terminated (wl_keyboard_key_state_rows H)) s.state
      else missing

-- What `method_wlr_keyboard_modifiers_get` reads of a `struct wlr_keyboard_modifiers`.
pub record WlrKeyboardModifiers : Type 0 where
  pub depressed : ℕ
  pub latched : ℕ
  pub locked : ℕ
  pub group : ℕ

-- The chain that picks `member_p`; `none` is its `return 0`.
unfoldable pub modifiers_member : WlrKeyboardModifiers → String → Option ℕ
modifiers_member s kw =
    if str_eq kw "depressed"
    then some s.depressed
    else if str_eq kw "latched"
    then some s.latched
    else if str_eq kw "locked"
    then some s.locked
    else if str_eq kw "group"
    then some s.group
    else none

unfoldable pub method_wlr_keyboard_modifiers_get :
    Janet → Headers → WlrKeyboardModifiers → Value → Getter
unfolding modifiers_member
method_wlr_keyboard_modifiers_get J H s key = do
  kw ← keyword_of key
  elim (modifiers_member s kw) [
    | none ↦ missing
    | some flags ↦ found_flags flags (terminated (wlr_keyboard_modifier_rows H))
  ]
