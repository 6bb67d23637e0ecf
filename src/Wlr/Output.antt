-- ===== src/Wlr/Output.antt =====
-- The getters and the setter of wlr.c for outputs, their modes and their layout.
use janetland.Prelude.{ℕ, Bool, str_eq, if◌then◌else◌}
use janetland.Prelude.Int.{ℤ}
use janetland.Janet.{Janet, Value, ◌>>=◌, boolean, Result, ok, panic}
use janetland.KeyDefs.{terminated}
use janetland.Jl.{value_to_data_pointer}
use janetland.Wlr.{
  Headers, Getter, found, missing, or_else, keyword_of, pointer_or_nil, enum_keyword,
  get_abstract_struct_signal_member, get_abstract_struct_list_member,
}
use janetland.Wlr.Tables.{wlr_output_mode_aspect_ratio_rows}
use janetland.Wlr.SignalTables.{
  wlr_output_layout_list_offsets, wlr_output_layout_signal_offsets, wlr_output_list_offsets,
  wlr_output_signal_offsets,
}

-- What `method_wlr_output_layout_get` reads of a `struct wlr_output_layout`.
pub record WlrOutputLayout : Type 0 where
  pub addr : ℕ

unfoldable pub method_wlr_output_layout_get : Janet → Headers → WlrOutputLayout → Value → Getter
method_wlr_output_layout_get J H s key = do
  kw ← keyword_of key
  signal ← get_abstract_struct_signal_member J s.addr kw (wlr_output_layout_signal_offsets H)
  or_else signal (do
    list ← get_abstract_struct_list_member J s.addr kw (wlr_output_layout_list_offsets H)
    or_else list missing)

-- What `method_wlr_output_get` reads of a `struct wlr_output`.
pub record WlrOutput : Type 0 where
  pub addr : ℕ
  pub data_p : ℕ

unfoldable pub method_wlr_output_get : Janet → Headers → WlrOutput → Value → Getter
method_wlr_output_get J H s key = do
  kw ← keyword_of key
  signal ← get_abstract_struct_signal_member J s.addr kw (wlr_output_signal_offsets H)
  or_else signal (do
    list ← get_abstract_struct_list_member J s.addr kw (wlr_output_list_offsets H)
    or_else list (if str_eq kw "data" then found (pointer_or_nil s.data_p) else missing))

-- What `method_wlr_output_mode_get` reads of a `struct wlr_output_mode`.
pub record WlrOutputMode : Type 0 where
  pub addr : ℕ
  pub width : ℤ
  pub height : ℤ
  pub refresh : ℤ
  pub preferred : Bool
  pub picture_aspect_ratio : ℕ

unfoldable pub method_wlr_output_mode_get : Janet → Headers → WlrOutputMode → Value → Getter
method_wlr_output_mode_get J H s key = do
  kw ← keyword_of key
  if str_eq kw "width"
      then found (J.wrap_integer s.width)
      else if str_eq kw "height"
      then found (J.wrap_integer s.height)
      else if str_eq kw "refresh"
      then found (J.wrap_integer s.refresh)
      else if str_eq kw "preferred"
      then found (boolean s.preferred)
      else if str_eq kw "picture-aspect-ratio"
      then enum_keyword s.picture_aspect_ratio (terminated (wlr_output_mode_aspect_ratio_rows H))
          "unknown aspect ration from wlroots output mode: %d"
      else missing

unfoldable pub method_wlr_output_put : (ℕ → ℕ) → WlrOutput → Value → Value → Result WlrOutput
method_wlr_output_put first_word s key value = do
  kw ← keyword_of key
  if str_eq kw "data"
      then (do p ← value_to_data_pointer first_word value; ok (record s { data_p = p }))
      else panic "unknown key: %v"
