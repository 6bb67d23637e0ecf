-- ===== src/Wlr/Cursor.antt =====
-- The getter of wlr.c for cursors.
use janetland.Prelude.{ℕ, str_eq, if◌then◌else◌}
use janetland.Janet.{Janet, Value, ◌>>=◌, number}
use janetland.Wlr.{
  Headers, Getter, found, missing, or_else, keyword_of, pointer_or_nil,
  get_abstract_struct_signal_member,
}
use janetland.Wlr.SignalTables.{wlr_cursor_signal_offsets}

-- What `method_wlr_cursor_get` reads of a `struct wlr_cursor`.
pub record WlrCursor : Type 0 where
  pub addr : ℕ
  pub x : ℕ
  pub y : ℕ
  pub data_p : ℕ

unfoldable pub method_wlr_cursor_get : Janet → Headers → WlrCursor → Value → Getter
method_wlr_cursor_get J H s key = do
  kw ← keyword_of key
  signal ← get_abstract_struct_signal_member J s.addr kw (wlr_cursor_signal_offsets H)
  or_else signal (
      if str_eq kw "x"
      then found (number s.x)
      else if str_eq kw "y"
      then found (number s.y)
      else if str_eq kw "data"
      then found (pointer_or_nil s.data_p)
      else missing)
