-- ===== src/Wlr/Xdg.antt =====
-- The getters and the setter of wlr.c for xdg surfaces, toplevels and popups.
use janetland.Prelude.{ℕ, str_eq, if◌then◌else◌}
use janetland.Prelude.Int.{signed32}
use janetland.Janet.{Janet, Value, ◌>>=◌, Result, ok, panic}
use janetland.KeyDefs.{terminated}
use janetland.Jl.{pointer_to_abs_obj, value_to_data_pointer}
use janetland.Wlr.{
  Headers, Getter, found, missing, or_else, keyword_of, pointer_or_nil, object_or_nil, enum_keyword,
  found_flags, get_abstract_struct_signal_member, get_abstract_struct_list_member,
}
use janetland.Wlr.Tables.{wlr_edges_rows, wlr_xdg_surface_role_rows}
use janetland.Wlr.SignalTables.{
  wlr_xdg_popup_signal_offsets, wlr_xdg_shell_signal_offsets, wlr_xdg_surface_list_offsets,
  wlr_xdg_surface_signal_offsets, wlr_xdg_toplevel_signal_offsets,
}

-- What `method_wlr_xdg_shell_get` reads of a `struct wlr_xdg_shell`.
pub record WlrXdgShell : Type 0 where
  pub addr : ℕ

unfoldable pub method_wlr_xdg_shell_get : Janet → Headers → WlrXdgShell → Value → Getter
method_wlr_xdg_shell_get J H s key = do
  kw ← keyword_of key
  signal ← get_abstract_struct_signal_member J s.addr kw (wlr_xdg_shell_signal_offsets H)
  or_else signal missing

-- What `method_wlr_xdg_popup_get` reads of a `struct wlr_xdg_popup`.
pub record WlrXdgPopup : Type 0 where
  pub addr : ℕ
  pub parent : ℕ

unfoldable pub method_wlr_xdg_popup_get : Janet → Headers → WlrXdgPopup → Value → Getter
method_wlr_xdg_popup_get J H s key = do
  kw ← keyword_of key
  signal ← get_abstract_struct_signal_member J s.addr kw (wlr_xdg_popup_signal_offsets H)
  or_else signal
      (if str_eq kw "parent" then found (object_or_nil s.parent "wlr/wlr-surface") else missing)

-- What `method_wlr_xdg_toplevel_get` reads of a `struct wlr_xdg_toplevel`.
pub record WlrXdgToplevel : Type 0 where
  pub addr : ℕ
  pub base : ℕ

unfoldable pub method_wlr_xdg_toplevel_get : Janet → Headers → WlrXdgToplevel → Value → Getter
method_wlr_xdg_toplevel_get J H s key = do
  kw ← keyword_of key
  signal ← get_abstract_struct_signal_member J s.addr kw (wlr_xdg_toplevel_signal_offsets H)
  or_else signal (
      if str_eq kw "base" then found (pointer_to_abs_obj s.base "wlr/wlr-xdg-surface") else missing)

-- What `method_wlr_xdg_toplevel_resize_event_get` reads of a `struct wlr_xdg_toplevel_resize_event`.
pub record WlrXdgToplevelResizeEvent : Type 0 where
  pub addr : ℕ
  pub toplevel : ℕ
  pub seat : ℕ
  pub serial : ℕ
  pub edges : ℕ

unfoldable pub method_wlr_xdg_toplevel_resize_event_get :
    Janet → Headers → WlrXdgToplevelResizeEvent → Value → Getter
method_wlr_xdg_toplevel_resize_event_get J H s key = do
  kw ← keyword_of key
  if str_eq kw "toplevel"
      then found (object_or_nil s.toplevel "wlr/wlr-xdg-toplevel")
      else if str_eq kw "seat"
      then found (object_or_nil s.seat "wlr/wlr-seat-client")
      else if str_eq kw "serial"
      then found (J.wrap_integer (signed32 s.serial))
      else if str_eq kw "edges"
      then found_flags s.edges (terminated (wlr_edges_rows H))
      else missing

-- What `method_wlr_xdg_toplevel_move_event_get` reads of a `struct wlr_xdg_toplevel_move_event`.
pub record WlrXdgToplevelMoveEvent : Type 0 where
  pub addr : ℕ
  pub toplevel : ℕ
  pub seat : ℕ
  pub serial : ℕ

unfoldable pub method_wlr_xdg_toplevel_move_event_get :
    Janet → Headers → WlrXdgToplevelMoveEvent → Value → Getter
method_wlr_xdg_toplevel_move_event_get J H s key = do
  kw ← keyword_of key
  if str_eq kw "toplevel"
      then found (object_or_nil s.toplevel "wlr/wlr-xdg-toplevel")
      else if str_eq kw "seat"
      then found (object_or_nil s.seat "wlr/wlr-seat-client")
      else if str_eq kw "serial"
      then found (J.wrap_integer (signed32 s.serial))
      else missing

-- What `method_wlr_xdg_surface_get` reads of a `struct wlr_xdg_surface`.
pub record WlrXdgSurface : Type 0 where
  pub addr : ℕ
  pub role : ℕ
  pub toplevel : ℕ
  pub popup : ℕ
  pub surface : ℕ
  pub data_p : ℕ

unfoldable pub method_wlr_xdg_surface_get : Janet → Headers → WlrXdgSurface → Value → Getter
method_wlr_xdg_surface_get J H s key = do
  kw ← keyword_of key
  signal ← get_abstract_struct_signal_member J s.addr kw (wlr_xdg_surface_signal_offsets H)
  or_else signal (do
    list ← get_abstract_struct_list_member J s.addr kw (wlr_xdg_surface_list_offsets H)
    or_else list (
        if str_eq kw "role"
        then enum_keyword s.role (terminated (wlr_xdg_surface_role_rows H))
            "unknown surface role: %d"
        else if str_eq kw "toplevel"
        then found (object_or_nil s.toplevel "wlr/wlr-xdg-toplevel")
        else if str_eq kw "popup"
        then found (object_or_nil s.popup "wlr/wlr-xdg-popup")
        else if str_eq kw "surface"
        then found (object_or_nil s.surface "wlr/wlr-surface")
        else if str_eq kw "data"
        then found (pointer_or_nil s.data_p)
        else missing))

unfoldable pub method_wlr_xdg_surface_put :
    (ℕ → ℕ) → WlrXdgSurface → Value → Value → Result WlrXdgSurface
method_wlr_xdg_surface_put first_word s key value = do
  kw ← keyword_of key
  if str_eq kw "data"
      then (do p ← value_to_data_pointer first_word value; ok (record s { data_p = p }))
      else panic "unknown key: %v"
