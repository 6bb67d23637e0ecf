-- ===== src/Wlr/Xwayland.antt =====
-- The getters of wlr.c for XWayland and the events of its surfaces.
use janetland.Prelude.{ℕ, Bool, Option, String, str_eq, if◌then◌else◌}
use janetland.Prelude.Int.{ℤ}
use janetland.Janet.{Janet, Value, ◌>>=◌, boolean}
use janetland.KeyDefs.{terminated}
use janetland.Wlr.{
  Headers, Getter, found, missing, or_else, keyword_of, pointer_or_nil, object_or_nil, text_or_nil,
  object_by_name_or_nil, found_flags, get_abstract_struct_signal_member,
}
use janetland.Wlr.Tables.{wlr_edges_rows}
use janetland.Wlr.SignalTables.{wlr_xwayland_signal_offsets}

-- What `method_wlr_xwayland_get` reads of a `struct wlr_xwayland`.
pub record WlrXwayland : Type 0 where
  pub addr : ℕ
  pub display_name : Option String
  pub wl_display : ℕ
  pub compositor : ℕ
  pub seat : ℕ
  pub data_p : ℕ

unfoldable pub method_wlr_xwayland_get : Janet → Headers → WlrXwayland → Value → Getter
method_wlr_xwayland_get J H s key = do
  kw ← keyword_of key
  signal ← get_abstract_struct_signal_member J s.addr kw (wlr_xwayland_signal_offsets H)
  or_else signal (
      if str_eq kw "display-name"
      then found (text_or_nil s.display_name)
      else if str_eq kw "wl-display"
      then object_by_name_or_nil J s.wl_display "wl/wl-display"
      else if str_eq kw "compositor"
      then found (object_or_nil s.compositor "wlr/wlr-compositor")
      else if str_eq kw "seat"
      then found (object_or_nil s.seat "wlr/wlr-seat")
      else if str_eq kw "data"
      then found (pointer_or_nil s.data_p)
      else missing)

-- What `method_wlr_xwayland_surface_configure_event_get` reads of a `struct wlr_xwayland_surface_configure_event`.
pub record WlrXwaylandSurfaceConfigureEvent : Type 0 where
  pub addr : ℕ
  pub surface : ℕ
  pub x : ℤ
  pub y : ℤ
  pub width : ℤ
  pub height : ℤ
  pub mask : ℤ

unfoldable pub method_wlr_xwayland_surface_configure_event_get :
    Janet → Headers → WlrXwaylandSurfaceConfigureEvent → Value → Getter
method_wlr_xwayland_surface_configure_event_get J H s key = do
  kw ← keyword_of key
  if str_eq kw "surface"
      then found (object_or_nil s.surface "wlr/wlr-xwayland-surface")
      else if str_eq kw "x"
      then found (J.wrap_integer s.x)
      else if str_eq kw "y"
      then found (J.wrap_integer s.y)
      else if str_eq kw "width"
      then found (J.wrap_integer s.width)
      else if str_eq kw "height"
      then found (J.wrap_integer s.height)
      else if str_eq kw "mask"
      then found (J.wrap_integer s.mask)
      else missing

-- What `method_wlr_xwayland_resize_event_get` reads of a `struct wlr_xwayland_resize_event`.
pub record WlrXwaylandResizeEvent : Type 0 where
  pub addr : ℕ
  pub surface : ℕ
  pub edges : ℕ

unfoldable pub method_wlr_xwayland_resize_event_get :
    Janet → Headers → WlrXwaylandResizeEvent → Value → Getter
method_wlr_xwayland_resize_event_get J H s key = do
  kw ← keyword_of key
  if str_eq kw "surface"
      then found (object_or_nil s.surface "wlr/wlr-xwayland-surface")
      else if str_eq kw "edges"
      then found_flags s.edges (terminated (wlr_edges_rows H))
      else missing

-- What `method_wlr_xwayland_minimize_event_get` reads of a `struct wlr_xwayland_minimize_event`.
pub record WlrXwaylandMinimizeEvent : Type 0 where
  pub addr : ℕ
  pub surface : ℕ
  pub minimize : Bool

unfoldable pub method_wlr_xwayland_minimize_event_get :
    Janet → Headers → WlrXwaylandMinimizeEvent → Value → Getter
method_wlr_xwayland_minimize_event_get J H s key = do
  kw ← keyword_of key
  if str_eq kw "surface"
      then found (object_or_nil s.surface "wlr/wlr-xwayland-surface")
      else if str_eq kw "minimize"
      then found (boolean s.minimize)
      else missing
