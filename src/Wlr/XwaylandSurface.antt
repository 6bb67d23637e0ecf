-- ===== src/Wlr/XwaylandSurface.antt =====
-- The getter and setter of wlr.c for the surfaces of XWayland.
use janetland.Prelude.{ℕ, Bool, Option, List, String, str_eq, if◌then◌else◌}
use janetland.Prelude.Int.{ℤ, signed32}
use janetland.Janet.{Janet, Value, boolean, Result, ok, panic, ◌>>=◌}
use janetland.Jl.{value_to_data_pointer}
use janetland.Wlr.{
  Headers, Getter, found, missing, or_else, keyword_of, pointer_or_nil, object_or_nil, text_or_nil,
  object_by_name_or_nil, get_abstract_struct_signal_member,
}
use janetland.Wlr.SignalTables.{wlr_xwayland_surface_signal_offsets}
use janetland.Wlr.Arrays.{numbers_or_nil}

-- What `method_wlr_xwayland_surface_get` reads of a `struct wlr_xwayland_surface`; its `int16_t` and
-- `uint16_t` members are the integers that they convert to.
pub record WlrXwaylandSurface : Type 0 where
  pub addr : ℕ
  pub surface : ℕ
  pub x : ℤ
  pub y : ℤ
  pub width : ℤ
  pub height : ℤ
  pub override_redirect : Bool
  pub mapped : Bool
  pub title : Option String
  pub class : Option String
  pub instance : Option String
  pub role : Option String
  pub startup_id : Option String
  pub pid : ℤ
  pub parent : ℕ
  pub window_type : Option (List ℕ)
  pub window_type_len : ℕ
  pub protocols : Option (List ℕ)
  pub protocols_len : ℕ
  pub size_hints : ℕ
  pub modal : Bool
  pub fullscreen : Bool
  pub maximized_vert : Bool
  pub maximized_horz : Bool
  pub minimized : Bool
  pub has_alpha : Bool
  pub data_p : ℕ

unfoldable pub method_wlr_xwayland_surface_get :
    Janet → Headers → WlrXwaylandSurface → Value → Getter
method_wlr_xwayland_surface_get J H s key = do
  kw ← keyword_of key
  signal ← get_abstract_struct_signal_member J s.addr kw (wlr_xwayland_surface_signal_offsets H)
  or_else signal (
      if str_eq kw "surface"
      then found (object_or_nil s.surface "wlr/wlr-surface")
      else if str_eq kw "x"
      then found (J.wrap_integer s.x)
      else if str_eq kw "y"
      then found (J.wrap_integer s.y)
      else if str_eq kw "width"
      then found (J.wrap_integer s.width)
      else if str_eq kw "height"
      then found (J.wrap_integer s.height)
      else if str_eq kw "override-redirect"
      then found (boolean s.override_redirect)
      else if str_eq kw "mapped"
      then found (boolean s.mapped)
      else if str_eq kw "title"
      then found (text_or_nil s.title)
      else if str_eq kw "class"
      then found (text_or_nil s.class)
      else if str_eq kw "instance"
      then found (text_or_nil s.instance)
      else if str_eq kw "role"
      then found (text_or_nil s.role)
      else if str_eq kw "startup-id"
      then found (text_or_nil s.startup_id)
      else if str_eq kw "pid"
      then found (J.wrap_integer s.pid)
      else if str_eq kw "parent"
      then found (object_or_nil s.parent "wlr/wlr-xwayland-surface")
      else if str_eq kw "window-type"
      then numbers_or_nil J s.window_type_len s.window_type
      else if str_eq kw "window-type-len"
      then found (J.wrap_integer (signed32 s.window_type_len))
      else if str_eq kw "protocols"
      then numbers_or_nil J s.protocols_len s.protocols
      else if str_eq kw "protocols-len"
      then found (J.wrap_integer (signed32 s.protocols_len))
      else if str_eq kw "size-hints"
      then object_by_name_or_nil J s.size_hints "xkb/xkb-size-hints-t"
      else if str_eq kw "modal"
      then found (boolean s.modal)
      else if str_eq kw "fullscreen"
      then found (boolean s.fullscreen)
      else if str_eq kw "maximized-vert"
      then found (boolean s.maximized_vert)
      else if str_eq kw "maximized-horz"
      then found (boolean s.maximized_horz)
      else if str_eq kw "minimized"
      then found (boolean s.minimized)
      else if str_eq kw "has-alpha"
      then found (boolean s.has_alpha)
      else if str_eq kw "data"
      then found (pointer_or_nil s.data_p)
      else missing)

-- The struct after the call.
unfoldable pub method_wlr_xwayland_surface_put :
    (ℕ → ℕ) → WlrXwaylandSurface → Value → Value → Result WlrXwaylandSurface
unfolding value_to_data_pointer
method_wlr_xwayland_surface_put first_word s key value = do
  kw ← keyword_of key
  if str_eq kw "data"
      then (do data_p ← value_to_data_pointer first_word value; ok (record s { data_p = data_p }))
      else panic "unknown key: %v"
