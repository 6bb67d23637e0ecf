-- ===== src/Wlr/Safety/Shells.antt =====
-- The getters of wlr.c for XDG shells and surfaces that are safe on every key.
use janetland.Janet.{Janet, Value, IsSafe}
use janetland.Wlr.{Headers}
use janetland.Wlr.Safety.{safe}
use janetland.Wlr.Xdg.{
  WlrXdgShell, WlrXdgPopup, WlrXdgToplevel, WlrXdgToplevelResizeEvent, WlrXdgToplevelMoveEvent,
  method_wlr_xdg_shell_get, method_wlr_xdg_popup_get, method_wlr_xdg_toplevel_get,
  method_wlr_xdg_toplevel_resize_event_get, method_wlr_xdg_toplevel_move_event_get,
}
use janetland.Wlr.Surface.{
  WlrSurface, WlrSurfaceState, method_wlr_surface_get, method_wlr_surface_state_get,
}

-- One object of each type.
record ShellObjects : Type 0 where
  pub xdg_shell : WlrXdgShell
  pub xdg_popup : WlrXdgPopup
  pub xdg_toplevel : WlrXdgToplevel
  pub xdg_toplevel_resize_event : WlrXdgToplevelResizeEvent
  pub xdg_toplevel_move_event : WlrXdgToplevelMoveEvent
  pub surface : WlrSurface
  pub surface_state : WlrSurfaceState

module _ (J : Janet) (H : Headers) where
  pub xdg_shell_get-IsSafe :
      (s : WlrXdgShell) (key : Value) → IsSafe (method_wlr_xdg_shell_get J H s key)
  unfolding method_wlr_xdg_shell_get
  xdg_shell_get-IsSafe s key = search safe depth 40

  pub xdg_popup_get-IsSafe :
      (s : WlrXdgPopup) (key : Value) → IsSafe (method_wlr_xdg_popup_get J H s key)
  unfolding method_wlr_xdg_popup_get
  xdg_popup_get-IsSafe s key = search safe depth 40

  pub xdg_toplevel_get-IsSafe :
      (s : WlrXdgToplevel) (key : Value) → IsSafe (method_wlr_xdg_toplevel_get J H s key)
  unfolding method_wlr_xdg_toplevel_get
  xdg_toplevel_get-IsSafe s key = search safe depth 40

  pub xdg_toplevel_resize_event_get-IsSafe :
      (s : WlrXdgToplevelResizeEvent) (key : Value)
      → IsSafe (method_wlr_xdg_toplevel_resize_event_get J H s key)
  unfolding method_wlr_xdg_toplevel_resize_event_get
  xdg_toplevel_resize_event_get-IsSafe s key = search safe depth 40

  pub xdg_toplevel_move_event_get-IsSafe :
      (s : WlrXdgToplevelMoveEvent) (key : Value)
      → IsSafe (method_wlr_xdg_toplevel_move_event_get J H s key)
  unfolding method_wlr_xdg_toplevel_move_event_get
  xdg_toplevel_move_event_get-IsSafe s key = search safe depth 40

  pub surface_get-IsSafe :
      (s : WlrSurface) (key : Value) → IsSafe (method_wlr_surface_get J H s key)
  unfolding method_wlr_surface_get
  surface_get-IsSafe s key = search safe depth 40

  pub surface_state_get-IsSafe :
      (s : WlrSurfaceState) (key : Value) → IsSafe (method_wlr_surface_state_get J H s key)
  unfolding method_wlr_surface_state_get
  surface_state_get-IsSafe s key = search safe depth 40

  -- For every key, a keyword or not, these 7 getters end in a value, in "no such member" or in a
  -- panic: none reads past a table, names the NULL row of an enum's table or uses a missing text.
  shell_getters-IsSafe :
      (o : ShellObjects) (key : Value)
      → IsSafe (method_wlr_xdg_shell_get J H o.xdg_shell key)
        × IsSafe (method_wlr_xdg_popup_get J H o.xdg_popup key)
        × IsSafe (method_wlr_xdg_toplevel_get J H o.xdg_toplevel key)
        × IsSafe (method_wlr_xdg_toplevel_resize_event_get J H o.xdg_toplevel_resize_event key)
        × IsSafe (method_wlr_xdg_toplevel_move_event_get J H o.xdg_toplevel_move_event key)
        × IsSafe (method_wlr_surface_get J H o.surface key)
        × IsSafe (method_wlr_surface_state_get J H o.surface_state key)
  shell_getters-IsSafe o key = (
    xdg_shell_get-IsSafe o.xdg_shell key,
    xdg_popup_get-IsSafe o.xdg_popup key,
    xdg_toplevel_get-IsSafe o.xdg_toplevel key,
    xdg_toplevel_resize_event_get-IsSafe o.xdg_toplevel_resize_event key,
    xdg_toplevel_move_event_get-IsSafe o.xdg_toplevel_move_event key,
    surface_get-IsSafe o.surface key,
    surface_state_get-IsSafe o.surface_state key,
  )
