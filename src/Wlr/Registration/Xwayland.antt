-- ===== src/Wlr/Registration/Xwayland.antt =====
-- wlr.c: the rows of the registration table for Xwayland and the layer shell.
use janetland.Prelude.{List, [], ◌∷◌}
use janetland.Janet.{Janet}
use janetland.Headers.{Headers}
use janetland.Wlr.Calls.{Wlroots}
use janetland.Wlr.Calls.Xwayland.{
  cfun_wlr_xwayland_create, cfun_wlr_xwayland_destroy, cfun_wlr_xwayland_set_seat,
  cfun_wlr_xwayland_set_cursor, cfun_wlr_xwayland_or_surface_wants_focus,
  cfun_wlr_xwayland_surface_configure, cfun_wlr_xwayland_surface_activate,
  cfun_wlr_xwayland_surface_set_maximized, cfun_wlr_xwayland_surface_set_minimized,
  cfun_wlr_xwayland_surface_set_fullscreen, cfun_wlr_xwayland_surface_close,
  cfun_wlr_xwayland_surface_restack, cfun_wlr_xwayland_surface_from_wlr_surface,
}
use janetland.Wlr.Calls.Setup.{cfun_wlr_layer_shell_v1_create}
use janetland.Wlr.Registration.{JanetReg}

module _ {S : Type 0} (H : Headers) (J : Janet) (L : Wlroots S) where
  abbrev pub xwayland_cfuns : List (JanetReg S)
  xwayland_cfuns =
      record {
        name = "wlr-xwayland-create";
        cfun = cfun_wlr_xwayland_create H J L;
        documentation =
            "(wlr/wlr-xwayland-create wl-display wlr-compositor lazy)\n\nCreates an XWayland server and XWM.";
      }
      ∷ record {
        name = "wlr-xwayland-destroy";
        cfun = cfun_wlr_xwayland_destroy H J L;
        documentation = "(wlr/wlr-xwayland-destroy wlr-xwayland)\n\nDestroys the XWayland server.";
      }
      ∷ record {
        name = "wlr-xwayland-set-seat";
        cfun = cfun_wlr_xwayland_set_seat H J L;
        documentation =
            "(wlr/wlr-xwayland-set-seat wlr-xwayland wlr-seat)\n\nLets the XWayland object know about the seat.";
      }
      ∷ record {
        name = "wlr-xwayland-set-cursor";
        cfun = cfun_wlr_xwayland_set_cursor H J L;
        documentation =
            "(wlr/wlr-xwayland-set-cursor wlr-xwayland pixels stride width height hotspot-x hotspot-y)\n\nSets the cursor image for XWayland.";
      }
      ∷ record {
        name = "wlr-xwayland-or-surface-wants-focus";
        cfun = cfun_wlr_xwayland_or_surface_wants_focus H J L;
        documentation =
            "(wlr/wlr-xwayland-or-surface-wants-focus wlr-xwayland-surface)\n\nSets the cursor image for XWayland.";
      }
      ∷ record {
        name = "wlr-xwayland-surface-configure";
        cfun = cfun_wlr_xwayland_surface_configure H J L;
        documentation =
            "(wlr/wlr-xwayland-surface-configure wlr-xwayland-surface x y width height)\n\nConfigures an XWayland surface with the given geometry.";
      }
      ∷ []

  abbrev pub xwayland_surface_cfuns : List (JanetReg S)
  xwayland_surface_cfuns =
      record {
        name = "wlr-xwayland-surface-activate";
        cfun = cfun_wlr_xwayland_surface_activate H J L;
        documentation =
            "(wlr/wlr-xwayland-surface-activate wlr-xwayland-surface activated)\n\nActivates an XWayland surface.";
      }
      ∷ record {
        name = "wlr-xwayland-surface-set-maximized";
        cfun = cfun_wlr_xwayland_surface_set_maximized H J L;
        documentation =
            "(wlr/wlr-xwayland-surface-set-maximized wlr-xwayland-surface maximized)\n\nSets the XWayland surface in a maximized state.";
      }
      ∷ record {
        name = "wlr-xwayland-surface-set-minimized";
        cfun = cfun_wlr_xwayland_surface_set_minimized H J L;
        documentation =
            "(wlr/wlr-xwayland-surface-set-minimized wlr-xwayland-surface minimized)\n\nSets the XWayland surface in a minimized state.";
      }
      ∷ record {
        name = "wlr-xwayland-surface-set-fullscreen";
        cfun = cfun_wlr_xwayland_surface_set_fullscreen H J L;
        documentation =
            "(wlr/wlr-xwayland-surface-set-fullscreen wlr-xwayland-surface fullscreen)\n\nSets the XWayland surface in a fullscreen state.";
      }
      ∷ record {
        name = "wlr-xwayland-surface-close";
        cfun = cfun_wlr_xwayland_surface_close H J L;
        documentation =
            "(wlr/wlr-xwayland-surface-close wlr-xwayland-surface)\n\nCloses an XWayland surface.";
      }
      ∷ record {
        name = "wlr-xwayland-surface-restack";
        cfun = cfun_wlr_xwayland_surface_restack H J L;
        documentation =
            "(wlr/wlr-xwayland-surface-restack wlr-xwayland-surface sibling mode)\n\nRestacks surface relative to sibling.";
      }
      ∷ record {
        name = "wlr-xwayland-surface-from-wlr-surface";
        cfun = cfun_wlr_xwayland_surface_from_wlr_surface H J L;
        documentation =
            "(wlr/wlr-xwayland-surface-from-wlr-surface wlr-surface)\n\nRetrieves the associated XWayland surface from a wlroots surface.";
      }
      ∷ record {
        name = "wlr-layer-shell-v1-create";
        cfun = cfun_wlr_layer_shell_v1_create H J L;
        documentation = "(wlr/wlr-layer-shell-v1-create wlr-display)\n\nCreates a layer shell.";
      }
      ∷ []
