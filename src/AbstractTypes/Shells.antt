-- ===== src/AbstractTypes/Shells.antt =====
-- struct_put, one abstract type each.
use janetland.Prelude.{ℕ, none, some, List, [], ◌∷◌}
use janetland.Janet.{Janet}
use janetland.Headers.{Headers}
use janetland.AbstractTypes.{AbstractType}
use janetland.AbstractTypes.{AbstractType, struct_get, struct_put}
use janetland.Wlr.Address.{method_wlr_abs_obj_compare, method_wlr_abs_obj_tostring}
use janetland.Wlr.Surface.{
  WlrSurface, WlrSurfaceState, method_wlr_surface_get, method_wlr_surface_put,
  method_wlr_surface_state_get,
}
use janetland.Wlr.Xdg.{
  WlrXdgPopup, WlrXdgSurface, WlrXdgToplevel, WlrXdgToplevelMoveEvent, WlrXdgToplevelResizeEvent,
  method_wlr_xdg_popup_get, method_wlr_xdg_surface_get, method_wlr_xdg_surface_put,
  method_wlr_xdg_toplevel_get, method_wlr_xdg_toplevel_move_event_get,
  method_wlr_xdg_toplevel_resize_event_get,
}

module _ (J : Janet) (H : Headers) (first_word : ℕ → ℕ) where
  abbrev pub jwlr_at_wlr_surface : AbstractType
  jwlr_at_wlr_surface = record {
    name = "wlr/wlr-surface";
    Object = WlrSurface;
    gc = none;
    gcmark = none;
    get = some (struct_get (method_wlr_surface_get J H));
    put = some (struct_put (method_wlr_surface_put J first_word));
    tostring = some (method_wlr_abs_obj_tostring first_word);
    compare = some method_wlr_abs_obj_compare;
  }

  abbrev pub jwlr_at_wlr_surface_state : AbstractType
  jwlr_at_wlr_surface_state = record {
    name = "wlr/wlr-surface-state";
    Object = WlrSurfaceState;
    gc = none;
    gcmark = none;
    get = some (struct_get (method_wlr_surface_state_get J H));
    put = none;
    tostring = none;
    compare = none;
  }

  abbrev pub jwlr_at_wlr_xdg_popup : AbstractType
  jwlr_at_wlr_xdg_popup = record {
    name = "wlr/wlr-xdg-popup";
    Object = WlrXdgPopup;
    gc = none;
    gcmark = none;
    get = some (struct_get (method_wlr_xdg_popup_get J H));
    put = none;
    tostring = none;
    compare = none;
  }

  abbrev pub jwlr_at_wlr_xdg_toplevel : AbstractType
  jwlr_at_wlr_xdg_toplevel = record {
    name = "wlr/wlr-xdg-toplevel";
    Object = WlrXdgToplevel;
    gc = none;
    gcmark = none;
    get = some (struct_get (method_wlr_xdg_toplevel_get J H));
    put = none;
    tostring = none;
    compare = none;
  }

  abbrev pub jwlr_at_wlr_xdg_toplevel_resize_event : AbstractType
  jwlr_at_wlr_xdg_toplevel_resize_event = record {
    name = "wlr/wlr-xdg-toplevel-resize-event";
    Object = WlrXdgToplevelResizeEvent;
    gc = none;
    gcmark = none;
    get = some (struct_get (method_wlr_xdg_toplevel_resize_event_get J H));
    put = none;
    tostring = none;
    compare = none;
  }

  abbrev pub jwlr_at_wlr_xdg_toplevel_move_event : AbstractType
  jwlr_at_wlr_xdg_toplevel_move_event = record {
    name = "wlr/wlr-xdg-toplevel-move-event";
    Object = WlrXdgToplevelMoveEvent;
    gc = none;
    gcmark = none;
    get = some (struct_get (method_wlr_xdg_toplevel_move_event_get J H));
    put = none;
    tostring = none;
    compare = none;
  }

  abbrev pub jwlr_at_wlr_xdg_surface : AbstractType
  jwlr_at_wlr_xdg_surface = record {
    name = "wlr/wlr-xdg-surface";
    Object = WlrXdgSurface;
    gc = none;
    gcmark = none;
    get = some (struct_get (method_wlr_xdg_surface_get J H));
    put = some (struct_put (method_wlr_xdg_surface_put first_word));
    tostring = some (method_wlr_abs_obj_tostring first_word);
    compare = some method_wlr_abs_obj_compare;
  }

  abbrev pub shells_abstract_types : List AbstractType
  shells_abstract_types =
      jwlr_at_wlr_surface ∷ jwlr_at_wlr_surface_state ∷ jwlr_at_wlr_xdg_popup
      ∷ jwlr_at_wlr_xdg_toplevel ∷ jwlr_at_wlr_xdg_toplevel_resize_event
      ∷ jwlr_at_wlr_xdg_toplevel_move_event ∷ jwlr_at_wlr_xdg_surface ∷ []
