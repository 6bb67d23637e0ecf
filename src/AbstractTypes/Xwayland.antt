-- ===== src/AbstractTypes/Xwayland.antt =====
-- struct_get, one abstract type each.
use janetland.Prelude.{ℕ, none, some, List, [], ◌∷◌}
use janetland.Janet.{Janet}
use janetland.Headers.{Headers}
use janetland.AbstractTypes.{AbstractType}
use janetland.AbstractTypes.{AbstractType, struct_get, struct_put}
use janetland.Wlr.Address.{method_wlr_abs_obj_tostring}
use janetland.Wlr.Backend.{WlrLayerShellV1, method_wlr_layer_shell_v1_get}
use janetland.Wlr.Input.{WlrKeyboardKeyEvent, method_wlr_keyboard_key_event_get}
use janetland.Wlr.Keyboard.{WlrKeyboard, method_wlr_keyboard_get}
use janetland.Wlr.Xwayland.{
  WlrXwayland, WlrXwaylandMinimizeEvent, WlrXwaylandResizeEvent, WlrXwaylandSurfaceConfigureEvent,
  method_wlr_xwayland_get, method_wlr_xwayland_minimize_event_get,
  method_wlr_xwayland_resize_event_get, method_wlr_xwayland_surface_configure_event_get,
}
use janetland.Wlr.XwaylandSurface.{
  WlrXwaylandSurface, method_wlr_xwayland_surface_get, method_wlr_xwayland_surface_put,
}

module _ (J : Janet) (H : Headers) (first_word : ℕ → ℕ) where
  abbrev pub jwlr_at_wlr_keyboard_key_event : AbstractType
  jwlr_at_wlr_keyboard_key_event = record {
    name = "wlr/wlr-keyboard-key-event";
    Object = WlrKeyboardKeyEvent;
    gc = none;
    gcmark = none;
    get = some (struct_get (method_wlr_keyboard_key_event_get J H));
    put = none;
    tostring = none;
    compare = none;
  }

  abbrev pub jwlr_at_wlr_keyboard : AbstractType
  jwlr_at_wlr_keyboard = record {
    name = "wlr/wlr-keyboard";
    Object = WlrKeyboard;
    gc = none;
    gcmark = none;
    get = some (struct_get (method_wlr_keyboard_get J H));
    put = none;
    tostring = none;
    compare = none;
  }

  abbrev pub jwlr_at_wlr_xwayland : AbstractType
  jwlr_at_wlr_xwayland = record {
    name = "wlr/wlr-xwayland";
    Object = WlrXwayland;
    gc = none;
    gcmark = none;
    get = some (struct_get (method_wlr_xwayland_get J H));
    put = none;
    tostring = none;
    compare = none;
  }

  abbrev pub jwlr_at_wlr_xwayland_surface : AbstractType
  jwlr_at_wlr_xwayland_surface = record {
    name = "wlr/wlr-xwayland-surface";
    Object = WlrXwaylandSurface;
    gc = none;
    gcmark = none;
    get = some (struct_get (method_wlr_xwayland_surface_get J H));
    put = some (struct_put (method_wlr_xwayland_surface_put first_word));
    tostring = some (method_wlr_abs_obj_tostring first_word);
    compare = none;
  }

  abbrev pub jwlr_at_wlr_xwayland_resize_event : AbstractType
  jwlr_at_wlr_xwayland_resize_event = record {
    name = "wlr/wlr-xwayland-resize-event";
    Object = WlrXwaylandResizeEvent;
    gc = none;
    gcmark = none;
    get = some (struct_get (method_wlr_xwayland_resize_event_get J H));
    put = none;
    tostring = none;
    compare = none;
  }

  abbrev pub jwlr_at_wlr_xwayland_minimize_event : AbstractType
  jwlr_at_wlr_xwayland_minimize_event = record {
    name = "wlr/wlr-xwayland-minimize-event";
    Object = WlrXwaylandMinimizeEvent;
    gc = none;
    gcmark = none;
    get = some (struct_get (method_wlr_xwayland_minimize_event_get J H));
    put = none;
    tostring = none;
    compare = none;
  }

  abbrev pub jwlr_at_wlr_xwayland_surface_configure_event : AbstractType
  jwlr_at_wlr_xwayland_surface_configure_event = record {
    name = "wlr/wlr-xwayland-surface-configure-event";
    Object = WlrXwaylandSurfaceConfigureEvent;
    gc = none;
    gcmark = none;
    get = some (struct_get (method_wlr_xwayland_surface_configure_event_get J H));
    put = none;
    tostring = none;
    compare = none;
  }

  abbrev pub jwlr_at_wlr_layer_shell_v1 : AbstractType
  jwlr_at_wlr_layer_shell_v1 = record {
    name = "wlr/wlr-layer-shell-v1";
    Object = WlrLayerShellV1;
    gc = none;
    gcmark = none;
    get = some (struct_get (method_wlr_layer_shell_v1_get J H));
    put = none;
    tostring = none;
    compare = none;
  }

  abbrev pub xwayland_abstract_types : List AbstractType
  xwayland_abstract_types =
      jwlr_at_wlr_keyboard_key_event ∷ jwlr_at_wlr_keyboard ∷ jwlr_at_wlr_xwayland
      ∷ jwlr_at_wlr_xwayland_surface ∷ jwlr_at_wlr_xwayland_resize_event
      ∷ jwlr_at_wlr_xwayland_minimize_event ∷ jwlr_at_wlr_xwayland_surface_configure_event
      ∷ jwlr_at_wlr_layer_shell_v1 ∷ []
