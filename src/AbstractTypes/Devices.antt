-- ===== src/AbstractTypes/Devices.antt =====
-- struct_get, one abstract type each.
use janetland.Prelude.{ℕ, none, some, List, [], ◌∷◌}
use janetland.Janet.{Janet}
use janetland.Headers.{Headers}
use janetland.AbstractTypes.{AbstractType}
use janetland.AbstractTypes.{AbstractType, struct_get, struct_put}
use janetland.Wlr.Address.{method_wlr_abs_obj_compare, method_wlr_abs_obj_tostring}
use janetland.Wlr.Input.{
  WlrInputDevice, WlrPointer, method_wlr_input_device_get, method_wlr_pointer_get,
}
use janetland.Wlr.PointerEvents.{
  WlrPointerButtonEvent, WlrPointerMotionAbsoluteEvent, WlrPointerMotionEvent,
  method_wlr_pointer_button_event_get, method_wlr_pointer_motion_absolute_event_get,
  method_wlr_pointer_motion_event_get,
}
use janetland.Wlr.Scene.{
  WlrSceneNode, WlrSceneSurface, WlrSceneTree, method_wlr_scene_node_get, method_wlr_scene_node_put,
  method_wlr_scene_surface_get, method_wlr_scene_tree_get,
}

module _ (J : Janet) (H : Headers) (first_word : ℕ → ℕ) where
  abbrev pub jwlr_at_wlr_scene_tree : AbstractType
  jwlr_at_wlr_scene_tree = record {
    name = "wlr/wlr-scene-tree";
    Object = WlrSceneTree;
    gc = none;
    gcmark = none;
    get = some (struct_get (method_wlr_scene_tree_get J H));
    put = none;
    tostring = none;
    compare = none;
  }

  abbrev pub jwlr_at_wlr_scene_node : AbstractType
  jwlr_at_wlr_scene_node = record {
    name = "wlr/wlr-scene-node";
    Object = WlrSceneNode;
    gc = none;
    gcmark = none;
    get = some (struct_get (method_wlr_scene_node_get J H));
    put = some (struct_put (method_wlr_scene_node_put first_word));
    tostring = some (method_wlr_abs_obj_tostring first_word);
    compare = none;
  }

  abbrev pub jwlr_at_wlr_scene_buffer : AbstractType
  jwlr_at_wlr_scene_buffer = record {
    name = "wlr/wlr-scene-buffer";
    Object = ℕ;
    gc = none;
    gcmark = none;
    get = none;
    put = none;
    tostring = none;
    compare = none;
  }

  abbrev pub jwlr_at_wlr_scene_surface : AbstractType
  jwlr_at_wlr_scene_surface = record {
    name = "wlr/wlr-scene-surface";
    Object = WlrSceneSurface;
    gc = none;
    gcmark = none;
    get = some (struct_get (method_wlr_scene_surface_get J H));
    put = none;
    tostring = none;
    compare = none;
  }

  abbrev pub jwlr_at_wlr_input_device : AbstractType
  jwlr_at_wlr_input_device = record {
    name = "wlr/wlr-input-device";
    Object = WlrInputDevice;
    gc = none;
    gcmark = none;
    get = some (struct_get (method_wlr_input_device_get J H));
    put = none;
    tostring = some (method_wlr_abs_obj_tostring first_word);
    compare = some method_wlr_abs_obj_compare;
  }

  abbrev pub jwlr_at_wlr_pointer : AbstractType
  jwlr_at_wlr_pointer = record {
    name = "wlr/wlr-pointer";
    Object = WlrPointer;
    gc = none;
    gcmark = none;
    get = some (struct_get (method_wlr_pointer_get J H));
    put = none;
    tostring = none;
    compare = none;
  }

  abbrev pub jwlr_at_wlr_pointer_motion_event : AbstractType
  jwlr_at_wlr_pointer_motion_event = record {
    name = "wlr/wlr-pointer-motion-event";
    Object = WlrPointerMotionEvent;
    gc = none;
    gcmark = none;
    get = some (struct_get (method_wlr_pointer_motion_event_get J H));
    put = none;
    tostring = none;
    compare = none;
  }

  abbrev pub jwlr_at_wlr_pointer_motion_absolute_event : AbstractType
  jwlr_at_wlr_pointer_motion_absolute_event = record {
    name = "wlr/wlr-pointer-motion-absolute-event";
    Object = WlrPointerMotionAbsoluteEvent;
    gc = none;
    gcmark = none;
    get = some (struct_get (method_wlr_pointer_motion_absolute_event_get J H));
    put = none;
    tostring = none;
    compare = none;
  }

  abbrev pub jwlr_at_wlr_pointer_button_event : AbstractType
  jwlr_at_wlr_pointer_button_event = record {
    name = "wlr/wlr-pointer-button-event";
    Object = WlrPointerButtonEvent;
    gc = none;
    gcmark = none;
    get = some (struct_get (method_wlr_pointer_button_event_get J H));
    put = none;
    tostring = none;
    compare = none;
  }

  abbrev pub devices_abstract_types : List AbstractType
  devices_abstract_types =
      jwlr_at_wlr_scene_tree ∷ jwlr_at_wlr_scene_node ∷ jwlr_at_wlr_scene_buffer
      ∷ jwlr_at_wlr_scene_surface ∷ jwlr_at_wlr_input_device ∷ jwlr_at_wlr_pointer
      ∷ jwlr_at_wlr_pointer_motion_event ∷ jwlr_at_wlr_pointer_motion_absolute_event
      ∷ jwlr_at_wlr_pointer_button_event ∷ []
