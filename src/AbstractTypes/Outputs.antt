-- ===== src/AbstractTypes/Outputs.antt =====
-- struct_get, one abstract type each.
use janetland.Prelude.{ℕ, none, some, List, [], ◌∷◌}
use janetland.Janet.{Janet}
use janetland.Headers.{Headers}
use janetland.AbstractTypes.{AbstractType}
use janetland.AbstractTypes.{AbstractType, block_get, block_put, struct_get}
use janetland.Wlr.Backend.{WlrBackend, method_wlr_backend_get}
use janetland.Wlr.Box.{WlrBox, method_box_get, method_box_put}
use janetland.Wlr.Output.{WlrOutputLayout, method_wlr_output_layout_get}
use janetland.Wlr.Scene.{
  WlrScene, WlrSceneOutput, method_wlr_scene_get, method_wlr_scene_output_get,
}
use janetland.Wlr.Xdg.{WlrXdgShell, method_wlr_xdg_shell_get}

module _ (J : Janet) (H : Headers) (first_word : ℕ → ℕ) where
  abbrev pub jwlr_at_box : AbstractType
  jwlr_at_box = record {
    name = "wlr/box";
    Object = WlrBox;
    gc = none;
    gcmark = none;
    get = some (block_get (method_box_get J));
    put = some (block_put (method_box_put J));
    tostring = none;
    compare = none;
  }

  abbrev pub jwlr_at_wlr_backend : AbstractType
  jwlr_at_wlr_backend = record {
    name = "wlr/wlr-backend";
    Object = WlrBackend;
    gc = none;
    gcmark = none;
    get = some (struct_get (method_wlr_backend_get J H));
    put = none;
    tostring = none;
    compare = none;
  }

  abbrev pub jwlr_at_wlr_renderer : AbstractType
  jwlr_at_wlr_renderer = record {
    name = "wlr/wlr-renderer";
    Object = ℕ;
    gc = none;
    gcmark = none;
    get = none;
    put = none;
    tostring = none;
    compare = none;
  }

  abbrev pub jwlr_at_wlr_allocator : AbstractType
  jwlr_at_wlr_allocator = record {
    name = "wlr/wlr-allocator";
    Object = ℕ;
    gc = none;
    gcmark = none;
    get = none;
    put = none;
    tostring = none;
    compare = none;
  }

  abbrev pub jwlr_at_wlr_compositor : AbstractType
  jwlr_at_wlr_compositor = record {
    name = "wlr/wlr-compositor";
    Object = ℕ;
    gc = none;
    gcmark = none;
    get = none;
    put = none;
    tostring = none;
    compare = none;
  }

  abbrev pub jwlr_at_wlr_subcompositor : AbstractType
  jwlr_at_wlr_subcompositor = record {
    name = "wlr/wlr-subcompositor";
    Object = ℕ;
    gc = none;
    gcmark = none;
    get = none;
    put = none;
    tostring = none;
    compare = none;
  }

  abbrev pub jwlr_at_wlr_data_device_manager : AbstractType
  jwlr_at_wlr_data_device_manager = record {
    name = "wlr/wlr-data-device-manager";
    Object = ℕ;
    gc = none;
    gcmark = none;
    get = none;
    put = none;
    tostring = none;
    compare = none;
  }

  abbrev pub jwlr_at_wlr_output_layout : AbstractType
  jwlr_at_wlr_output_layout = record {
    name = "wlr/wlr-output-layout";
    Object = WlrOutputLayout;
    gc = none;
    gcmark = none;
    get = some (struct_get (method_wlr_output_layout_get J H));
    put = none;
    tostring = none;
    compare = none;
  }

  abbrev pub jwlr_at_wlr_output_layout_output : AbstractType
  jwlr_at_wlr_output_layout_output = record {
    name = "wlr/wlr-output-layout-output";
    Object = ℕ;
    gc = none;
    gcmark = none;
    get = none;
    put = none;
    tostring = none;
    compare = none;
  }

  abbrev pub jwlr_at_wlr_scene : AbstractType
  jwlr_at_wlr_scene = record {
    name = "wlr/wlr-scene";
    Object = WlrScene;
    gc = none;
    gcmark = none;
    get = some (struct_get (method_wlr_scene_get J H));
    put = none;
    tostring = none;
    compare = none;
  }

  abbrev pub jwlr_at_wlr_scene_output : AbstractType
  jwlr_at_wlr_scene_output = record {
    name = "wlr/wlr-scene-output";
    Object = WlrSceneOutput;
    gc = none;
    gcmark = none;
    get = some (struct_get (method_wlr_scene_output_get J H));
    put = none;
    tostring = none;
    compare = none;
  }

  abbrev pub jwlr_at_wlr_xdg_shell : AbstractType
  jwlr_at_wlr_xdg_shell = record {
    name = "wlr/wlr-xdg-shell";
    Object = WlrXdgShell;
    gc = none;
    gcmark = none;
    get = some (struct_get (method_wlr_xdg_shell_get J H));
    put = none;
    tostring = none;
    compare = none;
  }

  abbrev pub outputs_abstract_types : List AbstractType
  outputs_abstract_types =
      jwlr_at_box ∷ jwlr_at_wlr_backend ∷ jwlr_at_wlr_renderer ∷ jwlr_at_wlr_allocator
      ∷ jwlr_at_wlr_compositor ∷ jwlr_at_wlr_subcompositor ∷ jwlr_at_wlr_data_device_manager
      ∷ jwlr_at_wlr_output_layout ∷ jwlr_at_wlr_output_layout_output ∷ jwlr_at_wlr_scene
      ∷ jwlr_at_wlr_scene_output ∷ jwlr_at_wlr_xdg_shell ∷ []
