-- ===== src/Wlr/Safety/Outputs.antt =====
-- The getters of wlr.c for backends, outputs and scenes that are safe on every key.
use janetland.Janet.{Janet, Value, IsSafe}
use janetland.Wlr.{Headers}
use janetland.Wlr.Safety.{safe}
use janetland.Wlr.Backend.{
  WlrBackend, WlrLayerShellV1, method_wlr_backend_get, method_wlr_layer_shell_v1_get,
}
use janetland.Wlr.Output.{
  WlrOutputLayout, WlrOutput, WlrOutputMode, method_wlr_output_layout_get, method_wlr_output_get,
  method_wlr_output_mode_get,
}
use janetland.Wlr.Scene.{
  WlrSceneOutput, WlrSceneTree, WlrSceneNode, WlrSceneSurface, method_wlr_scene_output_get,
  method_wlr_scene_tree_get, method_wlr_scene_node_get, method_wlr_scene_surface_get,
}

-- One object of each type.
record OutputObjects : Type 0 where
  pub backend : WlrBackend
  pub layer_shell_v1 : WlrLayerShellV1
  pub output_layout : WlrOutputLayout
  pub output : WlrOutput
  pub output_mode : WlrOutputMode
  pub scene_output : WlrSceneOutput
  pub scene_tree : WlrSceneTree
  pub scene_node : WlrSceneNode
  pub scene_surface : WlrSceneSurface

module _ (J : Janet) (H : Headers) where
  pub backend_get-IsSafe :
      (s : WlrBackend) (key : Value) → IsSafe (method_wlr_backend_get J H s key)
  unfolding method_wlr_backend_get
  backend_get-IsSafe s key = search safe depth 40

  pub layer_shell_v1_get-IsSafe :
      (s : WlrLayerShellV1) (key : Value) → IsSafe (method_wlr_layer_shell_v1_get J H s key)
  unfolding method_wlr_layer_shell_v1_get
  layer_shell_v1_get-IsSafe s key = search safe depth 40

  pub output_layout_get-IsSafe :
      (s : WlrOutputLayout) (key : Value) → IsSafe (method_wlr_output_layout_get J H s key)
  unfolding method_wlr_output_layout_get
  output_layout_get-IsSafe s key = search safe depth 40

  pub output_get-IsSafe : (s : WlrOutput) (key : Value) → IsSafe (method_wlr_output_get J H s key)
  unfolding method_wlr_output_get
  output_get-IsSafe s key = search safe depth 40

  pub output_mode_get-IsSafe :
      (s : WlrOutputMode) (key : Value) → IsSafe (method_wlr_output_mode_get J H s key)
  unfolding method_wlr_output_mode_get
  output_mode_get-IsSafe s key = search safe depth 40

  pub scene_output_get-IsSafe :
      (s : WlrSceneOutput) (key : Value) → IsSafe (method_wlr_scene_output_get J H s key)
  unfolding method_wlr_scene_output_get
  scene_output_get-IsSafe s key = search safe depth 40

  pub scene_tree_get-IsSafe :
      (s : WlrSceneTree) (key : Value) → IsSafe (method_wlr_scene_tree_get J H s key)
  unfolding method_wlr_scene_tree_get
  scene_tree_get-IsSafe s key = search safe depth 40

  pub scene_node_get-IsSafe :
      (s : WlrSceneNode) (key : Value) → IsSafe (method_wlr_scene_node_get J H s key)
  unfolding method_wlr_scene_node_get
  scene_node_get-IsSafe s key = search safe depth 40

  pub scene_surface_get-IsSafe :
      (s : WlrSceneSurface) (key : Value) → IsSafe (method_wlr_scene_surface_get J H s key)
  unfolding method_wlr_scene_surface_get
  scene_surface_get-IsSafe s key = search safe depth 40

  -- For every key, a keyword or not, these 9 getters end in a value, in "no such member" or in a
  -- panic: none reads past a table, names the NULL row of an enum's table or uses a missing text.
  output_getters-IsSafe :
      (o : OutputObjects) (key : Value)
      → IsSafe (method_wlr_backend_get J H o.backend key)
        × IsSafe (method_wlr_layer_shell_v1_get J H o.layer_shell_v1 key)
        × IsSafe (method_wlr_output_layout_get J H o.output_layout key)
        × IsSafe (method_wlr_output_get J H o.output key)
        × IsSafe (method_wlr_output_mode_get J H o.output_mode key)
        × IsSafe (method_wlr_scene_output_get J H o.scene_output key)
        × IsSafe (method_wlr_scene_tree_get J H o.scene_tree key)
        × IsSafe (method_wlr_scene_node_get J H o.scene_node key)
        × IsSafe (method_wlr_scene_surface_get J H o.scene_surface key)
  output_getters-IsSafe o key = (
    backend_get-IsSafe o.backend key,
    layer_shell_v1_get-IsSafe o.layer_shell_v1 key,
    output_layout_get-IsSafe o.output_layout key,
    output_get-IsSafe o.output key,
    output_mode_get-IsSafe o.output_mode key,
    scene_output_get-IsSafe o.scene_output key,
    scene_tree_get-IsSafe o.scene_tree key,
    scene_node_get-IsSafe o.scene_node key,
    scene_surface_get-IsSafe o.scene_surface key,
  )
