-- ===== src/Wlr/Registration/Setup.antt =====
-- wlr.c: the rows of the registration table for backends to scene trees.
use janetland.Prelude.{List, [], ◌∷◌}
use janetland.Janet.{Janet}
use janetland.Headers.{Headers}
use janetland.Wlr.Calls.{Wlroots}
use janetland.Wlr.Calls.Setup.{
  cfun_wlr_backend_autocreate, cfun_wlr_backend_destroy, cfun_wlr_backend_start,
  cfun_wlr_renderer_autocreate, cfun_wlr_renderer_init_wl_display, cfun_wlr_allocator_autocreate,
  cfun_wlr_compositor_create, cfun_wlr_subcompositor_create, cfun_wlr_data_device_manager_create,
}
use janetland.Wlr.Calls.SceneGraph.{
  cfun_wlr_scene_create, cfun_wlr_scene_attach_output_layout, cfun_wlr_scene_node_destroy,
  cfun_wlr_scene_node_set_enabled, cfun_wlr_scene_node_set_position,
  cfun_wlr_scene_node_place_above, cfun_wlr_scene_node_place_below,
  cfun_wlr_scene_node_raise_to_top, cfun_wlr_scene_node_lower_to_bottom,
  cfun_wlr_scene_node_reparent, cfun_wlr_scene_node_coords, cfun_wlr_scene_tree_create,
}
use janetland.Wlr.Registration.{JanetReg}

module _ {S : Type 0} (H : Headers) (J : Janet) (L : Wlroots S) where
  abbrev pub setup_cfuns : List (JanetReg S)
  setup_cfuns =
      record {
        name = "wlr-backend-autocreate";
        cfun = cfun_wlr_backend_autocreate H J L;
        documentation =
            "(wlr/wlr-backend-autocreate wl-display)\n\nCreates a wlroots backend object.";
      }
      ∷ record {
        name = "wlr-backend-destroy";
        cfun = cfun_wlr_backend_destroy H J L;
        documentation =
            "(wlr/wlr-backend-destroy wlr-backend)\n\nDestroys a wlroots backend object.";
      }
      ∷ record {
        name = "wlr-backend-start";
        cfun = cfun_wlr_backend_start H J L;
        documentation = "(wlr/wlr-backend-start wlr-backend)\n\nStarts the wlroots backend.";
      }
      ∷ record {
        name = "wlr-renderer-autocreate";
        cfun = cfun_wlr_renderer_autocreate H J L;
        documentation =
            "(wlr/wlr-renderer-autocreate wlr-backend)\n\nCreates a wlroots renderer object.";
      }
      ∷ record {
        name = "wlr-renderer-init-wl-display";
        cfun = cfun_wlr_renderer_init_wl_display H J L;
        documentation =
            "(wlr/wlr-renderer-init-wl-display wlr-renderer wl-display)\n\nInitializes a wlroots renderer object.";
      }
      ∷ record {
        name = "wlr-allocator-autocreate";
        cfun = cfun_wlr_allocator_autocreate H J L;
        documentation =
            "(wlr/wlr-allocator-autocreate wlr-backend wlr-renderer)\n\nCreates a wlroots allocator object.";
      }
      ∷ record {
        name = "wlr-compositor-create";
        cfun = cfun_wlr_compositor_create H J L;
        documentation =
            "(wlr/wlr-compositor-create wl-display wlr-renderer)\n\nCreates a wlroots compositor object.";
      }
      ∷ record {
        name = "wlr-subcompositor-create";
        cfun = cfun_wlr_subcompositor_create H J L;
        documentation =
            "(wlr/wlr-subcompositor-create wl-display)\n\nCreates a wlroots subcompositor object.";
      }
      ∷ record {
        name = "wlr-data-device-manager-create";
        cfun = cfun_wlr_data_device_manager_create H J L;
        documentation =
            "(wlr/wlr-data-device-manager-create wl-display)\n\nCreates a wlroots data device manager object.";
      }
      ∷ record {
        name = "wlr-scene-create";
        cfun = cfun_wlr_scene_create H J L;
        documentation = "(wlr/wlr-scene-create)\n\nCreates a wlroots scene object.";
      }
      ∷ record {
        name = "wlr-scene-attach-output-layout";
        cfun = cfun_wlr_scene_attach_output_layout H J L;
        documentation =
            "(wlr/wlr-scene-attach-output-layout wlr-scene wlr-output-layout)\n\nAttaches a wlroots output layout object to a scene object.";
      }
      ∷ []

  abbrev pub scene_node_cfuns : List (JanetReg S)
  scene_node_cfuns =
      record {
        name = "wlr-scene-node-destroy";
        cfun = cfun_wlr_scene_node_destroy H J L;
        documentation =
            "(wlr/wlr-scene-node-destroy wlr-scene-node)\n\nDestroys the scene-graph node.";
      }
      ∷ record {
        name = "wlr-scene-node-set-enabled";
        cfun = cfun_wlr_scene_node_set_enabled H J L;
        documentation =
            "(wlr/wlr-scene-node-set-enabled wlr-scene-node enabled)\n\nEnables or disables the scene-graph node.";
      }
      ∷ record {
        name = "wlr-scene-node-set-position";
        cfun = cfun_wlr_scene_node_set_position H J L;
        documentation =
            "(wlr/wlr-scene-node-set-position wlr-scene-node x y)\n\nSets the position of a scene node.";
      }
      ∷ record {
        name = "wlr-scene-node-place-above";
        cfun = cfun_wlr_scene_node_place_above H J L;
        documentation =
            "(wlr/wlr-scene-node-place-above wlr-scene-node sibling)\n\nMoves the node right above the specified sibling.";
      }
      ∷ record {
        name = "wlr-scene-node-place-below";
        cfun = cfun_wlr_scene_node_place_below H J L;
        documentation =
            "(wlr/wlr-scene-node-place-below wlr-scene-node sibling)\n\nMoves the node right below the specified sibling.";
      }
      ∷ record {
        name = "wlr-scene-node-raise-to-top";
        cfun = cfun_wlr_scene_node_raise_to_top H J L;
        documentation =
            "(wlr/wlr-scene-node-raise-to-top wlr-scene-node)\n\nMove the node above all of its sibling nodes.";
      }
      ∷ record {
        name = "wlr-scene-node-lower-to-bottom";
        cfun = cfun_wlr_scene_node_lower_to_bottom H J L;
        documentation =
            "(wlr/wlr-scene-node-lower-to-bottom wlr-scene-node)\n\nMoves the node below all of its sibling nodes.";
      }
      ∷ record {
        name = "wlr-scene-node-reparent";
        cfun = cfun_wlr_scene_node_reparent H J L;
        documentation =
            "(wlr/wlr-scene-node-reparent wlr-scene-node new-parent)\n\nMoves the node to another location in the tree.";
      }
      ∷ record {
        name = "wlr-scene-node-coords";
        cfun = cfun_wlr_scene_node_coords H J L;
        documentation =
            "(wlr/wlr-scene-node-coords wlr-scene-node)\n\nGets the node's layout-local coordinates.";
      }
      ∷ record {
        name = "wlr-scene-tree-create";
        cfun = cfun_wlr_scene_tree_create H J L;
        documentation =
            "(wlr/wlr-scene-tree-create parent)\n\nAdds a node displaying nothing but its children.";
      }
      ∷ []
