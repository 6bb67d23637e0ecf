-- ===== src/Wlr/Calls/SceneGraph.antt =====
-- wlr.c: the functions for the scene graph.
use janetland.Prelude.{List, [], ◌∷◌, none, some}
use janetland.Janet.{Janet, Value, nil, number}
use janetland.Headers.{Headers}
use janetland.Action.{Action}
use janetland.Wlr.Calls.{
  Wlroots, ◌>>=◌, ◌>>◌, give, fixarity, boolean_arg, call, double, fail, flag, int, integer_arg,
  node_type_of, number_arg, object_or_nil, object_or_panic, out, pointer_arg, ptr,
  struct_by_name_arg, wrap_bits, wrap_boolean, wrap_tuple,
}
use janetland.Prelude.{◌==◌, if◌then◌else◌, ◌-◌}
use janetland.Jl.{pointer_to_abs_obj}

module _ {S : Type 0} (H : Headers) (J : Janet) (L : Wlroots S) where
  unfoldable pub cfun_wlr_scene_create : List Value → Action S Value
  cfun_wlr_scene_create argv = do
    fixarity argv 0
    scene ← call L "wlr_scene_create" []
    object_or_panic scene.value "wlr/wlr-scene" "failed to create wlroots scene object"

  unfoldable pub cfun_wlr_scene_attach_output_layout : List Value → Action S Value
  cfun_wlr_scene_attach_output_layout argv = do
    fixarity argv 2
    scene ← pointer_arg J L argv 0 "wlr/wlr-scene"
    layout ← pointer_arg J L argv 1 "wlr/wlr-output-layout"
    ret ← call L "wlr_scene_attach_output_layout" (ptr scene ∷ ptr layout ∷ [])
    give (wrap_boolean ret.value)

  unfoldable pub cfun_wlr_scene_xdg_surface_create : List Value → Action S Value
  cfun_wlr_scene_xdg_surface_create argv = do
    fixarity argv 2
    parent ← pointer_arg J L argv 0 "wlr/wlr-scene-tree"
    surface ← pointer_arg J L argv 1 "wlr/wlr-xdg-surface"
    ret ← call L "wlr_scene_xdg_surface_create" (ptr parent ∷ ptr surface ∷ [])
    object_or_panic ret.value "wlr/wlr-scene-tree" "failed to create wlroots scene-graph node"

  unfoldable pub cfun_wlr_scene_tree_create : List Value → Action S Value
  cfun_wlr_scene_tree_create argv = do
    fixarity argv 1
    parent ← pointer_arg J L argv 0 "wlr/wlr-scene-tree"
    ret ← call L "wlr_scene_tree_create" (ptr parent ∷ [])
    object_or_panic ret.value "wlr/wlr-scene-tree" "failed to create wlroots scene tree object"

  unfoldable pub cfun_wlr_scene_surface_create : List Value → Action S Value
  cfun_wlr_scene_surface_create argv = do
    fixarity argv 2
    parent ← pointer_arg J L argv 0 "wlr/wlr-scene-tree"
    surface ← pointer_arg J L argv 1 "wlr/wlr-surface"
    ret ← call L "wlr_scene_surface_create" (ptr parent ∷ ptr surface ∷ [])
    object_or_panic ret.value "wlr/wlr-scene-surface"
        "failed to create wlroots scene surface object"

  unfoldable pub cfun_wlr_scene_subsurface_tree_create : List Value → Action S Value
  cfun_wlr_scene_subsurface_tree_create argv = do
    fixarity argv 2
    parent ← pointer_arg J L argv 0 "wlr/wlr-scene-tree"
    surface ← pointer_arg J L argv 1 "wlr/wlr-surface"
    ret ← call L "wlr_scene_subsurface_tree_create" (ptr parent ∷ ptr surface ∷ [])
    object_or_panic ret.value "wlr/wlr-scene-tree"
        "failed to create wlroots scene subsurface tree object"

  unfoldable pub cfun_wlr_scene_node_destroy : List Value → Action S Value
  cfun_wlr_scene_node_destroy argv = do
    fixarity argv 1
    node ← pointer_arg J L argv 0 "wlr/wlr-scene-node"
    done ← call L "wlr_scene_node_destroy" (ptr node ∷ [])
    give nil

  unfoldable pub cfun_wlr_scene_node_set_enabled : List Value → Action S Value
  cfun_wlr_scene_node_set_enabled argv = do
    fixarity argv 2
    node ← pointer_arg J L argv 0 "wlr/wlr-scene-node"
    enabled ← boolean_arg J argv 1
    done ← call L "wlr_scene_node_set_enabled" (ptr node ∷ flag enabled ∷ [])
    give nil

  unfoldable pub cfun_wlr_scene_node_place_above : List Value → Action S Value
  cfun_wlr_scene_node_place_above argv = do
    fixarity argv 2
    node ← pointer_arg J L argv 0 "wlr/wlr-scene-node"
    sibling ← pointer_arg J L argv 1 "wlr/wlr-scene-node"
    done ← call L "wlr_scene_node_place_above" (ptr node ∷ ptr sibling ∷ [])
    give nil

  unfoldable pub cfun_wlr_scene_node_place_below : List Value → Action S Value
  cfun_wlr_scene_node_place_below argv = do
    fixarity argv 2
    node ← pointer_arg J L argv 0 "wlr/wlr-scene-node"
    sibling ← pointer_arg J L argv 1 "wlr/wlr-scene-node"
    done ← call L "wlr_scene_node_place_below" (ptr node ∷ ptr sibling ∷ [])
    give nil

  unfoldable pub cfun_wlr_scene_node_at : List Value → Action S Value
  cfun_wlr_scene_node_at argv = do
    fixarity argv 3
    node ← pointer_arg J L argv 0 "wlr/wlr-scene-node"
    x ← number_arg J argv 1
    y ← number_arg J argv 2
    n_node ←
        call L "wlr_scene_node_at"
          (ptr node ∷ double x ∷ double y ∷ out (some 0) ∷ out (some 0) ∷ [])
    give (
        wrap_tuple (
          object_or_nil n_node.value "wlr/wlr-scene-node"
          ∷ number n_node.first
          ∷ number n_node.second
          ∷ []))

  unfoldable pub cfun_wlr_scene_node_raise_to_top : List Value → Action S Value
  cfun_wlr_scene_node_raise_to_top argv = do
    fixarity argv 1
    node ← pointer_arg J L argv 0 "wlr/wlr-scene-node"
    done ← call L "wlr_scene_node_raise_to_top" (ptr node ∷ [])
    give nil

  unfoldable pub cfun_wlr_scene_node_lower_to_bottom : List Value → Action S Value
  cfun_wlr_scene_node_lower_to_bottom argv = do
    fixarity argv 1
    node ← pointer_arg J L argv 0 "wlr/wlr-scene-node"
    done ← call L "wlr_scene_node_lower_to_bottom" (ptr node ∷ [])
    give nil

  unfoldable pub cfun_wlr_scene_node_reparent : List Value → Action S Value
  cfun_wlr_scene_node_reparent argv = do
    fixarity argv 2
    node ← pointer_arg J L argv 0 "wlr/wlr-scene-node"
    new_parent ← pointer_arg J L argv 1 "wlr/wlr-scene-tree"
    done ← call L "wlr_scene_node_reparent" (ptr node ∷ ptr new_parent ∷ [])
    give nil

  unfoldable pub cfun_wlr_scene_node_coords : List Value → Action S Value
  cfun_wlr_scene_node_coords argv = do
    fixarity argv 1
    node ← pointer_arg J L argv 0 "wlr/wlr-scene-node"
    ret ← call L "wlr_scene_node_coords" (ptr node ∷ out none ∷ out none ∷ [])
    give (wrap_tuple (wrap_boolean ret.value ∷ wrap_bits J ret.first ∷ wrap_bits J ret.second ∷ []))

  unfoldable pub cfun_wlr_scene_node_set_position : List Value → Action S Value
  cfun_wlr_scene_node_set_position argv = do
    fixarity argv 3
    node ← pointer_arg J L argv 0 "wlr/wlr-scene-node"
    x ← integer_arg J argv 1
    y ← integer_arg J argv 2
    done ← call L "wlr_scene_node_set_position" (ptr node ∷ int x ∷ int y ∷ [])
    give nil

  unfoldable pub cfun_wlr_scene_get_scene_output : List Value → Action S Value
  cfun_wlr_scene_get_scene_output argv = do
    fixarity argv 2
    scene ← pointer_arg J L argv 0 "wlr/wlr-scene"
    output ← pointer_arg J L argv 1 "wlr/wlr-output"
    scene_output ← call L "wlr_scene_get_scene_output" (ptr scene ∷ ptr output ∷ [])
    object_or_panic scene_output.value "wlr/wlr-scene-output"
        "failed to create wlroots scene output object"

  unfoldable pub cfun_wlr_scene_output_commit : List Value → Action S Value
  cfun_wlr_scene_output_commit argv = do
    fixarity argv 1
    scene_output ← pointer_arg J L argv 0 "wlr/wlr-scene-output"
    ret ← call L "wlr_scene_output_commit" (ptr scene_output ∷ [])
    give (wrap_boolean ret.value)

  unfoldable pub cfun_wlr_scene_output_send_frame_done : List Value → Action S Value
  cfun_wlr_scene_output_send_frame_done argv = do
    fixarity argv 2
    scene_output ← pointer_arg J L argv 0 "wlr/wlr-scene-output"
    now ← struct_by_name_arg J argv 1 "util/timespec"
    done ← call L "wlr_scene_output_send_frame_done" (ptr scene_output ∷ ptr now ∷ [])
    give nil

  unfoldable pub cfun_wlr_scene_buffer_from_node : List Value → Action S Value
  cfun_wlr_scene_buffer_from_node argv = do
    fixarity argv 1
    node ← pointer_arg J L argv 0 "wlr/wlr-scene-node"
    buffer ← call L "wlr_scene_buffer_from_node" (ptr node ∷ [])
    object_or_panic buffer.value "wlr/wlr-scene-buffer" "failed to get wlroots buffer object"

  unfoldable pub cfun_wlr_scene_surface_from_buffer : List Value → Action S Value
  cfun_wlr_scene_surface_from_buffer argv = do
    fixarity argv 1
    buffer ← pointer_arg J L argv 0 "wlr/wlr-scene-buffer"
    surface ← call L "wlr_scene_surface_from_buffer" (ptr buffer ∷ [])
    give (object_or_nil surface.value "wlr/wlr-scene-surface")

  -- `wl_container_of(node, tree, node)`: the tree that the node is a member of.
  unfoldable pub cfun_wlr_scene_tree_from_node : List Value → Action S Value
  cfun_wlr_scene_tree_from_node argv = do
    fixarity argv 1
    node ← pointer_arg J L argv 0 "wlr/wlr-scene-node"
    type ← node_type_of L node
    if type == H.const "WLR_SCENE_NODE_TREE"
        then give
            (pointer_to_abs_obj (node - H.offsetof "wlr_scene_tree" "node") "wlr/wlr-scene-tree")
        else fail "not a tree node"
