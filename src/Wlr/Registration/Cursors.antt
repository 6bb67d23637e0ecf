-- ===== src/Wlr/Registration/Cursors.antt =====
-- wlr.c: the rows of the registration table for scene surfaces, cursors and keyboards.
use janetland.Prelude.{List, [], ◌∷◌}
use janetland.Janet.{Janet}
use janetland.Headers.{Headers}
use janetland.Wlr.Calls.{Wlroots}
use janetland.Wlr.Calls.SceneGraph.{
  cfun_wlr_scene_surface_create, cfun_wlr_scene_subsurface_tree_create, cfun_wlr_scene_node_at,
}
use janetland.Wlr.Calls.Setup.{cfun_wlr_xdg_shell_create}
use janetland.Wlr.Calls.Cursors.{
  cfun_wlr_cursor_create, cfun_wlr_cursor_move, cfun_wlr_cursor_warp_absolute,
  cfun_wlr_cursor_attach_output_layout, cfun_wlr_cursor_attach_input_device,
  cfun_wlr_cursor_set_surface, cfun_wlr_cursor_destroy, cfun_wlr_xcursor_manager_create,
  cfun_wlr_xcursor_manager_load, cfun_wlr_xcursor_manager_get_xcursor,
  cfun_wlr_xcursor_manager_set_cursor_image,
}
use janetland.Wlr.Calls.Keyboards.{
  cfun_wlr_keyboard_from_input_device, cfun_wlr_keyboard_set_keymap,
  cfun_wlr_keyboard_set_repeat_info, cfun_wlr_keyboard_get_modifiers,
}
use janetland.Wlr.Registration.{JanetReg}

module _ {S : Type 0} (H : Headers) (J : Janet) (L : Wlroots S) where
  abbrev pub scene_surface_cfuns : List (JanetReg S)
  scene_surface_cfuns =
      record {
        name = "wlr-scene-surface-create";
        cfun = cfun_wlr_scene_surface_create H J L;
        documentation =
            "(wlr/wlr-scene-surface-create parent wlr-surface)\n\nAdds a node displaying a single surface.";
      }
      ∷ record {
        name = "wlr-scene-subsurface-tree-create";
        cfun = cfun_wlr_scene_subsurface_tree_create H J L;
        documentation =
            "(wlr/wlr-scene-subsurface-tree-create parent wlr-surface)\n\nAdds a node displaying a surface and all of its sub-surfaces.";
      }
      ∷ record {
        name = "wlr-scene-node-at";
        cfun = cfun_wlr_scene_node_at H J L;
        documentation =
            "(wlr/wlr-scene-node-at wlr-scene-node x y)\n\nFinds the topmost node that contains the specified point.";
      }
      ∷ record {
        name = "wlr-xdg-shell-create";
        cfun = cfun_wlr_xdg_shell_create H J L;
        documentation =
            "(wlr/wlr-xdg-shell-create wl-display version)\n\nCreates a wlroots xdg shell object.";
      }
      ∷ []

  abbrev pub cursor_cfuns : List (JanetReg S)
  cursor_cfuns =
      record {
        name = "wlr-cursor-create";
        cfun = cfun_wlr_cursor_create H J L;
        documentation = "(wlr/wlr-cursor-create)\n\nCreates a wlroots cursor object.";
      }
      ∷ record {
        name = "wlr-cursor-move";
        cfun = cfun_wlr_cursor_move H J L;
        documentation =
            "(wlr/wlr-cursor-move wlr-cursor wlr-input-device delta-x delta-y)\n\nMoves the cursor.";
      }
      ∷ record {
        name = "wlr-cursor-warp-absolute";
        cfun = cfun_wlr_cursor_warp_absolute H J L;
        documentation =
            "(wlr/wlr-cursor-warp-absolute wlr-cursor wlr-input-device x y)\n\nMoves the cursor using absolute coordinates.";
      }
      ∷ record {
        name = "wlr-cursor-attach-output-layout";
        cfun = cfun_wlr_cursor_attach_output_layout H J L;
        documentation =
            "(wlr/wlr-cursor-attach-output-layout wlr-cursor wlr-output-layout)\n\nAttaches a wlroots output layout object to a cursor object.";
      }
      ∷ record {
        name = "wlr-cursor-attach-input-device";
        cfun = cfun_wlr_cursor_attach_input_device H J L;
        documentation =
            "(wlr/wlr-cursor-attach-input-device wlr-cursor wlr-input-device)\n\nAttaches a wlroots input device object to a cursor object.";
      }
      ∷ record {
        name = "wlr-cursor-set-surface";
        cfun = cfun_wlr_cursor_set_surface H J L;
        documentation =
            "(wlr/wlr-cursor-set-surface wlr-cursor wlr-surface hotspot-x hotspot-y)\n\nSets a surface as the cursor image.";
      }
      ∷ record {
        name = "wlr-cursor-destroy";
        cfun = cfun_wlr_cursor_destroy H J L;
        documentation = "(wlr/wlr-cursor-destroy wlr-cursor)\n\nDestroys a wlroots cursor object.";
      }
      ∷ []

  abbrev pub xcursor_cfuns : List (JanetReg S)
  xcursor_cfuns =
      record {
        name = "wlr-xcursor-manager-create";
        cfun = cfun_wlr_xcursor_manager_create H J L;
        documentation =
            "(wlr/wlr-xcursor-manager-create name size)\n\nCreates a wlroots xcursor manager object.";
      }
      ∷ record {
        name = "wlr-xcursor-manager-load";
        cfun = cfun_wlr_xcursor_manager_load H J L;
        documentation =
            "(wlr/wlr-xcursor-manager-load wlr-xcursor-manager scale)\n\nLoads an xcursor theme at the given scale factor.";
      }
      ∷ record {
        name = "wlr-xcursor-manager-get-xcursor";
        cfun = cfun_wlr_xcursor_manager_get_xcursor H J L;
        documentation =
            "(wlr/wlr-xcursor-manager-get-xcursor wlr-xcursor-manager name scale)\n\nRetrieves xcursor image data.";
      }
      ∷ record {
        name = "wlr-xcursor-manager-set-cursor-image";
        cfun = cfun_wlr_xcursor_manager_set_cursor_image H J L;
        documentation =
            "(wlr/wlr-xcursor-manager-set-cursor-image wlr-xcursor-manager name wlr-cursor)\n\nSets the cursor image from the loaded xcursor theme.";
      }
      ∷ record {
        name = "wlr-keyboard-from-input-device";
        cfun = cfun_wlr_keyboard_from_input_device H J L;
        documentation =
            "(wlr/wlr-keyboard-from-input-device wlr-input-device)\n\nConverts a wlroots input device to a keyboard object.";
      }
      ∷ record {
        name = "wlr-keyboard-set-keymap";
        cfun = cfun_wlr_keyboard_set_keymap H J L;
        documentation =
            "(wlr/wlr-keyboard-set-keymap wlr-keyboard xkb-keymap)\n\nSets an xkb keymap to a keyboard object.";
      }
      ∷ record {
        name = "wlr-keyboard-set-repeat-info";
        cfun = cfun_wlr_keyboard_set_repeat_info H J L;
        documentation =
            "(wlr/wlr-keyboard-set-repeat-info wlr-keyboard rate delay)\n\nSets key repeat parameters for a keyboard object.";
      }
      ∷ record {
        name = "wlr-keyboard-get-modifiers";
        cfun = cfun_wlr_keyboard_get_modifiers H J L;
        documentation =
            "(wlr/wlr-keyboard-get-modifiers wlr-keyboard)\n\nGets the keyboard modifiers that's currently in effect.";
      }
      ∷ []
