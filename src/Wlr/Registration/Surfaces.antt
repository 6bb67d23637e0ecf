-- ===== src/Wlr/Registration/Surfaces.antt =====
-- wlr.c: the rows of the registration table for surfaces and shells.
use janetland.Prelude.{List, [], ◌∷◌}
use janetland.Janet.{Janet}
use janetland.Headers.{Headers}
use janetland.Wlr.Calls.{Wlroots}
use janetland.Wlr.Calls.Surfaces.{
  cfun_wlr_surface_get_root_surface, cfun_wlr_surface_is_xwayland_surface,
  cfun_wlr_surface_is_xdg_surface, cfun_wlr_surface_surface_at, cfun_wlr_surface_send_enter,
  cfun_wlr_surface_send_leave, cfun_wlr_surface_send_frame_done,
}
use janetland.Wlr.Calls.XdgShell.{
  cfun_wlr_xdg_surface_from_wlr_surface, cfun_wlr_xdg_surface_schedule_configure,
  cfun_wlr_xdg_surface_get_geometry, cfun_wlr_xdg_toplevel_set_activated,
  cfun_wlr_xdg_toplevel_set_maximized, cfun_wlr_xdg_toplevel_set_fullscreen,
  cfun_wlr_xdg_toplevel_set_resizing, cfun_wlr_xdg_toplevel_set_tiled,
  cfun_wlr_xdg_toplevel_set_size,
}
use janetland.Wlr.Calls.SceneGraph.{
  cfun_wlr_scene_xdg_surface_create, cfun_wlr_scene_get_scene_output, cfun_wlr_scene_output_commit,
  cfun_wlr_scene_output_send_frame_done, cfun_wlr_scene_buffer_from_node,
  cfun_wlr_scene_surface_from_buffer,
}
use janetland.Wlr.Registration.{JanetReg}

module _ {S : Type 0} (H : Headers) (J : Janet) (L : Wlroots S) where
  abbrev pub surface_cfuns : List (JanetReg S)
  surface_cfuns =
      record {
        name = "wlr-surface-get-root-surface";
        cfun = cfun_wlr_surface_get_root_surface H J L;
        documentation =
            "(wlr/wlr-surface-get-root-surface wlr-surface)\n\nGets the root of the subsurface tree for the specified surface.";
      }
      ∷ record {
        name = "wlr-surface-is-xwayland-surface";
        cfun = cfun_wlr_surface_is_xwayland_surface H J L;
        documentation =
            "(wlr/wlr-surface-is-xwayland-surface wlr-surface)\n\nCheck whether a wlroots surface is an XWayland surface.";
      }
      ∷ record {
        name = "wlr-surface-is-xdg-surface";
        cfun = cfun_wlr_surface_is_xdg_surface H J L;
        documentation =
            "(wlr/wlr-surface-is-xdg-surface wlr-surface)\n\nCheck whether a wlroots surface is an xdg surface.";
      }
      ∷ record {
        name = "wlr-surface-surface-at";
        cfun = cfun_wlr_surface_surface_at H J L;
        documentation =
            "(wlr/wlr-surface-surface-at wlr-surface sx sy)\n\nFinds a surface in this surface's tree that accepts input events and has all parents mapped.";
      }
      ∷ record {
        name = "wlr-surface-send-enter";
        cfun = cfun_wlr_surface_send_enter H J L;
        documentation =
            "(wlr/wlr-surface-send-enter wlr-surface wlr-output)\n\nNotifies interested parties that a surface has entered an output.";
      }
      ∷ record {
        name = "wlr-surface-send-leave";
        cfun = cfun_wlr_surface_send_leave H J L;
        documentation =
            "(wlr/wlr-surface-send-leave wlr-surface wlr-output)\n\nNotifies interested parties that a surface has left an output.";
      }
      ∷ record {
        name = "wlr-surface-send-frame-done";
        cfun = cfun_wlr_surface_send_frame_done H J L;
        documentation =
            "(wlr/wlr-surface-send-frame-done wlr-surface timespec)\n\nNotifies interested parties that a surface has done drawing a frame.";
      }
      ∷ []

  abbrev pub xdg_cfuns : List (JanetReg S)
  xdg_cfuns =
      record {
        name = "wlr-xdg-surface-from-wlr-surface";
        cfun = cfun_wlr_xdg_surface_from_wlr_surface H J L;
        documentation =
            "(wlr/wlr-xdg-surface-from-wlr-surface wlr-surface)\n\nWraps a surface object with an xdg surface object.";
      }
      ∷ record {
        name = "wlr-xdg-surface-schedule-configure";
        cfun = cfun_wlr_xdg_surface_schedule_configure H J L;
        documentation =
            "(wlr/wlr-xdg-surface-schedule-configure wlr-xdg-surface)\n\nSends a configure for the xdg surface.";
      }
      ∷ record {
        name = "wlr-xdg-surface-get-geometry";
        cfun = cfun_wlr_xdg_surface_get_geometry H J L;
        documentation =
            "(wlr/wlr-xdg-surface-get-geometry wlr-xdg-surface)\n\nGets the geometry of a wlroots xdg surface object.";
      }
      ∷ record {
        name = "wlr-xdg-toplevel-set-activated";
        cfun = cfun_wlr_xdg_toplevel_set_activated H J L;
        documentation =
            "(wlr/wlr-xdg-toplevel-set-activated wlr-xdg-toplevel activated)\n\nSets the toplevel in an activated or deactivated state.";
      }
      ∷ record {
        name = "wlr-xdg-toplevel-set-maximized";
        cfun = cfun_wlr_xdg_toplevel_set_maximized H J L;
        documentation =
            "(wlr/wlr-xdg-toplevel-set-maximized wlr-xdg-toplevel maximized)\n\nSets the toplevel in a maximized state.";
      }
      ∷ record {
        name = "wlr-xdg-toplevel-set-fullscreen";
        cfun = cfun_wlr_xdg_toplevel_set_fullscreen H J L;
        documentation =
            "(wlr/wlr-xdg-toplevel-set-fullscreen wlr-xdg-toplevel fullscreen)\n\nSets the toplevel in a fullscreen state.";
      }
      ∷ record {
        name = "wlr-xdg-toplevel-set-resizing";
        cfun = cfun_wlr_xdg_toplevel_set_resizing H J L;
        documentation =
            "(wlr/wlr-xdg-toplevel-set-resizing wlr-xdg-toplevel resizing)\n\nSets the toplevel in a resizing state.";
      }
      ∷ record {
        name = "wlr-xdg-toplevel-set-tiled";
        cfun = cfun_wlr_xdg_toplevel_set_tiled H J L;
        documentation =
            "(wlr/wlr-xdg-toplevel-set-tiled wlr-xdg-toplevel tiled-edges)\n\nSets the toplevel in a tiled state. Edges can be :top, :bottom, :left or :right.";
      }
      ∷ record {
        name = "wlr-xdg-toplevel-set-size";
        cfun = cfun_wlr_xdg_toplevel_set_size H J L;
        documentation =
            "(wlr/wlr-xdg-toplevel-set-size wlr-xdg-toplevel width height)\n\nRequests that this toplevel surface be the given size.";
      }
      ∷ []

  abbrev pub scene_output_cfuns : List (JanetReg S)
  scene_output_cfuns =
      record {
        name = "wlr-scene-xdg-surface-create";
        cfun = cfun_wlr_scene_xdg_surface_create H J L;
        documentation =
            "(wlr/wlr-scene-xdg-surface-create wlr-scene-tree xdg-surface)\n\nAdds a node displaying an xdg_surface and all of its sub-surfaces to the scene-graph.";
      }
      ∷ record {
        name = "wlr-scene-get-scene-output";
        cfun = cfun_wlr_scene_get_scene_output H J L;
        documentation =
            "(wlr/wlr-scene-get-scene-output wlr-scene wlr-output)\n\nConverts a wl-output object to a wl-scene-output object.";
      }
      ∷ record {
        name = "wlr-scene-output-commit";
        cfun = cfun_wlr_scene_output_commit H J L;
        documentation =
            "(wlr/wlr-scene-output-commit wlr-scene-output)\n\nCommits a wlr-scene-output.";
      }
      ∷ record {
        name = "wlr-scene-output-send-frame-done";
        cfun = cfun_wlr_scene_output_send_frame_done H J L;
        documentation =
            "(wlr/wlr-scene-output-send-frame-done wlr-scene-output timespec)\n\nMarks that we are done with the output frame.";
      }
      ∷ record {
        name = "wlr-scene-buffer-from-node";
        cfun = cfun_wlr_scene_buffer_from_node H J L;
        documentation =
            "(wlr/wlr-scene-buffer-from-node wlr-scene-node)\n\nGets the associated wlr-scene-buffer object from a scene node.";
      }
      ∷ record {
        name = "wlr-scene-surface-from-buffer";
        cfun = cfun_wlr_scene_surface_from_buffer H J L;
        documentation =
            "(wlr/wlr-scene-surface-from-buffer wlr-scene-buffer)\n\nGets the wlr-scene-surface backing the specified buffer.";
      }
      ∷ []
