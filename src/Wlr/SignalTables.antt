-- ===== src/Wlr/SignalTables.antt =====
-- The tables of signal and list members of wlr_abs_types.h. Two of the arrays lack the NULL row.
use janetland.Prelude.{List, [], ◌∷◌}
use janetland.Wlr.{Headers, OffsetDef, offsets_terminated, offsets_unterminated}

abbrev pub wlr_backend_signal_offsets : Headers → List OffsetDef
wlr_backend_signal_offsets H =
    offsets_terminated (H.offsetof "wlr_backend")
      ("events.destroy" ∷ "events.new_input" ∷ "events.new_output" ∷ [])

abbrev pub wlr_output_layout_signal_offsets : Headers → List OffsetDef
wlr_output_layout_signal_offsets H =
    offsets_terminated (H.offsetof "wlr_output_layout")
      ("events.add" ∷ "events.change" ∷ "events.destroy" ∷ [])

abbrev pub wlr_output_layout_list_offsets : Headers → List OffsetDef
wlr_output_layout_list_offsets H =
    offsets_terminated (H.offsetof "wlr_output_layout") ("outputs" ∷ [])

abbrev pub wlr_scene_list_offsets : Headers → List OffsetDef
wlr_scene_list_offsets H = offsets_unterminated (H.offsetof "wlr_scene") ("outputs" ∷ [])

abbrev pub wlr_scene_output_signal_offsets : Headers → List OffsetDef
wlr_scene_output_signal_offsets H =
    offsets_terminated (H.offsetof "wlr_scene_output") ("events.destroy" ∷ [])

abbrev pub wlr_xdg_shell_signal_offsets : Headers → List OffsetDef
wlr_xdg_shell_signal_offsets H =
    offsets_terminated (H.offsetof "wlr_xdg_shell") ("events.new_surface" ∷ "events.destroy" ∷ [])

abbrev pub wlr_surface_signal_offsets : Headers → List OffsetDef
wlr_surface_signal_offsets H =
    offsets_terminated (H.offsetof "wlr_surface")
      ("events.client_commit" ∷ "events.commit" ∷ "events.new_subsurface" ∷ "events.destroy" ∷ [])

abbrev pub wlr_xdg_popup_signal_offsets : Headers → List OffsetDef
wlr_xdg_popup_signal_offsets H =
    offsets_terminated (H.offsetof "wlr_xdg_popup") ("events.reposition" ∷ [])

abbrev pub wlr_xdg_toplevel_signal_offsets : Headers → List OffsetDef
wlr_xdg_toplevel_signal_offsets H = offsets_terminated (H.offsetof "wlr_xdg_toplevel") (
    "events.request_maximize" ∷ "events.request_fullscreen" ∷ "events.request_minimize"
    ∷ "events.request_move" ∷ "events.request_resize" ∷ "events.request_show_window_menu"
    ∷ "events.set_parent" ∷ "events.set_title" ∷ "events.set_app_id" ∷ [])

abbrev pub wlr_xdg_surface_signal_offsets : Headers → List OffsetDef
wlr_xdg_surface_signal_offsets H = offsets_terminated (H.offsetof "wlr_xdg_surface") (
    "events.destroy" ∷ "events.ping_timeout" ∷ "events.new_popup" ∷ "events.map" ∷ "events.unmap"
    ∷ "events.configure" ∷ "events.ack_configure" ∷ [])

abbrev pub wlr_xdg_surface_list_offsets : Headers → List OffsetDef
wlr_xdg_surface_list_offsets H =
    offsets_unterminated (H.offsetof "wlr_xdg_surface") ("popups" ∷ "configure_list" ∷ [])

abbrev pub wlr_cursor_signal_offsets : Headers → List OffsetDef
wlr_cursor_signal_offsets H = offsets_terminated (H.offsetof "wlr_cursor") (
    "events.motion" ∷ "events.motion_absolute" ∷ "events.button" ∷ "events.axis" ∷ "events.frame"
    ∷ "events.swipe_begin" ∷ "events.swipe_update" ∷ "events.swipe_end" ∷ "events.pinch_begin"
    ∷ "events.pinch_update" ∷ "events.pinch_end" ∷ "events.hold_begin" ∷ "events.hold_end"
    ∷ "events.touch_up" ∷ "events.touch_down" ∷ "events.touch_motion" ∷ "events.touch_cancel"
    ∷ "events.touch_frame" ∷ "events.tablet_tool_axis" ∷ "events.tablet_tool_proximity"
    ∷ "events.tablet_tool_tip" ∷ "events.tablet_tool_button" ∷ [])

abbrev pub wlr_seat_signal_offsets : Headers → List OffsetDef
wlr_seat_signal_offsets H = offsets_terminated (H.offsetof "wlr_seat") (
    "events.pointer_grab_begin" ∷ "events.pointer_grab_end" ∷ "events.keyboard_grab_begin"
    ∷ "events.keyboard_grab_end" ∷ "events.touch_grab_begin" ∷ "events.touch_grab_end"
    ∷ "events.request_set_cursor" ∷ "events.request_set_selection" ∷ "events.set_selection"
    ∷ "events.request_set_primary_selection" ∷ "events.set_primary_selection"
    ∷ "events.request_start_drag" ∷ "events.start_drag" ∷ "events.destroy" ∷ [])

abbrev pub wlr_output_signal_offsets : Headers → List OffsetDef
wlr_output_signal_offsets H = offsets_terminated (H.offsetof "wlr_output") (
    "events.frame" ∷ "events.damage" ∷ "events.needs_frame" ∷ "events.precommit" ∷ "events.commit"
    ∷ "events.present" ∷ "events.bind" ∷ "events.enable" ∷ "events.mode" ∷ "events.description"
    ∷ "events.destroy" ∷ [])

abbrev pub wlr_output_list_offsets : Headers → List OffsetDef
wlr_output_list_offsets H =
    offsets_terminated (H.offsetof "wlr_output") ("resources" ∷ "modes" ∷ "cursors" ∷ [])

abbrev pub wlr_scene_tree_list_offsets : Headers → List OffsetDef
wlr_scene_tree_list_offsets H = offsets_terminated (H.offsetof "wlr_scene_tree") ("children" ∷ [])

abbrev pub wlr_scene_node_signal_offsets : Headers → List OffsetDef
wlr_scene_node_signal_offsets H =
    offsets_terminated (H.offsetof "wlr_scene_node") ("events.destroy" ∷ [])

abbrev pub wlr_input_device_signal_offsets : Headers → List OffsetDef
wlr_input_device_signal_offsets H =
    offsets_terminated (H.offsetof "wlr_input_device") ("events.destroy" ∷ [])

abbrev pub wlr_pointer_signal_offsets : Headers → List OffsetDef
wlr_pointer_signal_offsets H = offsets_terminated (H.offsetof "wlr_pointer") (
    "events.motion" ∷ "events.motion_absolute" ∷ "events.button" ∷ "events.axis" ∷ "events.frame"
    ∷ "events.swipe_begin" ∷ "events.swipe_update" ∷ "events.swipe_end" ∷ "events.pinch_begin"
    ∷ "events.pinch_update" ∷ "events.pinch_end" ∷ "events.hold_begin" ∷ "events.hold_end" ∷ [])

abbrev pub wlr_seat_pointer_state_signal_offsets : Headers → List OffsetDef
wlr_seat_pointer_state_signal_offsets H =
    offsets_terminated (H.offsetof "wlr_seat_pointer_state") ("events.focus_change" ∷ [])

abbrev pub wlr_seat_keyboard_state_signal_offsets : Headers → List OffsetDef
wlr_seat_keyboard_state_signal_offsets H =
    offsets_terminated (H.offsetof "wlr_seat_keyboard_state") ("events.focus_change" ∷ [])

abbrev pub wlr_keyboard_signal_offsets : Headers → List OffsetDef
wlr_keyboard_signal_offsets H =
    offsets_terminated (H.offsetof "wlr_keyboard")
      ("events.key" ∷ "events.modifiers" ∷ "events.keymap" ∷ "events.repeat_info" ∷ [])

abbrev pub wlr_xwayland_signal_offsets : Headers → List OffsetDef
wlr_xwayland_signal_offsets H =
    offsets_terminated (H.offsetof "wlr_xwayland")
      ("events.ready" ∷ "events.new_surface" ∷ "events.remove_startup_info" ∷ [])

abbrev pub wlr_xwayland_surface_signal_offsets : Headers → List OffsetDef
wlr_xwayland_surface_signal_offsets H = offsets_terminated (H.offsetof "wlr_xwayland_surface") (
    "events.destroy" ∷ "events.request_configure" ∷ "events.request_move" ∷ "events.request_resize"
    ∷ "events.request_minimize" ∷ "events.request_maximize" ∷ "events.request_fullscreen"
    ∷ "events.request_activate" ∷ "events.map" ∷ "events.unmap" ∷ "events.set_title"
    ∷ "events.set_class" ∷ "events.set_role" ∷ "events.set_parent" ∷ "events.set_pid"
    ∷ "events.set_startup_id" ∷ "events.set_window_type" ∷ "events.set_hints"
    ∷ "events.set_decorations" ∷ "events.set_override_redirect" ∷ "events.set_geometry"
    ∷ "events.ping_timeout" ∷ [])

abbrev pub wlr_xwayland_surface_list_offsets : Headers → List OffsetDef
wlr_xwayland_surface_list_offsets H =
    offsets_terminated (H.offsetof "wlr_xwayland_surface") ("children" ∷ [])

abbrev pub wlr_layer_shell_v1_signal_offsets : Headers → List OffsetDef
wlr_layer_shell_v1_signal_offsets H =
    offsets_terminated (H.offsetof "wlr_layer_shell_v1")
      ("events.new_surface" ∷ "events.destroy" ∷ [])
