-- ===== src/Wlr/Tables.antt =====
-- The key tables of wlr_abs_types.h; the keys are constants of the headers of wlroots and libwayland.
-- Each list is the rows before the NULL row that ends the table.
use janetland.Prelude.{ℕ, List, [], ◌∷◌, String}
use janetland.Wlr.{Headers}

abbrev pub wlr_direction_rows : Headers → List (String × ℕ)
wlr_direction_rows H =
    ("up", H.const "WLR_DIRECTION_UP")
    ∷ ("down", H.const "WLR_DIRECTION_DOWN")
    ∷ ("left", H.const "WLR_DIRECTION_LEFT")
    ∷ ("right", H.const "WLR_DIRECTION_RIGHT")
    ∷ []

abbrev pub wlr_surface_state_field_rows : Headers → List (String × ℕ)
wlr_surface_state_field_rows H =
    ("buffer", H.const "WLR_SURFACE_STATE_BUFFER")
    ∷ ("surface-damage", H.const "WLR_SURFACE_STATE_SURFACE_DAMAGE")
    ∷ ("buffer-damage", H.const "WLR_SURFACE_STATE_BUFFER_DAMAGE")
    ∷ ("opaque-region", H.const "WLR_SURFACE_STATE_OPAQUE_REGION")
    ∷ ("input-region", H.const "WLR_SURFACE_STATE_INPUT_REGION")
    ∷ ("transform", H.const "WLR_SURFACE_STATE_TRANSFORM")
    ∷ ("scale", H.const "WLR_SURFACE_STATE_SCALE")
    ∷ ("frame-callback-list", H.const "WLR_SURFACE_STATE_FRAME_CALLBACK_LIST")
    ∷ ("viewport", H.const "WLR_SURFACE_STATE_VIEWPORT")
    ∷ ("offset", H.const "WLR_SURFACE_STATE_OFFSET")
    ∷ []

abbrev pub wlr_edges_rows : Headers → List (String × ℕ)
wlr_edges_rows H =
    ("none", H.const "WLR_EDGE_NONE")
    ∷ ("top", H.const "WLR_EDGE_TOP")
    ∷ ("bottom", H.const "WLR_EDGE_BOTTOM")
    ∷ ("left", H.const "WLR_EDGE_LEFT")
    ∷ ("right", H.const "WLR_EDGE_RIGHT")
    ∷ []

abbrev pub wlr_xdg_surface_role_rows : Headers → List (String × ℕ)
wlr_xdg_surface_role_rows H =
    ("none", H.const "WLR_XDG_SURFACE_ROLE_NONE")
    ∷ ("toplevel", H.const "WLR_XDG_SURFACE_ROLE_TOPLEVEL")
    ∷ ("popup", H.const "WLR_XDG_SURFACE_ROLE_POPUP")
    ∷ []

abbrev pub wl_seat_capability_rows : Headers → List (String × ℕ)
wl_seat_capability_rows H =
    ("pointer", H.const "WL_SEAT_CAPABILITY_POINTER")
    ∷ ("keyboard", H.const "WL_SEAT_CAPABILITY_KEYBOARD")
    ∷ ("touch", H.const "WL_SEAT_CAPABILITY_TOUCH")
    ∷ []

abbrev pub wlr_output_mode_aspect_ratio_rows : Headers → List (String × ℕ)
wlr_output_mode_aspect_ratio_rows H =
    ("none", H.const "WLR_OUTPUT_MODE_ASPECT_RATIO_NONE")
    ∷ ("4:3", H.const "WLR_OUTPUT_MODE_ASPECT_RATIO_4_3")
    ∷ ("16:9", H.const "WLR_OUTPUT_MODE_ASPECT_RATIO_16_9")
    ∷ ("64:27", H.const "WLR_OUTPUT_MODE_ASPECT_RATIO_64_27")
    ∷ ("256:135", H.const "WLR_OUTPUT_MODE_ASPECT_RATIO_256_135")
    ∷ []

abbrev pub wlr_scene_node_type_rows : Headers → List (String × ℕ)
wlr_scene_node_type_rows H =
    ("tree", H.const "WLR_SCENE_NODE_TREE")
    ∷ ("rect", H.const "WLR_SCENE_NODE_RECT")
    ∷ ("buffer", H.const "WLR_SCENE_NODE_BUFFER")
    ∷ []

abbrev pub wlr_input_device_rows : Headers → List (String × ℕ)
wlr_input_device_rows H =
    ("keyboard", H.const "WLR_INPUT_DEVICE_KEYBOARD")
    ∷ ("pointer", H.const "WLR_INPUT_DEVICE_POINTER")
    ∷ ("touch", H.const "WLR_INPUT_DEVICE_TOUCH")
    ∷ ("tablet-tool", H.const "WLR_INPUT_DEVICE_TABLET_TOOL")
    ∷ ("tablet-pad", H.const "WLR_INPUT_DEVICE_TABLET_PAD")
    ∷ ("switch", H.const "WLR_INPUT_DEVICE_SWITCH")
    ∷ []

abbrev pub wlr_button_state_rows : Headers → List (String × ℕ)
wlr_button_state_rows H =
    ("released", H.const "WLR_BUTTON_RELEASED") ∷ ("pressed", H.const "WLR_BUTTON_PRESSED") ∷ []

abbrev pub wlr_axis_source_rows : Headers → List (String × ℕ)
wlr_axis_source_rows H =
    ("wheel", H.const "WLR_AXIS_SOURCE_WHEEL")
    ∷ ("finger", H.const "WLR_AXIS_SOURCE_FINGER")
    ∷ ("continuous", H.const "WLR_AXIS_SOURCE_CONTINUOUS")
    ∷ ("wheel-tilt", H.const "WLR_AXIS_SOURCE_WHEEL_TILT")
    ∷ []

abbrev pub wlr_axis_orientation_rows : Headers → List (String × ℕ)
wlr_axis_orientation_rows H =
    ("vertical", H.const "WLR_AXIS_ORIENTATION_VERTICAL")
    ∷ ("horizontal", H.const "WLR_AXIS_ORIENTATION_HORIZONTAL")
    ∷ []

abbrev pub wlr_keyboard_modifier_rows : Headers → List (String × ℕ)
wlr_keyboard_modifier_rows H =
    ("shift", H.const "WLR_MODIFIER_SHIFT")
    ∷ ("caps", H.const "WLR_MODIFIER_CAPS")
    ∷ ("ctrl", H.const "WLR_MODIFIER_CTRL")
    ∷ ("alt", H.const "WLR_MODIFIER_ALT")
    ∷ ("mod2", H.const "WLR_MODIFIER_MOD2")
    ∷ ("mod3", H.const "WLR_MODIFIER_MOD3")
    ∷ ("logo", H.const "WLR_MODIFIER_LOGO")
    ∷ ("mod5", H.const "WLR_MODIFIER_MOD5")
    ∷ []

abbrev pub wl_keyboard_key_state_rows : Headers → List (String × ℕ)
wl_keyboard_key_state_rows H =
    ("released", H.const "WL_KEYBOARD_KEY_STATE_RELEASED")
    ∷ ("pressed", H.const "WL_KEYBOARD_KEY_STATE_PRESSED")
    ∷ []
