-- ===== src/Xcb/Atoms.antt =====
-- The struct `xcb-atom-enum` of xcb.c: the names of the predefined atoms.
use janetland.Prelude.{ℕ, List, [], ◌∷◌, String}
use janetland.Headers.{Headers}

-- The pairs that `define_xcb_atom_enum_t_constants` puts, in order; the values are wrapped as numbers of 64
-- bits.
unfoldable pub xcb_atom_enum : Headers → List (String × ℕ)
xcb_atom_enum H =
    ("none", H.const "XCB_ATOM_NONE")
    ∷ ("any", H.const "XCB_ATOM_ANY")
    ∷ ("primary", H.const "XCB_ATOM_PRIMARY")
    ∷ ("secondary", H.const "XCB_ATOM_SECONDARY")
    ∷ ("arc", H.const "XCB_ATOM_ARC")
    ∷ ("atom", H.const "XCB_ATOM_ATOM")
    ∷ ("bitmap", H.const "XCB_ATOM_BITMAP")
    ∷ ("cardinal", H.const "XCB_ATOM_CARDINAL")
    ∷ ("colormap", H.const "XCB_ATOM_COLORMAP")
    ∷ ("cursor", H.const "XCB_ATOM_CURSOR")
    ∷ ("cut-buffer0", H.const "XCB_ATOM_CUT_BUFFER0")
    ∷ ("cut-buffer1", H.const "XCB_ATOM_CUT_BUFFER1")
    ∷ ("cut-buffer2", H.const "XCB_ATOM_CUT_BUFFER2")
    ∷ ("cut-buffer3", H.const "XCB_ATOM_CUT_BUFFER3")
    ∷ ("cut-buffer4", H.const "XCB_ATOM_CUT_BUFFER4")
    ∷ ("cut-buffer5", H.const "XCB_ATOM_CUT_BUFFER5")
    ∷ ("cut-buffer6", H.const "XCB_ATOM_CUT_BUFFER6")
    ∷ ("cut-buffer7", H.const "XCB_ATOM_CUT_BUFFER7")
    ∷ ("drawable", H.const "XCB_ATOM_DRAWABLE")
    ∷ ("font", H.const "XCB_ATOM_FONT")
    ∷ ("integer", H.const "XCB_ATOM_INTEGER")
    ∷ ("pixmap", H.const "XCB_ATOM_PIXMAP")
    ∷ ("point", H.const "XCB_ATOM_POINT")
    ∷ ("rectangle", H.const "XCB_ATOM_RECTANGLE")
    ∷ ("resource-manager", H.const "XCB_ATOM_RESOURCE_MANAGER")
    ∷ ("rgb-color-map", H.const "XCB_ATOM_RGB_COLOR_MAP")
    ∷ ("rgb-best-map", H.const "XCB_ATOM_RGB_BEST_MAP")
    ∷ ("rgb-blue-map", H.const "XCB_ATOM_RGB_BLUE_MAP")
    ∷ ("rgb-default-map", H.const "XCB_ATOM_RGB_DEFAULT_MAP")
    ∷ ("rgb-gray-map", H.const "XCB_ATOM_RGB_GRAY_MAP")
    ∷ ("rgb-green-map", H.const "XCB_ATOM_RGB_GREEN_MAP")
    ∷ ("rgb-red-map", H.const "XCB_ATOM_RGB_RED_MAP")
    ∷ ("string", H.const "XCB_ATOM_STRING")
    ∷ ("visualid", H.const "XCB_ATOM_VISUALID")
    ∷ ("window", H.const "XCB_ATOM_WINDOW")
    ∷ ("wm-command", H.const "XCB_ATOM_WM_COMMAND")
    ∷ ("wm-hints", H.const "XCB_ATOM_WM_HINTS")
    ∷ ("wm-client-machine", H.const "XCB_ATOM_WM_CLIENT_MACHINE")
    ∷ ("wm-icon-name", H.const "XCB_ATOM_WM_ICON_NAME")
    ∷ ("wm-icon-size", H.const "XCB_ATOM_WM_ICON_SIZE")
    ∷ ("wm-name", H.const "XCB_ATOM_WM_NAME")
    ∷ ("wm-normal-hints", H.const "XCB_ATOM_WM_NORMAL_HINTS")
    ∷ ("wm-size-hints", H.const "XCB_ATOM_WM_SIZE_HINTS")
    ∷ ("wm-zoom-hints", H.const "XCB_ATOM_WM_ZOOM_HINTS")
    ∷ ("min-space", H.const "XCB_ATOM_MIN_SPACE")
    ∷ ("norm-space", H.const "XCB_ATOM_NORM_SPACE")
    ∷ ("max-space", H.const "XCB_ATOM_MAX_SPACE")
    ∷ ("end-space", H.const "XCB_ATOM_END_SPACE")
    ∷ ("superscript-x", H.const "XCB_ATOM_SUPERSCRIPT_X")
    ∷ ("superscript-y", H.const "XCB_ATOM_SUPERSCRIPT_Y")
    ∷ ("subscript-x", H.const "XCB_ATOM_SUBSCRIPT_X")
    ∷ ("subscript-y", H.const "XCB_ATOM_SUBSCRIPT_Y")
    ∷ ("underline-position", H.const "XCB_ATOM_UNDERLINE_POSITION")
    ∷ ("underline-thickness", H.const "XCB_ATOM_UNDERLINE_THICKNESS")
    ∷ ("strikeout-ascent", H.const "XCB_ATOM_STRIKEOUT_ASCENT")
    ∷ ("strikeout-descent", H.const "XCB_ATOM_STRIKEOUT_DESCENT")
    ∷ ("italic-angle", H.const "XCB_ATOM_ITALIC_ANGLE")
    ∷ ("x-height", H.const "XCB_ATOM_X_HEIGHT")
    ∷ ("quad-width", H.const "XCB_ATOM_QUAD_WIDTH")
    ∷ ("weight", H.const "XCB_ATOM_WEIGHT")
    ∷ ("point-size", H.const "XCB_ATOM_POINT_SIZE")
    ∷ ("resolution", H.const "XCB_ATOM_RESOLUTION")
    ∷ ("copyright", H.const "XCB_ATOM_COPYRIGHT")
    ∷ ("notice", H.const "XCB_ATOM_NOTICE")
    ∷ ("font-name", H.const "XCB_ATOM_FONT_NAME")
    ∷ ("family-name", H.const "XCB_ATOM_FAMILY_NAME")
    ∷ ("full-name", H.const "XCB_ATOM_FULL_NAME")
    ∷ ("cap-height", H.const "XCB_ATOM_CAP_HEIGHT")
    ∷ ("wm-class", H.const "XCB_ATOM_WM_CLASS")
    ∷ ("wm-transient-for", H.const "XCB_ATOM_WM_TRANSIENT_FOR")
    ∷ []
