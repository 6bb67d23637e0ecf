-- ===== src/Modules.antt =====
-- The module entries of wl.c, wlr.c, xkb.c, xcb.c and util.c: the abstract types that each registers with Janet when
-- it is loaded, by their names. A type that no module registers cannot be found by its name.
pub mod Lookups
use janetland.Prelude.{◌≡◌, true, Bool, ◌||◌, codes, has_prefix, List, [], ◌∷◌, ◌++◌, String}
use janetland.Janet.{Janet}
use janetland.Wlr.Members.{has_name}

abbrev pub wl_types : List String
wl_types =
    "wl/wl-event-loop" ∷ "wl/event-source" ∷ "wl/wl-list" ∷ "wl/wl-signal" ∷ "wl/listener"
    ∷ "wl/wl-display" ∷ []

abbrev pub wlr_types : List String
wlr_types =
    "wlr/box" ∷ "wlr/wlr-backend" ∷ "wlr/wlr-renderer" ∷ "wlr/wlr-allocator" ∷ "wlr/wlr-compositor"
    ∷ "wlr/wlr-subcompositor" ∷ "wlr/wlr-data-device-manager" ∷ "wlr/wlr-output-layout"
    ∷ "wlr/wlr-output-layout-output" ∷ "wlr/wlr-scene" ∷ "wlr/wlr-scene-output"
    ∷ "wlr/wlr-scene-tree" ∷ "wlr/wlr-scene-node" ∷ "wlr/wlr-scene-buffer" ∷ "wlr/wlr-scene-surface"
    ∷ "wlr/wlr-xdg-shell" ∷ "wlr/wlr-surface" ∷ "wlr/wlr-surface-state" ∷ "wlr/wlr-xdg-surface"
    ∷ "wlr/wlr-xdg-toplevel" ∷ "wlr/wlr-xdg-toplevel-move-event"
    ∷ "wlr/wlr-xdg-toplevel-resize-event" ∷ "wlr/wlr-xdg-popup" ∷ "wlr/wlr-cursor"
    ∷ "wlr/wlr-xcursor-manager" ∷ "wlr/wlr-output" ∷ "wlr/wlr-output-mode" ∷ "wlr/wlr-output-cursor"
    ∷ "wlr/wlr-input-device" ∷ "wlr/wlr-pointer" ∷ "wlr/wlr-pointer-motion-event"
    ∷ "wlr/wlr-pointer-motion-absolute-event" ∷ "wlr/wlr-pointer-button-event"
    ∷ "wlr/wlr-pointer-axis-event" ∷ "wlr/wlr-seat" ∷ "wlr/wlr-seat-pointer-state"
    ∷ "wlr/wlr-seat-pointer-request-set-cursor-event" ∷ "wlr/wlr-seat-keyboard-state"
    ∷ "wlr/wlr-seat-request-set-selection-event" ∷ "wlr/wlr-data-source" ∷ "wlr/wlr-keyboard"
    ∷ "wlr/wlr-keyboard-modifiers" ∷ "wlr/wlr-keyboard-key-event" ∷ "wlr/wlr-xwayland"
    ∷ "wlr/wlr-xwayland-surface" ∷ "wlr/wlr-xwayland-resize-event"
    ∷ "wlr/wlr-xwayland-minimize-event" ∷ "wlr/wlr-xwayland-surface-configure-event" ∷ []

abbrev pub xkb_types : List String
xkb_types = "xkb/xkb-context" ∷ "xkb/xkb-keymap" ∷ "xkb/xkb-rule-names" ∷ "xkb/xkb-state" ∷ []

abbrev pub xcb_types : List String
xcb_types =
    "xcb/xcb-connection-t" ∷ "xcb/xcb-generic-error-t" ∷ "xcb/intern-atom-cookie-t"
    ∷ "xcb/xcb-intern-atom-reply-t" ∷ "xcb/xcb-size-hints-t" ∷ []

abbrev pub util_types : List String
util_types = "util/timespec" ∷ []

abbrev pub registered_types : List String
registered_types = wl_types ++ wlr_types ++ xkb_types ++ xcb_types ++ util_types

-- The name of a type of one of the five modules.
abbrev pub is_module_type : String → Bool
is_module_type name =
    has_prefix (codes "wl/") (codes name)
    || has_prefix (codes "wlr/") (codes name)
    || has_prefix (codes "xkb/") (codes name)
    || has_prefix (codes "xcb/") (codes name)
    || has_prefix (codes "util/") (codes name)

-- All five modules are loaded, and no other module registers types under their names. What other types there are, those
-- of Janet itself among them, is left open.
abbrev pub IsLoaded : Janet → Type 0
IsLoaded J =
    (name : String)
    → is_module_type name ≡ true
    → J.registered name ≡ has_name name registered_types
