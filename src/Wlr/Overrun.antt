-- ===== src/Wlr/Overrun.antt =====
-- The two getters whose list table lacks its NULL row, `wlr_scene_list_offsets` and
-- `wlr_xdg_surface_list_offsets` of wlr_abs_types.h, and the getter of key events.
use janetland.Prelude.{◌≤◌, ◌≡◌, false, List, [], ◌∷◌, String, str_eq}
use janetland.Janet.{Janet, keyword, IsFault, bind-IsFault}
use janetland.Wlr.{Headers, get_abstract_struct_signal_member, get_abstract_struct_list_member}
use janetland.KeyDefs.{key_def_count}
use janetland.KeyDefs.Scan.{name_at_overrun}
use janetland.Wlr.Tables.{wl_keyboard_key_state_rows}
use janetland.Wlr.Input.{WlrKeyboardKeyEvent, method_wlr_keyboard_key_event_get}
use janetland.Wlr.Members.{has_name, find_member-has_name}
use janetland.Wlr.Scene.{WlrScene, method_wlr_scene_get}
use janetland.Wlr.Xdg.{WlrXdgSurface, method_wlr_xdg_surface_get}

abbrev pub xdg_surface_signals : List String
xdg_surface_signals =
    "events.destroy" ∷ "events.ping_timeout" ∷ "events.new_popup" ∷ "events.map" ∷ "events.unmap"
    ∷ "events.configure" ∷ "events.ack_configure" ∷ []

abbrev pub xdg_surface_lists : List String
xdg_surface_lists = "popups" ∷ "configure_list" ∷ []

-- A keyword that names neither a signal nor a list of an xdg surface makes its getter read past the
-- end of the list table; so no key behind the tables ("role", "toplevel", "popup", "surface",
-- "data") is ever reached by a defined execution.
pub xdg_surface_get_overrun :
    (J : Janet) (H : Headers) (s : WlrXdgSurface) (kw : String)
    → has_name kw xdg_surface_signals ≡ false
    → has_name kw xdg_surface_lists ≡ false
    → IsFault (method_wlr_xdg_surface_get J H s (keyword kw))
unfolding method_wlr_xdg_surface_get get_abstract_struct_signal_member
    get_abstract_struct_list_member
xdg_surface_get_overrun J H s kw no_signal no_list =
    rw
      (
        (find_member-has_name J "wl/wl-signal" s.addr kw (H.offsetof "wlr_xdg_surface")
            xdg_surface_signals).0,
        (find_member-has_name J "wl/wl-list" s.addr kw (H.offsetof "wlr_xdg_surface")
            xdg_surface_lists).1,
        no_signal,
        no_list,
      )
      tt

-- The getter of a scene defines no keyword but "outputs": any other, "tree" included, reads past the
-- end of the list table.
pub scene_get_overrun :
    (J : Janet) (H : Headers) (s : WlrScene) (kw : String)
    → str_eq kw "outputs" ≡ false
    → IsFault (method_wlr_scene_get J H s (keyword kw))
unfolding method_wlr_scene_get get_abstract_struct_list_member
scene_get_overrun J H s kw other =
    rw
      (
        (find_member-has_name J "wl/wl-list" s.addr kw (H.offsetof "wlr_scene") ("outputs" ∷ [])).1,
        other,
      )
      tt

-- The getter of a key event uses the state of the event as an index without a test: at every state
-- but the two of the table, 0 and 1, :state is an undefined read.
pub key_event_get_overrun :
    (J : Janet) (H : Headers) (s : WlrKeyboardKeyEvent)
    → 2 ≤ s.state
    → IsFault (method_wlr_keyboard_key_event_get J H s (keyword "state"))
unfolding method_wlr_keyboard_key_event_get key_def_count
key_event_get_overrun J H s h =
    bind-IsFault _ _ (name_at_overrun (wl_keyboard_key_state_rows H) s.state h)
