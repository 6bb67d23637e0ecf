-- ===== src/Examples/Tables.antt =====
-- Key tables, member tables and name tables at concrete rows.
use janetland.Prelude.{◌<◌, ◌≤◌, ℕ, ◌≡◌, refl, true, some, List, [], ◌∷◌, String, arith}
use janetland.Prelude.Bits.{pow-IsOneBit}
use janetland.Prelude.Int.{pos}
use janetland.Janet.{keyword, array, abstract, wraps, from_list, ok, panic, ◌>>=◌, IsFault}
use janetland.KeyDefs.{
  terminated, get_key_def, get_key_flags, get_flag_keys, name_at, find_key, key_def_count,
}
use janetland.KeyDefs.Scan.{get_key_def-lookup, name_at-get_key_def}
use janetland.KeyDefs.Flags.{get_flag_keys-names_of, get_key_flags-get_flag_keys}
use janetland.Jl.{pointer_to_abs_obj_by_name}
use janetland.Wlr.{find_member, offsets_terminated, offsets_unterminated}
use janetland.Wlr.Members.{find_member-has_name}
use janetland.Wlr.Overrun.{xdg_surface_get_overrun}
use janetland.Wlr.Scene.{WlrScene}
use janetland.Wlr.Xdg.{WlrXdgSurface, method_wlr_xdg_surface_get}
use janetland.Wlr.Input.{WlrKeyboardKeyEvent}
use janetland.Xcb.{conn_error_keyword, xcb_conn_error_rows, conn_error_defs_max}
use janetland.Xcb.Errors.{conn_error_keyword-get_key_def, HasErrorCodes}
use janetland.Wl.Callbacks.{find_signal_name}
use janetland.Wl.Names.{find_signal_name-get_key_def, DistinctKeys}
use janetland.Examples.{janet, headers}

abbrev edges : List (String × ℕ)
edges = ("top", 1) ∷ ("bottom", 2) ∷ ("left", 4) ∷ []

abbrev switch : List (String × ℕ)
switch = ("released", 0) ∷ ("pressed", 1) ∷ []

abbrev scene : WlrScene
scene = record { addr = 1; at_tree = 1 }

abbrev xdg_surface : WlrXdgSurface
xdg_surface = record { addr = 1; role = 1; toplevel = 1; popup = 1; surface = 1; data_p = 1 }

abbrev key_event : WlrKeyboardKeyEvent
key_event = record { addr = 1; time_msec = 1; keycode = 1; update_state = true; state = 2 }

in_table : 1 < key_def_count (terminated switch)
unfolding key_def_count
in_table = omega arith

past_table : key_def_count (terminated switch) ≤ 2
unfolding key_def_count
past_table = omega arith

repeated : 2 ≤ key_event.state
repeated = omega arith

error_codes : HasErrorCodes headers
unfolding xcb_conn_error_rows
error_codes = (refl, (refl, (refl, (refl, (refl, (refl, (refl, (refl, tt))))))))

last_code : 7 ≤ conn_error_defs_max
last_code = omega arith

distinct : DistinctKeys edges
distinct =
    ((λ e. omega (arith, e), (λ e. omega (arith, e), tt)), ((λ e. omega (arith, e), tt), (tt, tt)))

bottom : get_key_def janet (keyword "bottom") (terminated edges) ≡ ok 2
bottom = get_key_def-lookup janet edges "bottom"

get_key_def-lookup_example : get_key_def janet (keyword "left") (terminated edges) ≡ ok 4
get_key_def-lookup_example = get_key_def-lookup janet edges "left"

get_key_def-lookup_test :
    get_key_def janet (keyword "right") (terminated edges) ≡ panic "unknown key: %v"
unfolding get_key_def find_key
get_key_def-lookup_test = refl

get_flag_keys-names_of_example :
    get_flag_keys 5 (terminated edges) ≡ ok (keyword "top" ∷ keyword "left" ∷ [])
get_flag_keys-names_of_example = get_flag_keys-names_of 5 edges

get_key_flags-get_flag_keys_example :
    (do
      keys ← get_flag_keys 13 (terminated edges)
      get_key_flags janet (array (from_list keys)) (terminated edges))
    ≡ ok 5
get_key_flags-get_flag_keys_example =
    get_key_flags-get_flag_keys janet edges 13 (refl, (refl, (refl, tt)))
      (pow-IsOneBit 0, (pow-IsOneBit 1, (pow-IsOneBit 2, tt)))

name_at-get_key_def_example :
    (n : String) × (name_at (terminated switch) 1 ≡ ok (keyword n))
    × (get_key_def janet (keyword n) (terminated switch) ≡ ok 1)
name_at-get_key_def_example =
    name_at-get_key_def janet switch 1 (refl, (refl, tt)) (refl, (refl, tt)) in_table

find_member-has_name_example :
    (find_member janet "wl/wl-list" 64 "outputs" (offsets_terminated (λ m. 8) ("outputs" ∷ []))
      ≡ ok (some (abstract "wl/wl-list" (wraps 72))))
    × (find_member janet "wl/wl-list" 64 "outputs" (offsets_unterminated (λ m. 8) ("outputs" ∷ []))
        ≡ ok (some (abstract "wl/wl-list" (wraps 72))))
unfolding pointer_to_abs_obj_by_name
find_member-has_name_example =
    find_member-has_name janet "wl/wl-list" 64 "outputs" (λ m. 8) ("outputs" ∷ [])

xdg_surface_get_overrun_example :
    IsFault (method_wlr_xdg_surface_get janet headers xdg_surface (keyword "role"))
xdg_surface_get_overrun_example = xdg_surface_get_overrun janet headers xdg_surface "role" refl refl

conn_error_keyword-get_key_def_example :
    (n : String) × (conn_error_keyword headers (pos 7) ≡ ok (keyword n))
    × (get_key_def janet (keyword n) (terminated (xcb_conn_error_rows headers)) ≡ ok 7)
conn_error_keyword-get_key_def_example =
    conn_error_keyword-get_key_def janet headers 7 error_codes last_code

find_signal_name-get_key_def_example : find_signal_name (terminated edges) 2 ≡ ok (some "bottom")
find_signal_name-get_key_def_example =
    find_signal_name-get_key_def janet edges "bottom" 2 distinct bottom
