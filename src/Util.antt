-- ===== src/Util.antt =====
-- util.c: listener data, pointers and linked lists as Janet values. Memory is read through parameters: the
-- Janet value at an address, and the `next` of the list node at an address. Pointers are 64 bits wide.
pub mod Chains
pub mod Data
use janetland.Prelude.{
  ℕ, zero, suc, ◌+◌, ◌-◌, ◌%◌, ◌^◌, Bool, true, false, ◌&&◌, Option, none, some, List, [], ◌∷◌,
  String, ◌==◌, str_eq, if◌then◌else◌,
}
use janetland.Prelude.Int.{ℤ, pos, negsuc}
use janetland.Janet.{
  Janet, Value, nil, array, table, pointer, abstract, cell, from_list, Result, ok, panic, fault,
  ◌>>=◌, ◌>>◌, arg, fixarity,
}
use janetland.Headers.{Headers}
use janetland.KeyDefs.{KeyDef, terminated, get_key_def}
use janetland.Jl.{
  get_abstract_type_by_key, pointer_to_abs_obj, pointer_to_abs_obj_by_key,
  get_abs_obj_pointer_by_name,
}

unfoldable pub cfun_get_listener_data : Janet → (ℕ → Value) → List Value → Result Value
cfun_get_listener_data J value_at argv = do
  fixarity argv 1
  v ← arg argv 0
  data_p ← J.getpointer v
  if data_p == 0 then ok nil else ok (value_at data_p)

unfoldable pub cfun_get_abstract_listener_data : Janet → List Value → Result Value
cfun_get_abstract_listener_data J argv = do
  fixarity argv 2
  v ← arg argv 0
  data_p ← J.getpointer v
  if data_p == 0 then ok nil else (do key ← arg argv 1; pointer_to_abs_obj_by_key J data_p key)

unfoldable pub cfun_pointer_to_abstract_object : Janet → List Value → Result Value
unfolding cfun_get_abstract_listener_data
cfun_pointer_to_abstract_object J argv = cfun_get_abstract_listener_data J argv

unfoldable pub cfun_pointer_to_table : Janet → List Value → Result Value
cfun_pointer_to_table J argv = do
  fixarity argv 1
  v ← arg argv 0
  data_p ← J.getpointer v
  if data_p == 0 then ok nil else ok (table data_p)

-- `jl_link_offset_def_t`; `none` is the NULL type of the last row.
pub record LinkOffsetDef : Type 0 where
  pub type : Option String
  pub member : String
  pub offset : ℕ

abbrev pub link_offset_def : Headers → String → String → String → LinkOffsetDef
link_offset_def H at struct m = record { type = some at; member = m; offset = H.offsetof struct m }

unfoldable pub link_offsets : Headers → List LinkOffsetDef
link_offsets H =
    link_offset_def H "wlr/wlr-output-mode" "wlr_output_mode" "link"
    ∷ link_offset_def H "wlr/wlr-output-cursor" "wlr_output_cursor" "link"
    ∷ link_offset_def H "wlr/wlr-output-layout-output" "wlr_output_layout_output" "link"
    ∷ link_offset_def H "wlr/wlr-xdg-surface" "wlr_xdg_surface" "link"
    ∷ link_offset_def H "wlr/wlr-xdg-popup" "wlr_xdg_popup" "link"
    ∷ link_offset_def H "wlr/wlr-scene-node" "wlr_scene_node" "link"
    ∷ link_offset_def H "wlr/wlr-scene-output" "wlr_scene_output" "link"
    ∷ link_offset_def H "wlr/wlr-xwayland-surface" "wlr_xwayland_surface" "parent_link"
    ∷ record { type = none; member = ""; offset = 0 }
    ∷ []

-- `(uint64_t)-1`
abbrev pub unknown_offset : ℕ
unknown_offset = 2 ^ 64 - 1

-- The scan of the table: a later match writes over an earlier one.
unfoldable pub find_link_offset : List LinkOffsetDef → String → String → ℕ → Result ℕ
find_link_offset [] at member found = fault
find_link_offset (d ∷ defs) at member found = elim d.type [
  | none ↦ ok found
  | some type ↦
      find_link_offset defs at member
        (if str_eq at type && str_eq member d.member then d.offset else found)
]

-- `p - offset` and `p + offset` of pointers.
abbrev pub pointer_sub : ℕ → ℕ → ℕ
pointer_sub p offset = (p + 2 ^ 64 - offset) % 2 ^ 64

abbrev pub pointer_add : ℕ → ℕ → ℕ
pointer_add p offset = (p + offset) % 2 ^ 64

abbrev pub pushed : Value → Option (List Value) → Option (List Value)
pushed v none = none
pushed v (some vs) = some (v ∷ vs)

abbrev pub wrapped : Option (List Value) → Option Value
wrapped none = none
wrapped (some vs) = some (array (from_list vs))

-- The loop over the list, in at most so many rounds; `none` is a loop that has not ended by then.
unfoldable pub array_loop : ℕ → (ℕ → ℕ) → String → ℕ → ℕ → ℕ → Option (List Value)
array_loop zero next at offset list p = none
array_loop (suc fuel) next at offset list p =
    let rest =
      array_loop fuel next at offset list (pointer_sub (next (pointer_add p offset)) offset) in
    if pointer_add p offset == list then some [] else pushed (pointer_to_abs_obj p at) rest

unfoldable pub cfun_wl_list_to_array :
    ℕ → Janet → Headers → (ℕ → ℕ) → (ℕ → ℕ) → List Value → Result (Option Value)
cfun_wl_list_to_array fuel J H first_word next argv = do
  fixarity argv 3
  list_v ← arg argv 0
  list ← get_abs_obj_pointer_by_name J first_word list_v "wl/wl-list"
  at_v ← arg argv 1
  element_at_name ← J.getsymbol at_v
  member_v ← arg argv 2
  element_link_member ← J.getkeyword member_v
  element_at ← get_abstract_type_by_key J at_v
  offset ← find_link_offset (link_offsets H) element_at_name element_link_member unknown_offset
  if offset == unknown_offset
      then panic "unknown abstract type for calculating linked list offset: %v"
      else ok
          (wrapped (array_loop fuel next element_at offset list (pointer_sub (next list) offset)))

unfoldable pub clock_id_rows : Headers → List (String × ℕ)
clock_id_rows H =
    ("realtime", H.const "CLOCK_REALTIME")
    ∷ ("monotonic", H.const "CLOCK_MONOTONIC")
    ∷ ("process-cputime-id", H.const "CLOCK_PROCESS_CPUTIME_ID")
    ∷ ("thread-cputime-id", H.const "CLOCK_THREAD_CPUTIME_ID")
    ∷ []

-- `tspec` is the address of the new block, `clock_gettime` the C library's function.
unfoldable pub cfun_clock_gettime : Janet → Headers → (ℕ → ℕ → ℤ) → ℕ → List Value → Result Value
unfolding clock_id_rows
cfun_clock_gettime J H clock_gettime tspec argv = do
  fixarity argv 1
  v ← arg argv 0
  clk_id ← get_key_def J v (terminated (clock_id_rows H))
  elim (clock_gettime clk_id tspec) [
    | negsuc n ↦ panic "failed to get time with clock id %v: %d"
    | pos n ↦ ok (abstract "util/timespec" (cell tspec))
  ]
