-- ===== src/Util/Chains.antt =====
-- `wl-list-to-array` on linked lists.
use janetland.Prelude.{
  ==_refl, ==_differ, ℕ, zero, suc, ◌-◌, ◌^◌, ◌<◌, ◌≡◌, ◌≢◌, refl, true, some, List, [], ◌∷◌,
  String, arith, length,
}
use janetland.Janet.{Janet, Value, symbol, keyword, abstract, wraps, array, from_list, ok}
use janetland.Headers.{Headers}
use janetland.Jl.{
  pointer_to_abs_obj, get_abs_obj_pointer_by_name, get_abs_obj_pointer, get_abstract_type_by_key,
  get_abstract_type_by_name,
}
use janetland.Util.{
  link_offsets, find_link_offset, unknown_offset, pointer_sub, pointer_add, array_loop,
  cfun_wl_list_to_array,
}

-- From `p` the nodes are linked one to the next, and the last to the head `list`.
abbrev pub Chain : (ℕ → ℕ) → ℕ → ℕ → List ℕ → Type 0
Chain next list p [] = p ≡ list
Chain next list p (n ∷ nodes) = (p ≡ n) × (n ≢ list) × (n < 2 ^ 64) × Chain next list (next n) nodes

pointer_add-pointer_sub :
    (p offset : ℕ) → p < 2 ^ 64 → offset < 2 ^ 64 → pointer_add (pointer_sub p offset) offset ≡ p
pointer_add-pointer_sub p offset h k = omega arith

abbrev pub elements : String → ℕ → List ℕ → List Value
elements at offset [] = []
elements at offset (n ∷ nodes) =
    pointer_to_abs_obj (pointer_sub n offset) at ∷ elements at offset nodes

module _ (next : ℕ → ℕ) (at : String) (offset list : ℕ) (offset_fits : offset < 2 ^ 64)
    (list_fits : list < 2 ^ 64) where
  array_loop-elements :
      (fuel p : ℕ) (nodes : List ℕ)
      → Chain next list p nodes
      → length nodes < fuel
      → array_loop fuel next at offset list (pointer_sub p offset) ≡ some (elements at offset nodes)
  unfolding array_loop
  array_loop-elements zero p nodes c h = absurd (omega arith)
  array_loop-elements (suc fuel) p [] c h =
      rw (c, pointer_add-pointer_sub list offset list_fits offset_fits, ==_refl list) refl
  array_loop-elements (suc fuel) p (n ∷ nodes) (e, other, fits, c) h =
      rw
        (
          e,
          pointer_add-pointer_sub n offset fits offset_fits,
          ==_differ n list other,
          array_loop-elements fuel (next n) nodes c (omega arith),
        )
        refl

-- Where both types are registered, the table has an offset other than the largest word for the link in the
-- wanted type, and the head of a list leads through the nodes `nodes`, all at 64-bit addresses, back to itself:
-- `wl-list-to-array` ends in `length nodes + 1` rounds or any more, and gives an array of one object for each
-- node, in order, with the node's address less the offset behind it.
pub wl_list_to_array-elements :
    (J : Janet) (H : Headers) (first_word next : ℕ → ℕ) (at member : String) (offset list fuel : ℕ)
    (nodes : List ℕ)
    → J.registered "wl/wl-list" ≡ true
    → J.registered at ≡ true
    → find_link_offset (link_offsets H) at member unknown_offset ≡ ok offset
    → offset < 2 ^ 64 - 1
    → list < 2 ^ 64
    → Chain next list (next list) nodes
    → length nodes < fuel
    → cfun_wl_list_to_array fuel J H first_word next
        (abstract "wl/wl-list" (wraps list) ∷ symbol at ∷ keyword member ∷ [])
      ≡ ok (some (array (from_list (elements at offset nodes))))
unfolding cfun_wl_list_to_array get_abs_obj_pointer_by_name get_abs_obj_pointer
    get_abstract_type_by_key get_abstract_type_by_name
wl_list_to_array-elements J H first_word next at member offset list fuel nodes list_known known e
      fits list_fits chain enough =
    rw
      (
        list_known,
        known,
        (J.getabstract-IsAccessor "wl/wl-list").accepts (abstract "wl/wl-list" (wraps list))
            (wraps list) refl,
        J.getsymbol-IsAccessor.accepts (symbol at) at refl,
        J.getkeyword-IsAccessor.accepts (keyword member) member refl,
        e,
        ==_differ offset unknown_offset (omega arith),
        array_loop-elements next at offset list (omega arith) list_fits fuel (next list) nodes chain
            enough,
      )
      refl
