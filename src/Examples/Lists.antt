-- ===== src/Examples/Lists.antt =====
-- A linked list of two nodes as an array.
use janetland.Prelude.{ℕ, ◌≡◌, ◌<◌, ◌-◌, ◌^◌, refl, some, [], ◌∷◌, arith, ◌==◌, if◌then◌else◌}
use janetland.Janet.{symbol, keyword, abstract, wraps, array, from_list, ok}
use janetland.Jl.{pointer_to_abs_obj}
use janetland.Util.{cfun_wl_list_to_array, find_link_offset, link_offsets, unknown_offset}
use janetland.Util.Chains.{Chain, wl_list_to_array-elements}
use janetland.Examples.{janet, headers}

-- 64, 128, 192 and back.
abbrev next : ℕ → ℕ
next p = if p == 64 then 128 else if p == 128 then 192 else 64

offset_8 :
    find_link_offset (link_offsets headers) "wlr/wlr-output-mode" "link" unknown_offset ≡ ok 8
unfolding find_link_offset link_offsets
offset_8 = refl

chain : Chain next 64 (next 64) (128 ∷ 192 ∷ [])
chain =
    (refl, (λ e. omega (arith, e)), omega arith, (refl, (λ e. omega (arith, e)), omega arith, refl))

offset_fits : 8 < 2 ^ 64 - 1
offset_fits = omega arith

list_fits : 64 < 2 ^ 64
list_fits = omega arith

enough : 2 < 3
enough = omega arith

wl_list_to_array-elements_example :
    cfun_wl_list_to_array 3 janet headers
      (λ p. 0)
      next
      (abstract "wl/wl-list" (wraps 64) ∷ symbol "wlr/wlr-output-mode" ∷ keyword "link" ∷ [])
    ≡ ok (
        some (
          array (
            from_list (
              pointer_to_abs_obj 120 "wlr/wlr-output-mode"
              ∷ pointer_to_abs_obj 184 "wlr/wlr-output-mode"
              ∷ []))))
wl_list_to_array-elements_example =
    wl_list_to_array-elements janet headers (λ p. 0) next "wlr/wlr-output-mode" "link" 8 64 3
      (128 ∷ 192 ∷ []) refl refl offset_8 offset_fits list_fits chain enough
