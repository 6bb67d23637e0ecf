-- ===== src/Wlr/Box.antt =====
-- `struct wlr_box` as a Janet object: the constructor `box` and the methods `get` and `put` of wlr.c.
pub mod Members
pub mod Construct
use janetland.Prelude.{
  ℕ, zero, suc, ◌≡◌, Bool, true, false, Option, none, some, List, [], ◌∷◌, String, bit_and, ◌==◌,
  str_eq, if◌then◌else◌,
}
use janetland.Prelude.Int.{ℤ, pos}
use janetland.Janet.{Janet, Value, keyword, Result, ok, panic, fault, ◌>>=◌, ◌>>◌, guard, argc}
use janetland.Wlr.{Getter, found, missing, keyword_of}

-- `struct wlr_box`; the members are `int`.
pub record WlrBox : Type 0 where
  pub x : ℤ
  pub y : ℤ
  pub width : ℤ
  pub height : ℤ

-- `memset(box, 0, sizeof(*box))`
abbrev pub empty_box : WlrBox
empty_box = record { x = pos 0; y = pos 0; width = pos 0; height = pos 0 }

unfoldable pub method_box_get : Janet → WlrBox → Value → Getter
method_box_get J box key = do
  kw ← keyword_of key
  if str_eq kw "x"
      then found (J.wrap_integer box.x)
      else if str_eq kw "y"
      then found (J.wrap_integer box.y)
      else if str_eq kw "width"
      then found (J.wrap_integer box.width)
      else if str_eq kw "height"
      then found (J.wrap_integer box.height)
      else missing

-- The member that a keyword names, written; `none` where it names none.
unfoldable pub write_member : WlrBox → String → ℤ → Option WlrBox
write_member box kw i =
    if str_eq kw "x"
    then some (record box { x = i })
    else if str_eq kw "y"
    then some (record box { y = i })
    else if str_eq kw "width"
    then some (record box { width = i })
    else if str_eq kw "height"
    then some (record box { height = i })
    else none

abbrev pub written : Option WlrBox → Result WlrBox
written none = panic "unknown key: %v"
written (some box) = ok box

unfoldable pub method_box_put : Janet → WlrBox → Value → Value → Result WlrBox
method_box_put J box key value = do
  kw ← keyword_of key
  elim (J.checkint value) [
    | none ↦ panic "expected a 32-bit signed integer, got %v"
    | some i ↦ written (write_member box kw i)
  ]

-- One round of the loop of `cfun_box`. A keyword that names no member is passed over, with its value.
unfoldable pub box_argument : Janet → WlrBox → String → Value → Result WlrBox
box_argument J box kw value =
    if str_eq kw "x"
    then (do i ← J.getinteger value; ok (record box { x = i }))
    else if str_eq kw "y"
    then (do i ← J.getinteger value; ok (record box { y = i }))
    else if str_eq kw "width"
    then (do i ← J.getinteger value; ok (record box { width = i }))
    else if str_eq kw "height"
    then (do i ← J.getinteger value; ok (record box { height = i }))
    else ok box

-- The loop, at the pairs that are left; a key with no value behind it would be a read past `argv`.
unfoldable pub box_loop : Janet → List Value → WlrBox → Result WlrBox
unfolding box_argument
box_loop J [] box = ok box
box_loop J (k ∷ []) box = fault
box_loop J (k ∷ v ∷ rest) box = do
  kw ← J.getkeyword k
  box' ← box_argument J box kw v
  box_loop J rest box'

unfoldable pub cfun_box : Janet → List Value → Result WlrBox
unfolding box_loop
cfun_box J argv = do
  guard (bit_and (argc argv) 0x01 == 0) "expected even number of arguments, got %d"
  box_loop J argv empty_box
