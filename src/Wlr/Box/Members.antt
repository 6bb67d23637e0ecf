-- ===== src/Wlr/Box/Members.antt =====
-- The setter of a box against its getter.
use janetland.Prelude.{
  ◌≡◌, refl, Bool, true, false, ◌||◌, some, String, str_eq, if◌then◌else◌, arith, eq_iff, ◌⊎◌, inl,
  inr,
}
use janetland.Prelude.Int.{ℤ}
use janetland.Janet.{Janet, Value, keyword, ok}
use janetland.Wlr.{found}
use janetland.Wlr.Box.{WlrBox, method_box_get, method_box_put, write_member}

-- The box after the write; a name of no member writes nothing.
abbrev pub with_member : WlrBox → String → ℤ → WlrBox
with_member box kw i = record {
  x = if str_eq kw "x" then i else box.x;
  y = if str_eq kw "y" then i else box.y;
  width = if str_eq kw "width" then i else box.width;
  height = if str_eq kw "height" then i else box.height;
}

abbrev pub is_member : String → Bool
is_member kw = str_eq kw "x" || str_eq kw "y" || str_eq kw "width" || str_eq kw "height"

pub member_cases :
    (kw : String) → is_member kw ≡ true → (kw ≡ "x") ⊎ (kw ≡ "y") ⊎ (kw ≡ "width") ⊎ (kw ≡ "height")
member_cases kw h =
    ground (arith, eq_iff kw "x", eq_iff kw "y", eq_iff kw "width", eq_iff kw "height")

write_member-with_member :
    (box : WlrBox) (kw : String) (i : ℤ)
    → is_member kw ≡ true
    → write_member box kw i ≡ some (with_member box kw i)
unfolding write_member
write_member-with_member box kw i member = elim (member_cases kw member) [
  | inl h ↦ rw h refl
  | inr (inl h) ↦ rw h refl
  | inr (inr (inl h)) ↦ rw h refl
  | inr (inr (inr h)) ↦ rw h refl
]

box_get-with_member :
    (J : Janet) (box : WlrBox) (kw other : String) (i : ℤ)
    → is_member kw ≡ true
    → str_eq other kw ≡ false
    → (method_box_get J (with_member box kw i) (keyword kw) ≡ found (J.wrap_integer i))
      × (method_box_get J (with_member box kw i) (keyword other)
          ≡ method_box_get J box (keyword other))
unfolding method_box_get
box_get-with_member J box kw other i member differ = elim (member_cases kw member) [
  | inl h ↦ rw h (refl, rw (rw h at differ))
  | inr (inl h) ↦ rw h (refl, rw (rw h at differ))
  | inr (inr (inl h)) ↦ rw h (refl, rw (rw h at differ))
  | inr (inr (inr h)) ↦ rw h (refl, rw (rw h at differ))
]

-- A `put` of an integer under one of the four keywords returns; the same keyword then reads as that
-- integer, and any other keyword reads as before.
pub box_put-box_get :
    (J : Janet) (box : WlrBox) (kw other : String) (value : Value) (i : ℤ)
    → J.checkint value ≡ some i
    → is_member kw ≡ true
    → str_eq other kw ≡ false
    → (method_box_put J box (keyword kw) value ≡ ok (with_member box kw i))
      × (method_box_get J (with_member box kw i) (keyword kw) ≡ found (J.wrap_integer i))
      × (method_box_get J (with_member box kw i) (keyword other)
          ≡ method_box_get J box (keyword other))
unfolding method_box_put
box_put-box_get J box kw other value i e member differ =
    let gets = box_get-with_member J box kw other i member differ in
    (rw (e, write_member-with_member box kw i member), gets.0, gets.1)
