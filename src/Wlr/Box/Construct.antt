-- ===== src/Wlr/Box/Construct.antt =====
-- The constructor `box` over the sequences of its arguments.
use janetland.Prelude.{
  ◌%◌, ◌≡◌, refl, List, [], ◌∷◌, String, str_eq, if◌then◌else◌, arith, bit_and, ◌==◌, inl, inr,
  Bool-cases, All,
}
use janetland.Prelude.Bits.{argc_even}
use janetland.Prelude.Int.{ℤ, IsInt32}
use janetland.Janet.{
  Janet, Value, keyword, ok, argc, IsSafe, safe_ok, safe_panic, bind-IsSafe, if-IsSafe,
  IsSafe-accessor,
}
use janetland.Wlr.Box.{WlrBox, empty_box, box_argument, box_loop, cfun_box}
use janetland.Wlr.Box.Members.{with_member, is_member, member_cases}

-- `:name value :name value ...`
abbrev pub arguments : Janet → List (String × ℤ) → List Value
arguments J [] = []
arguments J ((kw, i) ∷ ps) = keyword kw ∷ J.wrap_integer i ∷ arguments J ps

-- The value of the last pair with the name, and `i` where no pair has it.
abbrev pub last_of : String → List (String × ℤ) → ℤ → ℤ
last_of name [] i = i
last_of name ((kw, j) ∷ ps) i = last_of name ps (if str_eq kw name then j else i)

abbrev pub box_of : List (String × ℤ) → WlrBox → WlrBox
box_of ps box = record {
  x = last_of "x" ps box.x;
  y = last_of "y" ps box.y;
  width = last_of "width" ps box.width;
  height = last_of "height" ps box.height;
}

box_argument-with_member :
    (J : Janet) (box : WlrBox) (kw : String) (value : Value) (i : ℤ)
    → J.getinteger value ≡ ok i
    → box_argument J box kw value ≡ ok (with_member box kw i)
unfolding box_argument
box_argument-with_member J box kw value i e = elim (Bool-cases (is_member kw)) [
  | inl h ↦ elim (member_cases kw h) [
    | inl k ↦ rw k (rw e)
    | inr (inl k) ↦ rw k (rw e)
    | inr (inr (inl k)) ↦ rw k (rw e)
    | inr (inr (inr k)) ↦ rw k (rw e)
  ]
  | inr h ↦ ground arith
]

box_loop-box_of :
    (J : Janet) (ps : List (String × ℤ)) (box : WlrBox)
    → All (λ p. IsInt32 p.1) ps
    → box_loop J (arguments J ps) box ≡ ok (box_of ps box)
unfolding box_loop
box_loop-box_of J [] box hs = refl
box_loop-box_of J ((kw, i) ∷ ps) box (h, hs) =
    let k = J.getkeyword-IsAccessor.accepts (keyword kw) kw refl in
    let e = J.getinteger-IsAccessor.accepts (J.wrap_integer i) i (J.checkint-wrap_integer i h) in
    rw (
      k,
      box_argument-with_member J box kw (J.wrap_integer i) i e,
      box_loop-box_of J ps (with_member box kw i) hs,
    )

arguments_even : (J : Janet) (ps : List (String × ℤ)) → argc (arguments J ps) % 2 ≡ 0
arguments_even J [] = refl
arguments_even J (p ∷ ps) = omega (arith, arguments_even J ps)

-- On keywords with 32-bit integers behind them, `box` returns a box. Each of its members is the value
-- of the last pair of that name, 0 where there is none, and pairs of any other name count for nothing.
pub cfun_box-box_of :
    (J : Janet) (ps : List (String × ℤ))
    → All (λ p. IsInt32 p.1) ps
    → cfun_box J (arguments J ps) ≡ ok (box_of ps empty_box)
unfolding cfun_box
cfun_box-box_of J ps hs =
    rw (
      (argc_even (argc (arguments J ps))).0 (arguments_even J ps),
      box_loop-box_of J ps empty_box hs,
    )

box_argument-IsSafe :
    (J : Janet) (box : WlrBox) (kw : String) (v : Value) → IsSafe (box_argument J box kw v)
unfolding box_argument
box_argument-IsSafe J box kw v =
    let get = IsSafe-accessor J.getinteger-IsAccessor v in
    if-IsSafe (str_eq kw "x") (bind-IsSafe get (λ i. safe_ok _)) (
      if-IsSafe (str_eq kw "y") (bind-IsSafe get (λ i. safe_ok _)) (
        if-IsSafe (str_eq kw "width") (bind-IsSafe get (λ i. safe_ok _))
          (if-IsSafe (str_eq kw "height") (bind-IsSafe get (λ i. safe_ok _)) (safe_ok box))))

box_loop-IsSafe :
    (J : Janet) (vs : List Value) (box : WlrBox) → argc vs % 2 ≡ 0 → IsSafe (box_loop J vs box)
unfolding box_loop
box_loop-IsSafe J [] box h = safe_ok box
box_loop-IsSafe J (k ∷ []) box h = absurd (omega arith)
box_loop-IsSafe J (k ∷ v ∷ rest) box h =
    bind-IsSafe (IsSafe-accessor J.getkeyword-IsAccessor k) (λ kw.
      bind-IsSafe (box_argument-IsSafe J box kw v)
        (λ box'. box_loop-IsSafe J rest box' (omega arith)))

-- Whatever its arguments are, and however many, `box` returns or panics; it reads none past the last.
pub cfun_box-IsSafe : (J : Janet) (argv : List Value) → IsSafe (cfun_box J argv)
unfolding cfun_box
cfun_box-IsSafe J argv = elim (Bool-cases (bit_and (argc argv) 0x01 == 0)) [
  | inl e ↦ rw e (box_loop-IsSafe J argv empty_box ((argc_even (argc argv)).1 e))
  | inr e ↦ rw e (safe_panic _)
]
