-- ===== src/Wlr/Calls/KeyCodes.antt =====
-- The key codes that `wlr-seat-keyboard-notify-enter` copies to an array on the stack.
use janetland.Prelude.{
  if◌then◌else◌, ℕ, suc, ◌+◌, ◌≤◌, ◌<◌, ◌%◌, ◌^◌, ◌≡◌, refl, ap, true, List, [], ◌∷◌, map, length,
  ltb, leb, inl, inr, Bool-cases, arith, All,
}
use janetland.Janet.{
  Janet, Value, ok, panic, IsSafe, safe_ok, safe_panic, bind-IsSafe, IsSafe-accessor,
}
use janetland.Wlr.Calls.Seats.{key_codes, key_codes_loop}

key_codes_loop-IsSafe :
    (J : Janet) (cap i : ℕ) (items : List Value)
    → i + length items ≤ cap
    → IsSafe (key_codes_loop J cap i items)
unfolding key_codes_loop
key_codes_loop-IsSafe J cap i [] h = safe_ok []
key_codes_loop-IsSafe J cap i (v ∷ items) h =
    let fits : ltb i cap ≡ true = ground arith in
    bind-IsSafe (IsSafe-accessor J.getuinteger64-IsAccessor v) (λ code.
      rw fits (
        bind-IsSafe (key_codes_loop-IsSafe J cap (i + 1) items (omega arith)) (λ codes. safe_ok _)))

-- However many items a sequence has and whatever they are, the loop writes no word past the array: a
-- longer sequence is refused before the first word is written.
pub key_codes-IsSafe : (J : Janet) (cap : ℕ) (items : List Value) → IsSafe (key_codes J cap items)
unfolding key_codes
key_codes-IsSafe J cap items = elim (Bool-cases (leb (length items) cap)) [
  | inl e ↦ rw e (key_codes_loop-IsSafe J cap 0 items (ground arith))
  | inr e ↦ rw e (safe_panic _)
]

-- The words that the array holds after the loop.
abbrev pub words_of : List ℕ → List ℕ
words_of = map (λ code. code % 2 ^ 32)

key_codes_loop-wrap_u64 :
    (J : Janet) (cap i : ℕ) (codes : List ℕ)
    → All (λ code. code < 2 ^ 64) codes
    → i + length codes ≤ cap
    → key_codes_loop J cap i (map J.wrap_u64 codes) ≡ ok (words_of codes)
unfolding key_codes_loop
key_codes_loop-wrap_u64 J cap i [] small h = refl
key_codes_loop-wrap_u64 J cap i (c ∷ codes) small h =
    let fits : ltb i cap ≡ true = ground arith in
    rw
      (
        J.getuinteger64-wrap_u64 c small.0,
        fits,
        key_codes_loop-wrap_u64 J cap (i + 1) codes small.1 (omega arith),
      )
      refl

length-map : (f : ℕ → Value) (codes : List ℕ) → length (map f codes) ≡ length codes
length-map f [] = refl
length-map f (c ∷ codes) = ap suc (length-map f codes)

-- Whatever a sequence holds, copying its key codes to the array of `cap` words does not write past the array.
-- Of 64-bit integers it holds the low 32 bits of each, in order, if there are at most `cap`; more of
-- them are refused.
pub key_codes_fit :
    (J : Janet) (cap : ℕ) (items : List Value) (codes : List ℕ)
    → All (λ code. code < 2 ^ 64) codes
    → IsSafe (key_codes J cap items)
      × (key_codes J cap (map J.wrap_u64 codes) ≡ (
          if leb (length codes) cap
          then ok (words_of codes)
          else panic "expected at most %d key codes, got %d"))
unfolding key_codes
key_codes_fit J cap items codes small = (
  key_codes-IsSafe J cap items,
  elim (Bool-cases (leb (length codes) cap)) [
    | inl e ↦
        rw (length-map J.wrap_u64 codes, e)
          (key_codes_loop-wrap_u64 J cap 0 codes small (ground arith))
    | inr e ↦ rw (length-map J.wrap_u64 codes, e) refl
  ],
)
