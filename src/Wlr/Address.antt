-- ===== src/Wlr/Address.antt =====
-- `addr_description`, the text of an abstract object, and `method_wlr_abs_obj_compare` of wlr.c. A
-- pointer is a number below 2 ^ 64, stored with its lowest byte first.
use janetland.Janet.{Content}
use janetland.Jl.{word}
use janetland.Prelude.{
  ℕ, zero, suc, ◌+◌, ◌*◌, ◌-◌, ◌/◌, ◌%◌, ◌^◌, ◌≤◌, ◌<◌, ◌≡◌, refl, sym, ap, ◌∙◌, Bool, true, ◌&&◌,
  none, some, List, [], ◌∷◌, ◌++◌, ltb, leb, ◌==◌, ==_iff, if◌then◌else◌, arith, bit_and, get_elem?,
  length, length-append, codes, ◌↔◌,
}
use janetland.Prelude.Int.{ℤ, pos, negsuc}
use janetland.Prelude.Bits.{bit_and-digit, bit_and-zero}

-- `__hex_chars`; the array is longer than its initialiser, and the rest is zero bytes.
abbrev pub hex_chars : List ℕ
hex_chars = codes "0123456789ABCDEF"

-- `__HEX(i)`
unfoldable pub hex : ℕ → ℕ
hex i = elim (get_elem? hex_chars i) [ none ↦ 0 | some c ↦ c ]

-- The loop over the bytes of the pointer, from the byte `i - 1` down.
unfoldable pub addr_loop : ℕ → ℕ → List ℕ
unfolding hex
addr_loop zero pointer = []
addr_loop (suc i) pointer =
    let byte = pointer / 256 ^ i % 256 in
    hex (byte / 16) ∷ hex (bit_and byte 0xf) ∷ addr_loop i pointer

-- What the buffer holds afterwards; 6 is `__POINTSIZE` on a 64-bit machine.
unfoldable pub addr_description : List ℕ → ℕ → List ℕ
unfolding addr_loop
addr_description buffer pointer = buffer ++ b'0' ∷ b'x' ∷ addr_loop 6 pointer

-- `tostring` of every object of wlr.c: the pointer in its block, behind what the buffer holds.
unfoldable pub method_wlr_abs_obj_tostring : (ℕ → ℕ) → Content → List ℕ → List ℕ
unfolding addr_description
method_wlr_abs_obj_tostring first_word p buffer = addr_description buffer (word first_word p)

unfoldable pub method_wlr_abs_obj_compare : ℕ → ℕ → ℤ
method_wlr_abs_obj_compare left right =
    if left == right then pos 0 else if ltb right left then pos 1 else negsuc 0

length-addr_loop : (i pointer : ℕ) → length (addr_loop i pointer) ≡ 2 * i
unfolding addr_loop
length-addr_loop zero pointer = refl
length-addr_loop (suc i) pointer = omega (arith, length-addr_loop i pointer)

-- The description takes 14 bytes, fewer than the 20 that the buffer is grown by.
pub length-addr_description :
    (buffer : List ℕ) (pointer : ℕ)
    → (length (addr_description buffer pointer) ≡ length buffer + 14)
      × (length (addr_description buffer pointer) ≤ length buffer + 20)
unfolding addr_description
length-addr_description buffer pointer =
    omega
      (arith, length-append buffer (b'0' ∷ b'x' ∷ addr_loop 6 pointer), length-addr_loop 6 pointer)

-- The number that a hexadecimal digit in upper case stands for, and that of a row of digits.
abbrev pub digit_value : ℕ → ℕ
digit_value c = if leb c b'9' then c - b'0' else c - b'A' + 10

abbrev pub read_hex : ℕ → List ℕ → ℕ
read_hex acc [] = acc
read_hex acc (c ∷ cs) = read_hex (acc * 16 + digit_value c) cs

abbrev pub read_description : List ℕ → ℕ
read_description (zero_char ∷ x_char ∷ cs) = read_hex 0 cs
read_description (c ∷ []) = 0
read_description [] = 0

-- A test that holds at every number below a bound, by trying each.
holds_below : ℕ → (ℕ → Bool) → Bool
holds_below zero test = true
holds_below (suc n) test = test n && holds_below n test

of-holds_below : (n d : ℕ) (test : ℕ → Bool) → d < n → holds_below n test ≡ true → test d ≡ true
unfolding holds_below
of-holds_below zero d test h all = elim h [ ]
of-holds_below (suc n) d test h all = ground (arith, of-holds_below n d test)

sixteen_digits : holds_below 16 (λ d. digit_value (hex d) == d) ≡ true
unfolding holds_below hex
sixteen_digits = refl

digit_value-hex : (d : ℕ) → d < 16 → digit_value (hex d) ≡ d
digit_value-hex d h =
    (==_iff _ d).0 (of-holds_below 16 d (λ d. digit_value (hex d) == d) h sixteen_digits)

bit_and_fifteen : (x : ℕ) → bit_and x 15 ≡ x % 16
bit_and_fifteen x = omega (
  arith,
  bit_and-digit x 15,
  bit_and-digit (x / 2) 7,
  bit_and-digit (x / 2 / 2) 3,
  bit_and-digit (x / 2 / 2 / 2) 1,
  bit_and-zero (x / 2 / 2 / 2 / 2),
)

read_hex-byte :
    (acc high low : ℕ) (cs : List ℕ)
    → high < 16
    → low < 16
    → read_hex acc (hex high ∷ hex low ∷ cs) ≡ read_hex ((acc * 16 + high) * 16 + low) cs
read_hex-byte acc high low cs h l = rw (digit_value-hex high h, digit_value-hex low l)

read_hex-addr_loop :
    (i acc pointer : ℕ)
    → read_hex acc (addr_loop (suc i) pointer)
      ≡ read_hex (acc * 256 + pointer / 256 ^ i % 256) (addr_loop i pointer)
unfolding addr_loop
read_hex-addr_loop i acc pointer =
    let byte : ℕ = pointer / 256 ^ i % 256 in
    read_hex-byte acc (byte / 16) (bit_and byte 15) (addr_loop i pointer) (omega arith)
      (omega (arith, bit_and_fifteen byte))
    ∙ ap (λ t. read_hex t (addr_loop i pointer)) (omega (arith, bit_and_fifteen byte))

-- Reading the digits of a description back gives the low 48 bits of the pointer.
pub read_description-addr_description :
    (pointer : ℕ) → read_description (addr_description [] pointer) ≡ pointer % 2 ^ 48
unfolding addr_description
read_description-addr_description pointer =
    read_hex-addr_loop 5 0 pointer
    ∙ read_hex-addr_loop 4 _ pointer
    ∙ read_hex-addr_loop 3 _ pointer
    ∙ read_hex-addr_loop 2 _ pointer
    ∙ read_hex-addr_loop 1 _ pointer
    ∙ read_hex-addr_loop 0 _ pointer
    ∙ omega arith

same_bytes : (j p q : ℕ) → j < 6 → p % 2 ^ 48 ≡ q % 2 ^ 48 → p / 256 ^ j % 256 ≡ q / 256 ^ j % 256
same_bytes zero p q h e = omega arith
same_bytes (suc zero) p q h e = omega arith
same_bytes (suc (suc zero)) p q h e = omega arith
same_bytes (suc (suc (suc zero))) p q h e = omega arith
same_bytes (suc (suc (suc (suc zero)))) p q h e = omega arith
same_bytes (suc (suc (suc (suc (suc zero))))) p q h e = omega arith
same_bytes (suc (suc (suc (suc (suc (suc j)))))) p q h e = absurd (omega arith)

same_loop : (i p q : ℕ) → i ≤ 6 → p % 2 ^ 48 ≡ q % 2 ^ 48 → addr_loop i p ≡ addr_loop i q
unfolding addr_loop
same_loop zero p q h e = refl
same_loop (suc i) p q h e = rw (same_bytes i p q (omega arith) e, same_loop i p q (omega arith) e)

-- Two objects read alike exactly when their pointers agree in the low 48 bits.
pub addr_description_iff :
    (p q : ℕ) → (addr_description [] p ≡ addr_description [] q) ↔ (p % 2 ^ 48 ≡ q % 2 ^ 48)
unfolding addr_description
addr_description_iff p q = (
  λ e.
      sym (read_description-addr_description p)
      ∙ ap read_description e
      ∙ read_description-addr_description q,
  λ e. rw (same_loop 6 p q (omega arith) e),
)

-- The comparison of two objects is that of their pointers, on all three outcomes.
pub compare_iff :
    (p q : ℕ)
    → ((method_wlr_abs_obj_compare p q ≡ pos 0) ↔ (p ≡ q))
      × ((method_wlr_abs_obj_compare p q ≡ pos 1) ↔ (q < p))
      × ((method_wlr_abs_obj_compare p q ≡ negsuc 0) ↔ (p < q))
unfolding method_wlr_abs_obj_compare
compare_iff p q = (ground arith, ground arith, ground arith)
