-- ===== src/KeyDefs/Flags.antt =====
-- `jl_get_key_flags` and `jl_get_flag_keys` against each other: sets of names and the bits of words.
use janetland.Prelude.{
  ℕ, ◌≡◌, refl, sym, ap, ◌∙◌, none, some, List, [], ◌∷◌, ◌++◌, String, bit_and, bit_or, ◌==◌,
  ==_iff, Bool-cases, inl, inr, arith, if◌then◌else◌, eq_iff, eq_refl,
}
use mathlib.Core.List.{append-nil, append_assoc}
use janetland.Prelude.Bits.{
  bit_and-zero, bit_or-zero, zero-bit_or, bit_or_assoc, bit_and-bit_or, IsOneBit,
}
use janetland.Janet.{Janet, Value, keyword, array, from_list, to_list, ok, ◌>>=◌}
use janetland.KeyDefs.{
  KeyDef, terminated, get_key_def, key_flags_loop, get_key_flags, flag_keys_loop, get_flag_keys,
}
use janetland.KeyDefs.Scan.{lookup, or_unknown, find_key-terminated, get_key_def-keyword, Distinct}

-- All the bits of a table.
abbrev pub mask : List (String × ℕ) → ℕ
mask [] = 0
mask ((n, k) ∷ rows) = bit_or k (mask rows)

-- Each key is one bit, or none.
abbrev pub OneBitKeys : List (String × ℕ) → Type 0
OneBitKeys [] = Unit
OneBitKeys ((n, k) ∷ rows) = IsOneBit k × OneBitKeys rows

-- The keywords of the rows that share a bit with the flags, in the order of the table.
abbrev pub names_of : ℕ → List (String × ℕ) → List Value
names_of flags [] = []
names_of flags ((n, k) ∷ rows) =
    if bit_and flags k == 0 then names_of flags rows else keyword n ∷ names_of flags rows

pub to_list-from_list : (vs : List Value) → to_list (from_list vs) ≡ vs
to_list-from_list [] = refl
to_list-from_list (v ∷ vs) = ap (◌∷◌ v) (to_list-from_list vs)

flag_keys_loop-names_of :
    (flags : ℕ) (rows : List (String × ℕ)) (keys : List Value)
    → flag_keys_loop flags (terminated rows) keys ≡ ok (keys ++ names_of flags rows)
unfolding flag_keys_loop
flag_keys_loop-names_of flags [] keys = ap ok (sym (append-nil keys))
flag_keys_loop-names_of flags ((n, k) ∷ rows) keys = elim (Bool-cases (bit_and flags k == 0)) [
  | inl e ↦ rw e (flag_keys_loop-names_of flags rows keys)
  | inr e ↦ rw e (
      flag_keys_loop-names_of flags rows (keys ++ keyword n ∷ [])
      ∙ ap ok (append_assoc keys (keyword n ∷ []) (names_of flags rows)))
]

-- On a table that ends in its NULL row `jl_get_flag_keys` gives the names of exactly the rows that
-- share a bit with the flags, in the order of the table.
pub get_flag_keys-names_of :
    (flags : ℕ) (rows : List (String × ℕ))
    → get_flag_keys flags (terminated rows) ≡ ok (names_of flags rows)
unfolding get_flag_keys
get_flag_keys-names_of flags rows = flag_keys_loop-names_of flags rows []

-- Every row of the second table is the one that its name finds in the first.
abbrev Found : List (String × ℕ) → List (String × ℕ) → Type 0
Found all [] = Unit
Found all ((n, k) ∷ rows) = (lookup n all ≡ some k) × Found all rows

Found-cons :
    (m : String) (l : ℕ) (all rows : List (String × ℕ))
    → lookup m all ≡ none
    → Found all rows
    → Found ((m, l) ∷ all) rows
Found-cons m l all [] new f = tt
Found-cons m l all ((n, k) ∷ rows) new f =
    (ground (arith, eq_iff n m), Found-cons m l all rows new f.1)

Found-self : (rows : List (String × ℕ)) → Distinct rows → Found rows rows
Found-self [] d = tt
Found-self ((n, k) ∷ rows) d = (rw (eq_refl n), Found-cons n k rows rows d.0 (Found-self rows d.1))

module _ (J : Janet) where
  key_flags_loop-cons :
      (defs : List KeyDef) (n : String) (k : ℕ) (vs : List Value) (acc : ℕ)
      → get_key_def J (keyword n) defs ≡ ok k
      → key_flags_loop J defs (keyword n ∷ vs) acc ≡ key_flags_loop J defs vs (bit_or acc k)
  unfolding key_flags_loop
  key_flags_loop-cons defs n k vs acc e = rw e

  get_key_def-Found :
      (all : List (String × ℕ)) (n : String) (k : ℕ)
      → lookup n all ≡ some k
      → get_key_def J (keyword n) (terminated all) ≡ ok k
  get_key_def-Found all n k e =
      get_key_def-keyword J n (terminated all) ∙ find_key-terminated all n ∙ ap or_unknown e

  key_flags_loop-names_of :
      (all rows : List (String × ℕ)) (flags acc : ℕ)
      → Found all rows
      → OneBitKeys rows
      → key_flags_loop J (terminated all) (names_of flags rows) acc
        ≡ ok (bit_or acc (bit_and flags (mask rows)))
  unfolding key_flags_loop
  key_flags_loop-names_of all [] flags acc f one =
      ap ok (sym (ap (bit_or acc) (bit_and-zero flags) ∙ bit_or-zero acc))
  key_flags_loop-names_of all ((n, k) ∷ rows) flags acc f one =
      elim (Bool-cases (bit_and flags k == 0)) [
        | inl e ↦
            let empty : bit_and flags k ≡ 0 = (==_iff _ _).0 e in
            rw (e, bit_and-bit_or flags k (mask rows), empty, zero-bit_or)
              (key_flags_loop-names_of all rows flags acc f.1 one.1)
        | inr e ↦
            let whole : bit_and flags k ≡ k = ground (arith, one.0 flags) in
            rw (e, bit_and-bit_or flags k (mask rows), whole)
              (key_flags_loop-cons (terminated all) n k (names_of flags rows) acc
                  (get_key_def-Found all n k f.0)
                ∙ key_flags_loop-names_of all rows flags (bit_or acc k) f.1 one.1
                ∙ ap ok (bit_or_assoc acc k (bit_and flags (mask rows))))
      ]

  -- Round trip of a word of flags through the array of its names, on a table of distinct names and
  -- one-bit keys: `jl_get_key_flags` of what `jl_get_flag_keys` gives is the word less the bits that
  -- the table does not name.
  pub get_key_flags-get_flag_keys :
      (rows : List (String × ℕ)) (flags : ℕ)
      → Distinct rows
      → OneBitKeys rows
      → (do
        keys ← get_flag_keys flags (terminated rows)
        get_key_flags J (array (from_list keys)) (terminated rows))
        ≡ ok (bit_and flags (mask rows))
  unfolding get_key_flags
  get_key_flags-get_flag_keys rows flags distinct one =
      rw (get_flag_keys-names_of flags rows, to_list-from_list (names_of flags rows))
        (key_flags_loop-names_of rows rows flags 0 (Found-self rows distinct) one
          ∙ ap ok (zero-bit_or _))
