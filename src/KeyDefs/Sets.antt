-- ===== src/KeyDefs/Sets.antt =====
-- `jl_get_key_flags` on sequences: it reads no row past its table, and a sequence of keywords
-- stands for a set.
use janetland.Prelude.{ℕ, Option, none, some, List, [], ◌∷◌, String, bit_or}
use janetland.Janet.{
  Janet, Value, nil, keyword, tuple, array, to_list, Result, ok, panic, fault, ◌>>=◌, ◌>>◌, IsFault,
}
use janetland.KeyDefs.{terminated, get_key_def, key_flags_loop, get_key_flags}
use janetland.KeyDefs.Scan.{lookup, or_unknown, find_key-terminated, get_key_def-keyword}

or_unknown_no-IsFault : (o : Option ℕ) → ¬ IsFault (or_unknown o)
or_unknown_no-IsFault none h = h
or_unknown_no-IsFault (some k) h = h

module _ (J : Janet) where
  get_key_def_no-IsFault :
      (rows : List (String × ℕ)) (s : String)
      → ¬ IsFault (get_key_def J (keyword s) (terminated rows))
  get_key_def_no-IsFault rows s =
      rw (get_key_def-keyword J s (terminated rows), find_key-terminated rows s)
        (or_unknown_no-IsFault (lookup s rows))

  key_flags_loop_no_fault :
      (rows : List (String × ℕ)) (vs : List Value) (acc : ℕ)
      → IsFault (key_flags_loop J (terminated rows) vs acc)
      → ⊥
  unfolding key_flags_loop
  key_flags_loop_no_fault rows [] acc h = h
  key_flags_loop_no_fault rows (keyword s ∷ vs) acc h =
      go (get_key_def J (keyword s) (terminated rows)) (get_key_def_no-IsFault rows s)
        (λ key. key_flags_loop_no_fault rows vs (bit_or acc key)) h
    where
      go :
          (r : Result ℕ)
          → ¬ IsFault r
          → ((key : ℕ) → ¬ IsFault (key_flags_loop J (terminated rows) vs (bit_or acc key)))
          → ¬ IsFault (r >>= λ key. key_flags_loop J (terminated rows) vs (bit_or acc key))
      go (ok key) h k = k key
      go (panic m) h k = λ f. f
      go fault h k = h
  key_flags_loop_no_fault rows (nil ∷ vs) acc h = h
  key_flags_loop_no_fault rows (_ ∷ vs) acc h = h

  -- Whatever value stands in the slot, `jl_get_key_flags` with a table that ends in its NULL row
  -- reads nothing past the table.
  pub get_key_flags_no-IsFault :
      (rows : List (String × ℕ)) (v : Value) → ¬ IsFault (get_key_flags J v (terminated rows))
  unfolding get_key_flags
  get_key_flags_no-IsFault rows (keyword s) = get_key_def_no-IsFault rows s
  get_key_flags_no-IsFault rows (tuple vs) = key_flags_loop_no_fault rows (to_list vs) 0
  get_key_flags_no-IsFault rows (array vs) = key_flags_loop_no_fault rows (to_list vs) 0
  get_key_flags_no-IsFault rows _ = λ f. f
