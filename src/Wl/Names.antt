-- ===== src/Wl/Names.antt =====
-- The names of POSIX signals: how wl.c reads them when a source is added, and how it finds them again.
use janetland.Prelude.{
  ℕ, ◌≡◌, ◌≢◌, Option, none, some, List, [], ◌∷◌, String, str_eq, arith, eq_iff, All, Bool-cases,
  inl, inr, ◌∙◌, sym,
}
use janetland.Janet.{Janet, keyword, ok}
use janetland.KeyDefs.{terminated, get_key_def}
use janetland.KeyDefs.Scan.{lookup, or_unknown, get_key_def-lookup}
use janetland.Wl.Callbacks.{find_signal_name}

-- No key stands in two rows.
abbrev pub DistinctKeys : List (String × ℕ) → Type 0
DistinctKeys [] = Unit
DistinctKeys ((n, k) ∷ rows) = All (λ row. row.1 ≢ k) rows × DistinctKeys rows

-- A key that a name is found with stands in a row.
lookup-All :
    (P : ℕ → Type 0) (rows : List (String × ℕ)) (kw : String) (k : ℕ)
    → All (λ row. P row.1) rows
    → lookup kw rows ≡ some k
    → P k
lookup-All P [] kw k hs e = cc
lookup-All P ((n, j) ∷ rows) kw k (h, hs) e = elim (Bool-cases (str_eq kw n)) [
  | inl b ↦ let jk : j ≡ k = ground arith in rw jk at h
  | inr b ↦ lookup-All P rows kw k hs (ground arith)
]

find_signal_name-lookup :
    (rows : List (String × ℕ)) (kw : String) (k : ℕ)
    → DistinctKeys rows
    → lookup kw rows ≡ some k
    → find_signal_name (terminated rows) k ≡ ok (some kw)
unfolding find_signal_name
find_signal_name-lookup [] kw k d e = cc
find_signal_name-lookup ((n, j) ∷ rows) kw k (d, ds) e = elim (Bool-cases (str_eq kw n)) [
  | inl b ↦ ground (arith, eq_iff kw n)
  | inr b ↦
      let e' : lookup kw rows ≡ some k = ground arith in
      let k_later = lookup-All (λ m. m ≢ j) rows kw k d e' in
      ground (arith, find_signal_name-lookup rows kw k ds e')
]

-- Where no two names of the table stand for one signal, the number that a name is read as is found
-- again under the same name: the callback of a signal that was added by its name gets that name.
pub find_signal_name-get_key_def :
    (J : Janet) (rows : List (String × ℕ)) (kw : String) (k : ℕ)
    → DistinctKeys rows
    → get_key_def J (keyword kw) (terminated rows) ≡ ok k
    → find_signal_name (terminated rows) k ≡ ok (some kw)
find_signal_name-get_key_def J rows kw k distinct e =
    find_signal_name-lookup rows kw k distinct
      (found (lookup kw rows) (sym (get_key_def-lookup J rows kw) ∙ e))
  where
    found : (o : Option ℕ) → or_unknown o ≡ ok k → o ≡ some k
    found none h = cc
    found (some j) h = cc
