-- ===== src/KeyDefs/Scan.antt =====
-- `jl_get_key_def` against a lookup in the rows of its table, and the names of positional tables.
use janetland.Prelude.{
  ℕ, zero, suc, ◌+◌, ◌<◌, ◌≡◌, refl, Option, none, some, List, [], ◌∷◌, String, str_eq,
  if◌then◌else◌, length, arith, eq_iff, ◌∙◌, ap, get_elem?, ◌≤◌,
}
use janetland.Janet.{
  Janet, Value, keyword, Result, ok, panic, IsPanic, IsFault, as_keyword, bind-IsPanic,
}
use janetland.KeyDefs.{KeyDef, terminated, find_key, get_key_def, name_at, key_def_count}

-- The key of the first row of that name.
abbrev pub lookup : String → List (String × ℕ) → Option ℕ
lookup kw [] = none
lookup kw ((n, k) ∷ rows) = if str_eq kw n then some k else lookup kw rows

abbrev pub or_unknown : Option ℕ → Result ℕ
or_unknown (some k) = ok k
or_unknown none = panic "unknown key: %v"

pub find_key-terminated :
    (rows : List (String × ℕ)) (kw : String)
    → find_key (terminated rows) kw ≡ or_unknown (lookup kw rows)
unfolding find_key
find_key-terminated [] kw = refl
find_key-terminated ((n, k) ∷ rows) kw = ground (arith, find_key-terminated rows kw)

module _ (J : Janet) where
  pub get_key_def-keyword :
      (kw : String) (defs : List KeyDef) → get_key_def J (keyword kw) defs ≡ find_key defs kw
  unfolding get_key_def
  get_key_def-keyword kw defs = cc (J.getkeyword-IsAccessor.accepts (keyword kw) kw refl)

  pub get_key_def-rejects :
      (v : Value) (defs : List KeyDef) → as_keyword v ≡ none → IsPanic (get_key_def J v defs)
  unfolding get_key_def
  get_key_def-rejects v defs other =
      bind-IsPanic (J.getkeyword v) (find_key defs) (J.getkeyword-IsAccessor.rejects v other)

  -- On a table that ends in its NULL row `jl_get_key_def` gives the key of the first row with the
  -- keyword's name, and panics if there is none.
  pub get_key_def-lookup :
      (rows : List (String × ℕ)) (kw : String)
      → get_key_def J (keyword kw) (terminated rows) ≡ or_unknown (lookup kw rows)
  get_key_def-lookup rows kw =
      get_key_def-keyword kw (terminated rows) ∙ find_key-terminated rows kw

name_at-above :
    (rows : List (String × ℕ)) (i : ℕ) → length rows ≤ i → IsFault (name_at (terminated rows) i)
unfolding name_at
name_at-above [] zero h = tt
name_at-above [] (suc i) h = tt
name_at-above ((n, k) ∷ rows) zero h = absurd (omega arith)
name_at-above ((n, k) ∷ rows) (suc i) h = name_at-above rows i (omega arith)

length-terminated : (rows : List (String × ℕ)) → length (terminated rows) ≡ length rows + 1
length-terminated [] = refl
length-terminated ((n, k) ∷ rows) = omega (arith, length-terminated rows)

-- No name stands in two rows.
abbrev pub Distinct : List (String × ℕ) → Type 0
Distinct [] = Unit
Distinct ((n, k) ∷ rows) = (lookup n rows ≡ none) × Distinct rows

-- The keys count up from `i`, as the constants of a C enum do.
abbrev pub CountsFrom : ℕ → List (String × ℕ) → Type 0
CountsFrom i [] = Unit
CountsFrom i ((n, k) ∷ rows) = (k ≡ i) × CountsFrom (suc i) rows

pub lookup-get_elem? :
    (rows : List (String × ℕ)) (i : ℕ) (n : String) (k : ℕ)
    → Distinct rows
    → get_elem? rows i ≡ some (n, k)
    → lookup n rows ≡ some k
lookup-get_elem? [] i n k d e = cc
lookup-get_elem? ((m, l) ∷ rows) zero n k d e = ground (arith, eq_iff n m)
lookup-get_elem? ((m, l) ∷ rows) (suc i) n k d e =
    ground (arith, eq_iff n m, lookup-get_elem? rows i n k d.1)

get_elem?-CountsFrom :
    (rows : List (String × ℕ)) (i j : ℕ)
    → CountsFrom j rows
    → i < length rows
    → (n : String) × (get_elem? rows i ≡ some (n, i + j))
get_elem?-CountsFrom [] i j c h = absurd (omega arith)
get_elem?-CountsFrom ((m, l) ∷ rows) zero j c h = (m, ground arith)
get_elem?-CountsFrom ((m, l) ∷ rows) (suc i) j c h =
    let (n, e) = get_elem?-CountsFrom rows i (suc j) c.1 (omega arith) in
    (n, e ∙ ap (λ t. some (n, t)) (omega arith))

name_at-terminated :
    (rows : List (String × ℕ)) (i : ℕ) (n : String) (k : ℕ)
    → get_elem? rows i ≡ some (n, k)
    → name_at (terminated rows) i ≡ ok (keyword n)
unfolding name_at
name_at-terminated [] i n k e = cc
name_at-terminated ((m, l) ∷ rows) zero n k e = ground arith
name_at-terminated ((m, l) ∷ rows) (suc i) n k e = name_at-terminated rows i n k e

pub key_def_count-terminated :
    (rows : List (String × ℕ)) → key_def_count (terminated rows) ≡ length rows
unfolding key_def_count
key_def_count-terminated rows = omega (arith, length-terminated rows)

-- Below the guard that the getters put before `defs[v].name`, `v < JL_KEY_DEF_COUNT(defs)`, a table
-- of distinct names whose keys count up from 0 gives a keyword, and that keyword is one that
-- `jl_get_key_def` maps back to `v`.
pub name_at-get_key_def :
    (J : Janet) (rows : List (String × ℕ)) (v : ℕ)
    → Distinct rows
    → CountsFrom 0 rows
    → v < key_def_count (terminated rows)
    → (n : String) × (name_at (terminated rows) v ≡ ok (keyword n))
      × (get_key_def J (keyword n) (terminated rows) ≡ ok v)
name_at-get_key_def J rows v distinct counts h =
    let (n, e) =
      get_elem?-CountsFrom rows v 0 counts (omega (arith, key_def_count-terminated rows)) in
    let e' : get_elem? rows v ≡ some (n, v) = e ∙ ap (λ t. some (n, t)) (omega arith) in
    (
      n,
      name_at-terminated rows v n v e',
      get_key_def-lookup J rows n ∙ ap or_unknown (lookup-get_elem? rows v n v distinct e'),
    )

-- At the guard and above, the read of the name is undefined, whatever the table holds.
pub name_at_overrun :
    (rows : List (String × ℕ)) (v : ℕ)
    → key_def_count (terminated rows) ≤ v
    → IsFault (name_at (terminated rows) v)
name_at_overrun rows v h = name_at-above rows v (omega (arith, key_def_count-terminated rows))
