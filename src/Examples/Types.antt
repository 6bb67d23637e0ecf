-- ===== src/Examples/Types.antt =====
-- The table of abstract types at the constants and the functions of the examples.
use janetland.Prelude.{ℕ, ◌≢◌, arith, All}
use janetland.AbstractTypes.Safe.{AnswersSafely}
use janetland.AbstractTypes.Getters.{abstract_types, types_get-IsSafe}
use janetland.AbstractTypes.Names.{type_names, ReadBack, KeptApart, Pairwise, types-KeptApart}
use janetland.Examples.{janet, headers}

not_null : ◌≢◌ {A = ℕ} 4096 0
not_null e = omega (arith, e)

types_get-IsSafe_example : All (All (AnswersSafely 4096)) (abstract_types janet headers (λ p. p))
types_get-IsSafe_example = types_get-IsSafe janet headers (λ p. p) 4096 not_null

types-KeptApart_example :
    All (ReadBack janet (λ p. p) 4096) (type_names janet headers (λ p. p))
    × Pairwise (KeptApart janet (λ p. p)) (type_names janet headers (λ p. p))
types-KeptApart_example = types-KeptApart janet headers (λ p. p) 4096 not_null
