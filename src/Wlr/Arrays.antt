-- ===== src/Wlr/Arrays.antt =====
-- Arrays of the structs that the getters of wlr.c read: a pointer and a count, where nothing lies past the end.
use janetland.Prelude.{ℕ, zero, suc, ◌≡◌, refl, Option, none, some, List, [], ◌∷◌, map, length}
use janetland.Janet.{Janet, Value, nil, array, from_list, Result, ok, fault, ◌>>=◌}
use janetland.Wlr.{Getter, found}

-- `for (i = 0; i < count; i++) janet_array_push(arr, wrap(p[i]));`
unfoldable pub push_items : (ℕ → Value) → ℕ → List ℕ → Result (List Value)
push_items wrap zero items = ok []
push_items wrap (suc n) [] = fault
push_items wrap (suc n) (x ∷ items) = do vs ← push_items wrap n items; ok (wrap x ∷ vs)

-- The array as a Janet array, or nil for NULL.
unfoldable pub items_or_nil : (ℕ → Value) → ℕ → Option (List ℕ) → Getter
unfolding push_items
items_or_nil wrap count none = found nil
items_or_nil wrap count (some items) = do
  vs ← push_items wrap count items
  found (array (from_list vs))

unfoldable pub numbers_or_nil : Janet → ℕ → Option (List ℕ) → Getter
unfolding items_or_nil
numbers_or_nil J count items = items_or_nil J.wrap_u64 count items

-- Where the count is the length of the array, each of its items is pushed, in order.
pub push_items_all :
    (wrap : ℕ → Value) (items : List ℕ) → push_items wrap (length items) items ≡ ok (map wrap items)
unfolding push_items
push_items_all wrap [] = refl
push_items_all wrap (x ∷ items) = rw (push_items_all wrap items) refl
