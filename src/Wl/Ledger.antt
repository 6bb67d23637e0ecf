-- ===== src/Wl/Ledger.antt =====
-- The roots of wl.c's event sources over whole runs of a program, with the sources that are not removed yet.
use janetland.Prelude.{
  ℕ, ◌+◌, ◌≡◌, ◌≢◌, refl, sym, ap, ◌∙◌, List, [], ◌∷◌, ◌++◌, String, All, arith,
}
use mathlib.Core.Path.{subst}
use janetland.Janet.{Janet, Value, Result, ok, panic}
use janetland.Headers.{Headers}
use janetland.Action.{Action, Ends, Post, Post-Ends}
use janetland.Wl.{EventSource, World, Host, block_at}
use janetland.Wl.Sources.{
  source_value, cfun_wl_event_source_remove, cfun_wl_event_loop_add_timer,
  cfun_wl_event_loop_add_idle, cfun_wl_event_loop_add_signal, cfun_wl_event_loop_add_fd,
}
use janetland.Wl.Adding.{held_by, OthersKept, Added, Untouched, added}
use janetland.Wl.Roots.{removed, removed_roots, source_remove_lem}

module _ {W : Type 0} (J : Janet) (H : Headers) (N : Host W) where
  -- The functions that add an event source.
  pub data IsAdder : (List Value → Action (World W) Value) → Type 0 where
    adds_fd : IsAdder (cfun_wl_event_loop_add_fd J H N)
    adds_timer : IsAdder (cfun_wl_event_loop_add_timer J H N)
    adds_signal : IsAdder (cfun_wl_event_loop_add_signal J H N)
    adds_idle : IsAdder (cfun_wl_event_loop_add_idle J H N)

  -- The sources that were added and not removed, by their addresses, and the roots that they hold together.
  abbrev pub Outstanding : Type 0
  Outstanding = List (ℕ × EventSource)

  abbrev pub held : Outstanding → Value → ℕ
  held [] u = 0
  held ((p, s) ∷ l) u = held_by J H N s u + held l u

  -- Janet gives a new object an address that no outstanding source has.
  abbrev pub IsFresh : World W → Outstanding → Type 0
  IsFresh w l = All {A = ℕ × EventSource} (λ e. e.0 ≢ (N.new_abstract w.outside).0) l

  -- A run from the world `w`: calls that add a source, that fail to, and that remove an outstanding one, in any
  -- order, with anything between them that changes no count and no source.
  pub data Reaches (w : World W) : World W → Outstanding → Type 0 where
    start : Reaches w w []
    add :
        {w1 : World W} {l : Outstanding} {f : List Value → Action (World W) Value}
        → IsAdder f
        → (argv : List Value) (v : Value) (w2 : World W) (s : EventSource) → IsFresh w1 l
        → f argv w1 ≡ (ok v, w2)
        → block_at w2.sources (N.new_abstract w1.outside).0 ≡ ok s
        → Reaches w w1 l
        → Reaches w w2 (((N.new_abstract w1.outside).0, s) ∷ l)
    refuse :
        {w1 : World W} {l : Outstanding} {f : List Value → Action (World W) Value}
        → IsAdder f
        → (argv : List Value) (m : String) (w2 : World W) → IsFresh w1 l
        → f argv w1 ≡ (panic m, w2)
        → Reaches w w1 l
        → Reaches w w2 l
    remove :
        {w1 : World W} (before : Outstanding) (p : ℕ) (s : EventSource) (after : Outstanding)
        → (v : Value) (w2 : World W)
        → cfun_wl_event_source_remove J H N (source_value p ∷ []) w1 ≡ (ok v, w2)
        → Reaches w w1 (before ++ (p, s) ∷ after)
        → Reaches w w2 (before ++ after)
    elsewhere :
        {w1 : World W} {l : Outstanding} (w2 : World W)
        → ((u : Value) → N.roots w2.outside u ≡ N.roots w1.outside u)
        → ((p : ℕ) → block_at w2.sources p ≡ block_at w1.sources p)
        → Reaches w w1 l
        → Reaches w w2 l

  -- An outstanding source stands in the store as it was added.
  abbrev IsStored : World W → Outstanding → Type 0
  IsStored w l = All {A = ℕ × EventSource} (λ e. (e.0 ≢ 0) × (block_at w.sources e.0 ≡ ok e.1)) l

  abbrev IsBalanced : World W → World W → Outstanding → Type 0
  IsBalanced w w1 l =
      ((u : Value) → N.roots w1.outside u ≡ N.roots w.outside u + held l u) × IsStored w1 l

  adder-Ends :
      {f : List Value → Action (World W) Value} (argv : List Value) (w : World W)
      → IsAdder f
      → Ends
          (Added J H N (N.new_abstract w.outside).0 w)
          (Untouched J H N (N.new_abstract w.outside).0 w)
          (f argv w)
  adder-Ends argv w adds_fd = (added J H N argv w).0
  adder-Ends argv w adds_timer = (added J H N argv w).1
  adder-Ends argv w adds_signal = (added J H N argv w).2
  adder-Ends argv w adds_idle = (added J H N argv w).3

  IsStored-on :
      (w w' : World W) (p : ℕ) (l : Outstanding)
      → OthersKept J H N p w w'
      → All {A = ℕ × EventSource} (λ e. e.0 ≢ p) l
      → IsStored w l
      → IsStored w' l
  IsStored-on w w' p [] kept fresh stored = tt
  IsStored-on w w' p ((q, s) ∷ l) kept fresh stored =
      ((stored.0.0, kept q fresh.0 ∙ stored.0.1), IsStored-on w w' p l kept fresh.1 stored.1)

  IsStored-same :
      (w w' : World W) (l : Outstanding)
      → ((p : ℕ) → block_at w'.sources p ≡ block_at w.sources p)
      → IsStored w l
      → IsStored w' l
  IsStored-same w w' [] kept stored = tt
  IsStored-same w w' ((q, s) ∷ l) kept stored =
      ((stored.0.0, kept q ∙ stored.0.1), IsStored-same w w' l kept stored.1)

  held-append :
      (before : Outstanding) (p : ℕ) (s : EventSource) (after : Outstanding) (u : Value)
      → held (before ++ (p, s) ∷ after) u ≡ held_by J H N s u + held (before ++ after) u
  held-append [] p s after u = refl
  held-append ((q, t) ∷ before) p s after u = omega (arith, held-append before p s after u)

  IsStored-split :
      (w : World W) (before : Outstanding) (p : ℕ) (s : EventSource) (after : Outstanding)
      → IsStored w (before ++ (p, s) ∷ after)
      → (p ≢ 0) × (block_at w.sources p ≡ ok s) × IsStored w (before ++ after)
  IsStored-split w [] p s after h = (h.0.0, h.0.1, h.1)
  IsStored-split w ((q, t) ∷ before) p s after h =
      let (nonzero, at_p, rest) = IsStored-split w before p s after h.1 in
      (nonzero, at_p, (h.0, rest))

  -- What a call that adds a source, or fails to, leaves behind.
  adder-Post :
      {f : List Value → Action (World W) Value} {r : Result Value × World W} (argv : List Value)
      (w : World W)
      → IsAdder f
      → f argv w ≡ r
      → Post
          (Added J H N (N.new_abstract w.outside).0 w)
          (Untouched J H N (N.new_abstract w.outside).0 w)
          r
  adder-Post argv w adder e = rw (← e) (Post-Ends _ _ (adder-Ends argv w adder))

  Reaches-IsBalanced : {w w1 : World W} {l : Outstanding} → Reaches w w1 l → IsBalanced w w1 l
  Reaches-IsBalanced start = (λ u. omega arith, tt)
  Reaches-IsBalanced (elsewhere {w1 = w1} {l = l} w2 same kept r) =
      let (roots, stored) = Reaches-IsBalanced r in
      (λ u. same u ∙ roots u, IsStored-same w1 w2 l kept stored)
  Reaches-IsBalanced (refuse {w1 = w1} {l = l} adder argv m w2 fresh e r) =
      let (roots, stored) = Reaches-IsBalanced r in
      let (same, kept) = adder-Post argv w1 adder e in
      (λ u. same u ∙ roots u, IsStored-on w1 w2 _ l kept fresh stored)
  Reaches-IsBalanced (add {w1 = w1} {l = l} adder argv v w2 s fresh e at_p r) =
      let (roots, stored) = Reaches-IsBalanced r in
      let (t, is, at_t, kept, more) = adder-Post argv w1 adder e in
      let same : t ≡ s = cc (at_t, at_p) in
      (
        λ u. omega (arith, more u, roots u, ap (λ x. held_by J H N x u) same),
        (
          (N.new_abstract_nonzero w1.outside, at_p),
          IsStored-on w1 w2 (N.new_abstract w1.outside).0 l kept fresh stored,
        ),
      )
  Reaches-IsBalanced {w = w} (remove {w1 = w1} before p s after v w2 e r) =
      let (roots, stored) = Reaches-IsBalanced r in
      let (nonzero, at_p, rest) = IsStored-split w1 before p s after stored in
      let gone : removed J H N s w1 ≡ w2 =
        ap (λ x. x.1) (sym (source_remove_lem J H N w1 p s nonzero at_p) ∙ e) in
      subst (λ x. IsBalanced w x (before ++ after)) gone
        (
          λ u. omega (arith, removed_roots J H N s w1 u, roots u, held-append before p s after u),
          rest,
        )

  -- From any world and over any run of calls that add event sources of the four kinds, that fail to, and that
  -- remove one of those that are left, in any order: every value is rooted as often as at the start, and
  -- once more for each source that is left and holds it as its function or its stream. So when all sources are
  -- removed, the counts are those of the start.
  pub Reaches-roots_held :
      {w w1 : World W} {l : Outstanding} (u : Value)
      → Reaches w w1 l
      → N.roots w1.outside u ≡ N.roots w.outside u + held l u
  Reaches-roots_held u r = (Reaches-IsBalanced r).0 u
