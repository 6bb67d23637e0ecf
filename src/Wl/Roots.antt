-- ===== src/Wl/Roots.antt =====
-- The roots that wl.c gives the collector for its event sources.
use janetland.Prelude.{
  ℕ, zero, suc, ◌-◌, ◌≡◌, ◌≢◌, refl, List, [], ◌∷◌, ◌==◌, if◌then◌else◌, arith, inl, inr,
  Bool-cases,
}
use janetland.Prelude.Int.{ℤ}
use janetland.Janet.{address, Janet, Value, function, cell, Result, ok}
use janetland.Headers.{Headers}
use janetland.Action.{map-Ends, Ends}
use janetland.Wl.{EventSource, World, Host, block_at}
use janetland.Wl.Adding.{held_by, Added, Untouched, added}
use janetland.Wl.Sources.{
  source_value, stream_value, cfun_wl_event_source_remove, cfun_wl_event_loop_add_timer,
  cfun_wl_event_loop_add_idle, cfun_wl_event_loop_add_signal, cfun_wl_event_loop_add_fd,
}

pub address_lem : (p : ℕ) → p ≢ 0 → address (cell p) ≡ ok p
address_lem zero h = absurd (h refl)
address_lem (suc p) h = refl

module _ {W : Type 0} (J : Janet) (H : Headers) (N : Host W) where
  -- The world after the removal of a source.
  abbrev pub unrooted : ℕ → Value → W → W
  unrooted p v w = if p == 0 then w else N.gcunroot v w

  abbrev pub removed : EventSource → World W → World W
  removed s w = record w {
    outside = unrooted s.cb_fn (function s.cb_fn) (
        unrooted s.stream (stream_value s.stream)
          (N.event_source_remove s.event_source w.outside).1);
  }

  pub source_remove_lem :
      (w : World W) (p : ℕ) (s : EventSource)
      → p ≢ 0
      → block_at w.sources p ≡ ok s
      → cfun_wl_event_source_remove J H N (source_value p ∷ []) w
        ≡ (ok (J.wrap_integer (N.event_source_remove s.event_source w.outside).0), removed s w)
  unfolding cfun_wl_event_source_remove
  source_remove_lem w p s nonzero e =
      let get =
        (J.getabstract-IsAccessor "wl/event-source").accepts (source_value p) (cell p) refl in
      rw (get, address_lem p nonzero, e)
        (elim (Bool-cases (s.stream == 0)) [
          | inl a ↦
              rw a (elim (Bool-cases (s.cb_fn == 0)) [ inl b ↦ rw b refl | inr b ↦ rw b refl ])
          | inr a ↦
              rw a (elim (Bool-cases (s.cb_fn == 0)) [ inl b ↦ rw b refl | inr b ↦ rw b refl ])
        ])

  -- The counts of the roots are those of the world `w`.
  abbrev pub SameRoots : World W → World W → Type 0
  SameRoots w w' = (u : Value) → N.roots w'.outside u ≡ N.roots w.outside u

  -- The value is an event source, and its removal brings the counts of the roots back to those of `w`.
  abbrev pub Removable : World W → Value → World W → Type 0
  Removable w v w' =
      (i : ℤ) × (w'' : World W) × (cfun_wl_event_source_remove J H N (v ∷ []) w'
        ≡ (ok (J.wrap_integer i), w''))
      × SameRoots w w''

  -- The removal of a source takes away the roots that it holds.
  pub removed_roots :
      (s : EventSource) (w : World W) (u : Value)
      → N.roots (removed s w).outside u ≡ N.roots w.outside u - held_by J H N s u
  removed_roots s w u = elim (Bool-cases (s.stream == 0)) [
    | inl a ↦ rw a (elim (Bool-cases (s.cb_fn == 0)) [
      | inl b ↦ rw (b, N.roots-source_remove s.event_source w.outside) (omega arith)
      | inr b ↦
          rw
            (
              b,
              N.roots-gcunroot (function s.cb_fn) u
                  (N.event_source_remove s.event_source w.outside).1,
              N.roots-source_remove s.event_source w.outside,
            )
            (omega arith)
    ])
    | inr a ↦ rw a (elim (Bool-cases (s.cb_fn == 0)) [
      | inl b ↦
          rw
            (
              b,
              N.roots-gcunroot (stream_value s.stream) u
                  (N.event_source_remove s.event_source w.outside).1,
              N.roots-source_remove s.event_source w.outside,
            )
            (omega arith)
      | inr b ↦
          rw
            (
              b,
              N.roots-gcunroot (function s.cb_fn) u (
                  N.gcunroot (stream_value s.stream)
                    (N.event_source_remove s.event_source w.outside).1),
              N.roots-gcunroot (stream_value s.stream) u
                  (N.event_source_remove s.event_source w.outside).1,
              N.roots-source_remove s.event_source w.outside,
            )
            (omega arith)
    ])
  ]

  Added-Removable :
      (p : ℕ) (w : World W) (v : Value) (w' : World W)
      → p ≢ 0
      → Added J H N p w v w'
      → Removable w v w'
  Added-Removable p w v w' nonzero (s, e, at_p, kept, roots) = (
    (N.event_source_remove s.event_source w'.outside).0,
    removed s w',
    rw e (source_remove_lem w' p s nonzero at_p),
    λ u. rw (removed_roots s w' u, roots u) (omega arith),
  )

  -- Each of the four functions that add an event source, at any arguments and in any world: where it
  -- panics, every value is rooted as often as before; where it returns, `wl-event-source-remove` of what
  -- it returned succeeds at once, and then every value is rooted as often as before the source was added.
  -- Of arguments at which it ends in undefined behaviour nothing is claimed.
  pub source_remove-add_source :
      (argv : List Value) (w : World W)
      → Ends (Removable w) (SameRoots w) (cfun_wl_event_loop_add_fd J H N argv w)
        × Ends (Removable w) (SameRoots w) (cfun_wl_event_loop_add_timer J H N argv w)
        × Ends (Removable w) (SameRoots w) (cfun_wl_event_loop_add_signal J H N argv w)
        × Ends (Removable w) (SameRoots w) (cfun_wl_event_loop_add_idle J H N argv w)
  source_remove-add_source argv w = (ends all.0, ends all.1, ends all.2, ends all.3)
    where
      p : ℕ
      p = (N.new_abstract w.outside).0

      all :
          Ends (Added J H N p w) (Untouched J H N p w) (cfun_wl_event_loop_add_fd J H N argv w)
          × Ends (Added J H N p w) (Untouched J H N p w) (cfun_wl_event_loop_add_timer J H N argv w)
          × Ends
              (Added J H N p w)
              (Untouched J H N p w)
              (cfun_wl_event_loop_add_signal J H N argv w)
          × Ends (Added J H N p w) (Untouched J H N p w) (cfun_wl_event_loop_add_idle J H N argv w)
      all = added J H N argv w

      ends :
          {r : Result Value × World W}
          → Ends (Added J H N p w) (Untouched J H N p w) r
          → Ends (Removable w) (SameRoots w) r
      ends e =
          map-Ends e (λ v w' a. Added-Removable p w v w' (N.new_abstract_nonzero w.outside) a)
            (λ w' u. u.0)
