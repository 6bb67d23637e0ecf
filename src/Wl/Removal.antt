-- ===== src/Wl/Removal.antt =====
-- What removing does to the roots of wl.c: the listeners.
use janetland.Prelude.{==_refl, ℕ, ◌≡◌, ◌≢◌, refl, List, [], ◌∷◌, arith}
use janetland.Janet.{Janet, Value, nil, function, cell, ok, arg, fixarity as arity}
use janetland.Headers.{Headers}
use janetland.Action.{Ends, ends_ok, lift-Ends}
use janetland.Wl.{World, Host, block_at, object_result}
use janetland.Wl.Callbacks.{listener_value}
use janetland.Wl.Listeners.{
  cfun_wl_signal_add, cfun_wl_signal_remove, cfun_wl_event_loop_add_destroy_listener, new_listener,
}
use janetland.Wl.Roots.{SameRoots, address_lem}

module _ {W : Type 0} (J : Janet) (H : Headers) (N : Host W) where
  -- The value is a listener, and its removal brings the counts of the roots back to those of `w`.
  abbrev pub Unlistens : World W → Value → World W → Type 0
  Unlistens w v w' =
      (w'' : World W) × (cfun_wl_signal_remove J N (v ∷ []) w' ≡ (ok nil, w''))
      × SameRoots J H N w w''

  signal_remove_lem :
      (w : World W) (p f : ℕ)
      → p ≢ 0
      → block_at w.listeners p ≡ ok (record { notify_fn = f })
      → cfun_wl_signal_remove J N (listener_value p ∷ []) w
        ≡ (ok nil, record w { outside = N.gcunroot (function f) (N.link_remove p w.outside) })
  unfolding cfun_wl_signal_remove
  signal_remove_lem w p f nonzero e =
      let get = (J.getabstract-IsAccessor "wl/listener").accepts (listener_value p) (cell p) refl in
      rw (get, address_lem p nonzero, e) refl

  -- The world after a listener was made and linked by `link`.
  listening :
      (w : World W) (f : ℕ) (link : ℕ → W → W)
      → ((p : ℕ) (o : W) → N.roots (link p o) ≡ N.roots o)
      → Unlistens w (listener_value (N.new_abstract w.outside).0) (record w {
        outside =
            link (N.new_abstract w.outside).0 (N.gcroot (function f) (N.new_abstract w.outside).1);
        listeners = ((N.new_abstract w.outside).0, record { notify_fn = f }) ∷ w.listeners;
      })
  listening w f link kept =
      let p = (N.new_abstract w.outside).0 in
      let rooted = N.gcroot (function f) (N.new_abstract w.outside).1 in
      (
        _,
        signal_remove_lem _ p f (N.new_abstract_nonzero w.outside) (rw (==_refl p) refl),
        λ u.
            rw
              (
                N.roots-gcunroot (function f) u,
                N.roots-link_remove p (link p rooted),
                kept p rooted,
                N.roots-gcroot (function f) u (N.new_abstract w.outside).1,
                N.roots-new_abstract w.outside,
              )
              (omega arith),
      )

  module _ (argv : List Value) (w : World W) where
    start : SameRoots J H N w w
    start u = refl

    signal_add_roots : Ends (Unlistens w) (SameRoots J H N w) (cfun_wl_signal_add J N argv w)
    unfolding cfun_wl_signal_add new_listener
    signal_add_roots = lift-Ends (arity argv 2) _ _ start (λ _ _.
        lift-Ends (object_result J N argv 0 "wl/wl-signal" w) _ _ start (λ s _.
          lift-Ends (arg argv 1) _ _ start (λ fv _.
            lift-Ends (J.getfunction fv) _ _ start
              (λ f _. ends_ok (listening w f (N.signal_add s) (N.roots-signal_add s))))))

    add_destroy_listener_roots :
        Ends (Unlistens w) (SameRoots J H N w) (cfun_wl_event_loop_add_destroy_listener J N argv w)
    unfolding cfun_wl_event_loop_add_destroy_listener new_listener
    add_destroy_listener_roots = lift-Ends (arity argv 2) _ _ start (λ _ _.
        lift-Ends (object_result J N argv 0 "wl/wl-event-loop" w) _ _ start (λ l _.
          lift-Ends (arg argv 1) _ _ start (λ fv _. lift-Ends (J.getfunction fv) _ _ start (λ f _.
            ends_ok (
              listening w f (N.event_loop_add_destroy_listener l)
                (N.roots-add_destroy_listener l))))))

  -- Both functions that make a listener, at any arguments and in any world: where one panics, every
  -- value is rooted as often as before; where it returns, `wl-signal-remove` of the listener succeeds at
  -- once, and then every value is rooted as often as before the listener was made. Of arguments at which
  -- one ends in undefined behaviour nothing is claimed.
  pub signal_remove-add_listener :
      (argv : List Value) (w : World W)
      → Ends (Unlistens w) (SameRoots J H N w) (cfun_wl_signal_add J N argv w)
        × Ends
            (Unlistens w)
            (SameRoots J H N w)
            (cfun_wl_event_loop_add_destroy_listener J N argv w)
  signal_remove-add_listener argv w = (signal_add_roots argv w, add_destroy_listener_roots argv w)
