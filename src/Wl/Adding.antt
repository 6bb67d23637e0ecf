-- ===== src/Wl/Adding.antt =====
-- What the functions of wl.c that add an event source leave behind.
use janetland.Prelude.{
  ==_refl, ==_differ, ℕ, zero, suc, ◌≡◌, ◌≢◌, refl, ap, ◌+◌, sym, true, false, some, List, ◌∷◌,
  String, ◌==◌, if◌then◌else◌, arith, inl, inr, Bool-cases, Option-cases,
}
use janetland.Janet.{
  address, Janet, Value, function, Result, ok, as_function, IsPanic, arg, fixarity as arity,
  ◌>>=◌ as bind,
}
use janetland.KeyDefs.{get_key_flags, terminated}
use janetland.Wl.Tables.{wl_event_rows}
use janetland.Headers.{Headers}
use janetland.Action.{lift-Ends, bind-Ends, give, then_do, ◌>>◌, Ends, ends_ok, ends_panic}
use janetland.Wl.{EventSource, World, call, object_result, Host, run, block_at, count_if}
use janetland.Wl.Sources.{
  source_value, stream_value, cfun_wl_event_loop_add_timer, cfun_wl_event_loop_add_idle,
  cfun_wl_event_loop_add_signal, cfun_wl_event_loop_add_fd, fd_or_stream, signal_number, new_source,
  keep_source, empty_source,
}

function_nonzero : (v : Value) (f : ℕ) → as_function v ≡ some f → f ≢ 0
function_nonzero (function zero) f h z = cc
function_nonzero (function (suc g)) f h z = cc
function_nonzero _ f h z = cc

module _ {W : Type 0} (J : Janet) (H : Headers) (N : Host W) where
  function_found : (v : Value) (f : ℕ) → J.getfunction v ≡ ok f → f ≢ 0
  function_found v f e = elim (Option-cases (as_function v)) [
    | inl h ↦
        let bad : IsPanic (J.getfunction v) = J.getfunction-IsAccessor.rejects v h in
        absurd (rw e at bad)
    | inr (g, h) ↦
        let e' = J.getfunction-IsAccessor.accepts v g h in
        let z = function_nonzero v g h in λ f_zero. z cc
  ]

  -- The roots that a source holds: one of its stream and one of its function.
  abbrev pub root_of : ℕ → Value → Value → ℕ
  root_of p v u = if p == 0 then 0 else count_if (N.same v u)

  abbrev pub held_by : EventSource → Value → ℕ
  held_by s u = root_of s.stream (stream_value s.stream) u + root_of s.cb_fn (function s.cb_fn) u

  -- No source but the one at `p` was written.
  abbrev pub OthersKept : ℕ → World W → World W → Type 0
  OthersKept p w w' = (q : ℕ) → q ≢ p → block_at w'.sources q ≡ block_at w.sources q

  -- The counts of the roots are those of the world `w`, and no other source was written.
  abbrev pub Untouched : ℕ → World W → World W → Type 0
  Untouched p w w' = ((u : Value) → N.roots w'.outside u ≡ N.roots w.outside u) × OthersKept p w w'

  -- The value is the source at `p`, and the roots that it holds are all that is new.
  abbrev pub Added : ℕ → World W → Value → World W → Type 0
  Added p w v w' =
      (s : EventSource) × (v ≡ source_value p)
      × (block_at w'.sources p ≡ ok s)
      × OthersKept p w w'
      × ((u : Value) → N.roots w'.outside u ≡ N.roots w.outside u + held_by s u)

  written :
      (p : ℕ) (s : EventSource) (w w' : World W)
      → OthersKept p w w'
      → OthersKept p w (record w' { sources = (p, s) ∷ w'.sources })
  written p s w w' kept q h = rw (==_differ p q (λ e. h (sym e))) (kept q h)

  -- The end of the functions that add a source.
  keep_source-Added :
      (w w' : World W) (p event_source stream func : ℕ) (message : String)
      → func ≢ 0
      → Untouched p w w'
      → Ends (Added p w) (Untouched p w) (
          then_do
            (λ _.
              if stream == 0
              then give (source_value p)
              else (do run (N.gcroot (stream_value stream)); give (source_value p)))
            (keep_source J H N p event_source stream func message w'))
  unfolding keep_source
  keep_source-Added w w' p event_source stream func message func_nonzero (same, kept) =
      elim (Bool-cases (event_source == 0)) [
        | inl e ↦ rw e (ends_panic (same, written p _ w w' kept))
        | inr e ↦ rw e (elim (Bool-cases (stream == 0)) [
          | inl s ↦ rw s (ends_ok (source, refl, at_p, written p _ w w' kept, without_stream s))
          | inr s ↦ rw s (ends_ok (source, refl, at_p, written p _ w w' kept, with_stream s))
        ])
      ]
    where
      source : EventSource
      source = record { event_source = event_source; stream = stream; cb_fn = func }

      at_p : block_at ((p, source) ∷ w'.sources) p ≡ ok source
      at_p = rw (==_refl p) refl

      without_stream :
          (stream == 0) ≡ true
          → (u : Value)
          → N.roots (N.gcroot (function func) w'.outside) u ≡ N.roots w.outside u + held_by source u
      without_stream s u =
          rw (s, ==_differ func 0 func_nonzero, N.roots-gcroot (function func) u w'.outside, same u)
            (omega arith)

      with_stream :
          (stream == 0) ≡ false
          → (u : Value)
          → N.roots (N.gcroot (stream_value stream) (N.gcroot (function func) w'.outside)) u
            ≡ N.roots w.outside u + held_by source u
      with_stream s u =
          rw
            (
              s,
              ==_differ func 0 func_nonzero,
              N.roots-gcroot (stream_value stream) u (N.gcroot (function func) w'.outside),
              N.roots-gcroot (function func) u w'.outside,
              same u,
            )
            (omega arith)

  module _ (argv : List Value) (w : World W) where
    abbrev p : ℕ
    p = (N.new_abstract w.outside).0

    abbrev started : World W
    unfolding new_source
    started = (new_source J H N w).1

    abbrev called : (W → ℕ × W) → World W
    called g = (call g started).1

    abbrev loop : Result ℕ
    loop = object_result J N argv 0 "wl/wl-event-loop" started

    fresh : Untouched p w started
    unfolding new_source
    fresh = (
      λ u. ap (λ g. g u) (N.roots-new_abstract w.outside),
      written p empty_source w w (λ q h. refl),
    )

    add_timer-Added : Ends (Added p w) (Untouched p w) (cfun_wl_event_loop_add_timer J H N argv w)
    unfolding cfun_wl_event_loop_add_timer new_source
    add_timer-Added =
        lift-Ends (arity argv 2) _ _ (λ u. refl, λ q h. refl)
          (λ _ _. lift-Ends loop _ _ fresh (λ l _. lift-Ends (arg argv 1) _ _ fresh (λ fv _.
            lift-Ends (J.getfunction fv) _ _ fresh (λ f found.
              keep_source-Added w (called (N.event_loop_add_timer l p)) p _ 0 f _
                (function_found fv f found)
                (
                  λ u. rw (N.roots-add_timer l p (N.new_abstract w.outside).1) (fresh.0 u),
                  fresh.1,
                )))))

    add_idle-Added : Ends (Added p w) (Untouched p w) (cfun_wl_event_loop_add_idle J H N argv w)
    unfolding cfun_wl_event_loop_add_idle new_source
    add_idle-Added =
        lift-Ends (arity argv 2) _ _ (λ u. refl, λ q h. refl)
          (λ _ _. lift-Ends loop _ _ fresh (λ l _. lift-Ends (arg argv 1) _ _ fresh (λ fv _.
            lift-Ends (J.getfunction fv) _ _ fresh (λ f found.
              keep_source-Added w (called (N.event_loop_add_idle l p)) p _ 0 f _
                (function_found fv f found)
                (
                  λ u. rw (N.roots-add_idle l p (N.new_abstract w.outside).1) (fresh.0 u),
                  fresh.1,
                )))))

    add_signal-Added : Ends (Added p w) (Untouched p w) (cfun_wl_event_loop_add_signal J H N argv w)
    unfolding cfun_wl_event_loop_add_signal new_source
    add_signal-Added =
        lift-Ends (arity argv 3) _ _ (λ u. refl, λ q h. refl)
          (λ _ _. lift-Ends loop _ _ fresh (λ l _. lift-Ends (arg argv 1) _ _ fresh (λ sv _.
            lift-Ends (signal_number J H N sv) _ _ fresh (λ n _.
              lift-Ends (arg argv 2) _ _ fresh (λ fv _.
                lift-Ends (J.getfunction fv) _ _ fresh (λ f found.
                  keep_source-Added w (called (N.event_loop_add_signal l n p)) p _ 0 f _
                    (function_found fv f found)
                    (
                      λ u. rw (N.roots-add_signal l n p (N.new_abstract w.outside).1) (fresh.0 u),
                      fresh.1,
                    )))))))

    fd_or_stream_added :
        Ends (λ _ w'. Untouched p w w') (Untouched p w) (fd_or_stream J H N argv p started)
    unfolding fd_or_stream
    fd_or_stream_added = lift-Ends (arg argv 1) _ _ fresh (λ v _.
        elim (Option-cases (J.checkint v)) [
          | inr (i, e) ↦ rw e (lift-Ends (J.getinteger v) _ _ fresh (λ fd _. ends_ok fresh))
          | inl e ↦ rw e (
              lift-Ends (bind (arg argv 1) (λ x. bind (J.getabstract "core/stream" x) address)) _ _
                fresh (λ stream _. ends_ok (fresh.0, written p _ w started fresh.1)))
        ])

    add_fd-Added : Ends (Added p w) (Untouched p w) (cfun_wl_event_loop_add_fd J H N argv w)
    unfolding cfun_wl_event_loop_add_fd new_source
    add_fd-Added =
        lift-Ends (arity argv 4) _ _ (λ u. refl, λ q h. refl)
          (λ _ _. lift-Ends loop _ _ fresh (λ l _.
            bind-Ends _ _ fd_or_stream_added (λ w' same. same)
              (λ fs w' same. lift-Ends (arg argv 2) _ _ same (λ mv _.
                lift-Ends (get_key_flags J mv (terminated (wl_event_rows H))) _ _ same (λ mask _.
                  lift-Ends (arg argv 3) _ _ same (λ fv _.
                    lift-Ends (J.getfunction fv) _ _ same (λ f found.
                      keep_source-Added w (call (N.event_loop_add_fd l fs.0 mask p) w').1 p _ fs.1 f
                        _ (function_found fv f found)
                        (
                          λ u. rw (N.roots-add_fd l fs.0 mask p w'.outside) (same.0 u),
                          same.1,
                        ))))))))

    -- The four functions that add an event source.
    pub added :
        Ends (Added p w) (Untouched p w) (cfun_wl_event_loop_add_fd J H N argv w)
        × Ends (Added p w) (Untouched p w) (cfun_wl_event_loop_add_timer J H N argv w)
        × Ends (Added p w) (Untouched p w) (cfun_wl_event_loop_add_signal J H N argv w)
        × Ends (Added p w) (Untouched p w) (cfun_wl_event_loop_add_idle J H N argv w)
    added = (add_fd-Added, add_timer-Added, add_signal-Added, add_idle-Added)
