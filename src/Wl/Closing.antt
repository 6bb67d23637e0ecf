-- ===== src/Wl/Closing.antt =====
-- The streams of wl.c once they are closed.
use janetland.Prelude.{ℕ, ◌≡◌, ◌≢◌, refl, true, false, some, List, [], ◌∷◌}
use janetland.Prelude.Int.{negsuc}
use janetland.Janet.{Janet, Value, abstract, cell, wraps, ok}
use janetland.Jl.{get_abs_obj_pointer}
use janetland.Wl.{World, Host}
use janetland.Wl.Sources.{stream_value}
use janetland.Wl.Roots.{address_lem}
use janetland.Wl.Loops.{Libwayland}
use janetland.Wl.Streams.{
  Streams, is_negative, int_eq, method_wl_event_loop_stream_close,
  method_wl_event_loop_stream_dispatch,
}

module _ {W : Type 0} (J : Janet) (N : Host W) (L : Libwayland W) (S : Streams W) where
  -- The arguments of both methods of a stream.
  abbrev pub stream_args : ℕ → ℕ → List Value
  stream_args stream l = stream_value stream ∷ abstract "wl/wl-event-loop" (wraps l) ∷ []

  -- The world after an open stream was closed.
  abbrev pub closed : ℕ → ℕ → World W → World W
  closed stream l w = S.stream_close stream (L.event_loop_destroy l w)

  -- Closing an open stream with the event loop of its file descriptor, where Janet marks a stream that it
  -- closes: the loop is destroyed and the stream is closed. From then on closing it again and dispatching on it
  -- return, the latter -1, and change nothing; the loop is not destroyed a second time.
  pub stream_close_once :
      (stream l : ℕ) (w : World W)
      → stream ≢ 0
      → ((p : ℕ) (v : World W) → S.is_closed (S.stream_close p v).outside p ≡ true)
      → S.is_closed w.outside stream ≡ false
      → is_negative (N.stream_handle w.outside stream) ≡ false
      → int_eq (L.event_loop_get_fd w.outside l) (N.stream_handle w.outside stream) ≡ true
      → (method_wl_event_loop_stream_close J N L S (stream_args stream l) w
          ≡ (ok (stream_value stream), closed stream l w))
        × (method_wl_event_loop_stream_close J N L S (stream_args stream l) (closed stream l w)
            ≡ (ok (stream_value stream), closed stream l w))
        × (method_wl_event_loop_stream_dispatch J N L S (stream_args stream l) (closed stream l w)
            ≡ (ok (some (J.wrap_integer (negsuc 0))), closed stream l w))
  unfolding method_wl_event_loop_stream_close method_wl_event_loop_stream_dispatch
      get_abs_obj_pointer
  stream_close_once stream l w nonzero marks is_open valid its =
      let stream_get =
        (J.getabstract-IsAccessor "core/stream").accepts (stream_value stream) (cell stream) refl in
      let loop_get =
        (J.getabstract-IsAccessor "wl/wl-event-loop").accepts
          (abstract "wl/wl-event-loop" (wraps l)) (wraps l) refl in
      let at = address_lem stream nonzero in
      (
        rw (stream_get, at, loop_get, is_open, valid, its) refl,
        rw (stream_get, at, loop_get, marks stream (L.event_loop_destroy l w)) refl,
        rw (stream_get, at, loop_get, marks stream (L.event_loop_destroy l w)) refl,
      )
