-- ===== src/Examples/Closing.antt =====
-- The stream of an event loop, closed twice, and the functions that wl.c registers.
use janetland.Prelude.{ℕ, ◌≡◌, ◌≢◌, refl, true, All, [], ◌∷◌, ◌||◌, some, arith, ◌==◌, ==_refl}
use janetland.Prelude.Int.{pos, negsuc}
use janetland.Janet.{ok}
use janetland.Wl.{World}
use janetland.Wl.Sources.{stream_value}
use janetland.Wl.Loops.{Libwayland}
use janetland.Wl.Streams.{
  Streams, method_wl_event_loop_stream_close, method_wl_event_loop_stream_dispatch,
}
use janetland.Wl.Closing.{stream_args, closed, stream_close_once}
use janetland.Wl.Registration.{event_loop_cfuns, display_cfuns}
use janetland.Wl.Arities.{IsBound, cfuns-IsBound}
use janetland.Examples.{janet, headers, host, world, Counts}

abbrev libwayland : Libwayland Counts
libwayland = record {
  event_loop_create = λ w. (32, w);
  event_loop_destroy = λ l w. record w { sources = [] };
  event_loop_dispatch = λ l timeout w. (pos 0, w);
  event_loop_dispatch_idle = λ l w. w;
  event_loop_get_fd = λ w l. pos 3;
  list_empty = λ w l. true;
  list_length = λ w l. pos 0;
  display_create = λ w. (48, w);
  display_terminate = λ d w. w;
  display_destroy = λ d w. w;
  display_destroy_clients = λ d w. w;
  display_run = λ d w. w;
  display_add_socket_auto = λ d w. (some "wayland-0", w);
  display_get_event_loop = λ w d. 32;
  display_flush_clients = λ d w. w;
}

abbrev streams : Streams Counts
streams = record {
  is_closed = λ w p. w.shut p;
  new_stream = λ fd w. (80, w);
  stream_close =
      λ p w. record w { outside = record (w.outside) { shut = λ q. p == q || w.outside.shut q } };
  async_start = λ p l w. w;
  schedule = λ f v w. w;
  cancel = λ f v w. w;
  async_end = λ f w. w;
}

marks : (p : ℕ) (v : World Counts) → streams.is_closed (streams.stream_close p v).outside p ≡ true
marks p v = rw (==_refl p) refl

not_null : ◌≢◌ {A = ℕ} 80 0
not_null e = omega (arith, e)

stream_close_once_example :
    (method_wl_event_loop_stream_close janet host libwayland streams
        (stream_args janet host libwayland streams 80 32)
        world
      ≡ (ok (stream_value 80), closed janet host libwayland streams 80 32 world))
    × (method_wl_event_loop_stream_close janet host libwayland streams
          (stream_args janet host libwayland streams 80 32)
          (closed janet host libwayland streams 80 32 world)
        ≡ (ok (stream_value 80), closed janet host libwayland streams 80 32 world))
    × (method_wl_event_loop_stream_dispatch janet host libwayland streams
          (stream_args janet host libwayland streams 80 32)
          (closed janet host libwayland streams 80 32 world)
        ≡ (
          ok (some (janet.wrap_integer (negsuc 0))),
          closed janet host libwayland streams 80 32 world,
        ))
stream_close_once_example =
    stream_close_once janet host libwayland streams 80 32 world not_null marks refl refl refl

cfuns-IsBound_example : All (All IsBound) (
    event_loop_cfuns janet headers host libwayland streams
    ∷ display_cfuns janet headers host libwayland streams
    ∷ [])
cfuns-IsBound_example = cfuns-IsBound janet headers host libwayland streams
