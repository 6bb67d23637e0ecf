-- ===== src/Wl/Streams.antt =====
-- The streams of wl.c: the file descriptor of an event loop, registered with Janet's own event loop.
use janetland.Prelude.{ℕ, Bool, true, false, ◌||◌, Option, none, some, List, ◌==◌, if◌then◌else◌}
use janetland.Prelude.Int.{ℤ, pos, negsuc}
use janetland.Janet.{Janet, Value, string, panic, arg}
use janetland.Action.{Action, ◌>>=◌, ◌>>◌, lift, give, reading, change}
use janetland.Wl.{World, Host, call, run, fixarity, object_pointer, object_address}
use janetland.Wl.Sources.{stream_value}
use janetland.Wl.Loops.{Libwayland, reenter}

-- `JanetAsyncEvent`; `other` stands for the events that the callback passes over.
pub data AsyncEvent : Type 0 where
  err : AsyncEvent
  hup : AsyncEvent
  read : AsyncEvent
  write : AsyncEvent
  close : AsyncEvent
  other : AsyncEvent

-- Janet's functions on streams and fibers.
pub record Streams (W : Type 0) : Type 0 where
  pub is_closed : W → ℕ → Bool
  pub new_stream : ℤ → W → ℕ × W
  pub stream_close : ℕ → World W → World W
  -- `janet_async_start`, with the stream and the event loop that its state holds; the fiber waits
  pub async_start : ℕ → ℕ → W → W
  pub schedule : ℕ → Value → W → W
  pub cancel : ℕ → Value → W → W
  pub async_end : ℕ → W → W

abbrev pub is_negative : ℤ → Bool
is_negative (pos n) = false
is_negative (negsuc n) = true

-- `a == b` of two `int`.
abbrev pub int_eq : ℤ → ℤ → Bool
int_eq (pos a) (pos b) = a == b
int_eq (negsuc a) (negsuc b) = a == b
int_eq _ _ = false

module _ {W : Type 0} (J : Janet) (N : Host W) (L : Libwayland W) (S : Streams W) where
  -- `(stream->flags & JANET_STREAM_CLOSED) || (stream->handle < 0)`
  abbrev pub is_shut : ℕ → Action (World W) Bool
  is_shut stream =
      reading (λ w. S.is_closed w.outside stream || is_negative (N.stream_handle w.outside stream))

  abbrev pub is_its_stream : ℕ → ℕ → Action (World W) Bool
  is_its_stream event_loop stream =
      reading
        (λ w. int_eq (L.event_loop_get_fd w.outside event_loop) (N.stream_handle w.outside stream))

  -- The switch of `wl_event_loop_stream_dispatch_callback`, with the fiber and the event loop of its state.
  unfoldable pub stream_dispatch_callback : ℕ → ℕ → AsyncEvent → Action (World W) (Unit {0})
  stream_dispatch_callback fiber event_loop close = do
    run (S.cancel fiber (string "stream closed"))
    run (S.async_end fiber)
  stream_dispatch_callback fiber event_loop other = give tt
  stream_dispatch_callback fiber event_loop _ = do
    ret ← reenter (L.event_loop_dispatch event_loop (pos 0))
    run (S.schedule fiber (J.wrap_integer ret))
    run (S.async_end fiber)

  -- `none` is the fiber that waits for an event.
  unfoldable pub method_wl_event_loop_stream_dispatch : List Value → Action (World W) (Option Value)
  method_wl_event_loop_stream_dispatch argv = do
    fixarity argv 2
    stream ← object_address J argv 0 "core/stream"
    event_loop ← object_pointer J N argv 1 "wl/wl-event-loop"
    shut ← is_shut stream
    if shut then give (some (J.wrap_integer (negsuc 0))) else (do
      same ← is_its_stream event_loop stream
      if same
          then (do run (S.async_start stream event_loop); give none)
          else lift (panic "inconsistent file descriptors, stream: %d, event loop: %d"))

  unfoldable pub method_wl_event_loop_stream_close : List Value → Action (World W) Value
  method_wl_event_loop_stream_close argv = do
    fixarity argv 2
    stream ← object_address J argv 0 "core/stream"
    event_loop ← object_pointer J N argv 1 "wl/wl-event-loop"
    shut ← is_shut stream
    stream_v ← lift (arg argv 0)
    if shut then give stream_v else (do
      same ← is_its_stream event_loop stream
      if same
          then (do
            change (L.event_loop_destroy event_loop)
            change (S.stream_close stream)
            give stream_v)
          else lift (panic "inconsistent file descriptors, stream: %d, event loop: %d"))

  unfoldable pub cfun_wl_event_loop_fd_to_stream : List Value → Action (World W) Value
  cfun_wl_event_loop_fd_to_stream argv = do
    fixarity argv 1
    fd_v ← lift (arg argv 0)
    fd ← lift (J.getinteger fd_v)
    stream ← call (S.new_stream fd)
    give (stream_value stream)
