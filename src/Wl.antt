-- ===== src/Wl.antt =====
-- wl.c: event loops, event sources, listeners and displays of libwayland. The bindings keep state of
-- their own in two kinds of struct, `jwl_event_source_t` and `jwl_listener_t`, which live in the
-- blocks of abstract objects: the stores of `World`. Everything else is libwayland's and Janet's, and
-- is reached through the functions of `Host`.
pub mod Tables
pub mod Sources
pub mod Callbacks
pub mod Listeners
pub mod Loops
pub mod Streams
pub mod Displays
pub mod Adding
pub mod Roots
pub mod Ledger
pub mod Removal
pub mod Closing
pub mod Locking
pub mod Names
pub mod Registration
pub mod Arities
use janetland.Prelude.{
  ℕ, zero, suc, ◌+◌, ◌-◌, ◌≡◌, ◌≢◌, Bool, true, false, Option, none, some, List, [], ◌∷◌, String,
  ◌==◌, if◌then◌else◌,
}
use janetland.Prelude.Int.{ℤ}
use janetland.Janet.{
  Janet, Value, abstract, function, Content, wraps, cell, Result, ok, panic, fault, guard, arg,
  ◌>>=◌ as bind, fixarity as arity, address,
}
use janetland.Jl.{get_abs_obj_pointer}
use janetland.Action.{Action, ◌>>=◌, lift}

-- `jwl_event_source_t`; 0 is NULL.
pub record EventSource : Type 0 where
  pub event_source : ℕ
  pub stream : ℕ
  pub cb_fn : ℕ

-- `jwl_listener_t`; the embedded `struct wl_listener` is known by the address of the block.
pub record Listener : Type 0 where
  pub notify_fn : ℕ

-- The stores hold the last write to an address in front.
pub record World (W : Type 0) : Type 0 where
  pub outside : W
  pub sources : List (ℕ × EventSource)
  pub listeners : List (ℕ × Listener)

abbrev pub count_if : Bool → ℕ
count_if true = 1
count_if false = 0

-- What Janet and libwayland give to wl.c, with what their manuals say of the functions as laws. The
-- calls that can run Janet code in turn change the whole `World`.
pub record Host (W : Type 0) : Type 0 where
  pub first_word : W → ℕ → ℕ
  -- how often a value is rooted; `same` tells whether two values are the same object
  pub same : Value → Value → Bool
  pub same_refl : (v : Value) → same v v ≡ true
  pub roots : W → Value → ℕ
  pub gcroot : Value → W → W
  pub gcunroot : Value → W → W
  pub roots-gcroot : (v u : Value) (w : W) → roots (gcroot v w) u ≡ roots w u + count_if (same v u)
  pub roots-gcunroot :
      (v u : Value) (w : W) → roots (gcunroot v w) u ≡ roots w u - count_if (same v u)
  -- the depth of the collector's lock
  pub lock : W → ℕ
  pub gclock : W → W
  pub gcunlock : ℕ → W → W
  pub lock-gcunlock : (n : ℕ) (w : W) → lock (gcunlock n w) ≡ n
  -- `janet_abstract`, with the address of the block
  pub new_abstract : W → ℕ × W
  pub roots-new_abstract : (w : W) → roots (new_abstract w).1 ≡ roots w
  pub new_abstract_nonzero : (w : W) → (new_abstract w).0 ≢ 0
  -- `janet_pcall`: `some` of the value that the function returned, or `none` after any other signal
  pub pcall : ℕ → List Value → World W → Option Value × World W
  pub stacktrace : W → W
  pub eprintf : Value → W → W
  pub lock-stacktrace : (w : W) → lock (stacktrace w) ≡ lock w
  pub lock-eprintf : (v : Value) (w : W) → lock (eprintf v w) ≡ lock w
  pub stream_handle : W → ℕ → ℤ
  -- the calls that add an event source give 0 where they fail
  pub event_loop_add_fd : ℕ → ℤ → ℕ → ℕ → W → ℕ × W
  pub event_loop_add_timer : ℕ → ℕ → W → ℕ × W
  pub event_loop_add_signal : ℕ → ℤ → ℕ → W → ℕ × W
  pub event_loop_add_idle : ℕ → ℕ → W → ℕ × W
  pub event_source_fd_update : ℕ → ℕ → W → ℤ × W
  pub event_source_timer_update : ℕ → ℤ → W → ℤ × W
  pub event_source_check : ℕ → W → W
  -- of a source that libwayland still has: with any other the call is undefined in C, and nothing is said of it
  pub event_source_remove : ℕ → W → ℤ × W
  pub event_loop_add_destroy_listener : ℕ → ℕ → W → W
  pub signal_add : ℕ → ℕ → W → W
  pub link_remove : ℕ → W → W
  pub signal_emit : ℕ → Value → World W → World W
  -- libwayland knows of no root
  pub roots-add_fd :
      (l : ℕ) (fd : ℤ) (mask a : ℕ) (w : W) → roots (event_loop_add_fd l fd mask a w).1 ≡ roots w
  pub roots-add_timer : (l a : ℕ) (w : W) → roots (event_loop_add_timer l a w).1 ≡ roots w
  pub roots-add_signal :
      (l : ℕ) (n : ℤ) (a : ℕ) (w : W) → roots (event_loop_add_signal l n a w).1 ≡ roots w
  pub roots-add_idle : (l a : ℕ) (w : W) → roots (event_loop_add_idle l a w).1 ≡ roots w
  pub roots-source_remove : (s : ℕ) (w : W) → roots (event_source_remove s w).1 ≡ roots w
  pub roots-add_destroy_listener :
      (l a : ℕ) (w : W) → roots (event_loop_add_destroy_listener l a w) ≡ roots w
  pub roots-signal_add : (s a : ℕ) (w : W) → roots (signal_add s a w) ≡ roots w
  pub roots-link_remove : (a : ℕ) (w : W) → roots (link_remove a w) ≡ roots w

module _ {ℓ} {A : Type ℓ} where
  -- The block at an address; none is there where nothing was written.
  abbrev pub block_at : List (ℕ × A) → ℕ → Result A
  block_at [] p = fault
  block_at ((q, a) ∷ blocks) p = if q == p then ok a else block_at blocks p

module _ {W : Type 0} where
  -- A call out of wl.c that hands back a result, and one that hands back none.
  abbrev pub call : {A : Type 0} → (W → A × W) → Action (World W) A
  call f w = (ok (f w.outside).0, record w { outside = (f w.outside).1 })

  abbrev pub run : (W → W) → Action (World W) (Unit {0})
  run f w = (ok tt, record w { outside = f w.outside })

  abbrev pub write_source : ℕ → EventSource → Action (World W) (Unit {0})
  write_source p s w = (ok tt, record w { sources = (p, s) ∷ w.sources })

  abbrev pub read_source : ℕ → Action (World W) EventSource
  read_source p w = (block_at w.sources p, w)

  abbrev pub write_listener : ℕ → Listener → Action (World W) (Unit {0})
  write_listener p l w = (ok tt, record w { listeners = (p, l) ∷ w.listeners })

  abbrev pub read_listener : ℕ → Action (World W) Listener
  read_listener p w = (block_at w.listeners p, w)

  abbrev pub fixarity : List Value → ℕ → Action (World W) (Unit {0})
  fixarity argv n = lift (arity argv n)

  -- `jl_get_abs_obj_pointer(argv, n, &at)` and `janet_getabstract(argv, n, &at)`
  abbrev pub object_result : Janet → Host W → List Value → ℕ → String → World W → Result ℕ
  object_result J H argv n at w =
      bind (arg argv n) (λ v. get_abs_obj_pointer J (H.first_word w.outside) v at)

  abbrev pub object_pointer : Janet → Host W → List Value → ℕ → String → Action (World W) ℕ
  object_pointer J H argv n at w = (object_result J H argv n at w, w)

  abbrev pub object_address : Janet → List Value → ℕ → String → Action (World W) ℕ
  object_address J argv n at = lift (bind (arg argv n) (λ v. bind (J.getabstract at v) address))
