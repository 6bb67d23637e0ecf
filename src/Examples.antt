-- ===== src/Examples.antt =====
-- Concrete instances of the interfaces to Janet, libwayland and the headers, for the examples below: a
-- small Janet whose numbers are kept as bits, and a world whose roots are counted.
pub mod Tables
pub mod Roots
pub mod Arguments
pub mod Lists
pub mod Closing
pub mod Calls
pub mod Runs
pub mod Arrays
pub mod Types
use janetland.Prelude.{
  ℕ, zero, suc, ◌+◌, ◌*◌, ◌-◌, ◌^◌, ◌<◌, ◌≡◌, ◌≢◌, refl, Bool, true, false, Option, none, some,
  List, [], ◌∷◌, String, ltb, ◌==◌, ==_refl, str_eq, if◌then◌else◌, arith,
}
use janetland.Prelude.Int.{ℤ, pos, negsuc, IsInt32}
use janetland.Janet.{
  Janet, Value, number, abstract, function, pointer, Content, wraps, cell, Result, ok, panic,
  IsPanic, IsAccessor, as_keyword, as_symbol, as_string, as_pointer, as_function, as_boolean,
  as_abstract, as_number, as_buffer, as_indexed,
}
use janetland.Headers.{Headers}
use janetland.Wl.{World, Host, EventSource, Listener, count_if}

abbrev shown : {A : Type 0} → Option A → Result A
shown none = panic "bad slot"
shown (some a) = ok a

-- A getter that hands out what a view of the value shows.
abbrev get_by : {A : Type 0} → (Value → Option A) → Value → Result A
get_by view v = shown (view v)

pub get_by-IsAccessor : {A : Type 0} (view : Value → Option A) → IsAccessor view (get_by view)
get_by-IsAccessor view = record {
  accepts = λ v a h. rw (get_by, h) refl;
  rejects = λ v h. rw (get_by, h) tt;
}

abbrev wrap_integer : ℤ → Value
wrap_integer (pos n) = number n
wrap_integer (negsuc n) = number (2 ^ 31 + n)

pub wrap_integer_number : (i : ℤ) → (bits : ℕ) × (wrap_integer i ≡ number bits)
wrap_integer_number (pos n) = (n, refl)
wrap_integer_number (negsuc n) = (2 ^ 31 + n, refl)

abbrev int_of : ℕ → Option ℤ
int_of n =
    if ltb n (2 ^ 31)
    then some (pos n)
    else if ltb n (2 ^ 32)
    then some (negsuc (n - 2 ^ 31))
    else none

abbrev checkint : Value → Option ℤ
checkint (number n) = int_of n
checkint _ = none

pub checkint-wrap_integer : (i : ℤ) → IsInt32 i → checkint (wrap_integer i) ≡ some i
checkint-wrap_integer (pos n) h = ground arith
checkint-wrap_integer (negsuc n) h = ground arith

int_of-IsInt32 : (n : ℕ) (i : ℤ) → int_of n ≡ some i → IsInt32 i
int_of-IsInt32 n (pos m) h = ground arith
int_of-IsInt32 n (negsuc m) h = ground arith

pub checkint_IsInt32 : (v : Value) (i : ℤ) → checkint v ≡ some i → IsInt32 i
checkint_IsInt32 (number n) i h = int_of-IsInt32 n i h
checkint_IsInt32 _ i h = cc

abbrev as_u64 : Value → Option ℕ
as_u64 (abstract at (wraps n)) = if str_eq at "core/u64" then some n else none
as_u64 _ = none

abbrev pub janet : Janet
janet = record {
  wrap_integer = wrap_integer;
  wrap_integer_number = wrap_integer_number;
  checkint = checkint;
  checkint-wrap_integer = checkint-wrap_integer;
  checkint_IsInt32 = checkint_IsInt32;
  getinteger = get_by checkint;
  getinteger-IsAccessor = get_by-IsAccessor checkint;
  wrap_u64 = λ n. abstract "core/u64" (wraps n);
  getuinteger64 = get_by as_u64;
  getuinteger64-wrap_u64 = λ n h. refl;
  checkuint64 = as_u64;
  getuinteger64-IsAccessor = get_by-IsAccessor as_u64;
  getnumber = get_by as_number;
  getnumber-IsAccessor = get_by-IsAccessor as_number;
  getstring = get_by as_string;
  getstring-IsAccessor = get_by-IsAccessor as_string;
  getbuffer = get_by as_buffer;
  getbuffer-IsAccessor = get_by-IsAccessor as_buffer;
  getindexed = get_by as_indexed;
  getindexed-IsAccessor = get_by-IsAccessor as_indexed;
  getkeyword = get_by as_keyword;
  getkeyword-IsAccessor = get_by-IsAccessor as_keyword;
  getsymbol = get_by as_symbol;
  getsymbol-IsAccessor = get_by-IsAccessor as_symbol;
  getcstring = get_by as_string;
  getcstring-rejects = (get_by-IsAccessor as_string).rejects;
  checkcstring = as_string;
  getcstring-IsAccessor = get_by-IsAccessor as_string;
  getpointer = get_by as_pointer;
  getpointer-IsAccessor = get_by-IsAccessor as_pointer;
  getfunction = get_by as_function;
  getfunction-IsAccessor = get_by-IsAccessor as_function;
  getboolean = get_by as_boolean;
  getboolean-IsAccessor = get_by-IsAccessor as_boolean;
  getabstract = λ at. get_by (as_abstract at);
  getabstract-IsAccessor = λ at. get_by-IsAccessor (as_abstract at);
  registered = λ name. true;
}

-- The constants that an example looks at; every struct member is at the offset 8.
abbrev pub headers : Headers
headers = record {
  const = λ name.
      if str_eq name "XCB_CONN_ERROR"
      then 1
      else if str_eq name "XCB_CONN_CLOSED_EXT_NOTSUPPORTED"
      then 2
      else if str_eq name "XCB_CONN_CLOSED_MEM_INSUFFICIENT"
      then 3
      else if str_eq name "XCB_CONN_CLOSED_REQ_LEN_EXCEED"
      then 4
      else if str_eq name "XCB_CONN_CLOSED_PARSE_ERR"
      then 5
      else if str_eq name "XCB_CONN_CLOSED_INVALID_SCREEN"
      then 6
      else if str_eq name "XCB_CONN_CLOSED_FDPASSING_FAILED"
      then 7
      else 0;
  offsetof = λ struct member. 8;
}

-- Functions and blocks are told apart by their addresses.
abbrev identity : Value → ℕ
identity (function f) = 2 * f + 1
identity (abstract at (cell p)) = 2 * p + 2
identity _ = 0

abbrev same : Value → Value → Bool
same v u = identity v == identity u

-- How often a value is rooted, the depth of the lock, and the streams that are closed.
pub record Counts : Type 0 where
  pub rooted : Value → ℕ
  pub depth : ℕ
  pub shut : ℕ → Bool

abbrev pub host : Host Counts
host = record {
  first_word = λ w p. 0;
  same = same;
  same_refl = λ v. ==_refl (identity v);
  roots = λ w. w.rooted;
  gcroot = λ v w. record w { rooted = λ u. w.rooted u + count_if (same v u) };
  gcunroot = λ v w. record w { rooted = λ u. w.rooted u - count_if (same v u) };
  roots-gcroot = λ v u w. refl;
  roots-gcunroot = λ v u w. refl;
  lock = λ w. w.depth;
  gclock = λ w. record w { depth = suc w.depth };
  gcunlock = λ n w. record w { depth = n };
  lock-gcunlock = λ n w. refl;
  new_abstract = λ w. (4096, w);
  roots-new_abstract = λ w. refl;
  new_abstract_nonzero = λ w e. omega (arith, e);
  pcall = λ fn argv w. (some (number 5), w);
  stacktrace = λ w. w;
  eprintf = λ v w. w;
  lock-stacktrace = λ w. refl;
  lock-eprintf = λ v w. refl;
  stream_handle = λ w stream. pos 3;
  event_loop_add_fd = λ l fd mask a w. (7, w);
  event_loop_add_timer = λ l a w. (7, w);
  event_loop_add_signal = λ l n a w. (7, w);
  event_loop_add_idle = λ l a w. (7, w);
  event_source_fd_update = λ s mask w. (pos 0, w);
  event_source_timer_update = λ s ms w. (pos 0, w);
  event_source_check = λ s w. w;
  event_source_remove = λ s w. (pos 0, w);
  event_loop_add_destroy_listener = λ l a w. w;
  signal_add = λ s a w. w;
  link_remove = λ a w. w;
  signal_emit = λ s v w. w;
  roots-add_fd = λ l fd mask a w. refl;
  roots-add_timer = λ l a w. refl;
  roots-add_signal = λ l n a w. refl;
  roots-add_idle = λ l a w. refl;
  roots-source_remove = λ s w. refl;
  roots-add_destroy_listener = λ l a w. refl;
  roots-signal_add = λ s a w. refl;
  roots-link_remove = λ a w. refl;
}

-- A world with one timer source, whose function is rooted once and by another source once more.
abbrev pub world : World Counts
world = record {
  outside = record {
    rooted = λ v. if same (function 9) v then 2 else 0;
    depth = 1;
    shut = λ p. false;
  };
  sources = (64, record { event_source = 7; stream = 0; cb_fn = 9 }) ∷ [];
  listeners = (96, record { notify_fn = 11 }) ∷ [];
}
