-- ===== src/Lib.antt =====
-- A model of janetland, the Janet bindings of wlroots, libwayland, xkbcommon and libxcb, and theorems about it.
--
-- The program is a set of Janet modules written in C. Each C function checks its Janet arguments, unwraps
-- them, calls a library, and wraps what it got. The shared parts are the tables that map keywords to C
-- constants (types.h) and the abstract objects that wrap a C pointer (jl.h). On these stand wl.c (event
-- loops, event sources, listeners, displays), wlr.c (the objects of wlroots, with the tables of
-- wlr_abs_types.h), xkb.c, xcb.c and util.c (listener data and linked lists).
--
-- Files and sources:
--   Prelude    numbers, tests, lists, the laws of `&` and `|`, and the integers of C
--   Janet      the part of the Janet C API that is called, and how a C function ends: `ok`, `panic` (a Janet
--              panic, with the format of its message) or `fault` (undefined behaviour)
--   Action     C functions that change state: a function from a state to a `Result` and a state
--   Headers    the constants and struct offsets of headers outside the repository
--   KeyDefs    types.h: jl_get_key_def is `get_key_def`, jl_get_key_flags `get_key_flags`, jl_get_flag_keys
--              `get_flag_keys`
--   Jl         jl.h: the functions jl_X are `X`
--   Util       util.c, under the names of its functions
--   Xkb, Xcb   xkb.c and xcb.c, under the names of their functions
--   Wl         wl.c and wl_abs_types.h: Sources (event sources), Callbacks (the functions jwl_X are `X`),
--              Listeners, Loops, Streams, Displays; Registration is its table `cfuns`; Arities, Adding, Roots, Ledger,
--              Removal, Closing, Locking and Names hold theorems
--   Wlr        wlr.c and wlr_abs_types.h: Tables and SignalTables are the tables, Backend to XwaylandSurface the
--              get and put methods (Arrays the arrays that they read), Box the struct wlr_box, Address the
--              printed address; Members, Overrun, UserData and Safety hold theorems
--   Wlr/Calls  the functions of wlr.c that call wlroots, under the names of their C functions: Setup, Layouts,
--              Cursors, Keyboards, Seats, Outputs, Surfaces, XdgShell, SceneGraph and Xwayland; Effects is
--              what such a function may do, Steps and Rules how that is shown of one, KeyCodes holds theorems
--   Wlr/Registration  the table `cfuns` of wlr.c, in parts; Bindings is what its rows promise
--   Wlr/Log    the log functions of wlr.c and the callback of wlroots; Rooted and Messages hold theorems
--   AbstractTypes  the abstract types of wl_abs_types.h and wlr_abs_types.h, in order: Wl, then Outputs, Shells,
--              Seats, Devices, Events and Xwayland; Safe, Getters and Names hold theorems
--   Modules    the module entries of all five modules: the types that they register; Lookups holds theorems
--   Examples   concrete instances of the interfaces, and every theorem at a concrete input
--
-- How the code is read. A table is a list whose terminating NULL row is a row of its own; a scan that finds
-- no such row runs off the list, which is a fault. A C struct that a getter reads is a record of the members
-- that the getter uses, with its address; an object that wraps NULL is told apart in AbstractTypes, where the methods are
-- put together with the pointers that they get. The structs that wl.c keeps in abstract objects stand in the two
-- stores of `World`, under their addresses; everything else that changes belongs to libwayland and Janet.
--
-- What is not in the repository is a parameter: `Janet`, `Host`, `Libwayland` and `Streams` for wl.c,
-- `Xkbcommon`, `Libxcb`, `Wlroots`, `Logger` and `Headers`. Their laws state documented behaviour: an accessor hands out the
-- payload of a value of its type and panics at any other; janet_gcroot adds a root and janet_gcunroot takes one
-- away; janet_gcunlock sets the depth of the lock; libwayland changes no root.
--
-- Numbers. Addresses, flags and keys are natural numbers, with `% 2 ^ w` where C wraps around; `int` is `ℤ`.
-- The floating point members of events are the bits that Janet keeps of them.
--
-- Fuel. Only `array_loop`, the loop of wl-list-to-array, has a bound on its rounds, since the list is in memory
-- that it does not own. A list of n nodes that ends takes n + 1 rounds; one that does not end has no result.
--
-- The functions that call wlroots are generic in the state: a call is `call` of `Wlroots`, with the name and the
-- arguments of the C function, and what the call does to the state, callbacks included, is left open. A
-- double is the number that its bits spell, and a conversion of a number to a narrower type is written out.
--
-- Not modelled: `jl_import` and the log macros of jl.h, the abstract
-- types of xkb, xcb and util, the rows of the registration tables of these modules and in wlr.c those of the log functions, of `box` and of
-- `wlr-scene-tree-from-node`, and the build.
pub mod AbstractTypes
pub mod Prelude
pub mod Janet
pub mod KeyDefs
pub mod Jl
pub mod Headers
pub mod Action
pub mod Util
pub mod Xkb
pub mod Xcb
pub mod Wl
pub mod Wlr
pub mod Modules
pub mod Examples
