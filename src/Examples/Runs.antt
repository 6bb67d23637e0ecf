-- ===== src/Examples/Runs.antt =====
-- A run of wl.c: a timer is added and removed, and a second one is added.
use janetland.Prelude.{ℕ, ◌+◌, ◌≡◌, refl, List, [], ◌∷◌}
use janetland.Prelude.Int.{pos}
use janetland.Janet.{ok, Value, function, abstract, wraps}
use janetland.Jl.{get_abs_obj_pointer}
use janetland.Wl.{EventSource, World, block_at}
use janetland.Wl.Sources.{source_value, cfun_wl_event_loop_add_timer, cfun_wl_event_source_remove}
use janetland.Wl.Ledger.{
  Outstanding, Reaches, start, add, remove, adds_timer, held, Reaches-roots_held,
}
use janetland.Examples.{janet, headers, host, world, Counts}

abbrev first_timer : List Value
first_timer = abstract "wl/wl-event-loop" (wraps 32) ∷ function 9 ∷ []

abbrev second_timer : List Value
second_timer = abstract "wl/wl-event-loop" (wraps 32) ∷ function 13 ∷ []

abbrev with_first : World Counts
with_first = (cfun_wl_event_loop_add_timer janet headers host first_timer world).1

abbrev without_first : World Counts
without_first =
    (cfun_wl_event_source_remove janet headers host (source_value 4096 ∷ []) with_first).1

abbrev with_second : World Counts
with_second = (cfun_wl_event_loop_add_timer janet headers host second_timer without_first).1

abbrev source_of : ℕ → EventSource
source_of f = record { event_source = 7; stream = 0; cb_fn = f }

abbrev left : Outstanding janet headers host
left = (4096, source_of 13) ∷ []

first_added :
    cfun_wl_event_loop_add_timer janet headers host first_timer world
    ≡ (ok (source_value 4096), with_first)
unfolding cfun_wl_event_loop_add_timer get_abs_obj_pointer
first_added = refl

first_removed :
    cfun_wl_event_source_remove janet headers host (source_value 4096 ∷ []) with_first
    ≡ (ok (janet.wrap_integer (pos 0)), without_first)
unfolding cfun_wl_event_loop_add_timer cfun_wl_event_source_remove get_abs_obj_pointer
first_removed = refl

second_added :
    cfun_wl_event_loop_add_timer janet headers host second_timer without_first
    ≡ (ok (source_value 4096), with_second)
unfolding cfun_wl_event_loop_add_timer cfun_wl_event_source_remove get_abs_obj_pointer
second_added = refl

first_stored : block_at with_first.sources 4096 ≡ ok (source_of 9)
unfolding cfun_wl_event_loop_add_timer get_abs_obj_pointer
first_stored = refl

second_stored : block_at with_second.sources 4096 ≡ ok (source_of 13)
unfolding cfun_wl_event_loop_add_timer cfun_wl_event_source_remove get_abs_obj_pointer
second_stored = refl

run : Reaches janet headers host world with_second left
run =
    add adds_timer second_timer (source_value 4096) with_second (source_of 13) tt second_added
      second_stored
      (remove [] 4096 (source_of 9) [] (janet.wrap_integer (pos 0)) without_first first_removed (
        add adds_timer first_timer (source_value 4096) with_first (source_of 9) tt first_added
          first_stored start))

Reaches-roots_held_example :
    host.roots with_second.outside (function 13)
    ≡ host.roots world.outside (function 13) + held janet headers host left (function 13)
Reaches-roots_held_example = Reaches-roots_held janet headers host (function 13) run
