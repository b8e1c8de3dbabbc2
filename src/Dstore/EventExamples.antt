-- ===== src/Dstore/EventExamples.antt =====
-- dstore: events of a path.
use keys.Common.{List, [], ◌∷◌, Option, none, some, Str, codes, ok, ◌≡◌, refl}
use keys.Common.Int.{pos, incr, itoa, quot}
use keys.Encoding.Base64
use keys.Tsutil.{millis_of}
use keys.Dstore.StringSet
use keys.Dstore.Document.{set_value, set_values, get_value, get_int, of_data}
use keys.Dstore.Options.{merging_all, new_set_options}
use keys.Dstore.Mem.{get, create_document, new_mem}
use keys.Dstore.Mem.Events.{
  Event, index_of, log_path, then_return, create_event, add_event, add_events, events_add,
  encode_event,
}
use keys.Dstore.Mem.Events.Consistent.{indices_of, indices_from, index_after, events_add_lem}
use keys.Dstore.Examples.{run_write, clock}

-- Two events, with their identifiers.
abbrev items : List (Option Str × Str)
items = (some (codes "a"), codes "x1") ∷ (none, codes "x2") ∷ []

abbrev made : List Event
made =
    record { payload = some (codes "a"); index = pos 1; timestamp = pos 0 }
    ∷ record { payload = none; index = pos 2; timestamp = pos 0 }
    ∷ []

run_events : (events_add (new_mem clock) (codes "user/alice") items).0 ≡ ok (made, pos 2)
unfolding run_write get events_add add_events add_event create_event then_return create_document
    new_set_options merging_all set_value set_values get_value get_int of_data encode_event
    Base64.encode Base64.char_of itoa quot millis_of incr index_of log_path StringSet.contains
run_events = refl

nothing : get (new_mem clock) (codes "user/alice") ≡ ok none
unfolding run_write get
nothing = refl

events_add_lem_example : (indices_of made ≡ pos 1 ∷ pos 2 ∷ []) × (pos 2 ≡ pos 2)
unfolding indices_from index_after incr index_of get_int get_value
events_add_lem_example =
    events_add_lem (new_mem clock) (codes "user/alice") none items made (pos 2) nothing run_events
