-- ===== src/Store/Tests/Events.antt =====
-- Events that are written, read and replayed.
use gomud.Base.{◌++◌, map, true, none, some, [], ◌∷◌, arith, ◌≡◌, refl, lookup}
use gomud.Core.Apply.Locations.{apply_exit_remove}
use gomud.Core.Refs.{contains}
use gomud.Core.Body.{location_add_actor, location_remove_actor}
use gomud.Core.Process.Locations.{process_exit_remove}
use gomud.Core.Apply.Actors.{apply_actor_move}
use gomud.Core.Apply.{apply_payload}
use gomud.Core.Process.Actors.{has_exit_to, process_actor_move}
use gomud.Core.Process.Dispatch.{process_command}
use gomud.Core.Zone.{apply_event, persisting, submit}
use gomud.Core.Process.Log.Restart.{run}
use gomud.Core.Tests.{farm_zone}
use gomud.Core.Tests.Restart.{morning, noon, morning_passes}
use gomud.Store.Header.{header_from_domain_event, marshal_header, unmarshal_header}
use gomud.Store.Header.RoundTrip.{cut_to_width, unmarshal_header-marshal_header}
use gomud.Store.Structs.{event_type}
use gomud.Store.Conversions.{IsStoredAs, from_domain-IsStoredAs, recalled_event}
use gomud.Store.Stream.{read, read_event, read_loop, retrieve_all_from, write_struct, value}
use gomud.Store.Stream.RoundTrip.{read_event-write_struct}
use gomud.Store.Stream.Termination.{read_loop-ends}
use gomud.Store.EventStore.{
  EventStore, find_previous_snapshot, retrieve_all, retrieve_up_to, persist_snapshot,
}
use gomud.Store.EventStore.RoundTrip.{
  Holds-nothing, persist_each, retrieve_all-persist_each, write_struct-Holds,
}
use gomud.Store.EventStore.Snapshots.{Choice, find_previous_snapshot-Choice}
use gomud.Store.EventStore.Range.{in_range, retrieve_up_to-persist_snapshot}
use gomud.Store.Restart.{core_event, IsReloaded, run-IsReloaded}
use gomud.Store.Tests.{
  plain_codec, plain-Inflates, walk, unhinge, walk_struct, unhinge_struct, walk-IsWritable,
  unhinge-IsWritable,
}

abbrev empty_store : EventStore
empty_store = record { use_compression = true; file = none; snapshots = [] }

unmarshal_header-marshal_header_example :
    unmarshal_header (λ _. true) (marshal_header (header_from_domain_event 0 walk))
    ≡ some (cut_to_width (header_from_domain_event 0 walk))
unfolding header_from_domain_event
unmarshal_header-marshal_header_example =
    unmarshal_header-marshal_header (λ _. true) (header_from_domain_event 0 walk) refl refl

from_domain-IsStoredAs_example :
    IsStoredAs (header_from_domain_event (event_type walk.payload) walk) walk.payload walk_struct
from_domain-IsStoredAs_example = from_domain-IsStoredAs walk ((walk-IsWritable true).handled)

read_event-write_struct_example :
    read_event plain_codec (write_struct plain_codec true walk_struct ++ 9 ∷ [])
    ≡ read (recalled_event walk) (9 ∷ [])
read_event-write_struct_example =
    read_event-write_struct plain_codec plain-Inflates true walk walk_struct (walk-IsWritable true)
      (9 ∷ [])

read_loop-ends_example :
    read_loop plain_codec 4 (1 ∷ 2 ∷ 3 ∷ []) ≡ some (retrieve_all_from plain_codec (1 ∷ 2 ∷ 3 ∷ []))
read_loop-ends_example = read_loop-ends plain_codec 4 (1 ∷ 2 ∷ 3 ∷ []) (omega arith)

retrieve_all-persist_each_example :
    retrieve_all plain_codec (persist_each plain_codec (walk ∷ unhinge ∷ []) empty_store)
    ≡ some (map value ([] ++ map recalled_event (walk ∷ unhinge ∷ [])))
retrieve_all-persist_each_example =
    retrieve_all-persist_each plain_codec plain-Inflates walk (unhinge ∷ []) empty_store []
      ((walk_struct, walk-IsWritable true), ((unhinge_struct, unhinge-IsWritable true), tt))
      (Holds-nothing plain_codec)

abbrev two_snapshots : EventStore
two_snapshots = record {
  use_compression = true;
  file = some (write_struct plain_codec true walk_struct);
  snapshots =
      record { zone_id = 5; seq_num = 2; content = [] }
      ∷ record { zone_id = 6; seq_num = 9; content = [] }
      ∷ [];
}

find_previous_snapshot-Choice_example :
    Choice 6 5 two_snapshots.snapshots (find_previous_snapshot 6 5 two_snapshots)
find_previous_snapshot-Choice_example = find_previous_snapshot-Choice 6 5 two_snapshots

retrieve_up_to-persist_snapshot_example :
    retrieve_up_to plain_codec 20 5
      (persist_snapshot plain_codec 5 6 (unhinge ∷ []) two_snapshots).1
    ≡ some (
        map value (map recalled_event (unhinge ∷ []) ++ in_range 5 7 20 (recalled_event walk ∷ [])))
retrieve_up_to-persist_snapshot_example =
    retrieve_up_to-persist_snapshot plain_codec plain-Inflates 20 6 5 two_snapshots
      (write_struct plain_codec true walk_struct) (recalled_event walk ∷ []) (unhinge ∷ []) refl
      (write_struct-Holds plain_codec plain-Inflates true walk walk_struct (walk-IsWritable true))
      ((λ _. tt), tt) ((unhinge_struct, unhinge-IsWritable true), tt)
      ((λ _. omega arith), ((λ q. omega (arith, q)), tt)) (omega arith) (omega arith)

written : noon.persisted ≡ [] ++ map core_event (walk ∷ unhinge ∷ [])
unfolding run process_command persisting process_actor_move lookup has_exit_to submit apply_event
    apply_payload apply_actor_move process_exit_remove location_add_actor contains
    location_remove_actor apply_exit_remove
written = refl

run-IsReloaded_example :
    IsReloaded plain_codec 5
      (persist_each plain_codec (walk ∷ unhinge ∷ []) empty_store)
      farm_zone
      noon
run-IsReloaded_example =
    run-IsReloaded plain_codec plain-Inflates morning farm_zone 5 empty_store walk (unhinge ∷ [])
      (refl, (refl, tt)) ((λ _. none), refl, λ _. refl) morning_passes written refl refl
      ((walk_struct, walk-IsWritable true), ((unhinge_struct, unhinge-IsWritable true), tt))
      ((refl, refl), ((refl, refl), tt)) (omega arith)
