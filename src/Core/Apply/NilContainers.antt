-- ===== src/Core/Apply/NilContainers.antt =====
-- The tests of applyObjectMoveEvent for a container that is nil.
use gomud.Base.{none, some, ◌≡◌, ◌≢◌, arith, lookup}
use gomud.Core.Data.{Ref, nil_uuid}
use gomud.Core.Monad.{panics}
use gomud.Core.Body.{Body}
use gomud.Core.Event.{ObjectMove}
use gomud.Core.Container.{container_remove, container_add}
use gomud.Core.Apply.Objects.{apply_object_move}

-- An event that moves a known object to a location that the zone does not know panics.
pub apply_object_move-panics :
    (e : ObjectMove) (b : Body) (o : Ref)
    → lookup e.object_id b.objects_by_id ≡ some o
    → e.to_ids.location_id ≢ nil_uuid
    → lookup e.to_ids.location_id b.locations_by_id ≡ none
    → apply_object_move e b ≡ panics
unfolding apply_object_move container_remove container_add
apply_object_move-panics e b o h n k = ground arith
