-- ===== src/Core/Apply/ExitTargets.antt =====
-- What an exit leads to after it has been updated.
use gomud.Base.{none, some, ◌≡◌, ◌≢◌, arith, lookup}
use gomud.Core.Data.{Ref, nil_uuid}
use gomud.Core.Monad.{returns}
use gomud.Core.Body.{Body, location_remove_exit, location_add_out_exit}
use gomud.Core.Event.{ExitText}
use gomud.Core.Apply.Locations.{apply_exit_update}

pub apply_exit_update-destination :
    (e : ExitText) (b : Body) (x : Ref) {c : Body}
    → lookup e.exit_id b.exits_by_id ≡ some x
    → e.dest_zone_id ≡ nil_uuid
    → apply_exit_update e b ≡ returns tt c
    → ((c.exits x).destination ≡ none)
      × ((c.exits x).other_zone_id ≡ nil_uuid)
      × ((b.exits x).other_zone_id ≡ nil_uuid
          → (c.exits x).other_zone_loc_id ≡ (b.exits x).other_zone_loc_id)
      × ((b.exits x).other_zone_id ≢ nil_uuid → (c.exits x).other_zone_loc_id ≡ nil_uuid)
unfolding apply_exit_update location_add_out_exit location_remove_exit
apply_exit_update-destination e b x h k q = (ground arith, ground arith, ground arith, ground arith)
