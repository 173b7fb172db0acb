-- ===== src/Store/Tests.antt =====
-- The store of store/ at a concrete codec, and the witnesses of its theorems.
mod Events
mod Intents
use gomud.Base.{
  ℕ, ◌+◌, ◌<◌, ◌^◌, ◌++◌, ◌==◌, if◌then◌else◌, Bool, true, false, Option, none, some, List, [], ◌∷◌,
  length, arith, take, drop, ◌≡◌, refl,
}
use gomud.Core.Event.{actor_move, exit_remove_from_zone}
use gomud.Store.Actors.{actor_move_from_domain}
use gomud.Store.Exits.{exit_remove_from_zone_from_domain}
use gomud.Store.Bytes.{put_uint, uint}
use gomud.Store.Header.{EventHeader, DomainEvent, header_from_domain_event}
use gomud.Store.Structs.{
  Stored, from_domain, event_type, set_header, actor_move_event, exit_remove_from_zone_event,
}
use gomud.Store.Stream.{Codec, write_body}
use gomud.Store.Stream.RoundTrip.{no_header, Inflates, IsWritable}

-- A stand-in for encoding/json that writes the identifiers of two kinds of events.
abbrev pub identifiers : Stored → List ℕ
identifiers (actor_move_event r) =
    put_uint 16 r.from_location_id ++ put_uint 16 r.to_location_id ++ put_uint 16 r.actor_id
identifiers (exit_remove_from_zone_event r) = put_uint 16 r.exit_id
identifiers _ = []

abbrev pub from_identifiers : ℕ → List ℕ → Option Stored
from_identifiers t bs =
    if t == 0
    then some (
        actor_move_event (record {
          header = no_header;
          from_location_id = uint (take 16 bs);
          to_location_id = uint (take 16 (drop 16 bs));
          actor_id = uint (drop 32 bs);
        }))
    else if t == 13
    then some (exit_remove_from_zone_event (record { header = no_header; exit_id = uint bs }))
    else none

-- Nothing is compressed, and every time is valid.
abbrev pub plain_codec : Codec
plain_codec = record {
  json = identifiers;
  unjson = from_identifiers;
  deflate = λ bs. bs;
  inflate = λ bs. some (bs, length bs);
  time_valid = λ _. true;
}

abbrev pub noon_stamp : List ℕ
noon_stamp = 1 ∷ 0 ∷ 0 ∷ 0 ∷ 14 ∷ 210 ∷ 97 ∷ 128 ∷ 0 ∷ 0 ∷ 0 ∷ 0 ∷ 0 ∷ 255 ∷ 255 ∷ []

-- The farmer walks to the barn, and the gate is removed, as events of zone 5.
abbrev pub walk : DomainEvent
walk = record {
  payload = actor_move (record { from_location_id = 11; to_location_id = 12; actor_id = 14 });
  timestamp = noon_stamp;
  version = 1;
  aggregate_id = 5;
  sequence_num = 7;
}

abbrev pub unhinge : DomainEvent
unhinge = record {
  payload = exit_remove_from_zone 13;
  timestamp = noon_stamp;
  version = 1;
  aggregate_id = 5;
  sequence_num = 8;
}

abbrev pub walk_struct : Stored
walk_struct = actor_move_event (record {
  header = header_from_domain_event 0 walk;
  from_location_id = 11;
  to_location_id = 12;
  actor_id = 14;
})

abbrev pub unhinge_struct : Stored
unhinge_struct =
    exit_remove_from_zone_event
      (record { header = header_from_domain_event 13 unhinge; exit_id = 13 })

pub plain-Inflates : Inflates plain_codec
plain-Inflates bs = refl

pub walk-IsWritable : (z : Bool) → IsWritable plain_codec z walk walk_struct
unfolding from_domain event_type actor_move_from_domain put_uint uint set_header write_body
walk-IsWritable z = record {
  handled = refl;
  decoded = refl;
  stamp = refl;
  valid = refl;
  id_fits = omega arith;
  number_fits = omega arith;
  body_fits = elim z as (λ b. length (write_body plain_codec b walk_struct) < 2 ^ 32) [
    | true ↦ omega arith
    | false ↦ omega arith
  ];
}

pub unhinge-IsWritable : (z : Bool) → IsWritable plain_codec z unhinge unhinge_struct
unfolding from_domain event_type exit_remove_from_zone_from_domain put_uint uint set_header
    write_body
unhinge-IsWritable z = record {
  handled = refl;
  decoded = refl;
  stamp = refl;
  valid = refl;
  id_fits = omega arith;
  number_fits = omega arith;
  body_fits = elim z as (λ b. length (write_body plain_codec b unhinge_struct) < 2 ^ 32) [
    | true ↦ omega arith
    | false ↦ omega arith
  ];
}
