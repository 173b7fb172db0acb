-- ===== src/Store/EventStore.antt =====
-- store/store.go: the event store over the file of events and the directory of snapshots.
pub mod RoundTrip
pub mod Snapshots
pub mod Range
use gomud.Base.{
  ℕ, zero, suc, ◌+◌, ◌-◌, ◌%◌, ◌^◌, Bool, true, false, not, ◌&&◌, ◌==◌, ltb, leb, Option, none,
  some, List, [], ◌∷◌, ◌++◌, if◌then◌else◌,
}
use gomud.Core.Data.{Uuid}
use gomud.Store.Header.{DomainEvent}
use gomud.Store.Stream.{Codec, Response, value, error, write_event, retrieve_all_from}

-- A file `<zone>_<number>.dat` of the snapshot directory.
pub record SnapshotFile : Type 0 where
  pub zone_id : Uuid
  pub seq_num : ℕ
  pub content : List ℕ

-- An EventStore with the files it works on, the snapshots in some order.
pub record EventStore : Type 0 where
  pub use_compression : Bool
  pub file : Option (List ℕ)
  pub snapshots : List SnapshotFile

pub data StoreError : Type 0 where
  unhandled_event_type : StoreError

-- What a file holds; a file that is opened to append is created.
abbrev pub content_of : Option (List ℕ) → List ℕ
content_of none = []
content_of (some bs) = bs

-- The loop of findPreviousSnapshotForZone, with the highest number so far and its file.
unfoldable pub find_snapshot :
    ℕ → Uuid → List SnapshotFile → ℕ → Option SnapshotFile → Option SnapshotFile
find_snapshot max zone [] highest selected = selected
find_snapshot max zone (f ∷ fs) highest selected =
    let chosen = find_snapshot max zone fs f.seq_num (some f) in
    let passed = find_snapshot max zone fs highest selected in
    if f.zone_id == zone && leb highest f.seq_num && leb f.seq_num max then chosen else passed

unfoldable pub find_previous_snapshot : ℕ → Uuid → EventStore → Option SnapshotFile
find_previous_snapshot max zone s = find_snapshot max zone s.snapshots 0 none

-- The loop over `srcChan`.
unfoldable pub select : Uuid → ℕ → ℕ → List Response → List Response
select zone from to [] = []
select zone from to (error ∷ rs) = error ∷ []
select zone from to (value e ∷ rs) =
    let rest = select zone from to rs in
    if not (e.aggregate_id == zone)
    then rest
    else if ltb e.sequence_num from
    then rest
    else if ltb to e.sequence_num
    then []
    else value e ∷ rest

-- `snapSeqNum + 1` in 64 bits, and 0 without a snapshot
abbrev pub start_after : Option SnapshotFile → ℕ
start_after none = 0
start_after (some f) = (f.seq_num + 1) % 2 ^ 64

-- A snapshot of the same zone and number is written over.
unfoldable pub put_snapshot : SnapshotFile → List SnapshotFile → List SnapshotFile
put_snapshot f [] = f ∷ []
put_snapshot f (g ∷ gs) =
    let rest = put_snapshot f gs in
    if g.zone_id == f.zone_id && (g.seq_num == f.seq_num) then f ∷ gs else g ∷ rest

module _ (c : Codec) where
  unfoldable pub persist_event : DomainEvent → EventStore → Option StoreError × EventStore
  persist_event e s = elim (write_event c s.use_compression e) [
    | none ↦ (some unhandled_event_type, record s { file = some (content_of s.file) })
    | some bs ↦ (none, record s { file = some (content_of s.file ++ bs) })
  ]

  unfoldable pub retrieve_all : EventStore → Option (List Response)
  retrieve_all s = elim s.file [ none ↦ none | some bs ↦ some (retrieve_all_from c bs) ]

  unfoldable pub replay_snapshot : Option SnapshotFile → List Response
  replay_snapshot none = []
  replay_snapshot (some f) = retrieve_all_from c f.content

  -- The responses of a snapshot that was found, and those selected from the file.
  unfoldable pub retrieve_behind :
      Uuid → ℕ → Option SnapshotFile → Option (List Response) → Option (List Response)
  retrieve_behind zone end snap none = none
  retrieve_behind zone end snap (some rs) =
      some (replay_snapshot snap ++ select zone (start_after snap) end rs)

  unfoldable pub retrieve_up_to : ℕ → Uuid → EventStore → Option (List Response)
  retrieve_up_to end zone s =
      retrieve_behind zone end (find_previous_snapshot end zone s) (retrieve_all s)

  -- RetrieveAllEventsForZone, up to math.MaxUint64
  unfoldable pub retrieve_all_for_zone : Uuid → EventStore → Option (List Response)
  retrieve_all_for_zone zone s = retrieve_up_to (2 ^ 64 - 1) zone s

  -- The loop of PersistSnapshot: what is written, and whether it stopped at an event.
  unfoldable pub write_snapshot : Bool → List DomainEvent → Option StoreError × List ℕ
  write_snapshot z [] = (none, [])
  write_snapshot z (e ∷ es) =
      let rest = write_snapshot z es in
      elim (write_event c z e) [
        | none ↦ (some unhandled_event_type, [])
        | some bs ↦ (rest.0, bs ++ rest.1)
      ]

  unfoldable pub persist_snapshot :
      Uuid → ℕ → List DomainEvent → EventStore → Option StoreError × EventStore
  persist_snapshot zone n es s =
      let written = write_snapshot s.use_compression es in
      (
        written.0,
        record s {
          snapshots =
              put_snapshot (record { zone_id = zone; seq_num = n; content = written.1 })
                s.snapshots;
        },
      )
