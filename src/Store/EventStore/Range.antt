-- ===== src/Store/EventStore/Range.antt =====
-- RetrieveEventsUpToSequenceNumForZone of store/store.go.
use gomud.Base.{
  ℕ, ◌+◌, ◌%◌, ◌^◌, ◌≤◌, ◌<◌, false, ◌&&◌, ◌==◌, leb, Option, none, some, List, [], ◌∷◌, ◌++◌, map,
  if◌then◌else◌, ◌≡◌, refl, ap, sym, ◌∙◌, arith, All,
}
use gomud.Core.Data.{Uuid}
use gomud.Store.Header.{DomainEvent}
use gomud.Store.Conversions.{recalled_event}
use gomud.Store.Stream.{Codec, Response, value, retrieve_all_from}
use gomud.Store.Stream.RoundTrip.{Inflates}
use gomud.Store.EventStore.{
  EventStore, SnapshotFile, find_snapshot, find_previous_snapshot, select, put_snapshot,
  retrieve_all, replay_snapshot, retrieve_behind, retrieve_up_to, persist_snapshot, write_snapshot,
}
use gomud.Store.EventStore.RoundTrip.{
  AllWritable, Holds, map_append, retrieve_all_from-Holds, write_snapshot-Holds,
}

-- The events of a zone with a number from `from` to `to`.
abbrev pub in_range : Uuid → ℕ → ℕ → List DomainEvent → List DomainEvent
in_range zone from to [] = []
in_range zone from to (e ∷ es) =
    let rest = in_range zone from to es in
    if (e.aggregate_id == zone) && leb from e.sequence_num && leb e.sequence_num to
    then e ∷ rest
    else rest

-- The zone's events never have a lower number than an earlier event of the zone.
abbrev pub Ascends : Uuid → List DomainEvent → Type 0
Ascends zone [] = Unit
Ascends zone (e ∷ es) =
    (e.aggregate_id ≡ zone → All (λ d. d.aggregate_id ≡ zone → e.sequence_num ≤ d.sequence_num) es)
    × Ascends zone es

none_in_range :
    (zone : Uuid) (from to n : ℕ) (es : List DomainEvent)
    → to < n
    → All (λ d. d.aggregate_id ≡ zone → n ≤ d.sequence_num) es
    → in_range zone from to es ≡ []
none_in_range zone from to n [] h a = refl
none_in_range zone from to n (e ∷ es) h a =
    ground (arith, a.0, none_in_range zone from to n es h a.1)

stops :
    (zone : Uuid) (from to : ℕ) (e : DomainEvent) (es : List DomainEvent)
    → (e.aggregate_id ≡ zone
        → All (λ d. d.aggregate_id ≡ zone → e.sequence_num ≤ d.sequence_num) es)
    → e.aggregate_id ≡ zone
    → to < e.sequence_num
    → in_range zone from to es ≡ []
stops zone from to e es a q h = none_in_range zone from to e.sequence_num es h (a q)

select-in_range :
    (zone : Uuid) (from to : ℕ) (es : List DomainEvent)
    → Ascends zone es
    → select zone from to (map value es) ≡ map value (in_range zone from to es)
unfolding select
select-in_range zone from to [] a = refl
select-in_range zone from to (e ∷ es) a =
    ground (arith, select-in_range zone from to es a.1, stops zone from to e es a.0)

other_file :
    (f g : SnapshotFile)
    → (g.zone_id ≡ f.zone_id → g.seq_num < f.seq_num)
    → ((g.zone_id == f.zone_id) && (g.seq_num == f.seq_num)) ≡ false
other_file f g h = ground arith

after_chosen :
    (max : ℕ) (f g : SnapshotFile) (fs : List SnapshotFile)
    → (g.zone_id ≡ f.zone_id → g.seq_num < f.seq_num)
    → (g.seq_num ≤ f.seq_num
        → find_snapshot max f.zone_id (put_snapshot f fs) g.seq_num (some g) ≡ some f)
    → g.zone_id ≡ f.zone_id
    → find_snapshot max f.zone_id (put_snapshot f fs) g.seq_num (some g) ≡ some f
after_chosen max f g fs h k m = k (omega (arith, h m))

small_mod : (n : ℕ) → n < 2 ^ 64 → n % 2 ^ 64 ≡ n
small_mod n h = omega arith

-- A fresh snapshot is the one that is found.
find-put_snapshot :
    (max : ℕ) (f : SnapshotFile) (fs : List SnapshotFile) (highest : ℕ)
    (selected : Option SnapshotFile)
    → highest ≤ f.seq_num
    → f.seq_num ≤ max
    → All (λ g. g.zone_id ≡ f.zone_id → g.seq_num < f.seq_num) fs
    → find_snapshot max f.zone_id (put_snapshot f fs) highest selected ≡ some f
unfolding find_snapshot put_snapshot
find-put_snapshot max f [] highest selected p q a = ground arith
find-put_snapshot max f (g ∷ fs) highest selected p q a = rw (other_file f g a.0) (
    ground (
      arith,
      find-put_snapshot max f fs highest selected p q a.1,
      after_chosen max f g fs a.0 (λ h. find-put_snapshot max f fs g.seq_num (some g) h q a.1),
    ))

module _ (c : Codec) where
  retrieve_all-Holds :
      (s : EventStore) (bs : List ℕ) (log : List DomainEvent)
      → s.file ≡ some bs
      → Holds c bs log
      → retrieve_all c s ≡ some (map value log)
  unfolding retrieve_all
  retrieve_all-Holds s bs log file held =
      ap {B = Option (List Response)}
        (λ o. elim o [ none ↦ none | some x ↦ some (retrieve_all_from c x) ]) file
      ∙ ap some (retrieve_all_from-Holds c bs log held)

  -- What a store gives for a zone, with a snapshot that is found: its events, then those of the file
  -- with a higher number, up to the limit.
  with_snapshot :
      (end : ℕ) (zone : Uuid) (s : EventStore) (bs : List ℕ) (log snap : List DomainEvent)
      (f : SnapshotFile)
      → s.file ≡ some bs
      → Holds c bs log
      → Ascends zone log
      → find_previous_snapshot end zone s ≡ some f
      → Holds c f.content snap
      → f.seq_num + 1 < 2 ^ 64
      → retrieve_up_to c end zone s
        ≡ some (map value (snap ++ in_range zone (f.seq_num + 1) end log))
  unfolding retrieve_up_to retrieve_behind replay_snapshot
  with_snapshot end zone s bs log snap f file held a found kept small =
      ap (λ o. retrieve_behind c zone end o (retrieve_all c s)) found
      ∙ ap (retrieve_behind c zone end (some f)) (retrieve_all-Holds s bs log file held)
      ∙ rw
          (
            retrieve_all_from-Holds c f.content snap kept,
            small_mod (f.seq_num + 1) small,
            select-in_range zone (f.seq_num + 1) end log a,
          )
          (ap some (sym (map_append value snap (in_range zone (f.seq_num + 1) end log))))

  -- Without a snapshot: the zone's events of the file up to the limit.
  pub without_snapshot :
      (end : ℕ) (zone : Uuid) (s : EventStore) (bs : List ℕ) (log : List DomainEvent)
      → s.file ≡ some bs
      → Holds c bs log
      → Ascends zone log
      → find_previous_snapshot end zone s ≡ none
      → retrieve_up_to c end zone s ≡ some (map value (in_range zone 0 end log))
  unfolding retrieve_up_to retrieve_behind replay_snapshot
  without_snapshot end zone s bs log file held a found =
      ap (λ o. retrieve_behind c zone end o (retrieve_all c s)) found
      ∙ ap (retrieve_behind c zone end none) (retrieve_all-Holds s bs log file held)
      ∙ ap some (select-in_range zone 0 end log a)

module _ (c : Codec) (inflates : Inflates c) where
  snapshot_written :
      (zone : Uuid) (n : ℕ) (snap : List DomainEvent) (s : EventStore) (bs : List ℕ)
      → write_snapshot c s.use_compression snap ≡ (none, bs)
      → (persist_snapshot c zone n snap s).1 ≡ record s {
        snapshots = put_snapshot (record { zone_id = zone; seq_num = n; content = bs }) s.snapshots;
      }
  unfolding persist_snapshot
  snapshot_written zone n snap s bs same =
      ap
        (λ (w : _ × List ℕ). record s {
          snapshots =
              put_snapshot (record { zone_id = zone; seq_num = n; content = w.1 }) s.snapshots;
        })
        same

  -- After a snapshot of a zone is persisted whose number is above those of the zone's other
  -- snapshots, the store gives, for a limit that is not below it, the events of the snapshot and
  -- then exactly the zone's events of the file with a higher number, up to the limit. The numbers
  -- of the zone's events ascend in the file, and the snapshot's is below the last of 64 bits.
  pub retrieve_up_to-persist_snapshot :
      (end n : ℕ) (zone : Uuid) (s : EventStore) (bs : List ℕ) (log snap : List DomainEvent)
      → s.file ≡ some bs
      → Holds c bs log
      → Ascends zone log
      → AllWritable c s.use_compression snap
      → All (λ g. g.zone_id ≡ zone → g.seq_num < n) s.snapshots
      → n ≤ end
      → n + 1 < 2 ^ 64
      → retrieve_up_to c end zone (persist_snapshot c zone n snap s).1
        ≡ some (map value (map recalled_event snap ++ in_range zone (n + 1) end log))
  unfolding find_previous_snapshot
  retrieve_up_to-persist_snapshot end n zone s bs log snap file held a ws fresh p small =
      let (more, same, kept) = write_snapshot-Holds c inflates s.use_compression snap ws in
      let f : SnapshotFile = record { zone_id = zone; seq_num = n; content = more } in
      ap (retrieve_up_to c end zone) (snapshot_written zone n snap s more same)
      ∙ with_snapshot c end zone (record s { snapshots = put_snapshot f s.snapshots }) bs log
          (map recalled_event snap) f file held a
          (find-put_snapshot end f s.snapshots 0 none (omega arith) p fresh) kept small
