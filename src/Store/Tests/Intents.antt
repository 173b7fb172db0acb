-- ===== src/Store/Tests/Intents.antt =====
-- A log of intents after a crash.
use gomud.Base.{
  ◌≢◌, ℕ, ◌<◌, ◌^◌, ◌++◌, true, false, none, some, List, [], ◌∷◌, length, take, arith, All, ap, ◌≡◌,
  refl,
}
use gomud.Store.Header.{marshal_header, header_from_domain_event}
use gomud.Store.Structs.{header_of}
use gomud.Store.Bytes.{put_uint, copy_into, zeros}
use gomud.Store.Conversions.{recalled_event}
use gomud.Store.Stream.{write_struct, write_body}
use gomud.Store.EventStore.RoundTrip.{retrieve_all_from-Holds, write_struct-Holds, Holds-nothing}
use gomud.Store.IntentLog.{
  LogEntry, no_transactions, serialize, deserialize, entry, eof, completion_of, scan, scan_file,
  scanned_part, out_of_fuel, gen_header, marshal_log_header,
}
use gomud.Store.IntentLog.Entry.{IsLoggable, deserialize-serialize, deserialize-torn}
use gomud.Store.IntentLog.Scan.{serialize_all, note_all, scan-ends}
use gomud.Store.IntentLog.Pending.{pending, DistinctIntents, Represents, Distinct}
use gomud.Store.IntentLog.Pending.Correct.{note_all-pending}
use gomud.Store.IntentLog.Pending.Markers.{completions}
use gomud.Store.Intents.{IntentLogger, events_of, open_log, close_log}
use gomud.Store.Intents.Recovery.{Accepts, no_intent, accepted, open_log-pending, open_log-again}
use gomud.Store.Tests.{plain_codec, plain-Inflates, walk, walk_struct, walk-IsWritable}

abbrev nap : LogEntry
nap = record {
  transaction_id = 1;
  transaction_completed = false;
  redo_content = [];
  undo_content = [];
}

-- The intent to write the walk.
abbrev stroll : LogEntry
stroll = record {
  transaction_id = 2;
  transaction_completed = false;
  redo_content = write_struct plain_codec true walk_struct;
  undo_content = [];
}

-- One intent is completed, one is not.
abbrev entries : List LogEntry
entries = nap ∷ stroll ∷ completion_of 1 ∷ []

-- The first bytes of a marker that was cut off.
abbrev torn_tail : List ℕ
torn_tail = take 20 (serialize (completion_of 2))

marker-IsLoggable : (id : ℕ) → id < 2 ^ 128 → IsLoggable (completion_of id)
marker-IsLoggable id h = record { id_fits = h; redo_fits = omega arith; undo_fits = omega arith }

nap-IsLoggable : IsLoggable nap
nap-IsLoggable = record { id_fits = omega arith; redo_fits = omega arith; undo_fits = omega arith }

stroll_length : length stroll.redo_content ≡ 96
unfolding write_struct write_body marshal_header header_of header_from_domain_event put_uint
    copy_into
stroll_length = refl

stroll-IsLoggable : IsLoggable stroll
stroll-IsLoggable = record {
  id_fits = omega arith;
  redo_fits = omega (arith, stroll_length);
  undo_fits = omega arith;
}

entries-IsLoggable : All IsLoggable entries
entries-IsLoggable = (nap-IsLoggable, (stroll-IsLoggable, (marker-IsLoggable 1 (omega arith), tt)))

distinct : DistinctIntents entries
distinct = ((λ _. refl), ((λ _. refl), ((λ _. refl), tt)))

deserialize-serialize_example : deserialize (serialize stroll ++ 9 ∷ []) ≡ entry stroll (9 ∷ [])
deserialize-serialize_example = deserialize-serialize stroll (9 ∷ []) stroll-IsLoggable

marker_length : length (serialize (completion_of 2)) ≡ 32
unfolding serialize gen_header marshal_log_header put_uint zeros
marker_length = refl

deserialize-torn_example : deserialize torn_tail ≡ eof
deserialize-torn_example =
    deserialize-torn (completion_of 2) 20 (marker-IsLoggable 2 (omega arith))
      (omega (arith, marker_length))

torn_tail_eof : deserialize torn_tail ≡ eof
torn_tail_eof =
    deserialize-torn (completion_of 2) 20 (marker-IsLoggable 2 (omega arith))
      (omega (arith, marker_length))

scan-ends_example :
    (scan 4 (1 ∷ 2 ∷ 3 ∷ []) no_transactions ≢ out_of_fuel)
    × (scanned_part (scan 4 (1 ∷ 2 ∷ 3 ∷ []) no_transactions) ≡ scan_file (1 ∷ 2 ∷ 3 ∷ []))
scan-ends_example = scan-ends 4 (1 ∷ 2 ∷ 3 ∷ []) (omega arith)

note_all-pending_example :
    Represents (note_all entries no_transactions) (pending entries) × Distinct (pending entries)
note_all-pending_example = note_all-pending entries distinct

stroll_accepted :
    Accepts plain_codec (λ _ _. true) (pending entries) ((recalled_event walk ∷ [], []) ∷ [])
stroll_accepted =
    accepted
      (
        ap events_of (
            retrieve_all_from-Holds plain_codec stroll.redo_content (recalled_event walk ∷ []) (
              write_struct-Holds plain_codec plain-Inflates true walk walk_struct
                (walk-IsWritable true))),
        ap events_of (retrieve_all_from-Holds plain_codec [] [] (Holds-nothing plain_codec)),
      )
      refl no_intent

abbrev crashed : IntentLogger
crashed = record { is_open = false; file = serialize_all entries ++ torn_tail; calls = [] }

open_log-pending_example : open_log plain_codec (some (λ _ _. true)) crashed ≡ (
  none,
  record {
    is_open = true;
    file = serialize_all (entries ++ completions (pending entries));
    calls = [] ++ (recalled_event walk ∷ [], []) ∷ [];
  },
)
open_log-pending_example =
    open_log-pending plain_codec (λ _ _. true) entries torn_tail []
      ((recalled_event walk ∷ [], []) ∷ []) entries-IsLoggable distinct torn_tail_eof
      stroll_accepted

open_log-again_example :
    open_log plain_codec
      (some (λ _ _. true))
      (close_log (open_log plain_codec (some (λ _ _. true)) crashed).1)
    ≡ (none, (open_log plain_codec (some (λ _ _. true)) crashed).1)
open_log-again_example =
    open_log-again plain_codec (λ _ _. true) entries torn_tail []
      ((recalled_event walk ∷ [], []) ∷ []) entries-IsLoggable distinct torn_tail_eof
      stroll_accepted
