-- ===== src/Store/IntentLog.antt =====
-- store/logger.go: the log of intents, and UUIDList.Remove of uuid/uuid.go.
pub mod Entry
pub mod Scan
pub mod Pending
use gomud.Base.{
  ℕ, zero, suc, ◌+◌, ◌-◌, ◌%◌, ◌^◌, Bool, true, false, not, ◌&&◌, ◌==◌, ltb, Option, none, some,
  List, [], ◌∷◌, ◌++◌, if◌then◌else◌, length, take, drop, map, put,
}
use gomud.Core.Data.{Uuid}
use gomud.Core.Refs.{remove}
use gomud.Store.Bytes.{put_uint, uint, zeros}
use gomud.Store.Header.{DomainEvent, flag, slice}
use gomud.Store.Stream.{Codec, Reading, end_of_file, read_error, read, write_event, read_event}

pub record LogEntry : Type 0 where
  pub transaction_id : Uuid
  pub transaction_completed : Bool
  pub redo_content : List ℕ
  pub undo_content : List ℕ

abbrev pub empty_entry : LogEntry
empty_entry = record {
  transaction_id = 0;
  transaction_completed = false;
  redo_content = [];
  undo_content = [];
}

pub record LogHeader : Type 0 where
  pub transaction_id : Uuid
  pub redo_content_len : ℕ
  pub undo_content_len : ℕ
  pub transaction_completed : Bool

abbrev pub log_header_length : ℕ
log_header_length = 32

-- genHeader, with the lengths in 32 bits
unfoldable pub gen_header : LogEntry → LogHeader
gen_header e = record {
  transaction_id = e.transaction_id;
  redo_content_len = length e.redo_content % 2 ^ 32;
  undo_content_len = length e.undo_content % 2 ^ 32;
  transaction_completed = e.transaction_completed;
}

unfoldable pub marshal_log_header : LogHeader → List ℕ
marshal_log_header h =
    put_uint 16 h.transaction_id
    ++ put_uint 4 h.redo_content_len
    ++ put_uint 4 h.undo_content_len
    ++ flag h.transaction_completed ∷ zeros 7

unfoldable pub unmarshal_log_header : List ℕ → Option LogHeader
unmarshal_log_header buf =
    if not (length buf == log_header_length)
    then none
    else some (record {
      transaction_id = uint (slice 0 16 buf);
      redo_content_len = uint (slice 16 4 buf);
      undo_content_len = uint (slice 20 4 buf);
      transaction_completed = uint (slice 24 1 buf) == 1;
    })

unfoldable pub serialize : LogEntry → List ℕ
serialize e = marshal_log_header (gen_header e) ++ e.redo_content ++ e.undo_content

-- What deserialize gives: io.EOF, an error, or the entry with the rest of the file.
pub data Parsed : Type 0 where
  eof : Parsed
  malformed : Parsed
  entry : LogEntry → List ℕ → Parsed

-- The contents behind a header: each is read only if its length is not 0, and a short one is EOF.
unfoldable pub read_contents : LogHeader → List ℕ → Parsed
read_contents h s =
    let redo = take h.redo_content_len s in
    let behind = drop h.redo_content_len s in
    let undo = take h.undo_content_len behind in
    if ltb 0 h.redo_content_len && ltb (length redo) h.redo_content_len
    then eof
    else if ltb 0 h.undo_content_len && ltb (length undo) h.undo_content_len
    then eof
    else entry
        (record {
          transaction_id = h.transaction_id;
          transaction_completed = h.transaction_completed;
          redo_content = redo;
          undo_content = undo;
        })
        (drop h.undo_content_len behind)

abbrev pub parse_behind : Option LogHeader → List ℕ → Parsed
parse_behind none s = malformed
parse_behind (some h) s = read_contents h s

unfoldable pub deserialize : List ℕ → Parsed
deserialize s =
    let hdr_bytes = take log_header_length s in
    if ltb (length hdr_bytes) log_header_length
    then eof
    else parse_behind (unmarshal_log_header hdr_bytes) (drop log_header_length s)

-- `transMap` and `orderedTransIDs`
pub record Transactions : Type 0 where
  pub trans_map : Uuid → Option LogEntry
  pub ordered_trans_ids : List Uuid

abbrev pub no_transactions : Transactions
no_transactions = record { trans_map = λ _. none; ordered_trans_ids = [] }

-- UUIDList.Remove, which has the loop of the pointer lists of core/.
abbrev pub remove_id : List Uuid → Uuid → List Uuid
remove_id ul id = remove ul id

-- The end of the loop's body in Open.
unfoldable pub note : LogEntry → Transactions → Transactions
note we ts =
    if we.transaction_completed
    then record {
      trans_map = put ts.trans_map we.transaction_id none;
      ordered_trans_ids = remove_id ts.ordered_trans_ids we.transaction_id;
    }
    else record {
      trans_map = put ts.trans_map we.transaction_id (some we);
      ordered_trans_ids = ts.ordered_trans_ids ++ we.transaction_id ∷ [];
    }

-- How the reading loop of Open ends: with the transactions and what is left of the file at EOF, or
-- with an error. Without an end it is out of fuel.
pub data Scanned : Type 0 where
  scanned : Transactions → List ℕ → Scanned
  scan_error : Scanned
  out_of_fuel : Scanned

-- The reading loop of Open, with fuel.
unfoldable pub scan : ℕ → List ℕ → Transactions → Scanned
scan zero s ts = out_of_fuel
scan (suc n) s ts = elim (deserialize s) [
  | eof ↦ scanned ts s
  | malformed ↦ scan_error
  | entry we rest ↦ scan n rest (note we ts)
]

-- What Open goes on with, or none if it returns the error.
abbrev pub scanned_part : Scanned → Option (Transactions × List ℕ)
scanned_part (scanned ts s) = some (ts, s)
scanned_part scan_error = none
scanned_part out_of_fuel = none

-- The fuel is one more than the length of the file, and is never used up.
unfoldable pub scan_file : List ℕ → Option (Transactions × List ℕ)
scan_file file = scanned_part (scan (suc (length file)) file no_transactions)

-- The file up to the offset at which the last read began.
abbrev pub truncated : List ℕ → List ℕ → List ℕ
truncated file left = take (length file - length left) file

abbrev pub or_empty : Option LogEntry → LogEntry
or_empty none = empty_entry
or_empty (some we) = we

abbrev pub completion_of : Uuid → LogEntry
completion_of id = record empty_entry { transaction_id = id; transaction_completed = true }

-- ConfirmIntentCompletion on an open log, whose file is open to append.
unfoldable pub confirm_intent_completion : Uuid → List ℕ → List ℕ
confirm_intent_completion id file = file ++ serialize (completion_of id)
