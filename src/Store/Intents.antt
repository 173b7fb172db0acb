-- ===== src/Store/Intents.antt =====
-- store/logger.go: the operations of an IntentLogger.
pub mod Recovery
use gomud.Base.{ℕ, Bool, true, false, Option, none, some, List, [], ◌∷◌, ◌++◌, if◌then◌else◌}
use gomud.Core.Data.{Uuid}
use gomud.Store.Header.{DomainEvent}
use gomud.Store.Stream.{Codec, Response, value, error, retrieve_all_from}
use gomud.Store.EventStore.{write_snapshot, StoreError}
use gomud.Store.IntentLog.{
  LogEntry, Transactions, serialize, scan_file, truncated, or_empty, confirm_intent_completion,
}

-- An IntentLogger with its file, and the calls of the handler so far.
pub record IntentLogger : Type 0 where
  pub is_open : Bool
  pub file : List ℕ
  pub calls : List (List DomainEvent × List DomainEvent)

pub data LogError : Type 0 where
  not_open already_open unwritable_event malformed_entry no_handler unreadable_event : LogError
  handler_failed : LogError

-- The loops over readEvent in Open: the events of a buffer, or none for an error.
abbrev pub events_of : List Response → Option (List DomainEvent)
events_of [] = some []
events_of (error ∷ rs) = none
events_of (value e ∷ rs) =
    let rest = events_of rs in elim rest [ none ↦ none | some es ↦ some (e ∷ es) ]

-- A handler answers whether it succeeded.
abbrev pub Handler : Type 0
Handler = List DomainEvent → List DomainEvent → Bool

-- `if err != nil { return err }`
abbrev pub if_no_error :
    Option LogError × IntentLogger
    → (IntentLogger → Option LogError × IntentLogger)
    → Option LogError × IntentLogger
if_no_error (some e, il) f = (some e, il)
if_no_error (none, il) f = f il

module _ (c : Codec) where
  -- WriteIntent, with the identifier that NewId gives
  unfoldable pub write_intent :
      Uuid → List DomainEvent → List DomainEvent → IntentLogger → Option LogError × IntentLogger
  write_intent id redo undo il =
      let redo_buf = write_snapshot c true redo in
      let undo_buf = write_snapshot c true undo in
      let we : LogEntry = record {
        transaction_id = id;
        transaction_completed = false;
        redo_content = redo_buf.1;
        undo_content = undo_buf.1;
      } in
      if il.is_open
      then elim redo_buf.0 [
        | some x ↦ (some unwritable_event, il)
        | none ↦ elim undo_buf.0 [
          | some x ↦ (some unwritable_event, il)
          | none ↦ (none, record il { file = il.file ++ serialize we })
        ]
      ]
      else (some not_open, il)

  -- The call of the handler with the events of an intent, and the marker behind it.
  unfoldable pub call_handler :
      Handler
      → Uuid
      → IntentLogger
      → Option (List DomainEvent)
      → Option (List DomainEvent)
      → Option LogError × IntentLogger
  call_handler handler id il none undo = (some unreadable_event, il)
  call_handler handler id il (some redo) none = (some unreadable_event, il)
  call_handler handler id il (some redo) (some undo) =
      let called = record il { calls = il.calls ++ (redo, undo) ∷ [] } in
      if handler redo undo
      then (none, record called { file = confirm_intent_completion id il.file })
      else (some handler_failed, called)

  -- The body of the loop over `orderedTransIDs`.
  unfoldable pub redo_one :
      Option Handler → LogEntry → Uuid → IntentLogger → Option LogError × IntentLogger
  redo_one none we id il = (some no_handler, il)
  redo_one (some handler) we id il =
      call_handler handler id il (events_of (retrieve_all_from c we.redo_content))
        (events_of (retrieve_all_from c we.undo_content))

  unfoldable pub redo_all :
      Option Handler
      → (Uuid → Option LogEntry)
      → List Uuid
      → IntentLogger
      → Option LogError × IntentLogger
  redo_all handler trans_map [] il = (none, il)
  redo_all handler trans_map (id ∷ ids) il =
      if_no_error (redo_one handler (or_empty (trans_map id)) id il)
        (redo_all handler trans_map ids)

  abbrev pub redo_scanned :
      Option Handler
      → Option (Transactions × List ℕ)
      → IntentLogger
      → Option LogError × IntentLogger
  redo_scanned handler none il = (some malformed_entry, il)
  redo_scanned handler (some (ts, left)) il =
      redo_all handler ts.trans_map ts.ordered_trans_ids
        (record il { file = truncated il.file left })

  -- Open
  unfoldable pub open_log : Option Handler → IntentLogger → Option LogError × IntentLogger
  open_log handler il =
      if il.is_open
      then (some already_open, il)
      else redo_scanned handler (scan_file il.file) (record il { is_open = true })

unfoldable pub close_log : IntentLogger → IntentLogger
close_log il = record il { is_open = false }

-- ConfirmIntentCompletion
unfoldable pub confirm : Uuid → IntentLogger → Option LogError × IntentLogger
confirm id il =
    if il.is_open
    then (none, record il { file = confirm_intent_completion id il.file })
    else (some not_open, il)
