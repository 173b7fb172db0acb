-- ===== src/Store/IntentLog/Pending.antt =====
-- The transactions of IntentLogger.Open in store/logger.go, over whole logs.
pub mod Table
pub mod Correct
pub mod Markers
use mathlib.Core.List.{append_assoc, append-nil}
use gomud.Base.{
  Bool, true, false, not, ◌&&◌, ◌||◌, ◌==◌, Option, none, some, List, [], ◌∷◌, ◌++◌, if◌then◌else◌,
  map, put, All, ◌≡◌, refl, ap, sym, ◌∙◌, subst, arith, Bool-cases, inl, inr,
}
use gomud.Core.Data.{Uuid}
use gomud.Core.Refs.{remove}
use gomud.Core.Refs.Laws.{remove-cons, remove-nil}
use gomud.Store.IntentLog.{LogEntry, Transactions, note, no_transactions, completion_of}
use gomud.Store.IntentLog.Scan.{note_all}

-- The log has a completion marker for the identifier.
abbrev pub is_completed : Uuid → List LogEntry → Bool
is_completed id [] = false
is_completed id (e ∷ es) =
    (e.transaction_completed && (e.transaction_id == id)) || is_completed id es

-- The intents without a completion marker behind them, in order.
abbrev pub pending : List LogEntry → List LogEntry
pending [] = []
pending (e ∷ es) =
    let rest = pending es in
    if e.transaction_completed || is_completed e.transaction_id es then rest else e ∷ rest

abbrev pub has_intent : Uuid → List LogEntry → Bool
has_intent id [] = false
has_intent id (e ∷ es) =
    (not e.transaction_completed && (e.transaction_id == id)) || has_intent id es

-- No identifier is given to two intents.
abbrev pub DistinctIntents : List LogEntry → Type 0
DistinctIntents [] = Unit
DistinctIntents (e ∷ es) =
    (e.transaction_completed ≡ false → has_intent e.transaction_id es ≡ false) × DistinctIntents es

abbrev pub ids : List LogEntry → List Uuid
ids = map (λ e. e.transaction_id)

abbrev pub find_entry : Uuid → List LogEntry → Option LogEntry
find_entry id [] = none
find_entry id (e ∷ es) =
    let rest = find_entry id es in if e.transaction_id == id then some e else rest

abbrev pub Distinct : List LogEntry → Type 0
Distinct [] = Unit
Distinct (e ∷ es) = (find_entry e.transaction_id es ≡ none) × Distinct es

abbrev pub drop_id : Uuid → List LogEntry → List LogEntry
drop_id id [] = []
drop_id id (e ∷ es) = let rest = drop_id id es in if e.transaction_id == id then rest else e ∷ rest

-- What stays open of earlier intents.
abbrev pub still_open : List LogEntry → List LogEntry → List LogEntry
still_open es [] = []
still_open es (p ∷ ps) =
    let rest = still_open es ps in if is_completed p.transaction_id es then rest else p ∷ rest

-- The open intents after one more entry.
abbrev pub step : LogEntry → List LogEntry → List LogEntry
step e ps = if e.transaction_completed then drop_id e.transaction_id ps else ps ++ e ∷ []

-- The transactions hold exactly the open intents.
pub record Represents (ts : Transactions) (ps : List LogEntry) : Type 0 where
  pub ordered : ts.ordered_trans_ids ≡ ids ps
  pub mapped : (id : Uuid) → ts.trans_map id ≡ find_entry id ps

-- No intent of the log has the identifier of an open one.
abbrev pub Unused : List LogEntry → List LogEntry → Type 0
Unused es [] = Unit
Unused es (p ∷ ps) = (has_intent p.transaction_id es ≡ false) × Unused es ps

abbrev pub steps : List LogEntry → List LogEntry → List LogEntry
steps [] ps = ps
steps (e ∷ es) ps = steps es (step e ps)
