-- ===== src/Store/Intents/Recovery.antt =====
-- IntentLogger.Open of store/logger.go, on the log that is left by a crash.
use mathlib.Core.List.{append_assoc, append-nil}
use gomud.Base.{
  ℕ, true, false, ◌||◌, All-append, Option, none, some, List, [], ◌∷◌, ◌++◌, if◌then◌else◌, All,
  ◌≡◌, refl, ap, sym, ◌∙◌, subst, arith,
}
use gomud.Core.Data.{Uuid}
use gomud.Store.Header.{DomainEvent}
use gomud.Store.Stream.{Codec, retrieve_all_from}
use gomud.Store.IntentLog.{
  LogEntry, eof, serialize, deserialize, Transactions, no_transactions, or_empty, completion_of,
  confirm_intent_completion,
}
use gomud.Store.IntentLog.Entry.{IsLoggable}
use gomud.Store.IntentLog.Scan.{serialize_all, note_all, scan_file-entries, truncated-tail}
use gomud.Store.IntentLog.Pending.{
  pending, is_completed, ids, find_entry, DistinctIntents, Represents, Distinct,
}
use gomud.Store.IntentLog.Pending.Correct.{note_all-pending}
use gomud.Store.IntentLog.Pending.Markers.{
  DistinctIntents-completions, completions, pending-completions,
}
use gomud.Store.Intents.{
  IntentLogger, LogError, Handler, events_of, call_handler, redo_one, if_no_error, redo_all,
  redo_scanned, open_log, close_log,
}

-- The events of an intent.
abbrev pub Decodes : Codec → LogEntry → List DomainEvent × List DomainEvent → Type 0
Decodes c e call =
    (events_of (retrieve_all_from c e.redo_content) ≡ some call.0)
    × (events_of (retrieve_all_from c e.undo_content) ≡ some call.1)

-- The calls of the handler for a list of intents, all of which it accepts.
pub data Accepts (c : Codec) (handler : Handler)
    : List LogEntry → List (List DomainEvent × List DomainEvent) → Type 0 where
  no_intent : Accepts c handler [] []
  accepted :
      {e : LogEntry} {redo undo : List DomainEvent} {es : List LogEntry}
      {calls : List (List DomainEvent × List DomainEvent)}
      → Decodes c e (redo, undo)
      → handler redo undo ≡ true
      → Accepts c handler es calls
      → Accepts c handler (e ∷ es) ((redo, undo) ∷ calls)

serialize_all-append :
    (xs ys : List LogEntry) → serialize_all (xs ++ ys) ≡ serialize_all xs ++ serialize_all ys
serialize_all-append [] ys = refl
serialize_all-append (x ∷ xs) ys =
    ap (λ l. serialize x ++ l) (serialize_all-append xs ys)
    ∙ sym (append_assoc (serialize x) (serialize_all xs) (serialize_all ys))

module _ (c : Codec) (handler : Handler) where
  abbrev after_call : Uuid → IntentLogger → List DomainEvent → List DomainEvent → IntentLogger
  after_call id il redo undo = record il {
    calls = il.calls ++ (redo, undo) ∷ [];
    file = il.file ++ serialize (completion_of id);
  }

  one_call :
      (e : LogEntry) (id : Uuid) (il : IntentLogger) (redo undo : List DomainEvent)
      → Decodes c e (redo, undo)
      → handler redo undo ≡ true
      → redo_one c (some handler) e id il ≡ (none, after_call id il redo undo)
  unfolding redo_one call_handler confirm_intent_completion
  one_call e id il redo undo d h = rw (d.0, d.1, h)

  -- Every identifier of the list is that of an intent, in order.
  every_call :
      (trans_map : Uuid → Option LogEntry) (ps : List LogEntry)
      (calls : List (List DomainEvent × List DomainEvent)) (il : IntentLogger)
      → All (λ p. trans_map p.transaction_id ≡ some p) ps
      → Accepts c handler ps calls
      → redo_all c (some handler) trans_map (ids ps) il ≡ (
        none,
        record il { file = il.file ++ serialize_all (completions ps); calls = il.calls ++ calls },
      )
  unfolding redo_all
  every_call trans_map [] _ il f no_intent = rw (append-nil il.file, append-nil il.calls)
  every_call trans_map (p ∷ ps) _ il f
        (accepted {redo = redo} {undo = undo} {calls = calls} d h a) =
      let next = after_call p.transaction_id il redo undo in
      ap
        (λ o.
          if_no_error (redo_one c (some handler) (or_empty o) p.transaction_id il)
            (redo_all c (some handler) trans_map (ids ps)))
        f.0
      ∙ ap (λ r. if_no_error r (redo_all c (some handler) trans_map (ids ps)))
          (one_call p p.transaction_id il redo undo d h)
      ∙ every_call trans_map ps calls next f.1 a
      ∙ rw (
        append_assoc il.file (serialize (completion_of p.transaction_id))
            (serialize_all (completions ps)),
        append_assoc il.calls ((redo, undo) ∷ []) calls,
      )

clash :
    (p q : LogEntry) (ps : List LogEntry)
    → find_entry p.transaction_id ps ≡ none
    → p.transaction_id ≡ q.transaction_id
    → find_entry q.transaction_id ps ≡ none
clash p q ps h e = subst (λ i. find_entry i ps ≡ none) e h

found_behind :
    (p : LogEntry) (ps qs : List LogEntry)
    → find_entry p.transaction_id ps ≡ none
    → All (λ q. find_entry q.transaction_id ps ≡ some q) qs
    → All (λ q. find_entry q.transaction_id (p ∷ ps) ≡ some q) qs
found_behind p ps [] h a = tt
found_behind p ps (q ∷ qs) h a = (ground (arith, a.0, clash p q ps h), found_behind p ps qs h a.1)

found_each :
    (ps : List LogEntry) → Distinct ps → All (λ p. find_entry p.transaction_id ps ≡ some p) ps
found_each [] d = tt
found_each (p ∷ ps) d = (ground arith, found_behind p ps ps d.0 (found_each ps d.1))

mapped_each :
    (ts : Transactions) (ps qs : List LogEntry)
    → Represents ts ps
    → All (λ q. find_entry q.transaction_id ps ≡ some q) qs
    → All (λ q. ts.trans_map q.transaction_id ≡ some q) qs
mapped_each ts ps [] r a = tt
mapped_each ts ps (q ∷ qs) r a = (r.mapped q.transaction_id ∙ a.0, mapped_each ts ps qs r a.1)

nothing_is_eof : deserialize [] ≡ eof
unfolding deserialize
nothing_is_eof = refl

pending_fit : (es : List LogEntry) → All IsLoggable es → All IsLoggable (pending es)
pending_fit [] h = tt
pending_fit (e ∷ es) h =
    elim (e.transaction_completed || is_completed e.transaction_id es)
      as (λ b. All IsLoggable (if b then pending es else e ∷ pending es)) [
        | true ↦ pending_fit es h.1
        | false ↦ (h.0, pending_fit es h.1)
      ]

markers_fit : (ps : List LogEntry) → All IsLoggable ps → All IsLoggable (completions ps)
markers_fit [] h = tt
markers_fit (p ∷ ps) h = (
  record { id_fits = h.0.id_fits; redo_fits = omega arith; undo_fits = omega arith },
  markers_fit ps h.1,
)

module _ (c : Codec) (handler : Handler) where
  -- A log of whole entries that fit, whose intents have distinct identifiers, and behind them bytes
  -- that are not a whole entry: Open calls the handler once for each intent without a completion
  -- marker behind it, in order, with the intent's events, if it accepts them all; it cuts off the bytes
  -- behind the entries, and appends the marker of each of these intents.
  pub open_log-pending :
      (es : List LogEntry) (tail : List ℕ) (old calls : List (List DomainEvent × List DomainEvent))
      → All IsLoggable es
      → DistinctIntents es
      → deserialize tail ≡ eof
      → Accepts c handler (pending es) calls
      → open_log c
          (some handler)
          (record { is_open = false; file = serialize_all es ++ tail; calls = old })
        ≡ (
          none,
          record {
            is_open = true;
            file = serialize_all (es ++ completions (pending es));
            calls = old ++ calls;
          },
        )
  unfolding open_log
  open_log-pending es tail old calls fit distinct torn a =
      let il : IntentLogger = record {
        is_open = true;
        file = serialize_all es ++ tail;
        calls = old;
      } in
      let (r, d) = note_all-pending es distinct in
      let ts = note_all es no_transactions in
      ap (λ o. redo_scanned c (some handler) o il) (scan_file-entries es tail fit torn)
      ∙ ap
          (λ f.
            redo_all c (some handler) ts.trans_map ts.ordered_trans_ids (record il { file = f }))
          (truncated-tail es tail)
      ∙ ap (λ l. redo_all c (some handler) ts.trans_map l (record il { file = serialize_all es }))
          r.ordered
      ∙ every_call c handler ts.trans_map (pending es) calls (record il { file = serialize_all es })
          (mapped_each ts (pending es) (pending es) r (found_each (pending es) d)) a
      ∙ ap (λ f. (none, record { is_open = true; file = f; calls = old ++ calls }))
          (sym (serialize_all-append es (completions (pending es))))

  -- After Open has succeeded on the log that a crash left, and the log is closed, Open succeeds again
  -- without a call of the handler, and leaves the file as it is.
  pub open_log-again :
      (es : List LogEntry) (tail : List ℕ) (old calls : List (List DomainEvent × List DomainEvent))
      → All IsLoggable es
      → DistinctIntents es
      → deserialize tail ≡ eof
      → Accepts c handler (pending es) calls
      → let first =
          (open_log c
            (some handler)
            (record { is_open = false; file = serialize_all es ++ tail; calls = old })).1 in
        open_log c (some handler) (close_log first) ≡ (none, first)
  unfolding close_log
  open_log-again es tail old calls fit distinct torn a =
      let all = es ++ completions (pending es) in
      let again =
        open_log-pending all [] (old ++ calls) []
          (All-append IsLoggable es (completions (pending es)) fit
            (markers_fit (pending es) (pending_fit es fit)))
          (DistinctIntents-completions es (pending es) distinct) nothing_is_eof
          (subst (λ ps. Accepts c handler ps []) (sym (pending-completions es)) no_intent) in
      ap (λ (x : Option LogError × IntentLogger). open_log c (some handler) (close_log x.1))
        (open_log-pending es tail old calls fit distinct torn a)
      ∙ ap
          (λ f.
            open_log c (some handler) (record { is_open = false; file = f; calls = old ++ calls }))
          (sym (append-nil (serialize_all all)))
      ∙ again
      ∙ ap
          (λ qs. (
            none,
            record {
              is_open = true;
              file = serialize_all (all ++ completions qs);
              calls = (old ++ calls) ++ [];
            },
          ))
          (pending-completions es)
      ∙ ap
          (λ l.
            (none, record { is_open = true; file = serialize_all l; calls = (old ++ calls) ++ [] }))
          (append-nil all)
      ∙ ap (λ l. (none, record { is_open = true; file = serialize_all all; calls = l }))
          (append-nil (old ++ calls))
      ∙ ap (λ (x : Option LogError × IntentLogger). (none, x.1))
          (sym (open_log-pending es tail old calls fit distinct torn a))
