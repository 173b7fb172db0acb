-- ===== src/Store/IntentLog/Pending/Table.antt =====
-- The map and the list, entry by entry, of IntentLogger.Open in store/logger.go.
use gomud.Base.{
  true, false, ◌==◌, none, some, List, [], ◌∷◌, ◌++◌, if◌then◌else◌, put, ◌≡◌, refl, ap, sym, ◌∙◌,
  subst, arith,
}
use gomud.Core.Data.{Uuid}
use gomud.Core.Refs.{remove}
use gomud.Core.Refs.Laws.{remove-cons, remove-nil}
use gomud.Store.IntentLog.{LogEntry, Transactions, note}
use gomud.Store.IntentLog.Scan.{note_all}
use gomud.Store.IntentLog.Pending.{
  has_intent, DistinctIntents, ids, find_entry, Distinct, drop_id, step, Represents, Unused, steps,
}

drop_id-absent : (id : Uuid) (ps : List LogEntry) → find_entry id ps ≡ none → drop_id id ps ≡ ps
drop_id-absent id [] h = refl
drop_id-absent id (p ∷ ps) h = ground (arith, drop_id-absent id ps)

drop_first :
    (id : Uuid) (p : LogEntry) (ps : List LogEntry)
    → find_entry p.transaction_id ps ≡ none
    → p.transaction_id ≡ id
    → drop_id id ps ≡ ps
drop_first id p ps h q = drop_id-absent id ps (subst (λ i. find_entry i ps ≡ none) q h)

remove-ids :
    (id : Uuid) (ps : List LogEntry) → Distinct ps → remove (ids ps) id ≡ ids (drop_id id ps)
remove-ids id [] h = remove-nil id
remove-ids id (p ∷ ps) h =
    ground (
      arith,
      remove-cons p.transaction_id (ids ps) id,
      remove-ids id ps h.1,
      drop_first id p ps h.0,
    )

find-drop_id :
    (id j : Uuid) (ps : List LogEntry)
    → find_entry j (drop_id id ps) ≡ (if id == j then none else find_entry j ps)
find-drop_id id j [] = ground arith
find-drop_id id j (p ∷ ps) = ground (arith, find-drop_id id j ps)

find-append :
    (j : Uuid) (ps : List LogEntry) (e : LogEntry)
    → find_entry e.transaction_id ps ≡ none
    → find_entry j (ps ++ e ∷ []) ≡ (if e.transaction_id == j then some e else find_entry j ps)
find-append j [] e h = ground arith
find-append j (p ∷ ps) e h = ground (arith, find-append j ps e)

Distinct-drop_id : (id : Uuid) (ps : List LogEntry) → Distinct ps → Distinct (drop_id id ps)
Distinct-drop_id id [] h = tt
Distinct-drop_id id (p ∷ ps) h =
    elim (p.transaction_id == id)
      as (λ b. Distinct (if b then drop_id id ps else p ∷ drop_id id ps)) [
        | true ↦ Distinct-drop_id id ps h.1
        | false ↦
            (ground (arith, find-drop_id id p.transaction_id ps, h.0), Distinct-drop_id id ps h.1)
      ]

absent_behind :
    (e p : LogEntry) (ps : List LogEntry)
    → find_entry e.transaction_id (p ∷ ps) ≡ none
    → find_entry e.transaction_id ps ≡ none
absent_behind e p ps h = ground arith

Distinct-append :
    (ps : List LogEntry) (e : LogEntry)
    → find_entry e.transaction_id ps ≡ none
    → Distinct ps
    → Distinct (ps ++ e ∷ [])
Distinct-append [] e h d = (refl, tt)
Distinct-append (p ∷ ps) e h d = (
  ground (arith, find-append p.transaction_id ps e (absent_behind e p ps h), d.0, h),
  Distinct-append ps e (absent_behind e p ps h) d.1,
)

ids-append :
    (ps : List LogEntry) (e : LogEntry) → ids (ps ++ e ∷ []) ≡ ids ps ++ e.transaction_id ∷ []
ids-append [] e = refl
ids-append (p ∷ ps) e = ap (λ l. p.transaction_id ∷ l) (ids-append ps e)

-- One entry, a marker or an intent with a fresh identifier.
note-Represents :
    (e : LogEntry) (ts : Transactions) (ps : List LogEntry)
    → Distinct ps
    → (e.transaction_completed ≡ false → find_entry e.transaction_id ps ≡ none)
    → Represents ts ps
    → Represents (note e ts) (step e ps)
unfolding note
note-Represents e ts ps d fresh r =
    elim e.transaction_completed
        as (λ b.
          (b ≡ false → find_entry e.transaction_id ps ≡ none)
          → Represents
              (if b
                then record {
                  trans_map = put ts.trans_map e.transaction_id none;
                  ordered_trans_ids = remove ts.ordered_trans_ids e.transaction_id;
                }
                else record {
                  trans_map = put ts.trans_map e.transaction_id (some e);
                  ordered_trans_ids = ts.ordered_trans_ids ++ e.transaction_id ∷ [];
                })
              (if b then drop_id e.transaction_id ps else ps ++ e ∷ [])) [
                | true ↦ λ _. record {
                  ordered =
                      ap (λ l. remove l e.transaction_id) r.ordered
                      ∙ remove-ids e.transaction_id ps d;
                  mapped = λ id. ground (arith, r.mapped id, find-drop_id e.transaction_id id ps);
                }
                | false ↦ λ absent. record {
                  ordered = ap (λ l. l ++ e.transaction_id ∷ []) r.ordered ∙ sym (ids-append ps e);
                  mapped = λ id. ground (arith, r.mapped id, find-append id ps e (absent refl));
                }
              ]
      fresh

step-Distinct :
    (e : LogEntry) (ps : List LogEntry)
    → Distinct ps
    → (e.transaction_completed ≡ false → find_entry e.transaction_id ps ≡ none)
    → Distinct (step e ps)
step-Distinct e ps d fresh =
    elim e.transaction_completed
        as (λ b.
          (b ≡ false → find_entry e.transaction_id ps ≡ none)
          → Distinct (if b then drop_id e.transaction_id ps else ps ++ e ∷ [])) [
            | true ↦ λ _. Distinct-drop_id e.transaction_id ps d
            | false ↦ λ absent. Distinct-append ps e (absent refl) d
          ]
      fresh

Unused-absent :
    (e : LogEntry) (es ps : List LogEntry)
    → Unused (e ∷ es) ps
    → e.transaction_completed ≡ false
    → find_entry e.transaction_id ps ≡ none
Unused-absent e es [] u q = refl
Unused-absent e es (p ∷ ps) u q = ground (arith, u.0, q, Unused-absent e es ps u.1 q)

Unused-tail : (e : LogEntry) (es ps : List LogEntry) → Unused (e ∷ es) ps → Unused es ps
Unused-tail e es [] u = tt
Unused-tail e es (p ∷ ps) u = (ground (arith, u.0), Unused-tail e es ps u.1)

Unused-drop_id : (id : Uuid) (es ps : List LogEntry) → Unused es ps → Unused es (drop_id id ps)
Unused-drop_id id es [] u = tt
Unused-drop_id id es (p ∷ ps) u =
    elim (p.transaction_id == id)
      as (λ b. Unused es (if b then drop_id id ps else p ∷ drop_id id ps)) [
        | true ↦ Unused-drop_id id es ps u.1
        | false ↦ (u.0, Unused-drop_id id es ps u.1)
      ]

Unused-append :
    (es ps : List LogEntry) (e : LogEntry)
    → has_intent e.transaction_id es ≡ false
    → Unused es ps
    → Unused es (ps ++ e ∷ [])
Unused-append es [] e h u = (h, tt)
Unused-append es (p ∷ ps) e h u = (u.0, Unused-append es ps e h u.1)

step-Unused :
    (e : LogEntry) (es ps : List LogEntry)
    → (e.transaction_completed ≡ false → has_intent e.transaction_id es ≡ false)
    → Unused (e ∷ es) ps
    → Unused es (step e ps)
step-Unused e es ps fresh u =
    elim e.transaction_completed
        as (λ b.
          (b ≡ false → has_intent e.transaction_id es ≡ false)
          → Unused es (if b then drop_id e.transaction_id ps else ps ++ e ∷ [])) [
            | true ↦ λ _. Unused-drop_id e.transaction_id es ps (Unused-tail e es ps u)
            | false ↦ λ absent. Unused-append es ps e (absent refl) (Unused-tail e es ps u)
          ]
      fresh

pub note_all-Represents :
    (es : List LogEntry) (ts : Transactions) (ps : List LogEntry)
    → DistinctIntents es
    → Distinct ps
    → Unused es ps
    → Represents ts ps
    → Represents (note_all es ts) (steps es ps) × Distinct (steps es ps)
note_all-Represents [] ts ps h d u r = (r, d)
note_all-Represents (e ∷ es) ts ps h d u r =
    let absent = Unused-absent e es ps u in
    note_all-Represents es (note e ts) (step e ps) h.1 (step-Distinct e ps d absent)
      (step-Unused e es ps h.0 u) (note-Represents e ts ps d absent r)
