-- ===== src/Store/IntentLog/Pending/Correct.antt =====
-- The map and the list over a whole log of IntentLogger.Open in store/logger.go.
use mathlib.Core.List.{append_assoc, append-nil}
use gomud.Base.{
  true, false, List, [], ◌∷◌, ◌++◌, if◌then◌else◌, ◌≡◌, refl, ap, sym, ◌∙◌, subst, arith,
  Bool-cases, inl, inr,
}
use gomud.Store.IntentLog.{LogEntry, no_transactions}
use gomud.Store.IntentLog.Scan.{note_all}
use gomud.Store.IntentLog.Pending.{
  is_completed, pending, DistinctIntents, Distinct, drop_id, still_open, step, Represents, steps,
}
use gomud.Store.IntentLog.Pending.Table.{note_all-Represents}

still_open-append :
    (es ps : List LogEntry) (e : LogEntry)
    → still_open es (ps ++ e ∷ [])
      ≡ still_open es ps ++ (if is_completed e.transaction_id es then [] else e ∷ [])
still_open-append es [] e = refl
still_open-append es (p ∷ ps) e = ground (arith, still_open-append es ps e)

still_open-marker :
    (e : LogEntry) (es ps : List LogEntry)
    → e.transaction_completed ≡ true
    → still_open es (drop_id e.transaction_id ps) ≡ still_open (e ∷ es) ps
still_open-marker e es [] q = refl
still_open-marker e es (p ∷ ps) q = ground (arith, q, still_open-marker e es ps q)

still_open-intent :
    (e : LogEntry) (es ps : List LogEntry)
    → e.transaction_completed ≡ false
    → still_open (e ∷ es) ps ≡ still_open es ps
still_open-intent e es [] q = refl
still_open-intent e es (p ∷ ps) q = ground (arith, q, still_open-intent e es ps q)

still_open-nothing : (ps : List LogEntry) → still_open [] ps ≡ ps
still_open-nothing [] = refl
still_open-nothing (p ∷ ps) = ap (λ l. p ∷ l) (still_open-nothing ps)

one_more :
    (e : LogEntry) (es ps : List LogEntry)
    → still_open es (step e ps) ++ pending es ≡ still_open (e ∷ es) ps ++ pending (e ∷ es)
one_more e es ps = elim (Bool-cases e.transaction_completed) [
  | inl q ↦ ground (arith, q, still_open-marker e es ps q)
  | inr q ↦ ground (
    arith,
    q,
    still_open-append es ps e,
    still_open-intent e es ps q,
    append_assoc (still_open es ps) (e ∷ []) (pending es),
    append-nil (still_open es ps),
  )
]

steps-pending : (es ps : List LogEntry) → steps es ps ≡ still_open es ps ++ pending es
steps-pending [] ps = sym (append-nil (still_open [] ps) ∙ still_open-nothing ps)
steps-pending (e ∷ es) ps = steps-pending es (step e ps) ∙ one_more e es ps

-- The transactions that are open after a log whose intents have distinct identifiers are the
-- intents without a completion marker behind them, in order, and the map has each of them.
pub note_all-pending :
    (es : List LogEntry)
    → DistinctIntents es
    → Represents (note_all es no_transactions) (pending es) × Distinct (pending es)
note_all-pending es h =
    subst (λ ps. Represents (note_all es no_transactions) ps × Distinct ps) (steps-pending es [])
      (note_all-Represents es no_transactions [] h tt tt
        (record { ordered = refl; mapped = λ _. refl }))
