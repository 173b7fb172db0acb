-- ===== src/Store/IntentLog/Pending/Markers.antt =====
-- The markers at the end of IntentLogger.Open in store/logger.go.
use gomud.Base.{
  Bool, true, false, ◌||◌, List, [], ◌∷◌, ◌++◌, if◌then◌else◌, map, All, ◌≡◌, refl, arith,
}
use gomud.Core.Data.{Uuid}
use gomud.Store.IntentLog.{LogEntry, completion_of}
use gomud.Store.IntentLog.Pending.{is_completed, pending, has_intent, DistinctIntents}

-- After the markers for a list of intents are written, those intents are not pending.
abbrev pub completions : List LogEntry → List LogEntry
completions = map (λ e. completion_of e.transaction_id)

is_completed-append :
    (id : Uuid) (xs ys : List LogEntry)
    → is_completed id (xs ++ ys) ≡ (is_completed id xs || is_completed id ys)
is_completed-append id [] ys = refl
is_completed-append id (x ∷ xs) ys = ground (arith, is_completed-append id xs ys)

pending-markers : (ps : List LogEntry) → pending (completions ps) ≡ []
pending-markers [] = refl
pending-markers (p ∷ ps) = pending-markers ps

has_intent-markers : (id : Uuid) (ps : List LogEntry) → has_intent id (completions ps) ≡ false
has_intent-markers id [] = refl
has_intent-markers id (p ∷ ps) = has_intent-markers id ps

-- All of the open intents have a marker in the list.
abbrev AllMarked : List LogEntry → List LogEntry → Type 0
AllMarked ms = All (λ p. is_completed p.transaction_id ms ≡ true)

marked_later :
    (p : LogEntry) (ps ms : List LogEntry)
    → AllMarked ms ps
    → AllMarked (completion_of p.transaction_id ∷ ms) ps
marked_later p [] ms h = tt
marked_later p (q ∷ ps) ms h = (ground (arith, h.0), marked_later p ps ms h.1)

completions-AllMarked : (ps : List LogEntry) → AllMarked (completions ps) ps
completions-AllMarked [] = tt
completions-AllMarked (p ∷ ps) =
    (ground arith, marked_later p ps (completions ps) (completions-AllMarked ps))

marked_one :
    (e : LogEntry) (es ms : List LogEntry)
    → (AllMarked ms (pending es) → pending (es ++ ms) ≡ [])
    → (b : Bool) → (e.transaction_completed || is_completed e.transaction_id es) ≡ b
    → AllMarked ms (if b then pending es else e ∷ pending es)
    → pending (e ∷ es ++ ms) ≡ []
marked_one e es ms h true q a = ground (arith, q, is_completed-append e.transaction_id es ms, h a)
marked_one e es ms h false q a =
    ground (arith, q, a.0, is_completed-append e.transaction_id es ms, h a.1)

pending-append_marked :
    (es ms : List LogEntry) → pending ms ≡ [] → AllMarked ms (pending es) → pending (es ++ ms) ≡ []
pending-append_marked [] ms h a = h
pending-append_marked (e ∷ es) ms h a =
    marked_one e es ms (pending-append_marked es ms h)
      (e.transaction_completed || is_completed e.transaction_id es) refl a

-- Nothing is pending once the markers of the pending intents are written.
pub pending-completions : (es : List LogEntry) → pending (es ++ completions (pending es)) ≡ []
pending-completions es =
    pending-append_marked es (completions (pending es)) (pending-markers (pending es))
      (completions-AllMarked (pending es))

tail_without :
    (id : Uuid) (x : LogEntry) (xs : List LogEntry)
    → has_intent id (x ∷ xs) ≡ false
    → has_intent id xs ≡ false
tail_without id x xs h = ground (arith, h)

has_intent-append :
    (id : Uuid) (xs ys : List LogEntry)
    → has_intent id xs ≡ false
    → has_intent id ys ≡ false
    → has_intent id (xs ++ ys) ≡ false
has_intent-append id [] ys p q = q
has_intent-append id (x ∷ xs) ys p q =
    ground (arith, p, has_intent-append id xs ys (tail_without id x xs p) q)

markers_distinct : (ps : List LogEntry) → DistinctIntents (completions ps)
markers_distinct [] = tt
markers_distinct (p ∷ ps) = ((λ q. has_intent-markers p.transaction_id ps), markers_distinct ps)

pub DistinctIntents-completions :
    (es ps : List LogEntry) → DistinctIntents es → DistinctIntents (es ++ completions ps)
DistinctIntents-completions [] ps h = markers_distinct ps
DistinctIntents-completions (e ∷ es) ps h = (
  (λ q.
      has_intent-append e.transaction_id es (completions ps) (h.0 q)
        (has_intent-markers e.transaction_id ps)),
  DistinctIntents-completions es ps h.1,
)
