-- ===== src/Store/IntentLog/Scan.antt =====
-- The reading loop of IntentLogger.Open in store/logger.go.
use mathlib.Core.List.{append_assoc}
use gomud.Base.{
  ℕ, zero, suc, ◌+◌, ◌-◌, ◌≤◌, ◌<◌, Bool, true, false, ltb, ◌&&◌, Option, none, some, List, [], ◌∷◌,
  ◌++◌, if◌then◌else◌, length, length-append, take, drop, All, ◌≡◌, ◌≢◌, refl, ap, ◌∙◌, arith,
}
use gomud.Store.Bytes.{take-append_length}
use gomud.Store.IntentLog.{
  LogEntry, LogHeader, serialize, Parsed, eof, malformed, entry, read_contents, parse_behind,
  unmarshal_log_header, deserialize, Transactions, note, no_transactions, scan, scan_file, Scanned,
  scanned, scan_error, out_of_fuel, scanned_part, truncated,
}
use gomud.Store.IntentLog.Entry.{
  IsLoggable, deserialize-serialize, length-serialize, length-drop, length-take,
}

-- The bytes of a log.
abbrev pub serialize_all : List LogEntry → List ℕ
serialize_all [] = []
serialize_all (e ∷ es) = serialize e ++ serialize_all es

-- The transactions after the entries of a log.
abbrev pub note_all : List LogEntry → Transactions → Transactions
note_all [] ts = ts
note_all (e ∷ es) ts = note_all es (note e ts)

entries_length :
    (es : List LogEntry) (tail : List ℕ) → length es ≤ length (serialize_all es ++ tail)
entries_length [] tail = omega arith
entries_length (e ∷ es) tail = omega (
  arith,
  length-append (serialize e ++ serialize_all es) tail,
  length-append (serialize e) (serialize_all es),
  length-append (serialize_all es) tail,
  length-serialize e,
  entries_length es tail,
)

scan-entries :
    (n k : ℕ) (es : List LogEntry) (tail : List ℕ) (ts : Transactions)
    → n ≡ length es + suc k
    → All IsLoggable es
    → deserialize tail ≡ eof
    → scan n (serialize_all es ++ tail) ts ≡ scanned (note_all es ts) tail
unfolding scan
scan-entries zero k es tail ts q h torn = ground arith
scan-entries (suc n) k [] tail ts q h torn =
    ap
      (λ p. elim p as (λ _. Scanned) [
        | eof ↦ scanned ts tail
        | malformed ↦ scan_error
        | entry we rest ↦ scan n rest (note we ts)
      ])
      torn
scan-entries (suc n) k (e ∷ es) tail ts q h torn =
    let s = (serialize e ++ serialize_all es) ++ tail in
    ap
      (λ p. elim p as (λ _. Scanned) [
        | eof ↦ scanned ts s
        | malformed ↦ scan_error
        | entry we rest ↦ scan n rest (note we ts)
      ])
      (ap deserialize (append_assoc (serialize e) (serialize_all es) tail)
        ∙ deserialize-serialize e (serialize_all es ++ tail) h.0)
    ∙ scan-entries n k es tail (note e ts) (omega arith) h.1 torn

-- A log with a tail that is not a whole entry: each entry of the log is read, and the tail is left.
pub scan_file-entries :
    (es : List LogEntry) (tail : List ℕ)
    → All IsLoggable es
    → deserialize tail ≡ eof
    → scan_file (serialize_all es ++ tail) ≡ some (note_all es no_transactions, tail)
unfolding scan_file
scan_file-entries es tail h torn =
    let file = serialize_all es ++ tail in
    ap scanned_part (
      scan-entries (suc (length file)) (length file - length es) es tail no_transactions
        (omega (arith, entries_length es tail)) h torn)

-- The file is truncated to its whole entries.
pub truncated-tail :
    (es : List LogEntry) (tail : List ℕ)
    → truncated (serialize_all es ++ tail) tail ≡ serialize_all es
truncated-tail es tail =
    ap (λ n. take n (serialize_all es ++ tail))
      (omega (arith, length-append (serialize_all es) tail))
    ∙ take-append_length (serialize_all es) tail

-- What is left behind an entry is shorter.
data Shrinks (n : ℕ) : Parsed → Type 0 where
  at_eof : Shrinks n eof
  at_malformed : Shrinks n malformed
  behind : (e : LogEntry) (rest : List ℕ) → length rest < n → Shrinks n (entry e rest)

contents_Shrinks :
    (n : ℕ) (h : LogHeader) (s : List ℕ) → length s < n → Shrinks n (read_contents h s)
unfolding read_contents
contents_Shrinks n h s l =
    let redo = take h.redo_content_len s in
    let tail = drop h.redo_content_len s in
    let undo = take h.undo_content_len tail in
    let whole : LogEntry = record {
      transaction_id = h.transaction_id;
      transaction_completed = h.transaction_completed;
      redo_content = redo;
      undo_content = undo;
    } in
    let read = entry whole (drop h.undo_content_len tail) in
    either n (ltb 0 h.redo_content_len && ltb (length redo) h.redo_content_len)
      (if ltb 0 h.undo_content_len && ltb (length undo) h.undo_content_len then eof else read)
      (either n (ltb 0 h.undo_content_len && ltb (length undo) h.undo_content_len) read (
        behind whole _ (
          omega (arith, l, length-drop h.redo_content_len s, length-drop h.undo_content_len tail))))
  where
    either : (n : ℕ) (b : Bool) (p : Parsed) → Shrinks n p → Shrinks n (if b then eof else p)
    either n true p h = at_eof
    either n false p h = h

header_Shrinks :
    (n : ℕ) (o : Option LogHeader) (s : List ℕ) → length s < n → Shrinks n (parse_behind o s)
header_Shrinks n none s l = at_malformed
header_Shrinks n (some h) s l = contents_Shrinks n h s l

deserialize-Shrinks : (s : List ℕ) → Shrinks (length s) (deserialize s)
unfolding deserialize
deserialize-Shrinks s = long_enough s (ltb (length (take 32 s)) 32) refl
  where
    long_enough :
        (s : List ℕ) (b : Bool)
        → ltb (length (take 32 s)) 32 ≡ b
        → Shrinks
            (length s)
            (if b then eof else parse_behind (unmarshal_log_header (take 32 s)) (drop 32 s))
    long_enough s true q = at_eof
    long_enough s false q =
        header_Shrinks (length s) (unmarshal_log_header (take 32 s)) (drop 32 s)
          (ground (arith, q, length-take 32 s, length-drop 32 s))

-- Two runs of the loop end, in the same way.
abbrev Ends : Scanned → Scanned → Type 0
Ends x y = (x ≢ out_of_fuel) × (x ≡ y)

by_parse :
    (n m : ℕ) (s : List ℕ) (ts : Transactions)
    → ((e : LogEntry) (rest : List ℕ)
        → length rest < length s
        → Ends (scan n rest (note e ts)) (scan m rest (note e ts)))
    → (r : Parsed) → Shrinks (length s) r
    → Ends
        (elim r as (λ _. Scanned) [
          | eof ↦ scanned ts s
          | malformed ↦ scan_error
          | entry we rest ↦ scan n rest (note we ts)
        ])
        (elim r as (λ _. Scanned) [
          | eof ↦ scanned ts s
          | malformed ↦ scan_error
          | entry we rest ↦ scan m rest (note we ts)
        ])
by_parse n m s ts h eof at_eof = (λ q. cc, refl)
by_parse n m s ts h malformed at_malformed = (λ q. cc, refl)
by_parse n m s ts h (entry we rest) (behind _ _ l) = h we rest l

scans_end :
    (n m : ℕ) (s : List ℕ) (ts : Transactions)
    → length s < n
    → length s < m
    → Ends (scan n s ts) (scan m s ts)
unfolding scan
scans_end zero m s ts p q = absurd (omega arith)
scans_end (suc n) zero s ts p q = absurd (omega arith)
scans_end (suc n) (suc m) s ts p q =
    by_parse n m s ts
      (λ e rest l. scans_end n m rest (note e ts) (omega (arith, l, p)) (omega (arith, l, q)))
      (deserialize s) (deserialize-Shrinks s)

-- The reading loop of Open ends on every file: with any fuel above the length of the file it does
-- not run out of fuel, and it gives the result of scan_file.
pub scan-ends :
    (n : ℕ) (file : List ℕ)
    → length file < n
    → (scan n file no_transactions ≢ out_of_fuel)
      × (scanned_part (scan n file no_transactions) ≡ scan_file file)
unfolding scan_file
scan-ends n file h =
    let (ended, same) = scans_end n (suc (length file)) file no_transactions h (omega arith) in
    (ended, ap scanned_part same)
