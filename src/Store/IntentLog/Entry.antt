-- ===== src/Store/IntentLog/Entry.antt =====
-- serialize and deserialize of store/logger.go, one after the other.
use mathlib.Core.List.{append_assoc, append-nil}
use gomud.Base.{
  ℕ, zero, suc, ◌+◌, ◌-◌, ◌%◌, ◌^◌, ◌<◌, Bool, true, false, ◌&&◌, ◌==◌, ltb, some, List, [], ◌∷◌,
  ◌++◌, length, length-append, take, drop, ◌≡◌, refl, ap, sym, ◌∙◌, subst, arith, Bool-cases, inl,
  inr,
}
use gomud.Store.Bytes.{
  put_uint, uint, zeros, uint-put_uint_32, uint-put_uint_128, take-append_length,
  drop-append_length,
}
use gomud.Store.Header.{flag, slice}
use gomud.Store.IntentLog.{
  LogEntry, LogHeader, gen_header, marshal_log_header, unmarshal_log_header, serialize, eof, entry,
  read_contents, deserialize,
}

-- An entry whose identifier has 16 bytes and whose contents have lengths of 32 bits.
pub record IsLoggable (e : LogEntry) : Type 0 where
  pub id_fits : e.transaction_id < 2 ^ 128
  pub redo_fits : length e.redo_content < 2 ^ 32
  pub undo_fits : length e.undo_content < 2 ^ 32

id_part : (h : LogHeader) → uint (slice 0 16 (marshal_log_header h)) ≡ h.transaction_id % 2 ^ 128
unfolding marshal_log_header put_uint
id_part h = uint-put_uint_128 h.transaction_id

redo_part : (h : LogHeader) → uint (slice 16 4 (marshal_log_header h)) ≡ h.redo_content_len % 2 ^ 32
unfolding marshal_log_header put_uint
redo_part h = uint-put_uint_32 h.redo_content_len

undo_part : (h : LogHeader) → uint (slice 20 4 (marshal_log_header h)) ≡ h.undo_content_len % 2 ^ 32
unfolding marshal_log_header put_uint
undo_part h = uint-put_uint_32 h.undo_content_len

flag_is_one : (b : Bool) → (uint (flag b ∷ []) == 1) ≡ b
unfolding uint
flag_is_one true = refl
flag_is_one false = refl

completed_part :
    (h : LogHeader) → (uint (slice 24 1 (marshal_log_header h)) == 1) ≡ h.transaction_completed
unfolding marshal_log_header put_uint
completed_part h = flag_is_one h.transaction_completed

pub length-marshal_log_header : (h : LogHeader) → length (marshal_log_header h) ≡ 32
unfolding marshal_log_header put_uint zeros
length-marshal_log_header h = refl

-- The header of an entry that fits.
abbrev header_of_entry : LogEntry → LogHeader
header_of_entry e = record {
  transaction_id = e.transaction_id;
  redo_content_len = length e.redo_content;
  undo_content_len = length e.undo_content;
  transaction_completed = e.transaction_completed;
}

small_32 : (n : ℕ) → n < 2 ^ 32 → n % 2 ^ 32 ≡ n
small_32 n h = omega arith

small_128 : (n : ℕ) → n < 2 ^ 128 → n % 2 ^ 128 ≡ n
small_128 n h = omega arith

gen_header_lem : (e : LogEntry) → IsLoggable e → gen_header e ≡ header_of_entry e
unfolding gen_header
gen_header_lem e l =
    rw (small_32 (length e.redo_content) l.redo_fits, small_32 (length e.undo_content) l.undo_fits)

header_read :
    (e : LogEntry)
    → IsLoggable e
    → unmarshal_log_header (marshal_log_header (header_of_entry e)) ≡ some (header_of_entry e)
unfolding unmarshal_log_header
header_read e l =
    let h = header_of_entry e in
    rw (
      length-marshal_log_header h,
      id_part h,
      redo_part h,
      undo_part h,
      completed_part h,
      small_128 e.transaction_id l.id_fits,
      small_32 (length e.redo_content) l.redo_fits,
      small_32 (length e.undo_content) l.undo_fits,
    )

not_below : (n : ℕ) → ltb n n ≡ false
not_below n = ground arith

and_false : (b : Bool) → (b && false) ≡ false
and_false true = refl
and_false false = refl

contents_read :
    (e : LogEntry) (rest : List ℕ)
    → read_contents (header_of_entry e) (e.redo_content ++ (e.undo_content ++ rest)) ≡ entry e rest
unfolding read_contents
contents_read e rest = rw (
  take-append_length e.redo_content (e.undo_content ++ rest),
  drop-append_length e.redo_content (e.undo_content ++ rest),
  take-append_length e.undo_content rest,
  drop-append_length e.undo_content rest,
  not_below (length e.redo_content),
  not_below (length e.undo_content),
  and_false (ltb 0 (length e.redo_content)),
  and_false (ltb 0 (length e.undo_content)),
)

take_32 : (h : LogHeader) (s : List ℕ) → take 32 (marshal_log_header h ++ s) ≡ marshal_log_header h
take_32 h s =
    subst (λ n. take n (marshal_log_header h ++ s) ≡ marshal_log_header h)
      (length-marshal_log_header h) (take-append_length (marshal_log_header h) s)

drop_32 : (h : LogHeader) (s : List ℕ) → drop 32 (marshal_log_header h ++ s) ≡ s
drop_32 h s =
    subst (λ n. drop n (marshal_log_header h ++ s) ≡ s) (length-marshal_log_header h)
      (drop-append_length (marshal_log_header h) s)

-- A header that is read is followed by its contents.
deserialize-header :
    (e : LogEntry) (s : List ℕ)
    → IsLoggable e
    → deserialize (marshal_log_header (header_of_entry e) ++ s)
      ≡ read_contents (header_of_entry e) s
unfolding deserialize
deserialize-header e s l = rw (
  take_32 (header_of_entry e) s,
  drop_32 (header_of_entry e) s,
  length-marshal_log_header (header_of_entry e),
  header_read e l,
)

serialize_lem :
    (e : LogEntry) (rest : List ℕ)
    → IsLoggable e
    → serialize e ++ rest
      ≡ marshal_log_header (header_of_entry e) ++ (e.redo_content ++ (e.undo_content ++ rest))
unfolding serialize
serialize_lem e rest l =
    let h = marshal_log_header (header_of_entry e) in
    ap (λ k. ((marshal_log_header k ++ e.redo_content) ++ e.undo_content) ++ rest)
      (gen_header_lem e l)
    ∙ append_assoc (h ++ e.redo_content) e.undo_content rest
    ∙ append_assoc h e.redo_content (e.undo_content ++ rest)

-- An entry that is serialized is read back by deserialize, whatever comes behind it, if its
-- identifier has 16 bytes and the lengths of its contents 32 bits.
pub deserialize-serialize :
    (e : LogEntry) (rest : List ℕ) → IsLoggable e → deserialize (serialize e ++ rest) ≡ entry e rest
deserialize-serialize e rest l =
    ap deserialize (serialize_lem e rest l)
    ∙ deserialize-header e (e.redo_content ++ (e.undo_content ++ rest)) l
    ∙ contents_read e rest

pub length-drop : (n : ℕ) (xs : List ℕ) → length (drop n xs) ≡ length xs - n
length-drop zero xs = omega arith
length-drop (suc n) [] = omega arith
length-drop (suc n) (x ∷ xs) = omega (arith, length-drop n xs)

pub length-take : (n : ℕ) (xs : List ℕ) → length (take n xs) + (length xs - n) ≡ length xs
length-take zero xs = omega arith
length-take (suc n) [] = omega arith
length-take (suc n) (x ∷ xs) = omega (arith, length-take n xs)

-- Contents that end too early.
short_contents :
    (h : LogHeader) (s : List ℕ)
    → length s < h.redo_content_len + h.undo_content_len
    → read_contents h s ≡ eof
unfolding read_contents
short_contents h s l = ground (
  arith,
  length-take h.redo_content_len s,
  length-drop h.redo_content_len s,
  length-take h.undo_content_len (drop h.redo_content_len s),
)

take-append_long :
    (n j : ℕ) (xs ys : List ℕ) → n ≡ length xs + j → take n (xs ++ ys) ≡ xs ++ take j ys
take-append_long n j [] ys h = ap (λ k. take k ys) (omega arith)
take-append_long zero j (x ∷ xs) ys h = ground arith
take-append_long (suc n) j (x ∷ xs) ys h =
    ap (λ l. x ∷ l) (take-append_long n j xs ys (omega arith))

short_header : (s : List ℕ) → length s < 32 → deserialize s ≡ eof
unfolding deserialize
short_header s h = ground (arith, length-take 32 s)

pub length-serialize :
    (e : LogEntry) → length (serialize e) ≡ 32 + length e.redo_content + length e.undo_content
unfolding serialize
length-serialize e = omega (
  arith,
  length-append (marshal_log_header (gen_header e) ++ e.redo_content) e.undo_content,
  length-append (marshal_log_header (gen_header e)) e.redo_content,
  length-marshal_log_header (gen_header e),
)

-- The header is whole, and its contents are not.
torn_contents :
    (e : LogEntry) (j k : ℕ)
    → IsLoggable e
    → k < length (serialize e)
    → k ≡ 32 + j
    → deserialize (take k (serialize e)) ≡ eof
torn_contents e j k l h q =
    let hdr = marshal_log_header (header_of_entry e) in
    let contents = e.redo_content ++ (e.undo_content ++ []) in
    ap (λ s. deserialize (take k s)) (sym (append-nil (serialize e)) ∙ serialize_lem e [] l)
    ∙ ap deserialize (
        take-append_long k j hdr contents
          (omega (arith, q, length-marshal_log_header (header_of_entry e))))
    ∙ deserialize-header e (take j contents) l
    ∙ short_contents (header_of_entry e) (take j contents) (
        omega (
          arith,
          q,
          h,
          length-serialize e,
          length-take j contents,
          length-append e.redo_content (e.undo_content ++ []),
          length-append e.undo_content [],
        ))

-- An entry of which the last bytes are missing is taken for the end of the file.
pub deserialize-torn :
    (e : LogEntry) (k : ℕ)
    → IsLoggable e
    → k < length (serialize e)
    → deserialize (take k (serialize e)) ≡ eof
deserialize-torn e k l h = elim (Bool-cases (ltb k 32)) [
  | inl q ↦ short_header (take k (serialize e)) (ground (arith, q, h, length-take k (serialize e)))
  | inr q ↦ torn_contents e (k - 32) k l h (ground (arith, q))
]
