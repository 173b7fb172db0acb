-- ===== src/Store/Stream/RoundTrip.antt =====
-- writeEvent and readEvent of store/domainconverter.go, one after the other.
use mathlib.Core.List.{append_assoc}
use gomud.Base.{
  ℕ, ◌%◌, ◌^◌, ◌<◌, Bool, true, false, ltb, some, List, [], ◌∷◌, ◌++◌, length, take, drop, ◌≡◌,
  refl, ap, ◌∙◌, subst, arith,
}
use gomud.Store.Bytes.{take-append_length, drop-append_length}
use gomud.Store.Header.{
  EventHeader, DomainEvent, header_from_domain_event, new_event, marshal_header, unmarshal_header,
}
use gomud.Store.Header.RoundTrip.{
  cut_to_width, length-marshal_header, unmarshal_header-marshal_header,
}
use gomud.Store.Structs.{Stored, event_type, from_domain, to_domain, header_of, set_header}
use gomud.Store.Conversions.{recalled_event, IsStoredAs, from_domain-IsStoredAs}
use gomud.Store.Stream.{
  Codec, read, write_body, write_struct, read_body, read_struct, read_after, read_event,
}

abbrev pub no_header : EventHeader
no_header = record {
  event_type = 0;
  timestamp = [];
  version = 0;
  aggregate_id = 0;
  sequence_number = 0;
  body_length = 0;
  use_compression = false;
}

-- The reader of compress/flate gives back what its writer was given, and reads all of it.
abbrev pub Inflates : Codec → Type 0
Inflates c = (bs : List ℕ) → c.inflate (c.deflate bs) ≡ some (bs, length (c.deflate bs))

-- An event that the store handles, whose fields fit into the header, and whose struct encoding/json
-- gives back.
pub record IsWritable (c : Codec) (z : Bool) (e : DomainEvent) (r : Stored) : Type 0 where
  pub handled : from_domain e ≡ some r
  pub decoded : c.unjson (event_type e.payload) (c.json r) ≡ some (set_header no_header r)
  pub stamp : length e.timestamp ≡ 15
  pub valid : c.time_valid e.timestamp ≡ true
  pub id_fits : e.aggregate_id < 2 ^ 128
  pub number_fits : e.sequence_num < 2 ^ 64
  pub body_fits : length (write_body c z r) < 2 ^ 32

take_front : (n : ℕ) (xs ys : List ℕ) → length xs ≡ n → take n (xs ++ ys) ≡ xs
take_front n xs ys h = subst (λ k. take k (xs ++ ys) ≡ xs) h (take-append_length xs ys)

drop_front : (n : ℕ) (xs ys : List ℕ) → length xs ≡ n → drop n (xs ++ ys) ≡ ys
drop_front n xs ys h = subst (λ k. drop k (xs ++ ys) ≡ ys) h (drop-append_length xs ys)

drop_all : (xs : List ℕ) → drop (length xs) xs ≡ []
drop_all [] = refl
drop_all (x ∷ xs) = drop_all xs

mod_small_16 : (a : ℕ) → ltb a 23 ≡ true → a % 2 ^ 16 ≡ a
mod_small_16 a h = ground arith

mod_small_32 : (a : ℕ) → a < 2 ^ 32 → a % 2 ^ 32 ≡ a
mod_small_32 a h = omega arith

mod_small_64 : (a : ℕ) → a < 2 ^ 64 → a % 2 ^ 64 ≡ a
mod_small_64 a h = omega arith

mod_small_128 : (a : ℕ) → a < 2 ^ 128 → a % 2 ^ 128 ≡ a
mod_small_128 a h = omega arith

body_at :
    (c : Codec)
    → Inflates c
    → (r : Stored) (z : Bool) (h : EventHeader) → h.body_length ≡ length (write_body c z r)
    → h.use_compression ≡ z
    → (rest : List ℕ) → read_body c h (write_body c z r ++ rest) ≡ some (c.json r, rest)
unfolding read_body write_body
body_at c inflates r true h n u rest = rw (
  u,
  n,
  take-append_length (c.deflate (c.json r)) rest,
  inflates (c.json r),
  n,
  take-append_length (c.deflate (c.json r)) rest,
  drop-append_length (c.deflate (c.json r)) rest,
  drop_all (c.deflate (c.json r)),
)
body_at c inflates r false h n u rest =
    rw (u, n, take-append_length (c.json r) rest, drop-append_length (c.json r) rest)

module _ (c : Codec) (inflates : Inflates c) (z : Bool) (e : DomainEvent) (r : Stored)
    (w : IsWritable c z e r) where
  abbrev header : EventHeader
  header = record (header_of r) { body_length = length (write_body c z r); use_compression = z }

  as_stored : IsStoredAs (header_from_domain_event (event_type e.payload) e) e.payload r
  as_stored = from_domain-IsStoredAs e w.handled

  -- The header that is read.
  abbrev got : EventHeader
  got = record {
    event_type = event_type e.payload;
    timestamp = e.timestamp;
    version = e.version % 2 ^ 16;
    aggregate_id = e.aggregate_id;
    sequence_number = e.sequence_num;
    body_length = length (write_body c z r);
    use_compression = z;
  }

  header_cut : cut_to_width header ≡ got
  unfolding header_from_domain_event
  header_cut =
      ap
        (λ (h : EventHeader).
          cut_to_width (record h { body_length = length (write_body c z r); use_compression = z }))
        as_stored.headed
      ∙ rw (
        mod_small_16 (event_type e.payload) as_stored.listed,
        mod_small_32 (length (write_body c z r)) w.body_fits,
        mod_small_64 e.sequence_num w.number_fits,
        mod_small_128 e.aggregate_id w.id_fits,
      )

  stamp_kept : header.timestamp ≡ e.timestamp
  unfolding header_from_domain_event
  stamp_kept = ap (λ (h : EventHeader). h.timestamp) as_stored.headed

  header_read : unmarshal_header c.time_valid (marshal_header header) ≡ some got
  header_read =
      unmarshal_header-marshal_header c.time_valid header (ap length stamp_kept ∙ w.stamp)
        (ap c.time_valid stamp_kept ∙ w.valid)
      ∙ ap some header_cut

  header_length : length (marshal_header header) ≡ 48
  header_length = length-marshal_header header (ap length stamp_kept ∙ w.stamp)

  body_read : (rest : List ℕ) → read_body c got (write_body c z r ++ rest) ≡ some (c.json r, rest)
  unfolding read_body
  body_read rest = body_at c inflates r z got refl refl rest

  event_read : to_domain (set_header got (set_header no_header r)) ≡ recalled_event e
  unfolding new_event
  event_read = ap to_domain (as_stored.reset no_header got) ∙ as_stored.returned got

  struct_read :
      (rest : List ℕ) → read_struct c got (some (c.json r, rest)) ≡ read (recalled_event e) rest
  unfolding read_struct
  struct_read rest = rw (as_stored.listed, w.decoded, event_read)

  pub read_event-write_struct :
      (rest : List ℕ) → read_event c (write_struct c z r ++ rest) ≡ read (recalled_event e) rest
  unfolding read_event write_struct read_after
  read_event-write_struct rest = rw (
    append_assoc (marshal_header header) (write_body c z r) rest,
    take_front 48 (marshal_header header) (write_body c z r ++ rest) header_length,
    drop_front 48 (marshal_header header) (write_body c z r ++ rest) header_length,
    header_length,
    header_read,
    body_read rest,
    struct_read rest,
  )
