-- ===== src/Store/Stream.antt =====
-- writeEvent and readEvent of store/domainconverter.go, and the loop of retrieveAllFromFile in
-- store/store.go.
pub mod RoundTrip
pub mod Termination
use gomud.Base.{
  ℕ, zero, suc, ◌+◌, Bool, true, false, not, ◌==◌, ltb, Option, none, some, List, [], ◌∷◌, ◌++◌,
  if◌then◌else◌, length, take, drop,
}
use gomud.Store.Header.{
  EventHeader, DomainEvent, event_header_byte_len, marshal_header, unmarshal_header,
}
use gomud.Store.Structs.{Stored, from_domain, to_domain, header_of, set_header}

-- What the store calls: json.Marshal of a struct, which leaves out the header; json.Unmarshal into
-- the struct of an event type; compress/flate, whose reader answers what it has decompressed and
-- how many bytes it has read; and the test that Time.UnmarshalBinary makes.
pub record Codec : Type 0 where
  pub json : Stored → List ℕ
  pub unjson : ℕ → List ℕ → Option Stored
  pub deflate : List ℕ → List ℕ
  pub inflate : List ℕ → Option (List ℕ × ℕ)
  pub time_valid : List ℕ → Bool

-- What a read from a stream gives: the end of the stream, an error, or an event with the rest.
pub data Reading : Type 0 where
  end_of_file : Reading
  read_error : Reading
  read : DomainEvent → List ℕ → Reading

-- rpc.Response
pub data Response : Type 0 where
  value : DomainEvent → Response
  error : Response

-- A response is sent before those of the rest of the loop.
abbrev pub put_first : DomainEvent → Option (List Response) → Option (List Response)
put_first e none = none
put_first e (some rs) = some (value e ∷ rs)

abbrev pub responses_of : Option (List Response) → List Response
responses_of none = []
responses_of (some rs) = rs

module _ (c : Codec) where
  -- `bodyBytes` of writeEvent
  unfoldable pub write_body : Bool → Stored → List ℕ
  write_body true r = c.deflate (c.json r)
  write_body false r = c.json r

  -- The end of writeEvent, with the struct that the switch has chosen.
  unfoldable pub write_struct : Bool → Stored → List ℕ
  write_struct use_compression r =
      let body = write_body use_compression r in
      marshal_header
        (record (header_of r) { body_length = length body; use_compression = use_compression })
      ++ body

  -- writeEvent: the bytes that are written, or none for an unhandled event type.
  unfoldable pub write_event : Bool → DomainEvent → Option (List ℕ)
  write_event use_compression e = elim (from_domain e) [
    | none ↦ none
    | some r ↦ some (write_struct use_compression r)
  ]

  -- The body of readEvent's stream behind a header, with what is left of the stream.
  unfoldable pub read_body : EventHeader → List ℕ → Option (List ℕ × List ℕ)
  read_body h s =
      let limited = take h.body_length s in
      let rest = drop h.body_length s in
      if h.use_compression
      then elim (c.inflate limited) [ none ↦ none | some x ↦ some (x.0, drop x.1 limited ++ rest) ]
      else some (limited, rest)

  -- The end of readEvent: without a struct for the type, `toEr` is nil and json.Unmarshal fails.
  unfoldable pub read_struct : EventHeader → Option (List ℕ × List ℕ) → Reading
  read_struct h none = read_error
  read_struct h (some x) =
      if not (ltb h.event_type 23) then read_error else elim (c.unjson h.event_type x.0) [
        | none ↦ read_error
        | some r ↦ read (to_domain (set_header h r)) x.1
      ]

  -- readEvent behind the header.
  unfoldable pub read_after : Option EventHeader → List ℕ → Reading
  read_after none s = read_error
  read_after (some h) s = read_struct h (read_body h s)

  unfoldable pub read_event : List ℕ → Reading
  read_event s =
      let buf = take event_header_byte_len s in
      if length buf == 0
      then end_of_file
      else read_after (unmarshal_header c.time_valid buf) (drop event_header_byte_len s)

  -- The loop of retrieveAllFromFile, with fuel: none if it has not ended when the fuel is used up.
  unfoldable pub read_loop : ℕ → List ℕ → Option (List Response)
  read_loop zero s = none
  read_loop (suc n) s = elim (read_event s) [
    | end_of_file ↦ some []
    | read_error ↦ some (error ∷ [])
    | read e rest ↦ put_first e (read_loop n rest)
  ]

  -- The fuel is one more than the length of the stream, and is never used up.
  unfoldable pub retrieve_all_from : List ℕ → List Response
  retrieve_all_from s = responses_of (read_loop (suc (length s)) s)
