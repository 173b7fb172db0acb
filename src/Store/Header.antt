-- ===== src/Store/Header.antt =====
-- store/eventheader.go, and the core events with what core/event.go keeps about them.
pub mod RoundTrip
use gomud.Base.{
  ℕ, ◌+◌, ◌%◌, ◌^◌, ◌==◌, Bool, true, false, Option, none, some, not, List, [], ◌∷◌, ◌++◌,
  if◌then◌else◌, length, take, drop,
}
use gomud.Core.Data.{Uuid}
use gomud.Core.Event.{Payload}
use gomud.Store.Bytes.{put_uint, uint, copy_into}

-- A timestamp is the list of bytes that Time.MarshalBinary writes for it.
pub record EventHeader : Type 0 where
  pub event_type : ℕ
  pub timestamp : List ℕ
  pub version : ℕ
  pub aggregate_id : Uuid
  pub sequence_number : ℕ
  pub body_length : ℕ
  pub use_compression : Bool

-- An event of package core with its embedded eventGeneric; the flag ShouldPersist is that of its
-- type.
pub record DomainEvent : Type 0 where
  pub payload : Payload
  pub timestamp : List ℕ
  pub version : ℕ
  pub aggregate_id : Uuid
  pub sequence_num : ℕ

-- eventHeaderFromDomainEvent
unfoldable pub header_from_domain_event : ℕ → DomainEvent → EventHeader
header_from_domain_event event_type e = record {
  event_type = event_type;
  timestamp = e.timestamp;
  version = e.version;
  aggregate_id = e.aggregate_id;
  sequence_number = e.sequence_num;
  body_length = 0;
  use_compression = false;
}

-- The end of every ToDomain: the constructor of package core sets the version 1 and the current
-- time, then SetSequenceNumber and SetTimestamp.
unfoldable pub new_event : EventHeader → Payload → DomainEvent
new_event h p = record {
  payload = p;
  timestamp = h.timestamp;
  version = 1;
  aggregate_id = h.aggregate_id;
  sequence_num = h.sequence_number;
}

abbrev pub event_header_byte_len : ℕ
event_header_byte_len = 48

abbrev pub flag : Bool → ℕ
flag true = 1
flag false = 0

unfoldable pub marshal_header : EventHeader → List ℕ
unfolding put_uint copy_into
marshal_header h =
    put_uint 16 h.aggregate_id
    ++ put_uint 8 h.sequence_number
    ++ put_uint 4 h.body_length
    ++ put_uint 2 h.event_type
    ++ put_uint 2 h.version
    ++ copy_into 15 h.timestamp
    ++ flag h.use_compression ∷ []

-- `buf[from:from+n]`
abbrev pub slice : ℕ → ℕ → List ℕ → List ℕ
slice from n buf = take n (drop from buf)

-- UnmarshalBinary; `time_valid` is the test that Time.UnmarshalBinary makes on its fifteen bytes.
unfoldable pub unmarshal_header : (List ℕ → Bool) → List ℕ → Option EventHeader
unfolding uint
unmarshal_header time_valid buf =
    if not (length buf == event_header_byte_len)
    then none
    else if not (time_valid (slice 32 15 buf))
    then none
    else some (record {
      event_type = uint (slice 28 2 buf);
      timestamp = slice 32 15 buf;
      version = uint (slice 30 2 buf);
      aggregate_id = uint (slice 0 16 buf);
      sequence_number = uint (slice 16 8 buf);
      body_length = uint (slice 24 4 buf);
      use_compression = not (uint (slice 47 1 buf) == 0);
    })
