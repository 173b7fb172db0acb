-- ===== src/Store/Header/RoundTrip.antt =====
-- MarshalBinary and UnmarshalBinary of store/eventheader.go, one after the other.
use gomud.Base.{
  ℕ, ◌%◌, ◌^◌, ◌==◌, Bool, true, false, some, not, List, [], ◌∷◌, ◌++◌, length, length-append, take,
  drop, ◌≡◌, refl, ap, ◌∙◌, subst, arith,
}
use gomud.Store.Bytes.{
  put_uint, uint, copy_into, take-append_length, drop-append_length, copy_into-length,
  uint-put_uint_16, uint-put_uint_32, uint-put_uint_64, uint-put_uint_128,
}
use gomud.Store.Header.{EventHeader, marshal_header, unmarshal_header, slice, flag}

-- Each field cut to the width in which it is written.
abbrev pub cut_to_width : EventHeader → EventHeader
cut_to_width h = record h {
  event_type = h.event_type % 2 ^ 16;
  version = h.version % 2 ^ 16;
  aggregate_id = h.aggregate_id % 2 ^ 128;
  sequence_number = h.sequence_number % 2 ^ 64;
  body_length = h.body_length % 2 ^ 32;
}

module _ (h : EventHeader) (fifteen : length h.timestamp ≡ 15) where
  stamp : copy_into 15 h.timestamp ≡ h.timestamp
  stamp = copy_into-length 15 h.timestamp fifteen

  pub length-marshal_header : length (marshal_header h) ≡ 48
  unfolding marshal_header put_uint
  length-marshal_header = omega (
    arith,
    ap length stamp,
    length-append (copy_into 15 h.timestamp) (flag h.use_compression ∷ []),
  )

  take_stamp : (f : List ℕ) → take 15 (copy_into 15 h.timestamp ++ f) ≡ h.timestamp
  take_stamp f =
      ap (λ l. take 15 (l ++ f)) stamp
      ∙ subst (λ n. take n (h.timestamp ++ f) ≡ h.timestamp) fifteen
          (take-append_length h.timestamp f)

  drop_stamp : (f : List ℕ) → drop 15 (copy_into 15 h.timestamp ++ f) ≡ f
  drop_stamp f =
      ap (λ l. drop 15 (l ++ f)) stamp
      ∙ subst (λ n. drop n (h.timestamp ++ f) ≡ f) fifteen (drop-append_length h.timestamp f)

  stamp_slice : slice 32 15 (marshal_header h) ≡ h.timestamp
  unfolding marshal_header put_uint
  stamp_slice = take_stamp (flag h.use_compression ∷ [])

  flag_byte : slice 47 1 (marshal_header h) ≡ flag h.use_compression ∷ []
  unfolding marshal_header put_uint
  flag_byte = ap (take 1) (drop_stamp (flag h.use_compression ∷ []))

id_slice : (h : EventHeader) → uint (slice 0 16 (marshal_header h)) ≡ h.aggregate_id % 2 ^ 128
unfolding marshal_header put_uint
id_slice h = uint-put_uint_128 h.aggregate_id

number_slice : (h : EventHeader) → uint (slice 16 8 (marshal_header h)) ≡ h.sequence_number % 2 ^ 64
unfolding marshal_header put_uint
number_slice h = uint-put_uint_64 h.sequence_number

length_slice : (h : EventHeader) → uint (slice 24 4 (marshal_header h)) ≡ h.body_length % 2 ^ 32
unfolding marshal_header put_uint
length_slice h = uint-put_uint_32 h.body_length

type_slice : (h : EventHeader) → uint (slice 28 2 (marshal_header h)) ≡ h.event_type % 2 ^ 16
unfolding marshal_header put_uint
type_slice h = uint-put_uint_16 h.event_type

version_slice : (h : EventHeader) → uint (slice 30 2 (marshal_header h)) ≡ h.version % 2 ^ 16
unfolding marshal_header put_uint
version_slice h = uint-put_uint_16 h.version

flag_bit : (b : Bool) → not (uint (flag b ∷ []) == 0) ≡ b
unfolding uint
flag_bit true = refl
flag_bit false = refl

-- A header that is written and read again has each field cut to its width, if the timestamp has
-- fifteen bytes that Time.UnmarshalBinary accepts.
pub unmarshal_header-marshal_header :
    (time_valid : List ℕ → Bool) (h : EventHeader)
    → length h.timestamp ≡ 15
    → time_valid h.timestamp ≡ true
    → unmarshal_header time_valid (marshal_header h) ≡ some (cut_to_width h)
unfolding unmarshal_header
unmarshal_header-marshal_header time_valid h fifteen valid = rw (
  length-marshal_header h fifteen,
  stamp_slice h fifteen,
  valid,
  flag_byte h fifteen,
  flag_bit h.use_compression,
  id_slice h,
  number_slice h,
  length_slice h,
  type_slice h,
  version_slice h,
)
