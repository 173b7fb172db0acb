-- ===== src/Store/Bytes.antt =====
-- encoding/binary as the store uses it: little-endian numbers in a fixed count of bytes. A byte slice
-- is a list of numbers.
use gomud.Base.{
  ℕ, zero, suc, ◌+◌, ◌*◌, ◌/◌, ◌%◌, ◌^◌, List, [], ◌∷◌, ◌++◌, length, ◌≡◌, refl, ap, subst, arith,
  take, drop,
}

-- PutUint16, PutUint32 and PutUint64 of a number converted to that width, and the sixteen bytes of a
-- UUID: the `k` lowest digits in base 256.
unfoldable pub put_uint : ℕ → ℕ → List ℕ
put_uint zero v = []
put_uint (suc k) v = v % 256 ∷ put_uint k (v / 256)

-- Uint16, Uint32 and Uint64
unfoldable pub uint : List ℕ → ℕ
uint [] = 0
uint (b ∷ bs) = b + 256 * uint bs

-- `make([]byte, n)`
unfoldable pub zeros : ℕ → List ℕ
zeros zero = []
zeros (suc n) = 0 ∷ zeros n

-- `copy` into `n` bytes that are zero.
unfoldable pub copy_into : ℕ → List ℕ → List ℕ
unfolding zeros
copy_into n bs = take n (bs ++ zeros n)

pub uint-put_uint_16 : (v : ℕ) → uint (put_uint 2 v) ≡ v % 2 ^ 16
unfolding uint put_uint
uint-put_uint_16 v = omega arith

pub uint-put_uint_32 : (v : ℕ) → uint (put_uint 4 v) ≡ v % 2 ^ 32
unfolding uint put_uint
uint-put_uint_32 v = omega arith

pub uint-put_uint_64 : (v : ℕ) → uint (put_uint 8 v) ≡ v % 2 ^ 64
unfolding uint put_uint
uint-put_uint_64 v = omega arith

pub uint-put_uint_128 : (v : ℕ) → uint (put_uint 16 v) ≡ v % 2 ^ 128
unfolding uint put_uint
uint-put_uint_128 v = omega arith

pub length-put_uint : (k v : ℕ) → length (put_uint k v) ≡ k
unfolding put_uint
length-put_uint zero v = refl
length-put_uint (suc k) v = omega (arith, length-put_uint k (v / 256))

pub take-append_length {ℓ} : {A : Type ℓ} (xs ys : List A) → take (length xs) (xs ++ ys) ≡ xs
take-append_length [] ys = refl
take-append_length (x ∷ xs) ys = ap (λ l. x ∷ l) (take-append_length xs ys)

pub drop-append_length {ℓ} : {A : Type ℓ} (xs ys : List A) → drop (length xs) (xs ++ ys) ≡ ys
drop-append_length [] ys = refl
drop-append_length (x ∷ xs) ys = drop-append_length xs ys

pub copy_into-length : (n : ℕ) (bs : List ℕ) → length bs ≡ n → copy_into n bs ≡ bs
unfolding copy_into
copy_into-length n bs h =
    subst (λ k. take k (bs ++ zeros n) ≡ bs) h (take-append_length bs (zeros n))
