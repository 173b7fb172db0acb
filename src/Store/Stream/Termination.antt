-- ===== src/Store/Stream/Termination.antt =====
-- The loop of retrieveAllFromFile in store/store.go, on streams of any content.
use gomud.Base.{
  ℕ, zero, suc, ◌+◌, ◌≤◌, ◌<◌, ◌==◌, true, false, not, ltb, Option, none, some, List, [], ◌∷◌, ◌++◌,
  length, length-append, take, drop, ◌≡◌, refl, ap, sym, ◌∙◌, subst, arith, if◌then◌else◌,
}
use gomud.Store.Header.{EventHeader, DomainEvent, unmarshal_header}
use gomud.Store.Structs.{Stored, to_domain, set_header}
use gomud.Store.Stream.{
  Codec, Reading, end_of_file, read_error, read, Response, value, error, read_body, read_struct,
  read_after, read_event, read_loop, retrieve_all_from, put_first, responses_of,
}

length-drop : (n : ℕ) (xs : List ℕ) → length (drop n xs) ≤ length xs
length-drop zero xs = omega arith
length-drop (suc n) [] = omega arith
length-drop (suc n) (x ∷ xs) = omega (arith, length-drop n xs)

cut_length : (n : ℕ) (xs : List ℕ) → length (take n xs) + length (drop n xs) ≡ length xs
cut_length zero xs = omega arith
cut_length (suc n) [] = omega arith
cut_length (suc n) (x ∷ xs) = omega (arith, cut_length n xs)

-- What is left of a stream is no longer than `n`.
data Leaves (n : ℕ) : Reading → Type 0 where
  at_end : Leaves n end_of_file
  at_error : Leaves n read_error
  left : (e : DomainEvent) (rest : List ℕ) → length rest ≤ n → Leaves n (read e rest)

inflated_rest : (k n : ℕ) (s : List ℕ) → length (drop k (take n s) ++ drop n s) ≤ length s
inflated_rest k n s =
    omega (
      arith,
      length-append (drop k (take n s)) (drop n s),
      length-drop k (take n s),
      cut_length n s,
    )

suc_not_zero : (n : ℕ) → (suc n == 0) ≡ false
suc_not_zero n = ground arith

read_rest : {d e : DomainEvent} {r s : List ℕ} → read d r ≡ read e s → r ≡ s
read_rest q = cc

some_injective : {a b : List Response} → some a ≡ some b → a ≡ b
some_injective q = cc

module _ (c : Codec) where
  decoded_Leaves :
      (n : ℕ) (h : EventHeader) (o : Option Stored) (rest : List ℕ)
      → length rest ≤ n
      → Leaves n (elim o [ none ↦ read_error | some r ↦ read (to_domain (set_header h r)) rest ])
  decoded_Leaves n h none rest q = at_error
  decoded_Leaves n h (some r) rest q = left _ rest q

  struct_Leaves :
      (n : ℕ) (h : EventHeader) (bs rest : List ℕ)
      → length rest ≤ n
      → Leaves n (read_struct c h (some (bs, rest)))
  unfolding read_struct
  struct_Leaves n h bs rest q =
      elim (not (ltb h.event_type 23))
        as (λ b. Leaves n (
          if b then read_error else elim (c.unjson h.event_type bs) [
            | none ↦ read_error
            | some r ↦ read (to_domain (set_header h r)) rest
          ])) [ true ↦ at_error | false ↦ decoded_Leaves n h (c.unjson h.event_type bs) rest q ]

  inflated_Leaves :
      (h : EventHeader) (s : List ℕ) (o : Option (List ℕ × ℕ))
      → Leaves (length s) (
          read_struct c h (elim o [
            | none ↦ none
            | some x ↦ some (x.0, drop x.1 (take h.body_length s) ++ drop h.body_length s)
          ]))
  unfolding read_struct
  inflated_Leaves h s none = at_error
  inflated_Leaves h s (some x) =
      struct_Leaves (length s) h x.0 _ (inflated_rest x.1 h.body_length s)

  body_Leaves :
      (h : EventHeader) (s : List ℕ) → Leaves (length s) (read_struct c h (read_body c h s))
  unfolding read_body
  body_Leaves h s =
      elim h.use_compression
        as (λ b. Leaves (length s) (
          read_struct c h (
            if b
            then elim (c.inflate (take h.body_length s)) [
              | none ↦ none
              | some x ↦ some (x.0, drop x.1 (take h.body_length s) ++ drop h.body_length s)
            ]
            else some (take h.body_length s, drop h.body_length s)))) [
              | true ↦ inflated_Leaves h s (c.inflate (take h.body_length s))
              | false ↦ struct_Leaves (length s) h _ _ (length-drop h.body_length s)
            ]

  after_Leaves : (o : Option EventHeader) (s : List ℕ) → Leaves (length s) (read_after c o s)
  unfolding read_after
  after_Leaves none s = at_error
  after_Leaves (some h) s = body_Leaves h s

  Leaves-≤ : {n m : ℕ} {r : Reading} → n ≤ m → Leaves n r → Leaves m r
  Leaves-≤ q at_end = at_end
  Leaves-≤ q at_error = at_error
  Leaves-≤ q (left e rest p) = left e rest (omega arith)

  -- A call of readEvent that gives an event has taken at least one byte off the stream.
  read_event_Leaves : (x : ℕ) (s : List ℕ) → Leaves (length s) (read_event c (x ∷ s))
  unfolding read_event
  read_event_Leaves x s =
      let after =
        read_after c (unmarshal_header c.time_valid (take 48 (x ∷ s))) (drop 48 (x ∷ s)) in
      subst (λ b. Leaves (length s) (if b then end_of_file else after))
        (sym (suc_not_zero (length (take 47 s))))
        (Leaves-≤ (length-drop 47 s)
          (after_Leaves (unmarshal_header c.time_valid (take 48 (x ∷ s))) (drop 48 (x ∷ s))))

  -- With more fuel than bytes the loop ends, and gives what it gives with any other such fuel.
  ended_after :
      {k : ℕ} {r : Reading} (f g : List ℕ → Option (List Response))
      → ((s : List ℕ) → length s ≤ k → (l : List Response) × (f s ≡ some l) × (g s ≡ some l))
      → Leaves k r
      → (l : List Response) × (elim r as (λ _. Option (List Response)) [
        | end_of_file ↦ some []
        | read_error ↦ some (error ∷ [])
        | read e rest ↦ put_first e (f rest)
      ]
          ≡ some l)
        × (elim r as (λ _. Option (List Response)) [
          | end_of_file ↦ some []
          | read_error ↦ some (error ∷ [])
          | read e rest ↦ put_first e (g rest)
        ]
            ≡ some l)
  ended_after f g h at_end = ([], refl, refl)
  ended_after f g h at_error = (error ∷ [], refl, refl)
  ended_after f g h (left e rest p) =
      let (l, x, y) = h rest p in (value e ∷ l, ap (put_first e) x, ap (put_first e) y)

  loops_end :
      (n m : ℕ) (s : List ℕ)
      → length s < n
      → length s < m
      → (l : List Response) × (read_loop c n s ≡ some l) × (read_loop c m s ≡ some l)
  unfolding read_loop read_event
  loops_end zero m s p q = absurd (omega arith)
  loops_end (suc n) zero s p q = absurd (omega arith)
  loops_end (suc n) (suc m) [] p q = ([], refl, refl)
  loops_end (suc n) (suc m) (x ∷ s) p q =
      ended_after (read_loop c n) (read_loop c m)
        (λ t h. loops_end n m t (omega (arith, h, p)) (omega (arith, h, q))) (read_event_Leaves x s)

  shorter :
      {n : ℕ} {r : Reading} {e : DomainEvent} {rest : List ℕ}
      → r ≡ read e rest
      → Leaves n r
      → length rest < suc n
  shorter q at_end = cc
  shorter q at_error = cc
  shorter {n} q (left e rest p) = subst (λ l. length l < suc n) (read_rest q) (omega (arith, p))

  -- The loop of retrieveAllFromFile ends on every file: with any fuel above the length of the file
  -- it does not run out of fuel, and it gives the responses of retrieve_all_from.
  pub read_loop-ends :
      (n : ℕ) (s : List ℕ) → length s < n → read_loop c n s ≡ some (retrieve_all_from c s)
  unfolding retrieve_all_from
  read_loop-ends n s h =
      let (l, x, y) = loops_end n (suc (length s)) s h (omega arith) in
      x ∙ ap (λ o. some (responses_of o)) (sym y)

  one_round :
      (s : List ℕ) {e : DomainEvent} {rest : List ℕ}
      → read_event c s ≡ read e rest
      → read_loop c (suc (length s)) s ≡ some (value e ∷ retrieve_all_from c rest)
  unfolding read_loop read_event
  one_round [] q = cc
  one_round (x ∷ s) {e} {rest} q =
      ap
        (λ r. elim r as (λ _. Option (List Response)) [
          | end_of_file ↦ some []
          | read_error ↦ some (error ∷ [])
          | read d t ↦ put_first d (read_loop c (suc (length s)) t)
        ])
        q
      ∙ ap (put_first e) (read_loop-ends (suc (length s)) rest (shorter q (read_event_Leaves x s)))

  -- The first event that is read comes before those of the rest of the stream.
  pub retrieve_all_from-read :
      (s : List ℕ) {e : DomainEvent} {rest : List ℕ}
      → read_event c s ≡ read e rest
      → retrieve_all_from c s ≡ value e ∷ retrieve_all_from c rest
  retrieve_all_from-read s {e} {rest} q =
      some_injective (sym (read_loop-ends (suc (length s)) s (omega arith)) ∙ one_round s q)
