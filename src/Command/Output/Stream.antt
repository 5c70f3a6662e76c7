-- ===== src/Command/Output/Stream.antt =====
-- What the bounded output buffer holds of the stream written to it.
use mathlib.Core.Path.{subst}
use provider_infrastructure.Prelude.{
  ℕ, zero, suc, length-append, ◌+◌, ◌-◌, ◌≤◌, ◌<◌, ◌≡◌, refl, sym, ap, ◌∙◌, inl, inr, ◌⊎◌, Bool,
  true, false, List, [], ◌∷◌, ◌++◌, length, ltb, min, arith,
}
use provider_infrastructure.Command.Output.{
  Buffer, Ending, more, end_of_file, failed, new_buffer, take, write, read_one, read_from,
}

pub length-take {ℓ} : {A : Type ℓ} (n : ℕ) (xs : List A) → length (take n xs) ≡ min n (length xs)
length-take zero xs = omega arith
length-take (suc n) [] = omega arith
length-take (suc n) (x ∷ xs) = omega (arith, length-take n xs)

take_nil : (n : ℕ) → ◌≡◌ {A = List ℕ} [] (take n [])
take_nil zero = refl
take_nil (suc n) = refl

pub take_all {ℓ} : {A : Type ℓ} (n : ℕ) (xs : List A) → length xs ≤ n → take n xs ≡ xs
take_all zero [] h = refl
take_all zero (x ∷ xs) h = absurd (omega (arith, h))
take_all (suc n) [] h = refl
take_all (suc n) (x ∷ xs) h = ap (λ r. x ∷ r) (take_all n xs (omega arith))

minus_zero : (n : ℕ) → n - 0 ≡ n
minus_zero n = omega arith

minus_suc : (n m : ℕ) → suc n - suc m ≡ n - m
minus_suc n m = omega arith

take-append {ℓ} :
    {A : Type ℓ} (n : ℕ) (xs ys : List A)
    → length xs ≤ n
    → take n (xs ++ ys) ≡ xs ++ take (n - length xs) ys
take-append n [] ys h = rw (minus_zero n) refl
take-append zero (x ∷ xs) ys h = absurd (omega (arith, h))
take-append (suc n) (x ∷ xs) ys h =
    rw (minus_suc n (length xs)) (ap (λ r. x ∷ r) (take-append n xs ys (omega arith)))

take_front {ℓ} :
    {A : Type ℓ} (n : ℕ) (xs ys : List A) → n ≤ length xs → take n (xs ++ ys) ≡ take n xs
take_front zero xs ys h = refl
take_front (suc n) [] ys h = absurd (omega (arith, h))
take_front (suc n) (x ∷ xs) ys h = ap (λ r. x ∷ r) (take_front n xs ys (omega arith))

-- The buffer holds the front of the stream seen, as much as the limit lets it, and knows whether
-- that is all of it.
pub data IsFront (limit : ℕ) (seen : List ℕ) (b : Buffer) : Type 0 where
  is_front :
      b.limit ≡ limit
      → b.stored ≡ take limit seen
      → b.truncated ≡ ltb limit (length seen)
      → IsFront limit seen b

write_limit : (b : Buffer) (bytes : List ℕ) → (write b bytes).1.limit ≡ b.limit
unfolding write
write_limit b bytes = ground arith

write_full :
    (b : Buffer) (bytes : List ℕ) → b.limit ≤ length b.stored → (write b bytes).1.stored ≡ b.stored
unfolding write
write_full b bytes h = ground arith

write_part :
    (b : Buffer) (bytes : List ℕ)
    → length b.stored < b.limit
    → (write b bytes).1.stored ≡ b.stored ++ take (b.limit - length b.stored) bytes
unfolding write
write_part b bytes h = ground (arith, take_all (b.limit - length b.stored) bytes)

write_truncated :
    (limit : ℕ) (seen bytes : List ℕ) (b : Buffer)
    → IsFront limit seen b
    → (write b bytes).1.truncated ≡ ltb limit (length (seen ++ bytes))
unfolding write
write_truncated limit seen bytes b (is_front l s t) =
    ground (arith, length-append seen bytes, length-take limit seen, ap length s)

≤-cases : (a b : ℕ) → (a ≤ b) ⊎ (b < a)
≤-cases a b = omega arith

same_join :
    (xs ys bytes : List ℕ) (n m : ℕ)
    → xs ≡ ys
    → n ≡ m
    → xs ++ take (n - length xs) bytes ≡ ys ++ take (m - length ys) bytes
same_join xs ys bytes n m e k = rw (e, k) refl

write_stored :
    (limit : ℕ) (seen bytes : List ℕ) (b : Buffer)
    → IsFront limit seen b
    → (write b bytes).1.stored ≡ take limit (seen ++ bytes)
write_stored limit seen bytes b (is_front l s t) = elim (≤-cases limit (length seen)) [
  | inl past ↦
      write_full b bytes (ground (arith, ap length s, length-take limit seen))
      ∙ s
      ∙ sym (take_front limit seen bytes past)
  | inr before ↦
      write_part b bytes (ground (arith, before, ap length s, length-take limit seen))
      ∙ same_join b.stored seen bytes b.limit limit
          (s ∙ take_all limit seen (omega (arith, before))) l
      ∙ sym (take-append limit seen bytes (omega (arith, before)))
]

front_limit : (limit : ℕ) (seen : List ℕ) (b : Buffer) → IsFront limit seen b → b.limit ≡ limit
front_limit limit seen b (is_front l s t) = l

write-IsFront :
    (limit : ℕ) (seen bytes : List ℕ) (b : Buffer)
    → IsFront limit seen b
    → IsFront limit (seen ++ bytes) (write b bytes).1
write-IsFront limit seen bytes b front =
    is_front (write_limit b bytes ∙ front_limit limit seen b front)
      (write_stored limit seen bytes b front) (write_truncated limit seen bytes b front)

append_nil : (xs : List ℕ) → xs ++ [] ≡ xs
append_nil [] = refl
append_nil (x ∷ xs) = ap (λ r. x ∷ r) (append_nil xs)

append_assoc : (xs ys zs : List ℕ) → (xs ++ ys) ++ zs ≡ xs ++ (ys ++ zs)
append_assoc [] ys zs = refl
append_assoc (x ∷ xs) ys zs = ap (λ r. x ∷ r) (append_assoc xs ys zs)

read_one_some : (b : Buffer) (x : ℕ) (bytes : List ℕ) → read_one b (x ∷ bytes) ≡ write b (x ∷ bytes)
unfolding read_one
read_one_some b x bytes = ground arith

read_one-IsFront :
    (limit : ℕ) (seen bytes : List ℕ) (b : Buffer)
    → IsFront limit seen b
    → IsFront limit (seen ++ bytes) (read_one b bytes).1
unfolding read_one
read_one-IsFront limit seen [] b front =
    subst (λ xs. IsFront limit xs b) (sym (append_nil seen)) front
read_one-IsFront limit seen (x ∷ bytes) b front =
    subst (λ p. IsFront limit (seen ++ (x ∷ bytes)) p.1) (sym (read_one_some b x bytes))
      (write-IsFront limit seen (x ∷ bytes) b front)

read_one_count : (b : Buffer) (bytes : List ℕ) → (read_one b bytes).0 ≡ length bytes
unfolding read_one write
read_one_count b bytes = ground arith

-- The bytes of the reads up to the first that reports an error or the end, and whether that one
-- reports an error.
abbrev pub received : List (List ℕ × Ending) → List ℕ
received [] = []
received ((bytes, ending) ∷ reads) =
    let rest = received reads in
    bytes ++ elim ending [ more ↦ rest | end_of_file ↦ [] | failed ↦ [] ]

abbrev pub has_failed : List (List ℕ × Ending) → Bool
has_failed [] = false
has_failed ((bytes, ending) ∷ reads) =
    let rest = has_failed reads in elim ending [ more ↦ rest | end_of_file ↦ false | failed ↦ true ]

last_total :
    (total : ℕ) (b : Buffer) (bytes : List ℕ)
    → total + (read_one b bytes).0 ≡ total + length (bytes ++ [])
last_total total b bytes = omega (arith, read_one_count b bytes, ap length (append_nil bytes))

last-IsFront :
    (limit : ℕ) (seen bytes : List ℕ) (b : Buffer)
    → IsFront limit seen b
    → IsFront limit (seen ++ (bytes ++ [])) (read_one b bytes).1
last-IsFront limit seen bytes b front =
    rw (append_nil bytes) (read_one-IsFront limit seen bytes b front)

new-IsFront : (limit : ℕ) → IsFront limit [] (new_buffer limit)
unfolding new_buffer
new-IsFront limit = is_front refl (take_nil limit) (ground arith)

read_from-IsFront :
    (total limit : ℕ) (seen : List ℕ) (b : Buffer) (reads : List (List ℕ × Ending))
    → IsFront limit seen b
    → (read_from total b reads).0 ≡ total + length (received reads)
      × (read_from total b reads).1 ≡ has_failed reads
      × IsFront limit (seen ++ received reads) (read_from total b reads).2
unfolding read_from
read_from-IsFront total limit seen b [] front =
    (omega arith, refl, subst (λ xs. IsFront limit xs b) (sym (append_nil seen)) front)
read_from-IsFront total limit seen b ((bytes, more) ∷ reads) front =
    let rest =
      read_from-IsFront (total + (read_one b bytes).0) limit (seen ++ bytes) (read_one b bytes).1
        reads (read_one-IsFront limit seen bytes b front) in
    (
      omega (arith, rest.0, read_one_count b bytes, length-append bytes (received reads)),
      rest.1,
      subst
          (λ xs.
            IsFront limit xs
              (read_from (total + (read_one b bytes).0) (read_one b bytes).1 reads).2)
          (append_assoc seen bytes (received reads)) rest.2,
    )
read_from-IsFront total limit seen b ((bytes, end_of_file) ∷ reads) front =
    (last_total total b bytes, refl, last-IsFront limit seen bytes b front)
read_from-IsFront total limit seen b ((bytes, failed) ∷ reads) front =
    (last_total total b bytes, refl, last-IsFront limit seen bytes b front)

-- Reading a stream into a new buffer counts every byte received up to the first end or error,
-- returns an error exactly if a read failed, stores the front of what was received up to the limit,
-- and marks it as truncated exactly if more was received.
pub read_from-new_buffer :
    (limit : ℕ) (reads : List (List ℕ × Ending))
    → (read_from 0 (new_buffer limit) reads).0 ≡ length (received reads)
      × (read_from 0 (new_buffer limit) reads).1 ≡ has_failed reads
      × (read_from 0 (new_buffer limit) reads).2.stored ≡ take limit (received reads)
      × (read_from 0 (new_buffer limit) reads).2.truncated ≡ ltb limit (length (received reads))
read_from-new_buffer limit reads =
    let (count, error, front) =
      read_from-IsFront 0 limit [] (new_buffer limit) reads (new-IsFront limit) in
    elim front [ is_front l s t ↦ (omega (arith, count), error, s, t) ]
