-- ===== src/Command/Output.antt =====
-- The bounded output buffer (`execOutputBuffer` of dev-agent/exec_server.go).
pub mod Stream
use provider_infrastructure.Prelude.{
  ℕ, zero, suc, length-append, ◌+◌, ◌-◌, ◌≤◌, ◌<◌, ◌≡◌, refl, sym, ap, ◌∙◌, inl, inr, ◌⊎◌, Bool,
  true, false, ◌||◌, Bool-cases, List, [], ◌∷◌, ◌++◌, length, ltb, leb, if◌then◌else◌, min, arith,
}

-- `execOutputBuffer`
pub record Buffer : Type 0 where
  pub stored : List ℕ
  pub limit : ℕ
  pub truncated : Bool

-- `newExecOutputBuffer`; `boundedExecOutput` gives it no negative limit.
unfoldable pub new_buffer : ℕ → Buffer
new_buffer limit = record { stored = []; limit = limit; truncated = false }

-- `bytes[:n]`
abbrev pub take {ℓ} : {A : Type ℓ} → ℕ → List A → List A
take zero xs = []
take (suc n) [] = []
take (suc n) (x ∷ xs) = x ∷ take n xs

-- `Write`, which always reports that it wrote all of the data.
unfoldable pub write : Buffer → List ℕ → ℕ × Buffer
write b bytes =
    if leb b.limit (length b.stored)
    then (length bytes, record b { truncated = b.truncated || ltb 0 (length bytes) })
    else if ltb (b.limit - length b.stored) (length bytes)
    then (
      length bytes,
      record b { stored = b.stored ++ take (b.limit - length b.stored) bytes; truncated = true },
    )
    else (length bytes, record b { stored = b.stored ++ bytes })

-- What one call of the reader's `Read` gives: the bytes read, and whether it was the last, with an
-- error other than the end of the file or not.
pub data Ending : Type 0 where
  more end_of_file failed : Ending

-- `if n > 0 { written, _ := b.Write(buf[:n]) }`
unfoldable pub read_one : Buffer → List ℕ → ℕ × Buffer
unfolding write
read_one b bytes = if ltb 0 (length bytes) then write b bytes else (0, b)

-- `ReadFrom`, for the reads until the first that reports an error: the total, whether it
-- returns an error, and the buffer.
unfoldable pub read_from : ℕ → Buffer → List (List ℕ × Ending) → ℕ × Bool × Buffer
unfolding read_one
read_from total b [] = (total, false, b)
read_from total b ((bytes, ending) ∷ reads) =
    let go_on = read_from (total + (read_one b bytes).0) (read_one b bytes).1 reads in
    elim ending [
      | more ↦ go_on
      | end_of_file ↦ (total + (read_one b bytes).0, false, (read_one b bytes).1)
      | failed ↦ (total + (read_one b bytes).0, true, (read_one b bytes).1)
    ]
