-- ===== src/Scanners/Daemons/Stream.antt =====
-- The bytes that clamd is sent, against what its protocol says about them.
use Prim.Native.Nat.{◌/◌, ◌%◌}
use mathlib.Core.List.{append_assoc}
use mailhook.Common.{
  ℕ, zero, suc, ◌+◌, ◌*◌, ◌≤◌, ◌<◌, List, [], ◌∷◌, ◌++◌, Option, none, some, ◌==◌, ltb,
  if◌then◌else◌, ◌≡◌, refl, ap, ◌∙◌, length, arith, take, drop, take-append, drop-append, take-drop,
  length-take, length-drop,
}
use mailhook.Scanners.Daemons.{uint32, chunk_size, write_chunks, instream}

-- clamd's reading of INSTREAM, on fuel: a length of four bytes, then so many bytes, until the length
-- 0; nothing where the stream ends early.
abbrev before_rest : List ℕ → Option (List ℕ) → Option (List ℕ)
before_rest chunk none = none
before_rest chunk (some rest) = some (chunk ++ rest)

unfoldable pub read_stream : ℕ → List ℕ → Option (List ℕ)
read_stream (suc n) (a ∷ b ∷ c ∷ d ∷ rest) =
    let size = ((a * 256 + b) * 256 + c) * 256 + d in
    let more = read_stream n (drop size rest) in
    if size == 0
    then some []
    else if ltb (length rest) size
    then none
    else before_rest (take size rest) more
read_stream _ _ = none

uint32-size :
    (n : ℕ)
    → n < 4294967296
    → ((((n / 16777216) % 256) * 256 + (n / 65536) % 256) * 256 + (n / 256) % 256) * 256 + n % 256
      ≡ n
uint32-size n h = ground arith

length-append : (xs ys : List ℕ) → length (xs ++ ys) ≡ length xs + length ys
length-append [] ys = ground arith
length-append (x ∷ xs) ys = ground (arith, length-append xs ys)

-- One chunk is read back.
read-chunk :
    (n : ℕ) (b : ℕ) (chunk rest : List ℕ)
    → length (b ∷ chunk) < 4294967296
    → read_stream (suc n) (uint32 (length (b ∷ chunk)) ++ (b ∷ chunk) ++ rest)
      ≡ before_rest (b ∷ chunk) (read_stream n rest)
unfolding read_stream uint32
read-chunk n b chunk rest h = rw (uint32-size (length (b ∷ chunk)) h) (
    rw (take-append (b ∷ chunk) rest)
      (rw (drop-append (b ∷ chunk) rest) (ground (arith, length-append (b ∷ chunk) rest))))

read-write :
    (n m : ℕ) (bytes : List ℕ)
    → length bytes ≤ n
    → length bytes < m
    → read_stream m (write_chunks n bytes ++ uint32 0) ≡ some bytes
unfolding read_stream write_chunks uint32 take drop
read-write n zero bytes h k = ground arith
read-write zero (suc m) [] h k = refl
read-write (suc n) (suc m) [] h k = refl
read-write zero (suc m) (b ∷ bs) h k = ground arith
read-write (suc n) (suc m) (b ∷ bs) h k =
    let rest = drop chunk_size (b ∷ bs) in
    let chunk = take 2047 bs in
    let small : length (b ∷ chunk) < 4294967296 = ground (arith, length-take 2047 bs) in
    let shorter = length-drop 2047 bs in
    ap (λ s. read_stream (suc m) s)
      (append_assoc (uint32 (length (b ∷ chunk)) ++ (b ∷ chunk)) (write_chunks n rest) (uint32 0))
    ∙ read-chunk m b chunk (write_chunks n rest ++ uint32 0) small
    ∙ ap (before_rest (b ∷ chunk))
        (read-write n m rest (ground (arith, shorter)) (ground (arith, shorter)))
    ∙ ap some (take-drop chunk_size (b ∷ bs))

-- clamd reads the bytes of a message back from the stream that it is sent, for every message, and
-- fuel for one chunk more than the message has bytes is enough.
pub read_stream-instream :
    (bytes : List ℕ) → read_stream (suc (length bytes)) (instream bytes) ≡ some bytes
unfolding instream
read_stream-instream bytes =
    read-write (length bytes) (suc (length bytes)) bytes (ground arith) (ground arith)
