-- ===== src/Source.antt =====
-- network/src/byte_source.rs: where the bytes of a stream come from.
pub mod Split
use destiny1_pc_project.Prelude.{
  ℕ, zero, suc, ◌+◌, ◌-◌, ◌%◌, Bool, Option, none, some, List, [], ◌∷◌, ◌++◌, Text, ltb,
  if◌then◌else◌, length, is_empty, slice, get_or, map, min, Result, ok, err,
}

pub data ByteSourceError : Type 0 where
  failed : Text → ByteSourceError

-- The trait `ByteSource`: one read changes the source, and gives data, the end, or an error.
pub record ByteSource (S : Type 0) : Type 0 where
  pub read : S → S × Result ByteSourceError (Option (List ℕ))

pub record MockByteSource : Type 0 where
  pub queue : List (Result ByteSourceError (List ℕ))

unfoldable pub new : List (List ℕ) → MockByteSource
new chunks = record { queue = map ok chunks }

unfoldable pub from_results : List (Result ByteSourceError (List ℕ)) → MockByteSource
from_results items = record { queue = items }

unfoldable pub remaining : MockByteSource → ℕ
remaining source = length source.queue

unfoldable pub read_queue :
    List (Result ByteSourceError (List ℕ))
    → MockByteSource × Result ByteSourceError (Option (List ℕ))
read_queue [] = (record { queue = [] }, ok none)
read_queue (ok bytes ∷ queue) = (record { queue = queue }, ok (some bytes))
read_queue (err e ∷ queue) = (record { queue = queue }, err e)

instance abbrev pub mock_source : ByteSource MockByteSource
mock_source = record { read = λ source. read_queue source.queue }

-- `filter(|&n| n > 0)`.
unfoldable pub positive_sizes : List ℕ → List ℕ
positive_sizes [] = []
positive_sizes (n ∷ sizes) = let rest = positive_sizes sizes in if ltb 0 n then n ∷ rest else rest

-- The `while` loop of `chunk_stream`. A round takes a byte at least.
unfoldable pub chunk_loop : ℕ → List ℕ → List ℕ → ℕ → ℕ → List (List ℕ) → List (List ℕ)
chunk_loop zero stream sizes offset i out = out
chunk_loop (suc fuel) stream sizes offset i out =
    let n = min (get_or sizes (i % length sizes) 0) (length stream - offset) in
    let rest =
      chunk_loop fuel stream sizes (offset + n) (i + 1)
        (out ++ (slice stream offset (offset + n) ∷ [])) in
    if ltb offset (length stream) then rest else out

unfoldable pub chunk_stream : List ℕ → List ℕ → List (List ℕ)
unfolding positive_sizes
chunk_stream stream sizes =
    let kept = positive_sizes sizes in
    let sizes' = if is_empty kept then 1 ∷ [] else kept in
    chunk_loop (length stream) stream sizes' 0 0 []

abbrev pub default_pipeline_chunk_sizes : List ℕ
default_pipeline_chunk_sizes = 1 ∷ 2 ∷ 3 ∷ 7 ∷ 13 ∷ 31 ∷ 64 ∷ 127 ∷ 256 ∷ 17 ∷ 5 ∷ []
