-- ===== src/Knowledge/Chunking/Windows.antt =====
-- Where the loop of chunk_text_with_overlap goes from an offset
-- (packages/backend/src/closeros/application/knowledge_chunking.py, _find_breakpoint and the loop).
use closer_os.Prelude.{ℕ, ◌+◌, min, ◌≤◌, ◌<◌, ◌≡◌, Option, none, some, [], ◌∷◌, arith, Text, length}
use closer_os.Knowledge.Chunking.{
  rfind_from, rfind, boundary_or, find_breakpoint, chunk_end, next_start, line_feed, space,
}

rfind_from-bounds :
    (i : ℕ) (text : Text) (c start stop k : ℕ)
    → rfind_from i text c start stop ≡ some k
    → (start ≤ k) × (k < stop)
unfolding rfind_from
rfind_from-bounds i [] c start stop k h = ground arith
rfind_from-bounds i (d ∷ text) c start stop k h =
    ground (arith, rfind_from-bounds (i + 1) text c start stop k)

boundary_or-le :
    (boundary : Option ℕ) (start stop default : ℕ)
    → ((k : ℕ) → boundary ≡ some k → k < stop + 1)
    → default ≤ stop
    → boundary_or boundary start default ≤ stop
boundary_or-le none start stop default b h = h
boundary_or-le (some k) start stop default b h = ground (arith, b k)

rfind-lt : (text : Text) (c start stop k : ℕ) → rfind text c start stop ≡ some k → k < stop
unfolding rfind
rfind-lt text c start stop k h = (rfind_from-bounds 0 text c start stop k h).1

find_breakpoint-le :
    (text : Text) (start hard_stop : ℕ)
    → hard_stop ≤ length text
    → find_breakpoint text start hard_stop ≤ hard_stop
unfolding find_breakpoint
find_breakpoint-le text start hard_stop h =
    let stop = hard_stop + 1 in
    ground (
      arith,
      boundary_or-le (rfind text space start stop) start hard_stop hard_stop
          (rfind-lt text space start stop),
      boundary_or-le (rfind text line_feed start stop) start hard_stop
          (boundary_or (rfind text space start stop) start hard_stop)
          (rfind-lt text line_feed start stop),
    )

-- From an offset inside the text, a chunk is not empty, ends within the text and is not too long.
pub chunk_end-bounds :
    (text : Text) (max_characters start : ℕ)
    → 1 ≤ max_characters
    → start < length text
    → (start < chunk_end text max_characters start)
      × (chunk_end text max_characters start ≤ length text)
      × (chunk_end text max_characters start ≤ start + max_characters)
unfolding chunk_end
chunk_end-bounds text max_characters start p h =
    ground (arith, find_breakpoint-le text start (min (length text) (start + max_characters)))

-- The loop advances, and leaves no gap.
pub next_start-bounds :
    (start end overlap : ℕ)
    → start < end
    → (start < next_start start end overlap)
      × (next_start start end overlap ≤ end)
      × (end ≤ next_start start end overlap + overlap)
unfolding next_start
next_start-bounds start end overlap h = ground arith
