-- ===== src/Knowledge/Chunking.antt =====
-- The chunks of a document
-- (packages/backend/src/closeros/application/knowledge_chunking.py). A text is the list of its code
-- points, so an offset is an index of the list. The loop runs on fuel, and running out of it is an
-- error of its own.
use closer_os.Prelude.{
  ℕ, zero, suc, ◌+◌, ◌-◌, min, Bool, true, false, ◌&&◌, Option, none, some, List, [], ◌∷◌, leb, ltb,
  ◌==◌, if◌then◌else◌, Result, err, ok, guard, ◌>>=◌, ◌>>◌, Text, length, is_empty, slice, strip,
}
mod Windows
pub mod Loop
pub mod Correct

pub data ChunkError : Type 0 where
  max_characters_not_positive : ChunkError
  overlap_not_less : ChunkError
  out_of_fuel : ChunkError

pub record KnowledgeChunkSlice : Type 0 where
  pub position : ℕ
  pub start_offset : ℕ
  pub end_offset : ℕ
  pub text : Text

abbrev pub chunk_max_characters : ℕ
chunk_max_characters = 2000

abbrev pub chunk_overlap_characters : ℕ
chunk_overlap_characters = 200

abbrev pub line_feed : ℕ
line_feed = 10

abbrev pub carriage_return : ℕ
carriage_return = 13

abbrev pub space : ℕ
space = 32

abbrev pub starts_with : ℕ → Text → Bool
starts_with c [] = false
starts_with c (d ∷ t) = d == c

-- `value.replace("\r\n", "\n")`: a carriage return goes where a line feed follows.
unfoldable pub replace_crlf : Text → Text
replace_crlf [] = []
replace_crlf (c ∷ t) =
    let rest = replace_crlf t in
    if c == carriage_return && starts_with line_feed t then rest else c ∷ rest

-- `.replace("\r", "\n")`
unfoldable pub replace_cr : Text → Text
replace_cr [] = []
replace_cr (c ∷ t) = (if c == carriage_return then line_feed else c) ∷ replace_cr t

unfoldable pub normalize_text : Text → Text
normalize_text value = strip (replace_cr (replace_crlf value))

-- `text.rfind(c, start, stop)` on the characters from the index `i` on; `none` for -1.
unfoldable pub rfind_from : ℕ → Text → ℕ → ℕ → ℕ → Option ℕ
rfind_from i [] c start stop = none
rfind_from i (d ∷ t) c start stop = elim (rfind_from (i + 1) t c start stop) [
  | some k ↦ some k
  | none ↦ if d == c && leb start i && ltb i stop then some i else none
]

unfoldable pub rfind : Text → ℕ → ℕ → ℕ → Option ℕ
unfolding rfind_from
rfind text c start stop = rfind_from 0 text c start stop

-- `if boundary <= start`, with -1 below every start
abbrev pub boundary_or : Option ℕ → ℕ → ℕ → ℕ
boundary_or none start default = default
boundary_or (some boundary) start default = if leb boundary start then default else boundary

unfoldable pub find_breakpoint : Text → ℕ → ℕ → ℕ
unfolding rfind
find_breakpoint text start hard_stop =
    if leb (length text) hard_stop
    then length text
    else boundary_or (rfind text line_feed start (hard_stop + 1)) start
        (boundary_or (rfind text space start (hard_stop + 1)) start hard_stop)

-- The end of the chunk from `start`: `hard_stop`, the breakpoint before it, and the test after.
unfoldable pub chunk_end : Text → ℕ → ℕ → ℕ
unfolding find_breakpoint
chunk_end text max_characters start =
    let hard_stop = min (length text) (start + max_characters) in
    let end = find_breakpoint text start hard_stop in if leb end start then hard_stop else end

-- The start of the chunk after it; the subtraction stops at 0 like `max(0, ...)`.
unfoldable pub next_start : ℕ → ℕ → ℕ → ℕ
next_start start end overlap = let next = end - overlap in if leb next start then end else next

-- `if chunk_text:`, of the two statements below it
abbrev pub append_chunk :
    (position start end : ℕ) (text : Text) → List KnowledgeChunkSlice → List KnowledgeChunkSlice
append_chunk position start end text rest =
    if is_empty text
    then rest
    else record { position = position; start_offset = start; end_offset = end; text = text } ∷ rest

abbrev pub position_after : ℕ → Text → ℕ
position_after position text = if is_empty text then position else position + 1

-- `while start < len(normalized)`: the chunks from `start` on, the first at `position`.
unfoldable pub chunks_from :
    (fuel : ℕ) (text : Text) (max_characters overlap start position : ℕ)
    → Result ChunkError (List KnowledgeChunkSlice)
unfolding chunk_end next_start strip
chunks_from zero text max_characters overlap start position = err out_of_fuel
chunks_from (suc fuel) text max_characters overlap start position = elim (ltb start (length text)) [
  | false ↦ ok []
  | true ↦
      let end = chunk_end text max_characters start in
      let chunk = strip (slice text start end) in
      elim (leb (length text) end) [
        | true ↦ ok (append_chunk position start end chunk [])
        | false ↦
            chunks_from fuel text max_characters overlap (next_start start end overlap)
              (position_after position chunk)
            >>= (λ rest. ok (append_chunk position start end chunk rest))
      ]
]

unfoldable pub chunk_text_with_overlap :
    (text : Text) (max_characters overlap : ℕ) → Result ChunkError (List KnowledgeChunkSlice)
unfolding chunks_from normalize_text
chunk_text_with_overlap text max_characters overlap = do
  guard (leb 1 max_characters) max_characters_not_positive
  guard (ltb overlap max_characters) overlap_not_less
  if is_empty (normalize_text text)
      then ok []
      else chunks_from (length (normalize_text text) + 1) (normalize_text text) max_characters
          overlap 0 0
