-- ===== src/Knowledge/Chunking/Loop.antt =====
-- What the loop of chunk_text_with_overlap returns
-- (packages/backend/src/closeros/application/knowledge_chunking.py).
use closer_os.Prelude.{
  ℕ, zero, suc, ◌+◌, ◌-◌, ◌≤◌, ◌<◌, ◌≡◌, refl, sym, subst, ◌∙◌, Bool, true, false, ◌&&◌, ◌||◌, some,
  List, [], ◌∷◌, leb, ltb, Result, err, ok, ◌>>=◌, arith, Text, length, get_elem?, is_empty, slice,
  strip, is_space, All, strip-visible, get_elem?-lt, get_elem?-slice,
}
use closer_os.Knowledge.Chunking.{
  ChunkError, KnowledgeChunkSlice, chunk_end, next_start, append_chunk, position_after, chunks_from,
}
use closer_os.Knowledge.Chunking.Windows.{chunk_end-bounds, next_start-bounds}
use native.Mathlib.Decide.{dec_lt}

-- A chunk is the stripped, visible text of its offsets, which are at most `max_characters` apart.
abbrev pub IsChunk : Text → ℕ → KnowledgeChunkSlice → Type 0
IsChunk text max_characters chunk =
    (chunk.start_offset < chunk.end_offset)
    × (chunk.end_offset ≤ length text)
    × (chunk.end_offset ≤ chunk.start_offset + max_characters)
    × (chunk.text ≡ strip (slice text chunk.start_offset chunk.end_offset))
    × (is_empty chunk.text ≡ false)

-- Positions count up, starts increase, and a chunk shares at most `overlap` characters with the one
-- before it, which ends at `last`.
abbrev pub InOrder : (overlap position from last : ℕ) → List KnowledgeChunkSlice → Type 0
InOrder overlap position from last [] = Unit
InOrder overlap position from last (chunk ∷ rest) =
    (chunk.position ≡ position)
    × (from ≤ chunk.start_offset)
    × (last ≤ chunk.start_offset + overlap)
    × InOrder overlap (position + 1) (chunk.start_offset + 1) chunk.end_offset rest

abbrev pub covers : List KnowledgeChunkSlice → ℕ → Bool
covers [] i = false
covers (chunk ∷ rest) i = (leb chunk.start_offset i && ltb i chunk.end_offset) || covers rest i

-- Every visible character from `start` on is in a chunk.
abbrev pub CoversFrom : Text → ℕ → List KnowledgeChunkSlice → Type 0
CoversFrom text start chunks =
    (i c : ℕ) → start ≤ i → get_elem? text i ≡ some c → is_space c ≡ false → covers chunks i ≡ true

-- What holds of the chunks that the loop returns from `start`
abbrev pub Chunked :
    (text : Text) (max_characters overlap start position : ℕ) → List KnowledgeChunkSlice → Type 0
Chunked text max_characters overlap start position chunks =
    All (IsChunk text max_characters) chunks
    × ((from last : ℕ)
        → from ≤ start
        → last ≤ start + overlap
        → InOrder overlap position from last chunks)
    × CoversFrom text start chunks

abbrev pub Returns :
    (text : Text) (max_characters overlap start position : ℕ)
    → Result ChunkError (List KnowledgeChunkSlice)
    → Type 0
Returns text max_characters overlap start position (err _) = ⊥
Returns text max_characters overlap start position (ok chunks) =
    Chunked text max_characters overlap start position chunks

module _ (text : Text) (max_characters overlap start position end : ℕ) where
  -- The chunk of the window from `start` to `end` joins those from `next` on.
  append-All :
      (chunk : Text) (rest : List KnowledgeChunkSlice)
      → start < end
      → end ≤ length text
      → end ≤ start + max_characters
      → chunk ≡ strip (slice text start end)
      → All (IsChunk text max_characters) rest
      → All (IsChunk text max_characters) (append_chunk position start end chunk rest)
  append-All [] rest l e m t a = a
  append-All (c ∷ chunk) rest l e m t a = ((l, e, m, t, refl), a)

  append-InOrder :
      (chunk : Text) (rest : List KnowledgeChunkSlice) (next : ℕ)
      → start < next
      → end ≤ next + overlap
      → ((from last : ℕ)
          → from ≤ next
          → last ≤ next + overlap
          → InOrder overlap (position_after position chunk) from last rest)
      → (from last : ℕ) → from ≤ start
      → last ≤ start + overlap
      → InOrder overlap position from last (append_chunk position start end chunk rest)
  append-InOrder [] rest next s e o from last f l = o from last (omega arith) (omega arith)
  append-InOrder (c ∷ chunk) rest next s e o from last f l =
      (refl, f, l, o (start + 1) end (omega arith) e)

  append-covers :
      (chunk : Text) (rest : List KnowledgeChunkSlice) (i : ℕ)
      → (start ≤ i → i < end → is_empty chunk ≡ false)
      → (end ≤ i → covers rest i ≡ true)
      → start ≤ i
      → covers (append_chunk position start end chunk rest) i ≡ true
  append-covers [] rest i visible later s = ground arith
  append-covers (c ∷ chunk) rest i visible later s = ground arith

  window-visible :
      (i c : ℕ)
      → get_elem? text i ≡ some c
      → is_space c ≡ false
      → start ≤ i
      → i < end
      → is_empty (strip (slice text start end)) ≡ false
  window-visible i c at v s e =
      strip-visible (slice text start end) (i - start) c (get_elem?-slice text start end i s e ∙ at)
        v

  append-Chunked :
      (next : ℕ) (rest : List KnowledgeChunkSlice)
      → start < end
      → end ≤ length text
      → end ≤ start + max_characters
      → start < next
      → next ≤ end
      → end ≤ next + overlap
      → Chunked text max_characters overlap next
          (position_after position (strip (slice text start end)))
          rest
      → Chunked text max_characters overlap start position
          (append_chunk position start end (strip (slice text start end)) rest)
  append-Chunked next rest l e m s n o (all, order, cover) = (
    append-All (strip (slice text start end)) rest l e m refl all,
    append-InOrder (strip (slice text start end)) rest next s o order,
    λ i c f at v.
        append-covers (strip (slice text start end)) rest i (window-visible i c at v)
          (λ g. cover i c (omega arith) at v) f,
  )

  -- At the end of the text there is nothing left to cover.
  pub nothing-Chunked :
      (later : ℕ) → length text ≤ end → Chunked text max_characters overlap end later []
  nothing-Chunked later h =
      (tt, λ from last f l. tt, λ i c f at v. ground (arith, get_elem?-lt text i c))

module _ (text : Text) (max_characters overlap : ℕ) where
  add_rest :
      (start position end next : ℕ) (rest : Result ChunkError (List KnowledgeChunkSlice))
      → start < end
      → end ≤ length text
      → end ≤ start + max_characters
      → start < next
      → next ≤ end
      → end ≤ next + overlap
      → Returns text max_characters overlap next
          (position_after position (strip (slice text start end)))
          rest
      → Returns text max_characters overlap start position (
          rest >>= (λ chunks.
            ok (append_chunk position start end (strip (slice text start end)) chunks)))
  add_rest start position end next (err _) l e m s n o r = r
  add_rest start position end next (ok rest) l e m s n o r =
      append-Chunked text max_characters overlap start position end next rest l e m s n o r

  loop-stop :
      (fuel start position : ℕ)
      → length text ≤ start
      → chunks_from (suc fuel) text max_characters overlap start position ≡ ok []
  unfolding chunks_from
  loop-stop fuel start position h = ground arith

  module _ (fuel start position : ℕ) (inside : start < length text) where
    loop-last :
        length text ≤ chunk_end text max_characters start
        → chunks_from (suc fuel) text max_characters overlap start position
          ≡ ok (
              append_chunk position start
                (chunk_end text max_characters start)
                (strip (slice text start (chunk_end text max_characters start)))
                [])
    unfolding chunks_from
    loop-last h = ground arith

    loop-more :
        chunk_end text max_characters start < length text
        → chunks_from (suc fuel) text max_characters overlap start position ≡ (
            chunks_from fuel text max_characters overlap
              (next_start start (chunk_end text max_characters start) overlap)
              (position_after position
                (strip (slice text start (chunk_end text max_characters start))))
            >>= (λ rest. ok (
                append_chunk position start
                  (chunk_end text max_characters start)
                  (strip (slice text start (chunk_end text max_characters start)))
                  rest)))
    unfolding chunks_from
    loop-more h = ground arith

  -- The fuel left is above the number of characters left.
  pub chunks_from-Returns :
      (fuel start position : ℕ)
      → 1 ≤ max_characters
      → start ≤ length text
      → length text < fuel + start
      → Returns text max_characters overlap start position
          (chunks_from fuel text max_characters overlap start position)
  chunks_from-Returns zero start position p s f = absurd (omega arith)
  chunks_from-Returns (suc fuel) start position p s f = elim (dec_lt start (length text)) [
    | no stop ↦
        subst returns (sym (loop-stop fuel start position (omega arith)))
          (nothing-Chunked text max_characters overlap start position start position (omega arith))
    | yes inside ↦
        let (after, within, short) = chunk_end-bounds text max_characters start p inside in
        let (advances, joined, shared) = next_start-bounds start end overlap after in
        elim (dec_lt end (length text)) [
          | no last ↦ subst returns (sym (loop-last fuel start position inside (omega arith))) (
              append-Chunked text max_characters overlap start position end end [] after within
                short after (omega arith) (omega arith)
                (nothing-Chunked text max_characters overlap start position end later
                  (omega arith)))
          | yes more ↦ subst returns (sym (loop-more fuel start position inside more)) (
              add_rest start position end (next_start start end overlap) _ after within short
                advances joined shared
                (chunks_from-Returns fuel (next_start start end overlap) later p (omega arith)
                  (omega arith)))
        ]
  ]
    where
      returns : Result ChunkError (List KnowledgeChunkSlice) → Type 0
      returns = Returns text max_characters overlap start position

      end : ℕ
      end = chunk_end text max_characters start

      later : ℕ
      later = position_after position (strip (slice text start end))
