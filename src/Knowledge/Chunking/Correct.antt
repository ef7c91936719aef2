-- ===== src/Knowledge/Chunking/Correct.antt =====
-- What chunk_text_with_overlap returns
-- (packages/backend/src/closeros/application/knowledge_chunking.py).
use closer_os.Prelude.{
  ℕ, ◌+◌, ◌≤◌, ◌<◌, ◌≡◌, ◌↔◌, refl, sym, subst, ◌∙◌, true, false, some, List, [], ◌∷◌, Result, err,
  ok, arith, Text, length, get_elem?, is_empty, is_space, All, if◌then◌else◌,
}
use closer_os.Knowledge.Chunking.{
  ChunkError, KnowledgeChunkSlice, chunk_text_with_overlap, chunks_from, normalize_text,
}
use closer_os.Knowledge.Chunking.Loop.{
  IsChunk, InOrder, covers, Chunked, Returns, chunks_from-Returns, nothing-Chunked,
}

empty-Returns :
    (text : Text) (max_characters overlap : ℕ) (rest : Result ChunkError (List KnowledgeChunkSlice))
    → Returns text max_characters overlap 0 0 rest
    → Returns text max_characters overlap 0 0 (if is_empty text then ok [] else rest)
empty-Returns [] max_characters overlap rest r =
    nothing-Chunked [] max_characters overlap 0 0 0 0 (omega arith)
empty-Returns (c ∷ text) max_characters overlap rest r = r

whole-Returns :
    (text : Text) (max_characters overlap : ℕ)
    → 1 ≤ max_characters
    → Returns text max_characters overlap 0 0 (
        if is_empty text
        then ok []
        else chunks_from (length text + 1) text max_characters overlap 0 0)
whole-Returns text max_characters overlap p = empty-Returns text max_characters overlap _ (
    chunks_from-Returns text max_characters overlap (length text + 1) 0 0 p (omega arith)
      (omega arith))

accepted :
    (text : Text) (max_characters overlap : ℕ)
    → 1 ≤ max_characters
    → overlap < max_characters
    → chunk_text_with_overlap text max_characters overlap ≡ (
        if is_empty (normalize_text text)
        then ok []
        else chunks_from
            (length (normalize_text text) + 1)
            (normalize_text text)
            max_characters
            overlap
            0
            0)
unfolding chunk_text_with_overlap
accepted text max_characters overlap p o = ground arith

refused :
    (text : Text) (max_characters overlap : ℕ) (chunks : List KnowledgeChunkSlice)
    → chunk_text_with_overlap text max_characters overlap ≡ ok chunks
    → (1 ≤ max_characters) × (overlap < max_characters)
unfolding chunk_text_with_overlap
refused text max_characters overlap chunks h = ground arith

returned :
    (text : Text) (max_characters overlap : ℕ) (r : Result ChunkError (List KnowledgeChunkSlice))
    → Returns text max_characters overlap 0 0 r
    → (chunks : List KnowledgeChunkSlice) × (r ≡ ok chunks)
returned text max_characters overlap (err _) r = absurd r
returned text max_characters overlap (ok chunks) r = (chunks, refl)

-- chunk_text_with_overlap returns chunks, so that its loop ends, exactly when max_characters is
-- positive and the overlap is less than it; the loop's fuel never runs out.
pub chunk_text_with_overlap-returns :
    (text : Text) (max_characters overlap : ℕ)
    → ((chunks : List KnowledgeChunkSlice) × (chunk_text_with_overlap text max_characters overlap
          ≡ ok chunks))
      ↔ ((1 ≤ max_characters) × (overlap < max_characters))
chunk_text_with_overlap-returns text max_characters overlap = (
  λ (chunks, h). refused text max_characters overlap chunks h,
  λ (p, o).
      subst (λ r. (chunks : List KnowledgeChunkSlice) × (r ≡ ok chunks))
        (sym (accepted text max_characters overlap p o))
        (returned (normalize_text text) max_characters overlap _
          (whole-Returns (normalize_text text) max_characters overlap p)),
)

all-Chunked :
    (text : Text) (max_characters overlap : ℕ) (chunks : List KnowledgeChunkSlice)
    → chunk_text_with_overlap text max_characters overlap ≡ ok chunks
    → Chunked (normalize_text text) max_characters overlap 0 0 chunks
all-Chunked text max_characters overlap chunks h =
    let (p, o) = refused text max_characters overlap chunks h in
    subst (Returns (normalize_text text) max_characters overlap 0 0)
      (sym (accepted text max_characters overlap p o) ∙ h)
      (whole-Returns (normalize_text text) max_characters overlap p)

-- When chunk_text_with_overlap returns, each chunk is the visible, stripped text between its offsets in
-- the normalized text, at most max_characters of it; the positions are 0, 1, 2 and so on, the starts
-- increase, and a chunk shares at most the overlap with the one before it.
pub chunk_text_with_overlap-IsChunk :
    (text : Text) (max_characters overlap : ℕ) (chunks : List KnowledgeChunkSlice)
    → chunk_text_with_overlap text max_characters overlap ≡ ok chunks
    → All (IsChunk (normalize_text text) max_characters) chunks × InOrder overlap 0 0 0 chunks
chunk_text_with_overlap-IsChunk text max_characters overlap chunks h =
    let (windows, order, _) = all-Chunked text max_characters overlap chunks h in
    (windows, order 0 0 (omega arith) (omega arith))

-- When chunk_text_with_overlap returns, every character of the normalized text that is not white
-- space lies between the offsets of one of the chunks.
pub visible-covered :
    (text : Text) (max_characters overlap : ℕ) (chunks : List KnowledgeChunkSlice) (i c : ℕ)
    → chunk_text_with_overlap text max_characters overlap ≡ ok chunks
    → get_elem? (normalize_text text) i ≡ some c
    → is_space c ≡ false
    → covers chunks i ≡ true
visible-covered text max_characters overlap chunks i c h =
    let (_, _, cover) = all-Chunked text max_characters overlap chunks h in cover i c (omega arith)
