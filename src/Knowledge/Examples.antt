-- ===== src/Knowledge/Examples.antt =====
-- Texts on which the theorems about chunking are applied
-- (tests/test_knowledge_chunking.py).
use closer_os.Prelude.{
  ◌≤◌, ◌<◌, ◌≡◌, ◌↔◌, refl, true, List, [], ◌∷◌, ok, Text, is_space, All, strip,
}
use closer_os.Knowledge.Chunking.{
  KnowledgeChunkSlice, chunk_text_with_overlap, normalize_text, replace_cr, replace_crlf,
}
use closer_os.Knowledge.Chunking.Loop.{IsChunk, InOrder, covers}
use closer_os.Knowledge.Chunking.Correct.{
  chunk_text_with_overlap-returns, chunk_text_with_overlap-IsChunk, visible-covered,
}

-- "ab cd\r\nef" with a space before and after
abbrev two_lines : Text
two_lines = 32 ∷ 97 ∷ 98 ∷ 32 ∷ 99 ∷ 100 ∷ 13 ∷ 10 ∷ 101 ∷ 102 ∷ 32 ∷ []

abbrev two_lines_chunks : List KnowledgeChunkSlice
two_lines_chunks =
    record { position = 0; start_offset = 0; end_offset = 2; text = 97 ∷ 98 ∷ [] }
    ∷ record { position = 1; start_offset = 1; end_offset = 5; text = 98 ∷ 32 ∷ 99 ∷ 100 ∷ [] }
    ∷ record { position = 2; start_offset = 4; end_offset = 8; text = 100 ∷ 10 ∷ 101 ∷ 102 ∷ [] }
    ∷ []

two_lines_run : chunk_text_with_overlap two_lines 4 1 ≡ ok two_lines_chunks
unfolding chunk_text_with_overlap replace_cr replace_crlf is_space
two_lines_run = refl

blank_run : chunk_text_with_overlap (32 ∷ 13 ∷ 10 ∷ []) 2000 200 ≡ ok []
unfolding chunk_text_with_overlap replace_cr replace_crlf is_space
blank_run = refl

chunk_text_with_overlap-returns_example :
    ((chunks : List KnowledgeChunkSlice) × (chunk_text_with_overlap two_lines 4 1 ≡ ok chunks))
    ↔ ((1 ≤ 4) × (1 < 4))
chunk_text_with_overlap-returns_example = chunk_text_with_overlap-returns two_lines 4 1

chunk_text_with_overlap-IsChunk_example :
    All (IsChunk (normalize_text two_lines) 4) two_lines_chunks × InOrder 1 0 0 0 two_lines_chunks
chunk_text_with_overlap-IsChunk_example =
    chunk_text_with_overlap-IsChunk two_lines 4 1 two_lines_chunks two_lines_run

visible-covered_example : covers two_lines_chunks 6 ≡ true
unfolding normalize_text strip replace_cr replace_crlf is_space
visible-covered_example =
    visible-covered two_lines 4 1 two_lines_chunks 6 101 two_lines_run refl refl
