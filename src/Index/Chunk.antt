-- ===== src/Index/Chunk.antt =====
-- src/index/chunk.rs: a document is cut into sliding word windows. `none` stands for the panic of
-- an out-of-range slice and for fuel that ran out; `Chunk/Windows` shows that neither occurs.
pub mod Windows
pub mod Stitch
use semcast.Base.{
  ℕ, zero, suc, ◌+◌, ◌-◌, ◌*◌, ◌/◌, min, max, Option, none, some, List, [], ◌∷◌, ◌++◌, leb, ◌==◌,
  if◌then◌else◌, usize, length, take, drop, is_empty,
}
use semcast.Base.Text.{Chars, split_whitespace, join}

pub record ChunkConfig : Type 0 where
  pub max_tokens : ℕ
  pub overlap_tokens : ℕ

abbrev pub default_config : ChunkConfig
default_config = record { max_tokens = 512; overlap_tokens = 64 }

unfoldable pub words_per_chunk : ChunkConfig → ℕ
words_per_chunk c = max (usize (c.max_tokens * 3) / 4) 1

unfoldable pub overlap_words : ChunkConfig → ℕ
overlap_words c = min (usize (c.overlap_tokens * 3) / 4) (words_per_chunk c - 1)

abbrev pub space : Chars
space = 32 ∷ []

-- `words[start..end]`, which panics unless `start <= end <= words.len()`.
unfoldable pub slice : List Chars → ℕ → ℕ → Option (List Chars)
slice words start end =
    if leb start end
    then (if leb end (length words) then some (take (end - start) (drop start words)) else none)
    else none

-- The `loop` of `chunk_text`.
chunk_loop : ℕ → List Chars → ℕ → ℕ → ℕ → List Chars → Option (List Chars)
chunk_loop zero words window stride start chunks = none
chunk_loop (suc fuel) words window stride start chunks =
    let end = min (usize (start + window)) (length words) in
    elim (slice words start end) [
      | none ↦ none
      | some part ↦
          let pushed = chunks ++ join space part ∷ [] in
          let rest = chunk_loop fuel words window stride (usize (start + stride)) pushed in
          if end == length words then some pushed else rest
    ]

-- What `chunk_text` does with the words. Each round moves on by a word at least, so as many rounds
-- as words are enough.
chunk_words : List Chars → ℕ → ℕ → Option (List Chars)
unfolding chunk_loop slice
chunk_words words window stride =
    if is_empty words then some [] else chunk_loop (length words) words window stride 0 []

unfoldable pub chunk_text : Chars → ChunkConfig → Option (List Chars)
unfolding chunk_words
chunk_text text config =
    let window = words_per_chunk config in
    chunk_words (split_whitespace text) window (window - overlap_words config)
