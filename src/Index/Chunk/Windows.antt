-- ===== src/Index/Chunk/Windows.antt =====
-- The loop of `chunk_text` produces exactly the sliding windows over the words.
use semcast.Base.{
  ℕ, zero, suc, ◌+◌, ◌-◌, ◌≤◌, ◌<◌, ◌≡◌, refl, ◌∙◌, ap, some, List, [], ◌∷◌, ◌++◌, map, arith, ◌^◌,
  ◌%◌, min, length, take, drop, length-drop, drop-drop, take_of_length-le,
}
use native.Mathlib.Decide.{dec_le}
use mathlib.Core.List.{append_assoc}
use semcast.Base.Text.{Chars, split_whitespace, join}
use semcast.Index.Chunk.{
  ChunkConfig, words_per_chunk, overlap_words, space, slice, chunk_loop, chunk_words, chunk_text,
}

-- The windows of a list: `window` entries each, the next one `stride` further on, until one holds
-- all that is left.
pub data Sliding (window stride : ℕ) : List Chars → List (List Chars) → Type 0 where
  last : (ws : List Chars) → 0 < length ws → length ws ≤ window → Sliding window stride ws (ws ∷ [])
  more :
      (ws : List Chars) {rest : List (List Chars)}
      → window < length ws
      → Sliding window stride (drop stride ws) rest
      → Sliding window stride ws (take window ws ∷ rest)

-- No window over no words, else the sliding ones.
abbrev pub Windows : ℕ → ℕ → List Chars → List (List Chars) → Type 0
Windows window stride [] ws = ws ≡ []
Windows window stride (w ∷ words) ws = Sliding window stride (w ∷ words) ws

pub config_bounds :
    (c : ChunkConfig) → (overlap_words c < words_per_chunk c) × (words_per_chunk c < 2 ^ 62)
unfolding overlap_words words_per_chunk
config_bounds c = omega arith

slice-some :
    (words : List Chars) (a b : ℕ)
    → a ≤ b
    → b ≤ length words
    → slice words a b ≡ some (take (b - a) (drop a words))
unfolding slice
slice-some words a b h k = ground arith

module _ (words : List Chars) (window stride : ℕ) (small : window < 2 ^ 62) where
  module _ (few : length words < 2 ^ 63) (fuel start : ℕ) (chunks : List Chars) where
    chunk_loop-last :
        start < length words
        → length words ≤ start + window
        → chunk_loop (suc fuel) words window stride start chunks
          ≡ some (chunks ++ join space (drop start words) ∷ [])
    unfolding chunk_loop
    chunk_loop-last s h =
        let e : min ((start + window) % 2 ^ 64) (length words) ≡ length words = omega arith in
        let all =
          take_of_length-le (drop start words) (length words - start)
            (omega (arith, length-drop start words)) in
        rw (e, chunk_loop, slice-some words start (length words) (omega arith) (omega arith), all)
          (ground arith)

    chunk_loop-more :
        start + window < length words
        → stride ≤ window
        → chunk_loop (suc fuel) words window stride start chunks
          ≡ chunk_loop fuel words window stride
              (start + stride)
              (chunks ++ join space (take window (drop start words)) ∷ [])
    unfolding chunk_loop
    chunk_loop-more h q =
        let e : min ((start + window) % 2 ^ 64) (length words) ≡ start + window = omega arith in
        let next : (start + stride) % 2 ^ 64 ≡ start + stride = omega arith in
        let width : start + window - start ≡ window = omega arith in
        rw
          (
            e,
            chunk_loop,
            slice-some words start (start + window) (omega arith) (omega arith),
            width,
            next,
          )
          (ground arith)

  chunk_loop-Sliding :
      length words < 2 ^ 63
      → 0 < stride
      → stride ≤ window
      → (fuel start : ℕ) (chunks : List Chars) → start < length words
      → length words ≤ start + fuel
      → (ws : List (List Chars)) × Sliding window stride (drop start words) ws
        × (chunk_loop fuel words window stride start chunks ≡ some (chunks ++ map (join space) ws))
  chunk_loop-Sliding few p q zero start chunks s f = absurd (omega arith)
  chunk_loop-Sliding few p q (suc fuel) start chunks s f =
      elim (dec_le (length words) (start + window)) [
        | yes h ↦ (
          drop start words ∷ [],
          last (drop start words) (omega (arith, length-drop start words))
              (omega (arith, length-drop start words)),
          chunk_loop-last few fuel start chunks s h,
        )
        | no h ↦
            let part : Chars = join space (take window (drop start words)) in
            let (ws, sliding, run) =
              chunk_loop-Sliding few p q fuel (start + stride) (chunks ++ part ∷ []) (omega arith)
                (omega arith) in
            (
              take window (drop start words) ∷ ws,
              more (drop start words) (omega (arith, length-drop start words))
                  (rw (drop-drop stride start words) sliding),
              chunk_loop-more few fuel start chunks (omega arith) q
                  ∙ (run ∙ ap some (append_assoc chunks (part ∷ []) (map (join space) ws))),
            )
      ]

chunk_words-Windows :
    (words : List Chars) (window stride : ℕ)
    → length words < 2 ^ 63
    → window < 2 ^ 62
    → 0 < stride
    → stride ≤ window
    → (ws : List (List Chars)) × (chunk_words words window stride ≡ some (map (join space) ws))
      × Windows window stride words ws
unfolding chunk_words
chunk_words-Windows [] window stride few small p q = ([], refl, refl)
chunk_words-Windows (w ∷ words) window stride few small p q =
    let (ws, sliding, run) =
      chunk_loop-Sliding (w ∷ words) window stride small few p q (length (w ∷ words)) 0 []
        (omega arith) (omega arith) in
    (ws, run, sliding)

-- Chunking always returns, and its chunks are the sliding windows over the text's words, each
-- joined by single spaces; a text with no word yields no chunk. A window is `words_per_chunk` wide,
-- and the next one starts `words_per_chunk - overlap_words` further on. The text has fewer than
-- 2^63 words, as any text in memory has.
pub chunk_text-Windows :
    (text : Chars) (config : ChunkConfig)
    → length (split_whitespace text) < 2 ^ 63
    → (ws : List (List Chars)) × (chunk_text text config ≡ some (map (join space) ws))
      × Windows
          (words_per_chunk config)
          (words_per_chunk config - overlap_words config)
          (split_whitespace text)
          ws
unfolding chunk_text
chunk_text-Windows text config few =
    let bounds = config_bounds config in
    chunk_words-Windows (split_whitespace text) (words_per_chunk config) _ few bounds.1
      (omega arith) (omega arith)
