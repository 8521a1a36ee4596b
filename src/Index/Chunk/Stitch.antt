-- ===== src/Index/Chunk/Stitch.antt =====
-- What the sliding windows give a reader of the chunks: no word is lost, no chunk is empty or too
-- long, and neighbours share the configured overlap.
use semcast.Base.{
  ℕ, zero, suc, ◌-◌, ◌≤◌, ◌<◌, ◌≡◌, refl, ◌∙◌, ap, sym, subst, some, List, [], ◌∷◌, ◌++◌, map,
  arith, ◌^◌, length, take, drop, All, All-take, All-drop, length-take, take-append-drop,
  take_of_length-le,
}
use semcast.Base.Text.{
  Chars, split_whitespace, join, IsWord, split_whitespace-IsWord, split_whitespace-join,
}
use semcast.Index.Chunk.{ChunkConfig, words_per_chunk, overlap_words, space, chunk_text}
use semcast.Index.Chunk.Windows.{Sliding, last, more, Windows, config_bounds, chunk_text-Windows}

-- The first `stride` words of every window but the last, which counts whole.
abbrev pub stitch : ℕ → List (List Chars) → List Chars
stitch stride [] = []
stitch stride (w ∷ []) = w
stitch stride (w ∷ v ∷ ws) = take stride w ++ stitch stride (v ∷ ws)

-- Each window begins with what its predecessor holds behind the first `stride` words.
abbrev pub Overlaps : ℕ → ℕ → List (List Chars) → Type 0
Overlaps overlap stride [] = Unit
Overlaps overlap stride (w ∷ []) = Unit
Overlaps overlap stride (w ∷ v ∷ ws) =
    (drop stride w ≡ take overlap v) × Overlaps overlap stride (v ∷ ws)

take-take : (m n : ℕ) (xs : List Chars) → m ≤ n → take m (take n xs) ≡ take m xs
take-take zero n xs h = refl
take-take (suc m) zero xs h = absurd (omega arith)
take-take (suc m) (suc n) [] h = refl
take-take (suc m) (suc n) (x ∷ xs) h = ap (◌∷◌ x) (take-take m n xs (omega arith))

drop-take : (m n : ℕ) (xs : List Chars) → m ≤ n → drop m (take n xs) ≡ take (n - m) (drop m xs)
drop-take zero n xs h = let e : n - zero ≡ n = omega arith in rw e
drop-take (suc m) zero xs h = absurd (omega arith)
drop-take (suc m) (suc n) [] h = sym (take_of_length-le [] (suc n - suc m) (omega arith))
drop-take (suc m) (suc n) (x ∷ xs) h =
    let e : suc n - suc m ≡ n - m = omega arith in rw e (drop-take m n xs (omega arith))

module _ (window stride : ℕ) (h : stride ≤ window) where
  Sliding-stitch :
      {words : List Chars} {ws : List (List Chars)}
      → Sliding window stride words ws
      → stitch stride ws ≡ words
  Sliding-stitch (last words p q) = refl
  Sliding-stitch (more words p (last words' q r)) =
      rw (take-take stride window words h) (take-append-drop stride words)
  Sliding-stitch (more words p (more words' q s)) = rw (take-take stride window words h) (
      ap (◌++◌ (take stride words)) (Sliding-stitch (more words' q s))
      ∙ take-append-drop stride words)

  Sliding-Overlaps :
      {words : List Chars} {ws : List (List Chars)}
      → Sliding window stride words ws
      → Overlaps (window - stride) stride ws
  Sliding-Overlaps (last words p q) = tt
  Sliding-Overlaps (more words p (last words' q r)) = (drop-take stride window words h, tt)
  Sliding-Overlaps (more words p (more words' q s)) = (
    drop-take stride window words h
        ∙ sym (take-take (window - stride) window (drop stride words) (omega arith)),
    Sliding-Overlaps (more words' q s),
  )

  Sliding-bounds :
      0 < window
      → {words : List Chars} {ws : List (List Chars)} → Sliding window stride words ws
      → All (λ w. (1 ≤ length w) × (length w ≤ window)) ws
  Sliding-bounds z (last words p q) = ((p, q), tt)
  Sliding-bounds z (more words p s) = (omega (arith, length-take window words), Sliding-bounds z s)

  Sliding-IsWord :
      {words : List Chars} {ws : List (List Chars)}
      → Sliding window stride words ws
      → All IsWord words
      → All (All IsWord) ws
  Sliding-IsWord (last words p q) a = (a, tt)
  Sliding-IsWord (more words p s) a =
      (All-take IsWord window words a, Sliding-IsWord s (All-drop IsWord stride words a))

map-split-join :
    (ws : List (List Chars)) → All (All IsWord) ws → map split_whitespace (map (join space) ws) ≡ ws
map-split-join [] a = refl
map-split-join (w ∷ ws) a = rw (split_whitespace-join w a.0, map-split-join ws a.1)

Windows-laws :
    (window stride : ℕ) (words : List Chars) (ws : List (List Chars))
    → 0 < window
    → stride ≤ window
    → All IsWord words
    → Windows window stride words ws
    → (stitch stride ws ≡ words)
      × Overlaps (window - stride) stride ws
      × All (λ w. (1 ≤ length w) × (length w ≤ window)) ws
      × All (All IsWord) ws
Windows-laws window stride [] ws z h a e = rw e (refl, tt, tt, tt)
Windows-laws window stride (w ∷ words) ws z h a s = (
  Sliding-stitch window stride h s,
  Sliding-Overlaps window stride h s,
  Sliding-bounds window stride h z s,
  Sliding-IsWord window stride h s a,
)

-- Chunking a text of fewer than 2^63 words always returns chunks. With
-- `stride = words_per_chunk - overlap_words`: the first `stride` words of each chunk but the last,
-- and all of the last, make up the text's words in order; what a chunk holds behind its first
-- `stride` words is the first `overlap_words` words of the next chunk (all of it, if shorter); and
-- every chunk has from 1 to `words_per_chunk` words.
pub chunk_text_lossless :
    (text : Chars) (config : ChunkConfig)
    → length (split_whitespace text) < 2 ^ 63
    → (chunks : List Chars) × (chunk_text text config ≡ some chunks)
      × (let parts = map split_whitespace chunks in
          let stride = words_per_chunk config - overlap_words config in
          (stitch stride parts ≡ split_whitespace text)
          × Overlaps (overlap_words config) stride parts
          × All (λ w. (1 ≤ length w) × (length w ≤ words_per_chunk config)) parts)
chunk_text_lossless text config few =
    let bounds = config_bounds config in
    let stride = words_per_chunk config - overlap_words config in
    let (ws, run, sliding) = chunk_text-Windows text config few in
    let (stitched, overlaps, sizes, clean) =
      Windows-laws (words_per_chunk config) stride (split_whitespace text) ws (omega arith)
        (omega arith) (split_whitespace-IsWord text) sliding in
    let e : words_per_chunk config - stride ≡ overlap_words config = omega arith in
    (
      map (join space) ws,
      run,
      rw (map-split-join ws clean) (stitched, subst (λ k. Overlaps k stride ws) e overlaps, sizes),
    )
