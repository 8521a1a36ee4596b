-- ===== src/Index/Tests.antt =====
-- Runs of the chunker and of the groupings at concrete inputs.
use semcast.Base.{
  ℕ, ◌+◌, ◌-◌, ◌≤◌, ◌<◌, ◌≡◌, ◌≢◌, ◌^◌, ◌⊎◌, refl, some, List, [], ◌∷◌, map, length, All, arith,
  true, min, ltb, leb, ◌*◌, ◌/◌,
}
use Prim.Native.Nat.{gt, compare}
use semcast.Base.Float.{whole}
use semcast.Base.Text.{Chars, codes, split_whitespace, split_from, is_whitespace, join}
use semcast.Index.Chunk.{ChunkConfig, words_per_chunk, overlap_words, space, chunk_text}
use semcast.Index.Chunk.Windows.{Windows, chunk_text-Windows}
use semcast.Index.Chunk.Stitch.{stitch, Overlaps, chunk_text_lossless}
use semcast.Index.Dedupe.{greedy_groups, group_from, best, max_by, max_from, scored, similarity}
use semcast.Index.Dedupe.Greedy.{score, is_close}
use semcast.Index.Dedupe.Groups.{
  Survives, greedy_groups_total, greedy_groups-Survives, greedy_groups_nearest,
}
use semcast.Index.Kmeans.{Floats, Clustering, kmeans}
use semcast.Index.Kmeans.Assigned.{kmeans_in_range}

abbrev text : Chars
text = codes "a b  c d"

-- Two words a chunk and one of overlap.
abbrev narrow : ChunkConfig
narrow = record { max_tokens = 3; overlap_tokens = 2 }

text_words : length (split_whitespace text) < 2 ^ 63
unfolding split_whitespace split_from is_whitespace
text_words = omega arith

chunk_text-Windows_example :
    (ws : List (List Chars)) × (chunk_text text narrow ≡ some (map (join space) ws))
    × Windows
        (words_per_chunk narrow)
        (words_per_chunk narrow - overlap_words narrow)
        (split_whitespace text)
        ws
chunk_text-Windows_example = chunk_text-Windows text narrow text_words

chunk_text_lossless_example :
    (chunks : List Chars) × (chunk_text text narrow ≡ some chunks)
    × (let parts = map split_whitespace chunks in
        let stride = words_per_chunk narrow - overlap_words narrow in
        (stitch stride parts ≡ split_whitespace text)
        × Overlaps (overlap_words narrow) stride parts
        × All (λ w. (1 ≤ length w) × (length w ≤ words_per_chunk narrow)) parts)
chunk_text_lossless_example = chunk_text_lossless text narrow text_words

-- Whole numbers in place of floats: the first and the last point are close.
abbrev points : List (List ℕ)
points = (1 ∷ 0 ∷ []) ∷ (0 ∷ 1 ∷ []) ∷ (1 ∷ 0 ∷ []) ∷ []

abbrev first : ℕ
first = 0

abbrev third : ℕ
third = 2

abbrev groups : List ℕ
groups = 0 ∷ 1 ∷ 0 ∷ []

points-groups : greedy_groups whole points 1 ≡ some groups
unfolding greedy_groups group_from best max_by max_from scored similarity
points-groups = refl

greedy_groups_total_example :
    (gs : List ℕ) × (greedy_groups whole points 1 ≡ some gs) × (length gs ≡ length points)
greedy_groups_total_example = greedy_groups_total whole points 1

greedy_groups-Survives_example :
    (first ≤ third)
    × Survives whole points 1 groups first
    × ((first ≡ third) ⊎ (is_close whole points 1 third first ≡ true))
greedy_groups-Survives_example =
    greedy_groups-Survives whole points 1 groups points-groups third first refl

third_close : is_close whole points 1 third first ≡ true
unfolding similarity
third_close = refl

greedy_groups_nearest_example :
    (first ≢ third) × (compare (score whole points 1 2 0) (score whole points 1 2 0) ≢ gt)
greedy_groups_nearest_example =
    greedy_groups_nearest whole points 1 groups points-groups third first refl first (omega arith)
      refl third_close

abbrev total : List ℕ → ℕ
total [] = 0
total (x ∷ xs) = x + total xs

-- Whole numbers in place of both kinds of floats.
abbrev numbers : Floats
numbers = record {
  F = ℕ;
  R = ℕ;
  zero32 = 0;
  infinity = 1000000;
  add = ◌+◌;
  sub = λ a b. (a - b) + (b - a);
  mul = ◌*◌;
  div = ◌/◌;
  sum = total;
  is_lt = ltb;
  of_usize = λ n. n;
  to_f64 = λ n. n;
  zero64 = 0;
  infinity64 = 1000000;
  min64 = min;
  sum64 = total;
  sub64 = ◌-◌;
  mul64 = ◌*◌;
  is_le64 = leb;
  unit_of = λ n. 1;
}

kmeans_in_range_example :
    (c : Clustering) × (kmeans numbers points 2 ≡ some c)
    × (length c.assignments ≡ length points)
    × All (λ a. a < c.k) c.assignments
    × (0 < c.k)
    × (c.k ≤ length points)
kmeans_in_range_example = kmeans_in_range numbers points 2 (omega arith)

abbrev two_clusters : Clustering
two_clusters = record { assignments = 0 ∷ 1 ∷ 0 ∷ []; k = 2 }
