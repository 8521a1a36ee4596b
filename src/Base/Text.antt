-- ===== src/Base/Text.antt =====
-- Text as lists of code points, and what the program uses of the standard library's `str`.
use Prim.Native.Char.{code}
use Prim.Native.String.{String}
use semcast.Base.{
  ℕ, ◌≡◌, refl, ap, sym, ◌∙◌, ◌≢◌, Bool, true, false, ◌||◌, ◌&&◌, List, [], ◌∷◌, ◌++◌, leb, ◌==◌,
  All, Bool-cases, inl, inr, if◌then◌else◌, ◌+◌,
}
use mathlib.Core.List.{append_assoc, append-nil}

abbrev pub Chars : Type 0
Chars = List ℕ

-- The code points of a literal.
abbrev pub codes : String → Chars
codes String.[] = []
codes (String.◌∷◌ c s) = code c ∷ codes s

-- `char::is_whitespace`: Unicode's White_Space.
unfoldable pub is_whitespace : ℕ → Bool
is_whitespace c =
    (leb 9 c && leb c 13)
    || c == 32
    || c == 0x85
    || c == 0xa0
    || c == 0x1680
    || (leb 0x2000 c && leb c 0x200a)
    || c == 0x2028
    || c == 0x2029
    || c == 0x202f
    || c == 0x205f
    || c == 0x3000

abbrev emit : Chars → List Chars → List Chars
emit [] ws = ws
emit (c ∷ w) ws = (c ∷ w) ∷ ws

-- The words of a text, the one being read in `cur`.
unfoldable pub split_from : Chars → Chars → List Chars
split_from cur [] = emit cur []
split_from cur (c ∷ cs) = elim (is_whitespace c) [
  | true ↦ emit cur (split_from [] cs)
  | false ↦ split_from (cur ++ c ∷ []) cs
]

-- `str::split_whitespace`.
unfoldable pub split_whitespace : Chars → List Chars
unfolding split_from
split_whitespace s = split_from [] s

-- `[&str]::join`.
unfoldable pub join : Chars → List Chars → Chars
join sep [] = []
join sep (w ∷ []) = w
join sep (w ∷ v ∷ ws) = w ++ (sep ++ join sep (v ∷ ws))

-- A word: not empty, and with no whitespace.
abbrev pub IsWord : Chars → Type 0
IsWord w = (w ≢ []) × All (λ c. is_whitespace c ≡ false) w

abbrev NoSpace : Chars → Type 0
NoSpace w = All (λ c. is_whitespace c ≡ false) w

NoSpace-snoc : (w : Chars) (c : ℕ) → NoSpace w → is_whitespace c ≡ false → NoSpace (w ++ c ∷ [])
NoSpace-snoc [] c h e = (e, tt)
NoSpace-snoc (x ∷ w) c h e = (h.0, NoSpace-snoc w c h.1 e)

emit-IsWord : (w : Chars) (ws : List Chars) → NoSpace w → All IsWord ws → All IsWord (emit w ws)
emit-IsWord [] ws h hs = hs
emit-IsWord (c ∷ w) ws h hs = ((λ e. cc, h), hs)

split_from-IsWord : (cur s : Chars) → NoSpace cur → All IsWord (split_from cur s)
unfolding split_from
split_from-IsWord cur [] h = emit-IsWord cur [] h tt
split_from-IsWord cur (c ∷ s) h = elim (Bool-cases (is_whitespace c)) [
  | inl e ↦ rw (e, split_from) (emit-IsWord cur (split_from [] s) h (split_from-IsWord [] s tt))
  | inr e ↦ rw (e, split_from) (split_from-IsWord (cur ++ c ∷ []) s (NoSpace-snoc cur c h e))
]

-- Splitting yields words.
pub split_whitespace-IsWord : (s : Chars) → All IsWord (split_whitespace s)
unfolding split_whitespace
split_whitespace-IsWord s = split_from-IsWord [] s tt

split_from-word :
    (cur w rest : Chars) → NoSpace w → split_from cur (w ++ rest) ≡ split_from (cur ++ w) rest
unfolding split_from
split_from-word cur [] rest h = rw append-nil
split_from-word cur (c ∷ w) rest h =
    rw (h.0, split_from) (rw (split_from-word (cur ++ c ∷ []) w rest h.1, append_assoc))

-- Joining words by a space and splitting again gives the words back.
pub split_whitespace-join :
    (ws : List Chars) → All IsWord ws → split_whitespace (join (32 ∷ []) ws) ≡ ws
unfolding split_whitespace split_from join is_whitespace
split_whitespace-join [] h = refl
split_whitespace-join ([] ∷ ws) h = absurd (h.0.0 refl)
split_whitespace-join ((c ∷ w) ∷ []) h =
    ap (split_from []) (sym (append-nil (c ∷ w))) ∙ split_from-word [] (c ∷ w) [] h.0.1
split_whitespace-join ((c ∷ w) ∷ v ∷ ws) h =
    split_from-word [] (c ∷ w) (32 ∷ join (32 ∷ []) (v ∷ ws)) h.0.1
    ∙ ap (◌∷◌ (c ∷ w)) (split_whitespace-join (v ∷ ws) h.1)

abbrev pub trim_start_by : (ℕ → Bool) → Chars → Chars
trim_start_by p [] = []
trim_start_by p (c ∷ cs) = if p c then trim_start_by p cs else c ∷ cs

abbrev pub reverse_onto : Chars → Chars → Chars
reverse_onto acc [] = acc
reverse_onto acc (c ∷ cs) = reverse_onto (c ∷ acc) cs

-- `str::trim_matches`, and `str::trim`.
abbrev pub trim_matches : (ℕ → Bool) → Chars → Chars
trim_matches p cs = reverse_onto [] (trim_start_by p (reverse_onto [] (trim_start_by p cs)))

unfoldable pub trim : Chars → Chars
unfolding is_whitespace
trim cs = trim_matches is_whitespace cs

abbrev pub is_ascii_punctuation : ℕ → Bool
is_ascii_punctuation c =
    (leb 33 c && leb c 47)
    || (leb 58 c && leb c 64)
    || (leb 91 c && leb c 96)
    || (leb 123 c && leb c 126)

abbrev pub to_ascii_lowercase : ℕ → ℕ
to_ascii_lowercase c = if leb 65 c && leb c 90 then c + 32 else c

abbrev pub to_lowercase : Chars → Chars
to_lowercase [] = []
to_lowercase (c ∷ cs) = to_ascii_lowercase c ∷ to_lowercase cs
