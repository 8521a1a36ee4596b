-- ===== src/Sql.antt =====
-- src/sql/: the statements that are the program's own. The tokenizer is sqlparser's; the parser's
-- state is the list of the tokens that are left without blanks, of which `next_token` takes the first,
-- or reports the end.
pub mod Ddl
mod Tests
use semcast.Base.{ℕ, Bool, true, false, List, [], ◌∷◌}
use semcast.Base.Text.{Chars, to_lowercase}
use semcast.Base.Assoc.{chars_beq}

-- What the program distinguishes of sqlparser's tokens; `other` is any token else, as displayed.
pub data Token : Type 0 where
  word : Chars → Token
  single_quoted : Chars → Token
  double_quoted : Chars → Token
  comma : Token
  l_paren : Token
  r_paren : Token
  l_bracket : Token
  r_bracket : Token
  semi_colon : Token
  eof : Token
  other : Chars → Token

abbrev pub Tokens : Type 0
Tokens = List Token

abbrev pub peek_token : Tokens → Token
peek_token [] = eof
peek_token (t ∷ ts) = t

abbrev pub next_token : Tokens → Token × Tokens
next_token [] = (eof, [])
next_token (t ∷ ts) = (t, ts)

abbrev pub eq_ignore_ascii_case : Chars → Chars → Bool
eq_ignore_ascii_case a b = chars_beq (to_lowercase a) (to_lowercase b)

abbrev pub is_word : Chars → Token → Bool
is_word expected (word value) = eq_ignore_ascii_case value expected
is_word expected _ = false

-- Whether the next token is the keyword.
unfoldable pub peek_word : Tokens → Chars → Bool
peek_word ts keyword = is_word keyword (peek_token ts)
