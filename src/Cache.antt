-- ===== src/Cache.antt =====
-- src/cache/mod.rs: the verdict cache's keys, and the cache of one process. A lock makes each
-- operation one step; a panic that poisons it is not modelled. The BLAKE3 digest is a parameter of
-- the callers.
pub mod Sqlite
mod Tests
use semcast.Base.{
  ℕ, ◌≡◌, refl, ◌↔◌, ap, Bool, true, ◌&&◌, Option, List, [], ◌∷◌, arith, ◌==◌, ==_iff,
}
use semcast.Base.Text.{Chars}
use semcast.Base.Assoc.{Key, chars_beq, chars_beq_iff, lookup, insert}

pub record CacheKey : Type 0 where
  pub type_version : Chars
  pub field : Chars
  pub input_digest : ℕ
  pub model_id : Chars
  pub prompt_version : Chars

pub data CachedValue : Type 0 where
  value : Chars → CachedValue
  error : Chars → CachedValue

abbrev pub key_beq : CacheKey → CacheKey → Bool
key_beq a b =
    chars_beq a.type_version b.type_version
    && chars_beq a.field b.field
    && a.input_digest == b.input_digest
    && chars_beq a.model_id b.model_id
    && chars_beq a.prompt_version b.prompt_version

mk : Chars → Chars → ℕ → Chars → Chars → CacheKey
mk t f d m p = record {
  type_version = t;
  field = f;
  input_digest = d;
  model_id = m;
  prompt_version = p;
}

mk_ext :
    {t t' f f' m m' p p' : Chars} {d d' : ℕ}
    → t ≡ t'
    → f ≡ f'
    → d ≡ d'
    → m ≡ m'
    → p ≡ p'
    → mk t f d m p ≡ mk t' f' d' m' p'
mk_ext a b c d e = cc

pub key_beq_iff : (a b : CacheKey) → (key_beq a b ≡ true) ↔ (a ≡ b)
unfolding mk
key_beq_iff a b =
    let t = chars_beq_iff a.type_version b.type_version in
    let f = chars_beq_iff a.field b.field in
    let d = ==_iff a.input_digest b.input_digest in
    let m = chars_beq_iff a.model_id b.model_id in
    let p = chars_beq_iff a.prompt_version b.prompt_version in
    (
      λ h.
          mk_ext (t.0 (ground arith)) (f.0 (ground arith)) (d.0 (ground arith)) (m.0 (ground arith))
            (p.0 (ground arith)),
      λ e.
          let q1 = t.1 (ap (λ (x : CacheKey). x.type_version) e) in
          let q2 = f.1 (ap (λ (x : CacheKey). x.field) e) in
          let q3 = d.1 (ap (λ (x : CacheKey). x.input_digest) e) in
          let q4 = m.1 (ap (λ (x : CacheKey). x.model_id) e) in
          let q5 = p.1 (ap (λ (x : CacheKey). x.prompt_version) e) in ground arith,
    )

instance abbrev pub key_eq : Key CacheKey
key_eq = record {
  agree = key_beq;
  accepts = λ k. (key_beq_iff k k).1 refl;
  rejects = λ {k} {j}. (key_beq_iff k j).0;
}

abbrev pub Entries : Type 0
Entries = List (CacheKey × CachedValue)

unfoldable pub get : CacheKey → Entries → Option CachedValue
get key entries = lookup key entries

unfoldable pub put : CacheKey → CachedValue → Entries → Entries
put key v entries = insert key v entries

-- The default `put_many`: one by one.
unfoldable pub put_many : List (CacheKey × CachedValue) → Entries → Entries
unfolding put
put_many [] entries = entries
put_many ((key, v) ∷ rest) entries = put_many rest (put key v entries)
