-- ===== src/Server/Jobs/Ids.antt =====
-- The ids that `create` of src/server/jobs/mod.rs mints, which name the job directories.
use semcast.Base.{ℕ, ◌≡◌, sym, ap, ◌∙◌, ◌∷◌, ◌++◌, arith}
use semcast.Base.Decimal.{
  show_nat, show_padded, read_from, read-show_nat, read-show_padded, show_nat-IsDigit, split_digits,
}
use semcast.Server.Jobs.{job_id}

-- The id of a job determines the time and the sequence number it was minted from, however many
-- digits they have, so two jobs share an id only when they share both.
pub job_id_injective : (t n u m : ℕ) → job_id t n ≡ job_id u m → (t ≡ u) × (n ≡ m)
unfolding job_id
job_id_injective t n u m h =
    let rest : show_nat t ++ 95 ∷ show_padded 4 n ≡ show_nat u ++ 95 ∷ show_padded 4 m =
      ground arith in
    let (p, q) =
      split_digits 95 _ _ _ _ (omega arith) (show_nat-IsDigit t) (show_nat-IsDigit u) rest in
    (
      sym (read-show_nat t) ∙ ap (read_from 0) p ∙ read-show_nat u,
      sym (read-show_padded 4 n) ∙ ap (read_from 0) q ∙ read-show_padded 4 m,
    )
