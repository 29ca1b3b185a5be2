-- ===== src/Permissions/Sample.antt =====
-- SQLite's operators on texts for runs: LIKE where the only wildcard is a percent sign at the end.
use habitat_new.Prelude.{
  Str, str, str_eq, ltb, ◌==◌, length, Bool, true, false, ◌&&◌, ◌||◌, [], ◌∷◌, ◌++◌, ◌≡◌, refl,
  arith,
}
use habitat_new.Permissions.Defs.{Sqlite, SqliteLaws}

unfoldable pub like_final : (text pattern : Str) → Bool
like_final [] [] = true
like_final (_ ∷ _) [] = false
like_final [] (c ∷ p) = str_eq (c ∷ p) (str "%")
like_final (a ∷ t) (c ∷ p) = str_eq (c ∷ p) (str "%") || (a == c && like_final t p)

unfoldable pub bytes_follow : Str → Str → Bool
bytes_follow [] _ = false
bytes_follow (_ ∷ _) [] = true
bytes_follow (a ∷ s) (b ∷ t) = ltb b a || (a == b && bytes_follow s t)

abbrev pub sample : Sqlite
sample = record { like = like_final; length = length; follows = bytes_follow }

like_final-prefix : (prefix rest : Str) → like_final (prefix ++ rest) (prefix ++ str "%") ≡ true
unfolding like_final str_eq
like_final-prefix [] [] = refl
like_final-prefix [] (_ ∷ _) = refl
like_final-prefix (a ∷ prefix) rest = ground (arith, like_final-prefix prefix rest)

pub sample_laws : SqliteLaws sample
sample_laws = record { like_prefix = like_final-prefix }
