-- ===== src/Prelude/Strings.antt =====
-- Go strings as byte lists, with the functions of package strings that the program calls.
use Prim.Native.Nat.{ℕ, suc}
use Prim.Native.Char.{code}
use Prim.Native.String.{String}
use mathlib.Core.Path.{◌≡◌, refl}
use mathlib.Core.Logic.{◌↔◌, ◌≢◌}
use mathlib.Core.Bool.{Bool, true, false, ◌&&◌}
use mathlib.Core.Option.{Option, none, some}
use mathlib.Core.List.{List, [], ◌∷◌, ◌++◌}
use native.Mathlib.Omega.{arith}
use habitat_new.Prelude.Tests.{◌==◌, if◌then◌else◌}

abbrev pub Str : Type 0
Str = List ℕ

-- The bytes of an ASCII literal.
abbrev pub str : String → Str
str String.[] = []
str (String.◌∷◌ c s) = code c ∷ str s

-- `a == b` on strings.
unfoldable pub str_eq : Str → Str → Bool
str_eq [] [] = true
str_eq [] (_ ∷ _) = false
str_eq (_ ∷ _) [] = false
str_eq (a ∷ s) (b ∷ t) = a == b && str_eq s t

str_eq_sound : (s t : Str) → str_eq s t ≡ true → s ≡ t
unfolding str_eq
str_eq_sound [] [] h = refl
str_eq_sound [] (b ∷ t) h = cc
str_eq_sound (a ∷ s) [] h = cc
str_eq_sound (a ∷ s) (b ∷ t) h = ground (arith, str_eq_sound s t)

pub str_eq_refl : (s : Str) → str_eq s s ≡ true
unfolding str_eq
str_eq_refl [] = refl
str_eq_refl (a ∷ s) = ground (arith, str_eq_refl s)

pub str_eq_iff : (s t : Str) → (str_eq s t ≡ true) ↔ (s ≡ t)
str_eq_iff s t = (str_eq_sound s t, λ e. rw e (str_eq_refl t))

pub str_eq_apart : (s t : Str) → str_eq s t ≡ false → s ≢ t
str_eq_apart s t differ e = ground (arith, differ, str_eq_iff s t)

-- strings.TrimPrefix where the prefix is there, none where it is not.
unfoldable pub cut_prefix : Str → Str → Option Str
cut_prefix s [] = some s
cut_prefix [] (_ ∷ _) = none
cut_prefix (a ∷ s) (b ∷ t) = if a == b then cut_prefix s t else none

-- strings.HasPrefix(s, prefix)
unfoldable pub has_prefix : Str → Str → Bool
unfolding cut_prefix
has_prefix s prefix = elim (cut_prefix s prefix) [ none ↦ false | some _ ↦ true ]

-- strings.TrimPrefix(s, prefix)
unfoldable pub trim_prefix : Str → Str → Str
unfolding cut_prefix
trim_prefix s prefix = elim (cut_prefix s prefix) [ none ↦ s | some rest ↦ rest ]

pub cut_prefix-append : (t s : Str) → cut_prefix (t ++ s) t ≡ some s
unfolding cut_prefix
cut_prefix-append [] [] = refl
cut_prefix-append [] (_ ∷ _) = refl
cut_prefix-append (a ∷ t) s = ground (arith, cut_prefix-append t s)

pub cut_prefix_sound : (s t r : Str) → cut_prefix s t ≡ some r → s ≡ t ++ r
unfolding cut_prefix
cut_prefix_sound [] [] r h = ground arith
cut_prefix_sound (a ∷ s) [] r h = ground arith
cut_prefix_sound [] (b ∷ t) r h = cc
cut_prefix_sound (a ∷ s) (b ∷ t) r h = ground (arith, cut_prefix_sound s t r)

-- strings.Count(s, sep) for a one-byte sep.
unfoldable pub count_byte : ℕ → Str → ℕ
count_byte c [] = 0
count_byte c (a ∷ s) = if a == c then suc (count_byte c s) else count_byte c s

-- strings.Split(s, sep) for a one-byte sep, as the first part and the others.
unfoldable pub split_first : ℕ → Str → Str × List Str
split_first c [] = ([], [])
split_first c (a ∷ s) =
    let (part, parts) = split_first c s in if a == c then ([], part ∷ parts) else (a ∷ part, parts)

unfoldable pub split : ℕ → Str → List Str
unfolding split_first
split c s = let (part, parts) = split_first c s in part ∷ parts
