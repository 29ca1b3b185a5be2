-- ===== src/Proxy/Match.antt =====
-- matchRule: which paths a rule takes.
use mathlib.Core.List.{append-nil}
use habitat_new.Prelude.{
  ℕ, Str, str, str_eq, Bool, false, [], ◌||◌, ◌==◌, sym, ap, subst, ◌∙◌, cut_prefix,
  cut_prefix_sound, cut_prefix-append, has_prefix, true, none, some, ◌∷◌, ◌++◌, ◌≡◌, refl, ◌⊎◌, inl,
  inr, ◌↔◌, arith, Option-cases,
}
use habitat_new.Proxy.Defs.{Rule, match_rule}

-- The path is the matcher, or goes on from it with a slash.
abbrev pub Under : Str → Str → Type 0
Under matcher path = (path ≡ matcher) ⊎ ((rest : Str) × (path ≡ matcher ++ b'/' ∷ rest))

-- The test on what is left of the path: nothing, or a slash and more.
ends_segment : Str → Bool
ends_segment [] = true
ends_segment (c ∷ _) = c == b'/'

rest-ends_segment : (rest : Str) → (str_eq rest [] || has_prefix rest (str "/")) ≡ ends_segment rest
unfolding ends_segment has_prefix str_eq cut_prefix
rest-ends_segment [] = refl
rest-ends_segment (c ∷ []) = ground arith
rest-ends_segment (c ∷ d ∷ rest) = ground arith

match_rule-cut_prefix :
    (path : Str) (rule : Rule) {rest : Str}
    → cut_prefix path rule.matcher ≡ some rest
    → match_rule path rule ≡ ends_segment rest
unfolding match_rule
match_rule-cut_prefix path rule {rest} e = ground (arith, rest-ends_segment rest)

match_rule-no_prefix :
    (path : Str) (rule : Rule) → cut_prefix path rule.matcher ≡ none → match_rule path rule ≡ false
unfolding match_rule
match_rule-no_prefix path rule e = ground arith

Under-ends_segment :
    (matcher rest : Str) → ends_segment rest ≡ true → Under matcher (matcher ++ rest)
unfolding ends_segment
Under-ends_segment matcher [] h = inl (append-nil matcher)
Under-ends_segment matcher (c ∷ rest) h =
    let e : c ≡ b'/' = ground arith in inr (rest, ap (λ (x : ℕ). matcher ++ x ∷ rest) e)

match_rule_sound :
    (path : Str) (rule : Rule) → match_rule path rule ≡ true → Under rule.matcher path
match_rule_sound path rule h = elim (Option-cases (cut_prefix path rule.matcher)) [
  | inl no_prefix ↦ cc (match_rule-no_prefix path rule no_prefix)
  | inr (rest, e) ↦
      subst (Under rule.matcher) (sym (cut_prefix_sound path rule.matcher rest e))
        (Under-ends_segment rule.matcher rest (sym (match_rule-cut_prefix path rule e) ∙ h))
]

match_rule_complete :
    (path : Str) (rule : Rule) → Under rule.matcher path → match_rule path rule ≡ true
unfolding ends_segment
match_rule_complete path rule (inl e) = match_rule-cut_prefix path rule (
    ap (λ (p : Str). cut_prefix p rule.matcher) (e ∙ sym (append-nil rule.matcher))
    ∙ cut_prefix-append rule.matcher [])
match_rule_complete path rule (inr (rest, e)) =
    match_rule-cut_prefix path rule
      (ap (λ (p : Str). cut_prefix p rule.matcher) e ∙ cut_prefix-append rule.matcher (b'/' ∷ rest))

-- A rule matches exactly the paths that are its matcher, or its matcher followed by a slash and
-- any rest: a path that only shares the first letters of a segment is not matched.
pub match_rule_iff :
    (path : Str) (rule : Rule) → (match_rule path rule ≡ true) ↔ Under rule.matcher path
match_rule_iff path rule = (match_rule_sound path rule, match_rule_complete path rule)
