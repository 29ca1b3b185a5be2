-- ===== src/Proxy/Rules.antt =====
-- The rule set under AddRule and Remove.
use habitat_new.Prelude.{Str, str_eq_iff, str_eq_refl, true, some, ◌≡◌, arith, ok}
use habitat_new.Prelude.Dict.{find, insert, find-insert, find-erase}
use habitat_new.Proxy.Defs.{Rule, RuleSet, add_rule, remove, is_supported}

-- Every rule stands under its own ID, and has a type that AddRule takes.
pub record IsValid (rs : RuleSet) : Type 0 where
  pub at_key : (k : Str) (r : Rule) → find k rs ≡ some r → (r.id ≡ k) × (is_supported r.type ≡ true)

-- AddRule keeps the rule set valid, whether it takes the rule or not.
pub add_rule-IsValid : (rule : Rule) (rs : RuleSet) → IsValid rs → IsValid (add_rule rule rs).1
unfolding add_rule
add_rule-IsValid rule rs v = record {
  at_key =
      λ k r e. ground (arith, v.at_key k r, find-insert rule.id k rule rs, str_eq_iff rule.id k, e);
}

-- Remove keeps the rule set valid.
pub remove-IsValid : (name : Str) (rs : RuleSet) → IsValid rs → IsValid (remove name rs).1
unfolding remove
remove-IsValid name rs v = record {
  at_key = λ k r e. ground (arith, v.at_key k r, find-erase name k rs, e);
}

-- AddRule never replaces a rule: what the set holds under an ID it holds afterwards.
pub add_rule-keeps :
    (rule : Rule) (rs : RuleSet) (k : Str) (r : Rule)
    → find k rs ≡ some r
    → find k (add_rule rule rs).1 ≡ some r
unfolding add_rule
add_rule-keeps rule rs k r e = ground (arith, find-insert rule.id k rule rs, str_eq_iff rule.id k)

-- After AddRule has taken a rule, Remove of its ID succeeds and gives back, under every ID, what
-- the set held before.
pub remove-add_rule :
    (rule : Rule) (rs : RuleSet)
    → (add_rule rule rs).0 ≡ ok tt
    → ((remove rule.id (add_rule rule rs).1).0 ≡ ok tt)
      × ((k : Str) → find k (remove rule.id (add_rule rule rs).1).1 ≡ find k rs)
unfolding remove add_rule
remove-add_rule rule rs h = (
  ground (arith, find-insert rule.id rule.id rule rs, str_eq_refl rule.id),
  λ k. ground (
    arith,
    find-insert rule.id rule.id rule rs,
    str_eq_refl rule.id,
    find-insert rule.id k rule rs,
    find-erase rule.id k (insert rule.id rule rs),
    str_eq_iff rule.id k,
  ),
)
