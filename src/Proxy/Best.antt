-- ===== src/Proxy/Best.antt =====
-- ServeHTTP: the rule that serves a request is a matching one of the highest rank.
use habitat_new.Prelude.{
  ℕ, suc, ◌≤◌, Str, true, false, Option, none, some, List, [], ◌∷◌, In, ◌≡◌, refl, sym, subst, ap,
  ◌∙◌, ◌⊎◌, inl, inr, arith, Bool-cases,
}
use habitat_new.Prelude.Dict.{values}
use habitat_new.Proxy.Defs.{
  Rule, RuleSet, Best, consider, best_from, best_match, match_rule, rank_match,
}

-- Zero for nil, else one more than the rank: what highestRank is, plus one.
abbrev score : Best → ℕ
score none = 0
score (some (_, k)) = suc k

consider-grows :
    (path : Str) (best : Best) (rule : Rule) → score best ≤ score (consider path best rule)
unfolding consider
consider-grows path none rule = ground arith
consider-grows path (some (r, k)) rule = ground arith

consider-covers :
    (path : Str) (best : Best) (rule : Rule)
    → match_rule path rule ≡ true
    → suc (rank_match rule) ≤ score (consider path best rule)
unfolding consider
consider-covers path none rule h = ground arith
consider-covers path (some (r, k)) rule h = ground arith

best_from-grows :
    (path : Str) (best : Best) (rs : RuleSet) → score best ≤ score (best_from path best rs)
unfolding best_from
best_from-grows path best [] = omega arith
best_from-grows path best ((_, rule) ∷ rs) =
    omega (arith, consider-grows path best rule, best_from-grows path (consider path best rule) rs)

best_from-covers :
    (path : Str) (best : Best) (rs : RuleSet) (r : Rule)
    → In r (values rs)
    → match_rule path r ≡ true
    → suc (rank_match r) ≤ score (best_from path best rs)
unfolding best_from values
best_from-covers path best [] r h m = absurd h
best_from-covers path best ((_, rule) ∷ rs) r (inl e) m =
    let m' : match_rule path rule ≡ true = ap (match_rule path) e ∙ m in
    let same : rank_match rule ≡ rank_match r = ap rank_match e in
    omega (
      arith,
      same,
      consider-covers path best rule m',
      best_from-grows path (consider path best rule) rs,
    )
best_from-covers path best ((_, rule) ∷ rs) r (inr h) m =
    best_from-covers path (consider path best rule) rs r h m

-- A candidate is a rule that matches, with its rank.
abbrev IsCandidate : Str → Best → Type 0
IsCandidate path none = Unit
IsCandidate path (some (r, k)) = (match_rule path r ≡ true) × (rank_match r ≡ k)

-- What the loop ends with stood there before, or comes from the rules.
abbrev ComesFrom : Best → List Rule → Best → Type 0
ComesFrom start rules none = Unit
ComesFrom start rules (some (r, k)) = (start ≡ some (r, k)) ⊎ In r rules

consider-IsCandidate :
    (path : Str) (best : Best) (rule : Rule)
    → IsCandidate path best
    → IsCandidate path (consider path best rule)
unfolding consider
consider-IsCandidate path none rule h = ground arith
consider-IsCandidate path (some (r, k)) rule h = ground arith

best_from-IsCandidate :
    (path : Str) (best : Best) (rs : RuleSet)
    → IsCandidate path best
    → IsCandidate path (best_from path best rs)
unfolding best_from
best_from-IsCandidate path best [] h = h
best_from-IsCandidate path best ((_, rule) ∷ rs) h =
    best_from-IsCandidate path (consider path best rule) rs (consider-IsCandidate path best rule h)

consider-ComesFrom :
    (path : Str) (best : Best) (rule : Rule) → ComesFrom best (rule ∷ []) (consider path best rule)
unfolding consider
consider-ComesFrom path none rule = ground arith
consider-ComesFrom path (some (r, k)) rule = ground arith

ComesFrom-trans :
    (start mid end : Best) (rule : Rule) (rules : List Rule)
    → ComesFrom start (rule ∷ []) mid
    → ComesFrom mid rules end
    → ComesFrom start (rule ∷ rules) end
ComesFrom-trans start mid none rule rules h k = tt
ComesFrom-trans start none (some b) rule rules h (inl e) = cc
ComesFrom-trans start (some a) (some b) rule rules h (inl e) = ground arith
ComesFrom-trans start mid (some b) rule rules h (inr i) = inr (inr i)

best_from-ComesFrom :
    (path : Str) (best : Best) (rs : RuleSet) → ComesFrom best (values rs) (best_from path best rs)
unfolding best_from values
best_from-ComesFrom path none [] = tt
best_from-ComesFrom path (some b) [] = inl refl
best_from-ComesFrom path best ((_, rule) ∷ rs) =
    ComesFrom-trans best (consider path best rule) _ rule (values rs)
      (consider-ComesFrom path best rule) (best_from-ComesFrom path (consider path best rule) rs)

-- The best rule for a path: it is one of the rules, it matches, and no rule that matches has a
-- higher rank. There is none where no rule matches.
abbrev pub IsBest : Str → List Rule → Option Rule → Type 0
IsBest path rules none = (r : Rule) → In r rules → match_rule path r ≡ false
IsBest path rules (some r) =
    In r rules
    × (match_rule path r ≡ true)
    × ((r' : Rule) → In r' rules → match_rule path r' ≡ true → rank_match r' ≤ rank_match r)

chosen : Best → Option Rule
chosen none = none
chosen (some (r, _)) = some r

IsBest-chosen :
    (path : Str) (rules : List Rule) (best : Best)
    → IsCandidate path best
    → ComesFrom none rules best
    → ((r : Rule) → In r rules → match_rule path r ≡ true → suc (rank_match r) ≤ score best)
    → IsBest path rules (chosen best)
unfolding chosen
IsBest-chosen path rules none cand comes covers = λ r i. elim (Bool-cases (match_rule path r)) [
  | inl m ↦ absurd (omega (arith, covers r i m))
  | inr m ↦ m
]
IsBest-chosen path rules (some (r, k)) (m, e) (inl never) covers = cc
IsBest-chosen path rules (some (r, k)) (m, e) (inr i) covers =
    (i, m, λ r' i' m'. omega (arith, covers r' i' m'))

best_match-chosen :
    (path : Str) (rs : RuleSet) → best_match path rs ≡ chosen (best_from path none rs)
unfolding best_match chosen
best_match-chosen path rs = ground arith

-- For every path and rule set, the rule that ServeHTTP picks is one of the set, it matches the
-- path, and no matching rule has more slashes; no rule is picked exactly where none matches.
pub best_match-IsBest : (path : Str) (rs : RuleSet) → IsBest path (values rs) (best_match path rs)
best_match-IsBest path rs = subst (IsBest path (values rs)) (sym (best_match-chosen path rs)) (
    IsBest-chosen path (values rs) (best_from path none rs) (best_from-IsCandidate path none rs tt)
      (best_from-ComesFrom path none rs) (best_from-covers path none rs))
