-- ===== src/Proxy/Tests.antt =====
-- Runs of the rule set and of the choice of a rule on concrete rules.
use habitat_new.Prelude.{
  Str, str, str_eq, cut_prefix, none, some, [], ◌∷◌, In, true, ◌↔◌, ◌≢◌, inl, inr, sym, ◌≡◌, refl,
  ok, false,
}
use habitat_new.Prelude.Dict.{find, values}
use habitat_new.Proxy.Defs.{
  Rule, RuleSet, ParseUrl, redirect, embedded_frontend, best_match, match_rule, add_rule, remove,
  is_supported, serve_http, status,
}
use habitat_new.Proxy.Answers.{LacksHandler, serve_http-status}
use habitat_new.Proxy.Match.{Under, match_rule_iff}
use habitat_new.Proxy.Best.{IsBest, best_match-IsBest}
use habitat_new.Proxy.Rules.{IsValid, add_rule-keeps, remove-add_rule}

abbrev api : Rule
api = record {
  id = str "1";
  type = redirect;
  matcher = str "/api";
  target = str "http://h:1/";
  app_id = str "a";
}

abbrev users : Rule
users = record {
  id = str "2";
  type = embedded_frontend;
  matcher = str "/api/users";
  target = [];
  app_id = str "b";
}

abbrev rules : RuleSet
rules = (str "1", api) ∷ (str "2", users) ∷ []

-- No target parses.
abbrev no_url : ParseUrl
no_url t = none

-- The deeper rule wins, whatever its place in the map.
deepest : best_match (str "/api/users/7") rules ≡ some users
unfolding best_match str_eq cut_prefix
deepest = refl

-- A rule for "/api" takes no path that only begins with these letters.
other_segment : best_match (str "/apiary") rules ≡ none
unfolding best_match str_eq cut_prefix
other_segment = refl

-- A matcher that ends in a slash takes nothing below it.
trailing_slash : match_rule (str "/app/x") (record api { matcher = str "/app/" }) ≡ false
unfolding match_rule str_eq cut_prefix
trailing_slash = refl

match_rule_iff_example : (match_rule (str "/api/x") api ≡ true) ↔ Under (str "/api") (str "/api/x")
match_rule_iff_example = match_rule_iff (str "/api/x") api

best_match-IsBest_example :
    IsBest (str "/api/users/7") (values rules) (best_match (str "/api/users/7") rules)
best_match-IsBest_example = best_match-IsBest (str "/api/users/7") rules

no_rules-IsValid : IsValid []
unfolding find
no_rules-IsValid = record { at_key = λ k r e. cc }

found : find (str "1") rules ≡ some api
unfolding find str_eq
found = refl

add_rule-keeps_example :
    find (str "1") (add_rule (record users { id = str "1" }) rules).1 ≡ some api
add_rule-keeps_example = add_rule-keeps (record users { id = str "1" }) rules (str "1") api found

taken : (add_rule users ((str "1", api) ∷ [])).0 ≡ ok tt
unfolding add_rule str_eq find
taken = refl

remove-add_rule_example :
    ((remove (str "2") (add_rule users ((str "1", api) ∷ [])).1).0 ≡ ok tt)
    × ((k : Str)
        → find k (remove (str "2") (add_rule users ((str "1", api) ∷ [])).1).1
          ≡ find k ((str "1", api) ∷ []))
remove-add_rule_example = remove-add_rule users ((str "1", api) ∷ []) taken

supported_rules : (r : Rule) → In r (values rules) → is_supported r.type ≡ true
unfolding is_supported str_eq values
supported_rules r (inl e) = rw (sym e) refl
supported_rules r (inr (inl e)) = rw (sym e) refl
supported_rules r (inr (inr x)) = absurd x

serve_http-status_example :
    ((status (serve_http no_url [] rules (str "/api/users/7")) ≡ some 404)
      ↔ ((r : Rule) → In r (values rules) → match_rule (str "/api/users/7") r ≡ false))
    × ((status (serve_http no_url [] rules (str "/api/users/7")) ≡ some 200) ↔ (
        (rule : Rule) × (best_match (str "/api/users/7") rules ≡ some rule)
        × LacksHandler no_url rule))
    × (status (serve_http no_url [] rules (str "/api/users/7")) ≢ some 500)
serve_http-status_example = serve_http-status no_url [] rules (str "/api/users/7") supported_rules

-- The best match has no handler: the text of the error is sent with the status 200.
no_frontend : status (serve_http no_url [] rules (str "/api/users/7")) ≡ some 200
unfolding serve_http status str_eq cut_prefix
no_frontend = refl

-- A rule with an empty matcher takes every path that begins with a slash.
everything :
    status (
      serve_http no_url []
        ((str "2", record users { matcher = [] }) ∷ [])
        (str "/fileserver/nonexistentfile"))
    ≡ some 200
unfolding serve_http status str_eq cut_prefix
everything = refl
