-- ===== src/Proxy/Answers.antt =====
-- The statuses that ServeHTTP answers itself.
use habitat_new.Prelude.{
  Str, str_eq, str_eq_iff, Bool-cases, Option-cases, true, false, Option, none, some, List, In,
  subst, ◌≡◌, ◌≢◌, ◌⊎◌, inl, inr, refl, ◌↔◌, arith, Result-cases, ok, err,
}
use habitat_new.Prelude.Dict.{values}
use habitat_new.Proxy.Defs.{
  Rule, RuleSet, RuleError, unknown_rule_type, bad_target, is_supported, redirect, file_server,
  embedded_frontend, best_match, serve_http, get_handler_from_rule, get_redirect_handler,
  get_file_server_handler, status, ParseUrl, Handler, match_rule,
}
use habitat_new.Proxy.Best.{IsBest, best_match-IsBest}

-- A rule of a type that AddRule takes, for which there is no handler: one of the embedded frontend,
-- or a redirection to a target that is no URL.
abbrev pub LacksHandler : ParseUrl → Rule → Type 0
LacksHandler parse rule =
    (rule.type ≡ embedded_frontend) ⊎ ((rule.type ≡ redirect) × (parse rule.target ≡ none))

no_best-IsBest :
    (path : Str) (rules : List Rule) (o : Option Rule)
    → IsBest path rules o
    → ((r : Rule) → In r rules → match_rule path r ≡ false)
    → o ≡ none
no_best-IsBest path rules none b h = refl
no_best-IsBest path rules (some r) (i, m, _) h = cc (h r i)

best_match-none_iff :
    (path : Str) (rs : RuleSet)
    → (best_match path rs ≡ none) ↔ ((r : Rule) → In r (values rs) → match_rule path r ≡ false)
best_match-none_iff path rs = (
  λ h. subst (IsBest path (values rs)) h (best_match-IsBest path rs),
  λ h. no_best-IsBest path (values rs) (best_match path rs) (best_match-IsBest path rs) h,
)

module _ (parse : ParseUrl) (base : Str) where
  embedded_handler :
      (rule : Rule)
      → rule.type ≡ embedded_frontend
      → get_handler_from_rule parse rule base ≡ err (unknown_rule_type embedded_frontend)
  unfolding get_handler_from_rule str_eq
  embedded_handler rule t = rw t refl

  no_handler_iff :
      (rule : Rule)
      → is_supported rule.type ≡ true
      → ((e : RuleError) × (get_handler_from_rule parse rule base ≡ err e))
        ↔ LacksHandler parse rule
  unfolding get_handler_from_rule get_redirect_handler get_file_server_handler is_supported
  no_handler_iff rule taken = (
    λ (e, h). elim (Bool-cases (str_eq rule.type redirect)) [
      | inl r ↦ elim (Option-cases (parse rule.target)) [
        | inl unparsed ↦ inr ((str_eq_iff rule.type redirect).0 r, unparsed)
        | inr (target, parsed) ↦ absurd (ground (arith, h, r, parsed))
      ]
      | inr r ↦ elim (Bool-cases (str_eq rule.type file_server)) [
        | inl f ↦ absurd (ground (arith, h, r, f))
        | inr f ↦ inl ((str_eq_iff rule.type embedded_frontend).0 (ground (arith, taken, r, f)))
      ]
    ],
    λ l. elim l [
      | inl t ↦ (unknown_rule_type embedded_frontend, embedded_handler rule t)
      | inr (t, unparsed) ↦
          (bad_target rule.target, ground (arith, unparsed, (str_eq_iff rule.type redirect).1 t))
    ],
  )

  module _ (rs : RuleSet) (path : Str) where
    status-none : best_match path rs ≡ none → status (serve_http parse base rs path) ≡ some 404
    unfolding serve_http status
    status-none b = ground arith

    status-err :
        (rule : Rule) (e : RuleError)
        → best_match path rs ≡ some rule
        → get_handler_from_rule parse rule base ≡ err e
        → status (serve_http parse base rs path) ≡ some 200
    unfolding serve_http status
    status-err rule e b h = ground arith

    status-served :
        (rule : Rule) (h : Handler)
        → best_match path rs ≡ some rule
        → get_handler_from_rule parse rule base ≡ ok h
        → status (serve_http parse base rs path) ≡ none
    unfolding serve_http status
    status-served rule h b e = ground arith

    -- The three ways of an answer.
    status-cases :
        ((best_match path rs ≡ none) × (status (serve_http parse base rs path) ≡ some 404))
        ⊎ (((rule : Rule) × (e : RuleError) × (best_match path rs ≡ some rule)
              × (get_handler_from_rule parse rule base ≡ err e)
              × (status (serve_http parse base rs path) ≡ some 200))
            ⊎ ((rule : Rule) × (best_match path rs ≡ some rule)
                × (status (serve_http parse base rs path) ≡ none)))
    status-cases = elim (Option-cases (best_match path rs)) [
      | inl b ↦ inl (b, status-none b)
      | inr (rule, b) ↦ elim (Result-cases (get_handler_from_rule parse rule base)) [
        | inl (h, e) ↦ inr (inr (rule, b, status-served rule h b e))
        | inr (e, failed) ↦ inr (inl (rule, e, b, failed, status-err rule e b failed))
      ]
    ]

    -- Where the rules have types that AddRule takes, the answers that ServeHTTP writes itself have
    -- the status 404 exactly where no rule matches the path, and 200 exactly where the best match
    -- has no handler, which is where it is of type embedded_frontend or redirects to a target that
    -- is no URL. None of them has the status 500.
    pub serve_http-status :
        ((r : Rule) → In r (values rs) → is_supported r.type ≡ true)
        → ((status (serve_http parse base rs path) ≡ some 404)
            ↔ ((r : Rule) → In r (values rs) → match_rule path r ≡ false))
          × ((status (serve_http parse base rs path) ≡ some 200)
              ↔ ((rule : Rule) × (best_match path rs ≡ some rule) × LacksHandler parse rule))
          × (status (serve_http parse base rs path) ≢ some 500)
    serve_http-status taken = (
      (
        λ h. (best_match-none_iff path rs).0 (none_of_404 h),
        λ h. status-none ((best_match-none_iff path rs).1 h),
      ),
      (
        λ h. elim status-cases [
          | inl (b, s) ↦ absurd (ground (arith, h, s))
          | inr (inl (rule, e, b, failed, s)) ↦
              (rule, b, (no_handler_iff rule (taken rule (best_In rule b))).0 (e, failed))
          | inr (inr (rule, b, s)) ↦ cc (h, s)
        ],
        λ (rule, b, l).
            let (e, failed) = (no_handler_iff rule (taken rule (best_In rule b))).1 l in
            status-err rule e b failed,
      ),
      λ h. elim status-cases [
        | inl (b, s) ↦ ground (arith, h, s)
        | inr (inl (rule, e, b, failed, s)) ↦ ground (arith, h, s)
        | inr (inr (rule, b, s)) ↦ cc (h, s)
      ],
    )
      where
        none_of_404 : status (serve_http parse base rs path) ≡ some 404 → best_match path rs ≡ none
        none_of_404 h = elim status-cases [
          | inl (b, s) ↦ b
          | inr (inl (rule, e, b, failed, s)) ↦ absurd (ground (arith, h, s))
          | inr (inr (rule, b, s)) ↦ cc (h, s)
        ]

        best_In : (rule : Rule) → best_match path rs ≡ some rule → In rule (values rs)
        best_In rule b = (subst (IsBest path (values rs)) b (best_match-IsBest path rs)).0
