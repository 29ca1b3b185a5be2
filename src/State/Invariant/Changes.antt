-- ===== src/State/Invariant/Changes.antt =====
-- The changes that data migrations make keep the invariant.
use habitat_new.Prelude.{Str, true, none, some, is_some, [], ◌≡◌, refl, ap, sym, ◌∙◌, arith, subst}
use habitat_new.Prelude.Dict.{Dict, get, find, find-map_values}
use habitat_new.Prelude.Json.{Json}
use habitat_new.Proxy.{Rule}
use habitat_new.App.{Installation}
use habitat_new.State.Types.{NodeState, User, zero_state}
use habitat_new.State.Codec.{Codec}
use habitat_new.State.Migrations.{
  each, with_driver_config, without_did, set_test_field, add_proxy_rules, drop_proxy_rules,
  drop_dids,
}
use habitat_new.State.Invariant.Defs.{IsConsistent}

pub no_entries-IsConsistent :
    (v : Str)
    → IsConsistent (record zero_state {
      schema_version = v;
      users = some [];
      processes = some [];
      app_installations = some [];
    })
unfolding get find
no_entries-IsConsistent v = record {
  user_key = λ k u e. cc;
  one_username = λ i j u w e f g. cc;
  app_key = λ k a e. cc;
  app_user = λ k a e. cc;
  one_installation = λ i j a b e f g g'. cc;
  process_key = λ k p e. cc;
  process_user = λ k p e. cc;
  one_process = λ i j p q e f g. cc;
}

get-each :
    {V : Type 0} (f : V → V) (k : Str) (d : Dict V) (b : V)
    → get k (each f d) ≡ some b
    → (a : V) × (get k d ≡ some a) × (f a ≡ b)
unfolding get find
get-each f k none b e = cc
get-each f k (some m) b e = ground (arith, find-map_values f k m)

is_some-each :
    {V : Type 0} (f : V → V) (k : Str) (d : Dict V) → is_some (get k (each f d)) ≡ is_some (get k d)
unfolding get
is_some-each f k none = refl
is_some-each f k (some m) = ground (arith, find-map_values f k m)

pub set_test_field-IsConsistent :
    (c : Codec) (v : Str) (s : NodeState) → IsConsistent s → IsConsistent (set_test_field c v s)
set_test_field-IsConsistent c v s h = record {
  user_key = h.user_key;
  one_username = h.one_username;
  app_key = h.app_key;
  app_user = h.app_user;
  one_installation = h.one_installation;
  process_key = h.process_key;
  process_user = h.process_user;
  one_process = h.one_process;
}

pub with_version-IsConsistent :
    (v : Str) (s : NodeState) → IsConsistent s → IsConsistent (record s { schema_version = v })
with_version-IsConsistent v s h = record {
  user_key = h.user_key;
  one_username = h.one_username;
  app_key = h.app_key;
  app_user = h.app_user;
  one_installation = h.one_installation;
  process_key = h.process_key;
  process_user = h.process_user;
  one_process = h.one_process;
}

configured-IsConsistent :
    (config : Dict Json) (rules : Dict Rule) (s : NodeState)
    → IsConsistent s
    → IsConsistent (record s {
      app_installations = each (with_driver_config config) s.app_installations;
      reverse_proxy_rules = rules;
    })
configured-IsConsistent config rules s h =
    let before = λ (k : Str) (b : Installation).
      get-each (with_driver_config config) k s.app_installations b in
    record {
      user_key = h.user_key;
      one_username = h.one_username;
      app_key = λ k b e.
          let (a, g, same) = before k b e in
          subst (λ (x : Installation). x.id ≡ k) same (h.app_key k a g);
      app_user = λ k b e.
          let (a, g, same) = before k b e in
          subst (λ (x : Installation). is_some (get x.user_id s.users) ≡ true) same
            (h.app_user k a g);
      one_installation = λ i j x y e f g g'.
          let (a, ga, sa) = before i x e in
          let (b, gb, sb) = before j y f in
          h.one_installation i j a b ga gb
            (ap (λ (z : Installation). z.registry_url_base) sa
              ∙ g
              ∙ sym (ap (λ (z : Installation). z.registry_url_base) sb))
            (ap (λ (z : Installation). z.registry_package_id) sa
              ∙ g'
              ∙ sym (ap (λ (z : Installation). z.registry_package_id) sb));
      process_key = h.process_key;
      process_user = h.process_user;
      one_process = h.one_process;
    }

pub add_proxy_rules-IsConsistent :
    (c : Codec) (s : NodeState) → IsConsistent s → IsConsistent (add_proxy_rules c s)
unfolding add_proxy_rules
add_proxy_rules-IsConsistent c s = configured-IsConsistent (some []) (some []) s

pub drop_proxy_rules-IsConsistent :
    (c : Codec) (s : NodeState) → IsConsistent s → IsConsistent (drop_proxy_rules c s)
unfolding drop_proxy_rules
drop_proxy_rules-IsConsistent c s = configured-IsConsistent none none s

pub drop_dids-IsConsistent :
    (c : Codec) (s : NodeState) → IsConsistent s → IsConsistent (drop_dids c s)
unfolding drop_dids
drop_dids-IsConsistent c s h =
    let before = λ (k : Str) (b : User). get-each without_did k s.users b in
    record {
      user_key = λ k b e.
          let (a, g, same) = before k b e in subst (λ (x : User). x.id ≡ k) same (h.user_key k a g);
      one_username = λ i j x y e f g.
          let (a, ga, sa) = before i x e in
          let (b, gb, sb) = before j y f in
          h.one_username i j a b ga gb
            (ap (λ (z : User). z.username) sa ∙ g ∙ sym (ap (λ (z : User). z.username) sb));
      app_key = h.app_key;
      app_user = λ k a e. is_some-each without_did a.user_id s.users ∙ h.app_user k a e;
      one_installation = h.one_installation;
      process_key = h.process_key;
      process_user = λ k p e. is_some-each without_did p.user_id s.users ∙ h.process_user k p e;
      one_process = h.one_process;
    }
