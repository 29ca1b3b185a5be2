-- ===== src/State/Sample.antt =====
-- A codec whose documents are the states themselves, for tests: it meets the laws.
use habitat_new.Prelude.{
  Str, str, cut_prefix, cut_prefix-append, false, Option, none, some, [], ◌∷◌, ◌++◌, ◌==◌, compare,
  Ordering, ◌≡◌, refl, ◌∙◌, ap, subst, arith, if◌then◌else◌,
}
use habitat_new.App.{Installation}
use habitat_new.Process.{Process}
use habitat_new.Proxy.{Rule}
use habitat_new.State.Types.{NodeState, User}
use habitat_new.State.Codec.{
  Codec, Operation, Patch, Value, add, IsToken, users_path, installations_path, processes_path,
  rules_path,
}
use habitat_new.State.CodecLaws.{CodecLaws, Gives}
use habitat_new.State.Effects.{
  put_user, put_installation, put_process, put_rule, set_installation_state, erase_installation,
  erase_process,
}

before_slash : Str → Str
before_slash [] = []
before_slash (c ∷ s) = if c == b'/' then [] else c ∷ before_slash s

before_slash-append : (id rest : Str) → IsToken id → before_slash (id ++ b'/' ∷ rest) ≡ id
unfolding before_slash
before_slash-append [] rest h = refl
before_slash-append (c ∷ id) rest h = ground (arith, before_slash-append id rest h.1)

-- The effect at the rest of a path behind a prefix.
abbrev below : Str → Str → (Str → Option NodeState) → Option NodeState
below path prefix f = elim (cut_prefix path prefix) [ none ↦ none | some id ↦ f id ]

apply_missing : Str → NodeState → Option NodeState
apply_missing path s = elim (cut_prefix path (str "/processes/")) [
  | none ↦ below path (str "/app_installations/") (λ id. erase_installation id s)
  | some id ↦ erase_process id s
]

apply_value : Value → Str → NodeState → Option NodeState
unfolding apply_missing before_slash
apply_value (Value.state t) path s = some t
apply_value (Value.user u) path s = below path (str "/users/") (λ id. put_user id u s)
apply_value (Value.installation a) path s =
    below path (str "/app_installations/") (λ id. put_installation id a s)
apply_value (Value.process p) path s = below path (str "/processes/") (λ id. put_process id p s)
apply_value (Value.rule r) path s = below path (str "/reverse_proxy_rules/") (λ id. put_rule id r s)
apply_value (Value.text st) path s =
    below path (str "/app_installations/") (λ id. set_installation_state (before_slash id) st s)
apply_value (Value.other j) path s = none
apply_value Value.missing path s = apply_missing path s

unfoldable pub apply_all : Patch → NodeState → Option NodeState
unfolding apply_value
apply_all [] s = some s
apply_all (o ∷ os) s = elim (apply_value o.value o.path s) [ none ↦ none | some t ↦ apply_all os t ]

-- The order of the versions "v0.0.d", by their last digit.
unfoldable pub compare_digits : Str → Str → Ordering
compare_digits (a ∷ b ∷ d ∷ e ∷ f ∷ x ∷ r) (a' ∷ b' ∷ d' ∷ e' ∷ f' ∷ y ∷ r') = compare x y
compare_digits _ _ = Ordering.eq

abbrev pub sample : Codec
sample = record {
  Document = NodeState;
  marshal = λ s. s;
  unmarshal = λ d. some d;
  apply = apply_all;
  diff = λ s t. some (record { op = add; path = []; value = Value.state t } ∷ []);
  compare_versions = compare_digits;
  Schema = Unit;
  empty_schema = tt;
  files =
      record {
        name = str "v0.0.8.json";
        is_dir = false;
        contents =
            some (record {
              old_version = str "v0.0.7";
              new_version = str "v0.0.8";
              up = λ u. some tt;
            });
      }
      ∷ [];
  validate_bytes = λ u d. some [];
}

gives_refl : (o : Option NodeState) → Gives (λ (d s : NodeState). d ≡ s) o o
gives_refl none = refl
gives_refl (some s) = (s, refl, refl)

gives_of_eq : (o r : Option NodeState) → r ≡ o → Gives (λ (d s : NodeState). d ≡ s) o r
gives_of_eq o r e = rw e (gives_refl o)

below-append : (prefix id : Str) (f : Str → Option NodeState) → below (prefix ++ id) prefix f ≡ f id
below-append prefix id f = ground (arith, cut_prefix-append prefix id)

apply_one : (o : Operation) (s : NodeState) → apply_all (o ∷ []) s ≡ apply_value o.value o.path s
unfolding apply_all
apply_one o s = ground arith

text_below :
    (id st : Str) (s : NodeState)
    → IsToken id
    → apply_value (Value.text st) (installations_path id ++ str "/state") s
      ≡ set_installation_state id st s
unfolding apply_value
text_below id st s h =
    below-append (str "/app_installations/") (id ++ str "/state") _
    ∙ ap (λ (k : Str). set_installation_state k st s) (before_slash-append id (str "state") h)

missing_process :
    (id : Str) (s : NodeState)
    → apply_value Value.missing (processes_path id) s ≡ erase_process id s
unfolding apply_value
missing_process id s = ground (arith, cut_prefix-append (str "/processes/") id)

missing_installation :
    (id : Str) (s : NodeState)
    → apply_value Value.missing (installations_path id) s ≡ erase_installation id s
unfolding apply_value cut_prefix
missing_installation id s = refl

apply_nothing : (d : NodeState) → apply_all [] d ≡ some d
unfolding apply_all
apply_nothing d = refl

apply_more :
    (o : Operation) (os : Patch) (d : NodeState)
    → apply_all (o ∷ os) d ≡ (elim (apply_all (o ∷ []) d) [ none ↦ none | some e ↦ apply_all os e ])
unfolding apply_all
apply_more o os d = ground arith

-- A law at a document that is the state: what the single operation does.
law :
    (o : Operation) (d s : NodeState) (effect : NodeState → Option NodeState)
    → d ≡ s
    → ((t : NodeState) → apply_value o.value o.path t ≡ effect t)
    → Gives (λ (x y : NodeState). x ≡ y) (effect s) (apply_all (o ∷ []) d)
law o d s effect e h = gives_of_eq _ _ (apply_one o d ∙ h d ∙ ap effect e)

value_user :
    (id : Str) (u : User) (t : NodeState)
    → apply_value (Value.user u) (users_path id) t ≡ put_user id u t
unfolding apply_value
value_user id u t = below-append (str "/users/") id (λ k. put_user k u t)

value_installation :
    (id : Str) (a : Installation) (t : NodeState)
    → apply_value (Value.installation a) (installations_path id) t ≡ put_installation id a t
unfolding apply_value
value_installation id a t =
    below-append (str "/app_installations/") id (λ k. put_installation k a t)

value_process :
    (id : Str) (p : Process) (t : NodeState)
    → apply_value (Value.process p) (processes_path id) t ≡ put_process id p t
unfolding apply_value
value_process id p t = below-append (str "/processes/") id (λ k. put_process k p t)

value_rule :
    (id : Str) (r : Rule) (t : NodeState)
    → apply_value (Value.rule r) (rules_path id) t ≡ put_rule id r t
unfolding apply_value
value_rule id r t = below-append (str "/reverse_proxy_rules/") id (λ k. put_rule k r t)

value_state : (x : NodeState) (t : NodeState) → apply_value (Value.state x) [] t ≡ some x
unfolding apply_value
value_state x t = refl

-- The diff is one operation, which puts the new state.
diff_applies :
    (s t : NodeState) (p : Patch) (d : NodeState)
    → some (record { op = add; path = []; value = Value.state t } ∷ []) ≡ some p
    → Gives (λ (x y : NodeState). x ≡ y) (some t) (apply_all p d)
diff_applies s t p d e =
    let same : record { op = add; path = []; value = Value.state t } ∷ [] ≡ p = cc e in
    subst (λ (q : Patch). Gives (λ (x y : NodeState). x ≡ y) (some t) (apply_all q d)) same
      (law (record { op = add; path = []; value = Value.state t }) d d (λ _. some t) refl
        (value_state t))

pub sample_laws : CodecLaws sample
sample_laws = record {
  Encodes = λ d s. d ≡ s;
  marshal_encodes = λ s. refl;
  unmarshal_encodes = λ d s e. ap some e;
  apply_nil = λ d. apply_nothing d;
  apply_cons = λ o os d. apply_more o os d;
  apply_diff = λ s t p d e f. diff_applies s t p d e;
  add_root = λ t d. law _ d d (λ _. some t) refl (value_state t);
  add_user = λ id u d s e h. law _ d s (put_user id u) e (value_user id u);
  add_installation = λ id a d s e h. law _ d s (put_installation id a) e (value_installation id a);
  add_process = λ id p d s e h. law _ d s (put_process id p) e (value_process id p);
  add_rule = λ id r d s e h. law _ d s (put_rule id r) e (value_rule id r);
  replace_installation_state =
      λ id st d s e h. law _ d s (set_installation_state id st) e (λ t. text_below id st t h);
  remove_installation = λ id d s e h. law _ d s (erase_installation id) e (missing_installation id);
  remove_process = λ id d s e h. law _ d s (erase_process id) e (missing_process id);
}

-- Each state encodes itself.
pub sample_encodes : (s : NodeState) → sample_laws.Encodes s s
sample_encodes s = sample_laws.marshal_encodes s

pub sample_decodes : (d s : NodeState) → sample_laws.Encodes d s → d ≡ s
unfolding sample_laws
sample_decodes d s e = e
