-- ===== src/State/CodecLaws.antt =====
-- Documented behaviour of encoding/json, json-patch and jsondiff. `Encodes d s` says that d is the
-- JSON of s, whatever its spacing. A map of a state is a list in one order that a loop of Go may take,
-- and Encodes keeps that order through a document: the model does not follow how encoding/json sorts
-- the members of a map, nor a loop that takes another order after each decoding.
use habitat_new.Prelude.{Str, str, ◌≡◌, Option, none, some, [], ◌∷◌, ◌++◌}
use habitat_new.App.{Installation}
use habitat_new.Process.{Process}
use habitat_new.Proxy.{Rule}
use habitat_new.State.Types.{User, NodeState}
use habitat_new.State.Codec.{
  Codec, Operation, Patch, Value, add, replace, remove, IsToken, users_path, installations_path,
  processes_path, rules_path,
}
use habitat_new.State.Effects.{
  put_user, put_installation, put_process, put_rule, set_installation_state, erase_installation,
  erase_process,
}

-- A patch result that encodes the state, or an error where there is none.
abbrev pub Gives : {D : Type 0} → (D → NodeState → Type 0) → Option NodeState → Option D → Type 0
Gives Encodes none r = r ≡ none
Gives {D} Encodes (some t) r = (e : D) × (r ≡ some e) × Encodes e t

pub record CodecLaws (c : Codec) : Type 1 where
  pub Encodes : c.Document → NodeState → Type 0
  pub marshal_encodes : (s : NodeState) → Encodes (c.marshal s) s
  pub unmarshal_encodes : (d : c.Document) (s : NodeState) → Encodes d s → c.unmarshal d ≡ some s
  -- The operations are applied in their order, up to the first that fails (RFC 6902, section 5).
  pub apply_nil : (d : c.Document) → c.apply [] d ≡ some d
  pub apply_cons :
      (o : Operation) (os : Patch) (d : c.Document)
      → c.apply (o ∷ os) d ≡ (elim (c.apply (o ∷ []) d) [ none ↦ none | some e ↦ c.apply os e ])
  -- A diff takes the first state to the second.
  pub apply_diff :
      (s t : NodeState) (p : Patch) (d : c.Document)
      → c.diff s t ≡ some p
      → Encodes d s
      → Gives Encodes (some t) (c.apply p d)
  -- `add` at the root replaces the document, at a member of an object it sets the member.
  pub add_root :
      (t : NodeState) (d : c.Document)
      → Gives Encodes
          (some t)
          (c.apply (record { op = add; path = []; value = Value.state t } ∷ []) d)
  pub add_user :
      (id : Str) (u : User) (d : c.Document) (s : NodeState)
      → Encodes d s
      → IsToken id
      → Gives Encodes
          (put_user id u s)
          (c.apply (record { op = add; path = users_path id; value = Value.user u } ∷ []) d)
  pub add_installation :
      (id : Str) (a : Installation) (d : c.Document) (s : NodeState)
      → Encodes d s
      → IsToken id
      → Gives Encodes (put_installation id a s) (
          c.apply
            (record { op = add; path = installations_path id; value = Value.installation a } ∷ [])
            d)
  pub add_process :
      (id : Str) (p : Process) (d : c.Document) (s : NodeState)
      → Encodes d s
      → IsToken id
      → Gives Encodes
          (put_process id p s)
          (c.apply (record { op = add; path = processes_path id; value = Value.process p } ∷ []) d)
  pub add_rule :
      (id : Str) (r : Rule) (d : c.Document) (s : NodeState)
      → Encodes d s
      → IsToken id
      → Gives Encodes
          (put_rule id r s)
          (c.apply (record { op = add; path = rules_path id; value = Value.rule r } ∷ []) d)
  -- `replace` and `remove` want the member to be there.
  pub replace_installation_state :
      (id st : Str) (d : c.Document) (s : NodeState)
      → Encodes d s
      → IsToken id
      → Gives Encodes (set_installation_state id st s) (
          c.apply
            (record {
              op = replace;
              path = installations_path id ++ str "/state";
              value = Value.text st;
            }
              ∷ [])
            d)
  pub remove_installation :
      (id : Str) (d : c.Document) (s : NodeState)
      → Encodes d s
      → IsToken id
      → Gives Encodes (erase_installation id s) (
          c.apply
            (record { op = remove; path = installations_path id; value = Value.missing } ∷ [])
            d)
  pub remove_process :
      (id : Str) (d : c.Document) (s : NodeState)
      → Encodes d s
      → IsToken id
      → Gives Encodes
          (erase_process id s)
          (c.apply (record { op = remove; path = processes_path id; value = Value.missing } ∷ []) d)
