-- ===== src/Controller/Restoring.antt =====
-- restore at startup, and what uninstallApp leaves for it.
use habitat_new.Prelude.{
  Str, str_eq_refl, true, false, none, some, is_some, List, [], ◌∷◌, In, ◌≡◌, refl, ap, subst, ◌∙◌,
  ◌↔◌, arith, ok, is_ok, Option-cases, Bool-cases, inl, inr,
}
use habitat_new.Prelude.Dict.{Dict, get, entries, values, insert, erase, find-erase}
use habitat_new.App.{Installation}
use habitat_new.Process.{Process}
use habitat_new.State.Types.{NodeState}
use habitat_new.State.Codec.{Codec, IsToken}
use habitat_new.State.CodecLaws.{CodecLaws}
use habitat_new.State.Effects.{erase_installation}
use habitat_new.State.Schema.{validate_state}
use habitat_new.State.Transitions.{uninstall, validate_uninstall}
use habitat_new.State.Transitions.Step.{step}
use habitat_new.State.Propose.{TransitionWrapper, propose_one, propose_transitions}
use habitat_new.State.Propose.Parts.{Refines}
use habitat_new.State.Propose.Refines.{propose_one-Refines}
use habitat_new.State.Db.{done, propose, state_of}
use habitat_new.Controller.Defs.{Node, Parts}
use habitat_new.Controller.Apps.{restore_info, restore, uninstall_app}

-- Every process of the list belongs to an installation.
abbrev pub HaveApps : Dict Installation → List Process → Type 0
HaveApps apps ps = (p : Process) → In p ps → is_some (get p.app_id apps) ≡ true

restore_info_sound :
    (apps : Dict Installation) (ps : List Process) (info : List (Str × Installation))
    → is_ok (restore_info apps ps info) ≡ true
    → HaveApps apps ps
unfolding restore_info
restore_info_sound apps [] info h p i = absurd i
restore_info_sound apps (q ∷ ps) info h p i = elim (Option-cases (get q.app_id apps)) [
  | inl missing ↦ absurd (ground arith)
  | inr (app, e) ↦ elim i [
    | inl same ↦ subst (λ (x : Process). is_some (get x.app_id apps) ≡ true) same (ground arith)
    | inr rest ↦ restore_info_sound apps ps (insert q.id app info) (ground arith) p rest
  ]
]

restore_info_complete :
    (apps : Dict Installation) (ps : List Process) (info : List (Str × Installation))
    → HaveApps apps ps
    → is_ok (restore_info apps ps info) ≡ true
unfolding restore_info
restore_info_complete apps [] info h = refl
restore_info_complete apps (q ∷ ps) info h = elim (Option-cases (get q.app_id apps)) [
  | inl missing ↦ absurd (ground (arith, h q (inl refl)))
  | inr (app, e) ↦
      ground (arith, restore_info_complete apps ps (insert q.id app info) (λ p i. h p (inr i)))
]

-- The map of processes to restore can be built exactly where every process of the state belongs to
-- an installation.
pub restore_info_iff :
    (apps : Dict Installation) (ps : List Process) (info : List (Str × Installation))
    → (is_ok (restore_info apps ps info) ≡ true) ↔ HaveApps apps ps
restore_info_iff apps ps info =
    (restore_info_sound apps ps info, restore_info_complete apps ps info)

no_info :
    (apps : Dict Installation) (ps : List Process) (p : Process)
    → In p ps
    → get p.app_id apps ≡ none
    → is_ok (restore_info apps ps []) ≡ false
no_info apps ps p i h = elim (Bool-cases (is_ok (restore_info apps ps []))) [
  | inl good ↦ absurd (ground (arith, restore_info_sound apps ps [] good p i))
  | inr bad ↦ bad
]

-- The state without the installation.
abbrev pub without : Str → NodeState → NodeState
without id s = record s { app_installations = some (erase id (entries s.app_installations)) }

get-without : (id : Str) (s : NodeState) → get id (without id s).app_installations ≡ none
unfolding get
get-without id s = ground (arith, find-erase id id (entries s.app_installations), str_eq_refl id)

step-uninstall :
    (c : Codec) (id : Str) (s : NodeState)
    → is_some (get id s.app_installations) ≡ true
    → step c (uninstall id) s ≡ ok (without id s)
unfolding step validate_uninstall erase_installation
step-uninstall c id s h = elim (Option-cases (get id s.app_installations)) [
  | inl e ↦ absurd (ground arith)
  | inr (a, e) ↦ ground arith
]

module _ {c : Codec} where
  -- The schema takes each document that encodes the state.
  abbrev pub IsAccepted : CodecLaws c → NodeState → Type 0
  IsAccepted laws s = (d : c.Document) → laws.Encodes d s → validate_state c d ≡ ok tt

  propose_one-uninstall :
      (laws : CodecLaws c) (id : Str) (d : c.Document) (s : NodeState)
      → laws.Encodes d s
      → IsToken id
      → is_some (get id s.app_installations) ≡ true
      → IsAccepted laws (without id s)
      → (d' : c.Document) × (w : TransitionWrapper) × laws.Encodes d' (without id s)
        × (propose_one c (uninstall id) d ≡ ok (d', w))
  propose_one-uninstall laws id d s enc token installed accepted =
      let refines : Refines c laws (ok (without id s)) (propose_one c (uninstall id) d) =
        subst (λ r. Refines c laws r (propose_one c (uninstall id) d))
          (step-uninstall c id s installed)
          (propose_one-Refines c laws (uninstall id) d s enc token) in
      let (d', enc', w, good, bad) = refines in (d', w, enc', good (accepted d' enc'))

module _ {c : Codec} {World : Type 0} where
  uninstall_app-taken :
      (id : Str) (n : Node c World) (d' : c.Document) (w : TransitionWrapper) (s' : NodeState)
      → propose_one c (uninstall id) n.db.state ≡ ok (d', w)
      → c.unmarshal d' ≡ some s'
      → ((uninstall_app done id n).0 ≡ ok tt) × (state_of c (uninstall_app done id n).1.db ≡ ok s')
  unfolding uninstall_app propose propose_transitions state_of
  uninstall_app-taken id n d' w s' h u = ground arith

  restore-needs_info :
      (parts : Parts c World) (s : NodeState) (n : Node c World)
      → is_ok (restore_info s.app_installations (values (entries s.processes)) []) ≡ false
      → is_ok (restore parts s n).0 ≡ false
  unfolding restore
  restore-needs_info parts s n h = ground arith

  -- On a database whose document encodes s, where the app's ID needs no escaping, a process of the
  -- app stands in s and the schema takes s without the app: uninstallApp succeeds where its write
  -- does, the database then reads as s without the app, and restore fails on that state, for every
  -- node and whatever the package managers do.
  pub restore-after_uninstall :
      (laws : CodecLaws c) (parts : Parts c World) (id : Str) (s : NodeState) (p : Process)
      (n n' : Node c World)
      → laws.Encodes n.db.state s
      → IsToken id
      → is_some (get id s.app_installations) ≡ true
      → IsAccepted laws (without id s)
      → In p (values (entries s.processes))
      → p.app_id ≡ id
      → ((uninstall_app done id n).0 ≡ ok tt)
        × (state_of c (uninstall_app done id n).1.db ≡ ok (without id s))
        × (is_ok (restore parts (without id s) n').0 ≡ false)
  restore-after_uninstall laws parts id s p n n' enc token installed accepted i e =
      let (d', w, enc', one) =
        propose_one-uninstall laws id n.db.state s enc token installed accepted in
      let (taken, reads) =
        uninstall_app-taken id n d' w (without id s) one
          (laws.unmarshal_encodes d' (without id s) enc') in
      (
        taken,
        reads,
        restore-needs_info parts (without id s) n' (
            no_info (without id s).app_installations (values (entries s.processes)) p i
              (ap (λ (k : Str). get k (without id s).app_installations) e ∙ get-without id s)),
      )
