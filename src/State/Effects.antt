-- ===== src/State/Effects.antt =====
-- What each JSON patch of a transition means for the typed state: none where RFC 6902 makes it an
-- error, that is where the parent is null or the member to replace or remove is not there.
use habitat_new.Prelude.{Str, Option, none, some, List, [], ◌∷◌}
use habitat_new.Prelude.Dict.{entries, get, insert, erase}
use habitat_new.App.{Installation}
use habitat_new.Process.{Process}
use habitat_new.Proxy.{Rule}
use habitat_new.State.Types.{NodeState, User}

unfoldable pub put_user : Str → User → NodeState → Option NodeState
put_user id u s = elim s.users [
  | none ↦ none
  | some m ↦ some (record s { users = some (insert id u m) })
]

unfoldable pub put_installation : Str → Installation → NodeState → Option NodeState
put_installation id a s = elim s.app_installations [
  | none ↦ none
  | some m ↦ some (record s { app_installations = some (insert id a m) })
]

unfoldable pub put_process : Str → Process → NodeState → Option NodeState
put_process id p s = elim s.processes [
  | none ↦ none
  | some m ↦ some (record s { processes = some (insert id p m) })
]

unfoldable pub put_rule : Str → Rule → NodeState → Option NodeState
put_rule id r s = elim s.reverse_proxy_rules [
  | none ↦ none
  | some m ↦ some (record s { reverse_proxy_rules = some (insert id r m) })
]

unfoldable pub put_rules : List Rule → NodeState → Option NodeState
unfolding put_rule
put_rules [] s = some s
put_rules (r ∷ rs) s = elim (put_rule r.id r s) [ none ↦ none | some s' ↦ put_rules rs s' ]

unfoldable pub set_installation_state : Str → Str → NodeState → Option NodeState
unfolding get
set_installation_state id st s = elim (get id s.app_installations) [
  | none ↦ none
  | some a ↦ some (record s {
    app_installations = some (insert id (record a { state = st }) (entries s.app_installations));
  })
]

unfoldable pub erase_installation : Str → NodeState → Option NodeState
unfolding get
erase_installation id s = elim (get id s.app_installations) [
  | none ↦ none
  | some _ ↦ some (record s { app_installations = some (erase id (entries s.app_installations)) })
]

unfoldable pub erase_process : Str → NodeState → Option NodeState
unfolding get
erase_process id s = elim (get id s.processes) [
  | none ↦ none
  | some _ ↦ some (record s { processes = some (erase id (entries s.processes)) })
]
