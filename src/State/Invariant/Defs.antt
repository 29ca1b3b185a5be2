-- ===== src/State/Invariant/Defs.antt =====
-- The invariant of the node state: every entry stands under its own ID, user names are distinct,
-- installations and processes belong to users, no package is installed twice and no app has two
-- processes.
use habitat_new.Prelude.{Str, true, some, is_some, ◌≡◌}
use habitat_new.Prelude.Dict.{get}
use habitat_new.App.{Installation}
use habitat_new.Process.{Process}
use habitat_new.State.Types.{NodeState, User}

pub record IsConsistent (s : NodeState) : Type 0 where
  pub user_key : (k : Str) (u : User) → get k s.users ≡ some u → u.id ≡ k
  pub one_username :
      (i j : Str) (u v : User)
      → get i s.users ≡ some u
      → get j s.users ≡ some v
      → u.username ≡ v.username
      → i ≡ j
  pub app_key : (k : Str) (a : Installation) → get k s.app_installations ≡ some a → a.id ≡ k
  pub app_user :
      (k : Str) (a : Installation)
      → get k s.app_installations ≡ some a
      → is_some (get a.user_id s.users) ≡ true
  pub one_installation :
      (i j : Str) (a b : Installation)
      → get i s.app_installations ≡ some a
      → get j s.app_installations ≡ some b
      → a.registry_url_base ≡ b.registry_url_base
      → a.registry_package_id ≡ b.registry_package_id
      → i ≡ j
  pub process_key : (k : Str) (p : Process) → get k s.processes ≡ some p → p.id ≡ k
  pub process_user :
      (k : Str) (p : Process) → get k s.processes ≡ some p → is_some (get p.user_id s.users) ≡ true
  pub one_process :
      (i j : Str) (p q : Process)
      → get i s.processes ≡ some p
      → get j s.processes ≡ some q
      → p.app_id ≡ q.app_id
      → i ≡ j
