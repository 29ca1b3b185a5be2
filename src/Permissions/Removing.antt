-- ===== src/Permissions/Removing.antt =====
-- RemoveLexiconReadPermission: what it takes away, and that it is not undone by adding again.
use habitat_new.Prelude.{
  Str, str_eq, any, true, false, not, ◌&&◌, [], ◌∷◌, ◌≡◌, ◌≢◌, ◌↔◌, refl, ok, err, arith,
}
use habitat_new.Permissions.Defs.{
  Sqlite, Permission, Table, add_failed, has_key, is_live, applies, object_of, has_permission,
  mark_deleted, add_lexicon_read_permission, remove_lexicon_read_permission,
}
use habitat_new.Permissions.Access.{AllowOnly, changes-AllowOnly, has_permission-AllowOnly}

unmarked : (g o n : Str) (t : Table) → any (is_live g o n) (mark_deleted g o n t) ≡ false
unfolding any mark_deleted is_live
unmarked g o n [] = refl
unmarked g o n (p ∷ ps) = ground (arith, unmarked g o n ps)

still_indexed :
    (g o n : Str) (t : Table)
    → any (is_live g o n) t ≡ true
    → any (has_key g o n) (mark_deleted g o n t) ≡ true
unfolding any mark_deleted is_live has_key
still_indexed g o n [] h = cc
still_indexed g o n (p ∷ ps) h = ground (arith, still_indexed g o n ps)

-- A permission that RemoveLexiconReadPermission has removed cannot be added again: the deleted row
-- stays in the unique index, AddLexiconReadPermission fails and changes nothing.
pub add-remove :
    (grantee owner nsid : Str) (t : Table)
    → any (is_live grantee owner nsid) t ≡ true
    → let t' = (remove_lexicon_read_permission true grantee owner nsid t).1 in
      add_lexicon_read_permission true grantee owner nsid t' ≡ (err add_failed, t')
unfolding add_lexicon_read_permission remove_lexicon_read_permission
add-remove g o n t h = rw (unmarked g o n t, still_indexed g o n t h) refl

any-mark_deleted :
    (sql : Sqlite) (g o n object : Str) (t : Table)
    → any (applies sql g o object) (mark_deleted g o n t)
      ≡ any (λ (p : Permission). applies sql g o object p && not (str_eq p.object n)) t
unfolding any mark_deleted is_live has_key applies
any-mark_deleted sql g o n object [] = refl
any-mark_deleted sql g o n object (p ∷ ps) = ground (arith, any-mark_deleted sql g o n object ps)

remove-table :
    (g o n : Str) (t : Table)
    → (remove_lexicon_read_permission true g o n t).1 ≡ mark_deleted g o n t
unfolding remove_lexicon_read_permission
remove-table g o n t = refl

-- On a table with no denials, and for a grantee that is not the owner: after
-- RemoveLexiconReadPermission has removed a lexicon, HasPermission lets the grantee read a record
-- exactly where a row with another object applied to it before.
pub remove-revokes :
    (sql : Sqlite) (grantee owner removed nsid rkey : Str) (t : Table)
    → AllowOnly t
    → grantee ≢ owner
    → (has_permission sql true grantee owner nsid rkey
          (remove_lexicon_read_permission true grantee owner removed t).1
        ≡ ok true)
      ↔ (any
            (λ (p : Permission).
              applies sql grantee owner (object_of nsid rkey) p && not (str_eq p.object removed))
            t
          ≡ true)
remove-revokes sql g o removed nsid rkey t a ne =
    let t' : Table = (remove_lexicon_read_permission true g o removed t).1 in
    ground (
      arith,
      has_permission-AllowOnly sql g o nsid rkey t' (changes-AllowOnly true g o removed t a).1 ne,
      remove-table g o removed t,
      any-mark_deleted sql g o removed (object_of nsid rkey) t,
    )
