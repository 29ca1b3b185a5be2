-- ===== src/Permissions/Tests.antt =====
-- Runs of the permission store on concrete tables.
use habitat_new.Prelude.{
  str, str_eq, str_eq_apart, any, true, false, not, ◌&&◌, [], ◌∷◌, ◌≡◌, ◌≢◌, ◌↔◌, refl, ok, err,
}
use habitat_new.Permissions.Defs.{
  Permission, Table, allow, deny, add_failed, has_key, is_live, applies, object_of, has_permission,
  add_lexicon_read_permission, remove_lexicon_read_permission, list_read_permissions_by_lexicon,
}
use habitat_new.Permissions.Access.{has_permission_iff, add-grants}
use habitat_new.Permissions.Removing.{add-remove, remove-revokes}
use habitat_new.Permissions.Sample.{sample, sample_laws, like_final}

abbrev posts : Permission
posts = record {
  grantee = str "bob";
  owner = str "ann";
  object = str "net.posts";
  effect = allow;
  is_deleted = false;
}

abbrev one : Table
one = posts ∷ []

other : str "bob" ≢ str "ann"
unfolding str_eq
other = str_eq_apart (str "bob") (str "ann") refl

-- A denial of a single record is longer than the grant of its lexicon.
denied :
    has_permission sample true
      (str "bob")
      (str "ann")
      (str "net.posts")
      (str "1")
      (posts ∷ record posts { object = str "net.posts.1"; effect = deny } ∷ [])
    ≡ ok false
unfolding has_permission str_eq like_final
denied = refl

-- A grant of net.post is none of net.posts.
no_prefix :
    has_permission sample true
      (str "bob")
      (str "ann")
      (str "net.posts")
      (str "1")
      (record posts { object = str "net.post" } ∷ [])
    ≡ ok false
unfolding has_permission str_eq like_final
no_prefix = refl

listed :
    list_read_permissions_by_lexicon true
      (str "ann")
      (posts ∷ record posts { grantee = str "cat" } ∷ [])
    ≡ ok ((str "net.posts", str "bob" ∷ str "cat" ∷ []) ∷ [])
unfolding list_read_permissions_by_lexicon str_eq
listed = refl

has_permission_iff_example :
    (has_permission sample true (str "bob") (str "ann") (str "net.posts") (str "1") one ≡ ok true)
    ↔ (any (applies sample (str "bob") (str "ann") (object_of (str "net.posts") (str "1"))) one
        ≡ true)
has_permission_iff_example =
    has_permission_iff sample (str "bob") (str "ann") (str "net.posts") (str "1") one (refl, tt)
      other

added : (add_lexicon_read_permission true (str "bob") (str "ann") (str "net.likes") one).0 ≡ ok tt
unfolding add_lexicon_read_permission str_eq
added = refl

add-grants_example :
    has_permission sample true
      (str "bob")
      (str "ann")
      (str "net.likes")
      (str "7")
      (add_lexicon_read_permission true (str "bob") (str "ann") (str "net.likes") one).1
    ≡ ok true
add-grants_example =
    add-grants sample sample_laws true (str "bob") (str "ann") (str "net.likes") (str "7") one
      (refl, tt) added

live_one : any (is_live (str "bob") (str "ann") (str "net.posts")) one ≡ true
unfolding any is_live has_key str_eq
live_one = refl

add-remove_example :
    let t' =
      (remove_lexicon_read_permission true (str "bob") (str "ann") (str "net.posts") one).1 in
    add_lexicon_read_permission true (str "bob") (str "ann") (str "net.posts") t'
    ≡ (err add_failed, t')
add-remove_example = add-remove (str "bob") (str "ann") (str "net.posts") one live_one

remove-revokes_example :
    (has_permission sample true
        (str "bob")
        (str "ann")
        (str "net.posts")
        (str "1")
        (remove_lexicon_read_permission true (str "bob") (str "ann") (str "net.posts") one).1
      ≡ ok true)
    ↔ (any
          (λ (p : Permission).
            applies sample (str "bob") (str "ann") (object_of (str "net.posts") (str "1")) p
            && not (str_eq p.object (str "net.posts")))
          one
        ≡ true)
remove-revokes_example =
    remove-revokes sample (str "bob") (str "ann") (str "net.posts") (str "net.posts") (str "1") one
      (refl, tt) other
