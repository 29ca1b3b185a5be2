-- ===== src/Permissions/Defs.antt =====
-- sqliteStore: a table of permissions behind gorm. The table is the list of its rows in the order
-- of their primary keys; a row that gorm has deleted stays, marked. `up` says whether the database
-- answers a call.
use habitat_new.Prelude.{
  ℕ, ltb, ◌==◌, Str, str, str_eq, any, filter, if◌then◌else◌, Bool, true, false, not, ◌&&◌, ◌||◌,
  Option, none, some, List, [], ◌∷◌, ◌++◌, ◌≡◌, Result, ok, err,
}
use habitat_new.Prelude.Dict.{find, insert}

-- What the queries take from SQLite: `text LIKE pattern`, the length of a text, and whether a text
-- comes after another in the order of texts.
pub record Sqlite : Type 0 where
  pub like : (text pattern : Str) → Bool
  pub length : Str → ℕ
  pub follows : Str → Str → Bool

-- Documented behaviour of LIKE: a text matches itself, and `%` any rest.
pub record SqliteLaws (sql : Sqlite) : Type 0 where
  pub like_prefix : (prefix rest : Str) → sql.like (prefix ++ rest) (prefix ++ str "%") ≡ true

abbrev pub allow : Str
allow = str "allow"

abbrev pub deny : Str
deny = str "deny"

-- Permission, with the mark of gorm.Model
pub record Permission : Type 0 where
  pub grantee : Str
  pub owner : Str
  pub object : Str
  pub effect : Str
  pub is_deleted : Bool

abbrev pub Table : Type 0
Table = List Permission

pub data StoreError : Type 0 where
  query_failed add_failed remove_failed : StoreError

-- The columns of the unique index.
unfoldable pub has_key : Str → Str → Str → Permission → Bool
has_key grantee owner object p =
    str_eq p.grantee grantee && (str_eq p.owner owner && str_eq p.object object)

unfoldable pub is_live : Str → Str → Str → Permission → Bool
unfolding has_key
is_live grantee owner object p = not p.is_deleted && has_key grantee owner object p

-- object = ? OR ? LIKE object || '.%'
unfoldable pub covers : Sqlite → Str → Permission → Bool
covers sql object p = str_eq p.object object || sql.like object (p.object ++ str ".%")

-- The WHERE of HasPermission and ListReadPermissionsByUser
unfoldable pub applies : Sqlite → Str → Str → Str → Permission → Bool
unfolding covers
applies sql grantee owner object p =
    not p.is_deleted && (str_eq p.grantee grantee && (str_eq p.owner owner && covers sql object p))

-- ORDER BY LENGTH(object) DESC, effect DESC
unfoldable pub precedes : Sqlite → Permission → Permission → Bool
precedes sql p q =
    ltb (sql.length q.object) (sql.length p.object)
    || (sql.length p.object == sql.length q.object && sql.follows p.effect q.effect)

-- LIMIT 1 and First: the first row of that order, and of several such rows the oldest.
unfoldable pub first_from : Sqlite → Permission → List Permission → Permission
unfolding precedes
first_from sql p [] = p
first_from sql p (q ∷ ps) = first_from sql (if precedes sql q p then q else p) ps

unfoldable pub first : Sqlite → List Permission → Option Permission
unfolding first_from
first sql [] = none
first sql (p ∷ ps) = some (first_from sql p ps)

-- The object path of HasPermission
unfoldable pub object_of : (nsid rkey : Str) → Str
object_of nsid [] = nsid
object_of nsid (b ∷ rkey) = nsid ++ (str "." ++ (b ∷ rkey))

-- HasPermission
unfoldable pub has_permission :
    Sqlite → Bool → (requester owner nsid rkey : Str) → Table → Result StoreError Bool
unfolding applies first object_of filter
has_permission sql up requester owner nsid rkey table =
    if str_eq requester owner
    then ok true
    else (if up
        then (elim (first sql (filter (applies sql requester owner (object_of nsid rkey)) table)) [
          | none ↦ ok false
          | some p ↦ ok (str_eq p.effect allow)
        ])
        else err query_failed)

-- Assign on the row that FirstOrCreate finds.
unfoldable pub set_effect : Str → Str → Str → Table → Table
unfolding is_live
set_effect grantee owner object [] = []
set_effect grantee owner object (p ∷ ps) =
    let rest = set_effect grantee owner object ps in
    if is_live grantee owner object p then record p { effect = allow } ∷ ps else p ∷ rest

-- AddLexiconReadPermission: FirstOrCreate, where the unique index counts deleted rows too.
unfoldable pub add_lexicon_read_permission :
    Bool → (grantee owner nsid : Str) → Table → Result StoreError (Unit {0}) × Table
unfolding is_live has_key set_effect any
add_lexicon_read_permission up grantee owner nsid table =
    if not up
    then (err add_failed, table)
    else (if any (is_live grantee owner nsid) table
        then (ok tt, set_effect grantee owner nsid table)
        else (if any (has_key grantee owner nsid) table then (err add_failed, table) else (
          ok tt,
          table
              ++ record {
                grantee = grantee;
                owner = owner;
                object = nsid;
                effect = allow;
                is_deleted = false;
              }
                ∷ [],
        )))

-- Delete on a model with a DeletedAt column marks the rows.
unfoldable pub mark_deleted : Str → Str → Str → Table → Table
unfolding is_live
mark_deleted grantee owner object [] = []
mark_deleted grantee owner object (p ∷ ps) =
    (if is_live grantee owner object p then record p { is_deleted = true } else p)
    ∷ mark_deleted grantee owner object ps

-- RemoveLexiconReadPermission
unfoldable pub remove_lexicon_read_permission :
    Bool → (grantee owner nsid : Str) → Table → Result StoreError (Unit {0}) × Table
unfolding mark_deleted
remove_lexicon_read_permission up grantee owner nsid table =
    if up then (ok tt, mark_deleted grantee owner nsid table) else (err remove_failed, table)

-- result[object] = append(result[object], grantee)
unfoldable pub append_to : Str → Str → List (Str × List Str) → List (Str × List Str)
unfolding find insert
append_to object grantee m =
    insert object
      (elim (find object m) [ none ↦ grantee ∷ [] | some grantees ↦ grantees ++ grantee ∷ [] ]) m

unfoldable pub group_by_object : List Permission → List (Str × List Str) → List (Str × List Str)
unfolding append_to
group_by_object [] m = m
group_by_object (p ∷ ps) m = group_by_object ps (append_to p.object p.grantee m)

-- owner = ? AND effect = 'allow'
unfoldable pub is_allowed_by : Str → Permission → Bool
is_allowed_by owner p = not p.is_deleted && (str_eq p.owner owner && str_eq p.effect allow)

-- ListReadPermissionsByLexicon
unfoldable pub list_read_permissions_by_lexicon :
    Bool → Str → Table → Result StoreError (List (Str × List Str))
unfolding group_by_object is_allowed_by filter
list_read_permissions_by_lexicon up owner table =
    if up then ok (group_by_object (filter (is_allowed_by owner) table) []) else err query_failed

-- The objects of the rows with an effect.
unfoldable pub objects : Str → List Permission → List Str
objects effect [] = []
objects effect (p ∷ ps) =
    let rest = objects effect ps in if str_eq p.effect effect then p.object ∷ rest else rest

-- ListReadPermissionsByUser: the objects that are allowed and those that are denied.
unfoldable pub list_read_permissions_by_user :
    Sqlite → Bool → (owner requester nsid : Str) → Table → Result StoreError (List Str × List Str)
unfolding applies objects filter
list_read_permissions_by_user sql up owner requester nsid table =
    if str_eq requester owner
    then ok ((nsid ++ str ".*") ∷ [], [])
    else (if up
        then (let rows = filter (applies sql requester owner nsid) table in
            ok (objects allow rows, objects deny rows))
        else err query_failed)
