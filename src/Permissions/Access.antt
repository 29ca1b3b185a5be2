-- ===== src/Permissions/Access.antt =====
-- Who may read what: HasPermission on the tables that the store makes.
use habitat_new.Prelude.{
  Str, str, str_eq, str_eq_refl, str_eq_iff, any, filter, if◌then◌else◌, All, Bool, Bool-cases, ap,
  inl, inr, Result, true, false, not, none, some, List, [], ◌∷◌, ◌++◌, ◌≡◌, ◌≢◌, ◌↔◌, refl, ok,
  arith,
}
use mathlib.Core.List.{append_assoc}
use habitat_new.Permissions.Defs.{
  Sqlite, SqliteLaws, Permission, Table, StoreError, allow, has_key, is_live, covers, applies,
  precedes, first_from, first, object_of, has_permission, set_effect, mark_deleted,
  add_lexicon_read_permission, remove_lexicon_read_permission,
}

-- No row denies.
abbrev pub AllowOnly : Table → Type 0
AllowOnly = All (λ p. p.effect ≡ allow)

filter-AllowOnly : (f : Permission → Bool) (t : Table) → AllowOnly t → AllowOnly (filter f t)
unfolding filter
filter-AllowOnly f [] a = tt
filter-AllowOnly f (p ∷ ps) a = elim (Bool-cases (f p)) [
  | inl holds ↦ rw holds (a.0, filter-AllowOnly f ps a.1)
  | inr fails ↦ rw fails (filter-AllowOnly f ps a.1)
]

-- What holds on both branches of a test.
on_both : {A : Type 0} (P : A → Type 0) (b : Bool) (x y : A) → P x → P y → P (if b then x else y)
on_both P true x y h k = h
on_both P false x y h k = k

first_from-allow :
    (sql : Sqlite) (p : Permission) (ps : List Permission)
    → p.effect ≡ allow
    → AllowOnly ps
    → (first_from sql p ps).effect ≡ allow
unfolding first_from
first_from-allow sql p [] e a = e
first_from-allow sql p (q ∷ ps) e a =
    first_from-allow sql (if precedes sql q p then q else p) ps
      (on_both (λ r. r.effect ≡ allow) (precedes sql q p) q p a.0 e) a.1

-- What HasPermission makes of the rows of its query.
abbrev verdict : Sqlite → List Permission → Result StoreError Bool
verdict sql rows = elim (first sql rows) [ none ↦ ok false | some p ↦ ok (str_eq p.effect allow) ]

verdict-AllowOnly :
    (sql : Sqlite) (p : Permission) (ps : List Permission)
    → AllowOnly (p ∷ ps)
    → verdict sql (p ∷ ps) ≡ ok true
unfolding first
verdict-AllowOnly sql p ps a = rw (first_from-allow sql p ps a.0 a.1) (ap ok (str_eq_refl allow))

verdict-filter :
    (sql : Sqlite) (f : Permission → Bool) (t : Table)
    → AllowOnly t
    → verdict sql (filter f t) ≡ ok (any f t)
unfolding filter any first
verdict-filter sql f [] a = refl
verdict-filter sql f (p ∷ ps) a = elim (Bool-cases (f p)) [
  | inl holds ↦ rw holds (verdict-AllowOnly sql p (filter f ps) (a.0, filter-AllowOnly f ps a.1))
  | inr fails ↦ rw fails (verdict-filter sql f ps a.1)
]

pub has_permission-AllowOnly :
    (sql : Sqlite) (requester owner nsid rkey : Str) (t : Table)
    → AllowOnly t
    → requester ≢ owner
    → has_permission sql true requester owner nsid rkey t
      ≡ ok (any (applies sql requester owner (object_of nsid rkey)) t)
unfolding has_permission
has_permission-AllowOnly sql requester owner nsid rkey t a ne = ground (
  arith,
  str_eq_iff requester owner,
  verdict-filter sql (applies sql requester owner (object_of nsid rkey)) t a,
)

has_permission-owner :
    (sql : Sqlite) (requester owner nsid rkey : Str) (t : Table)
    → requester ≡ owner
    → has_permission sql true requester owner nsid rkey t ≡ ok true
unfolding has_permission
has_permission-owner sql requester owner nsid rkey t e = ground (arith, str_eq_iff requester owner)

-- On a table with no denials, and for a requester that is not the owner, HasPermission holds
-- exactly where a row applies.
pub has_permission_iff :
    (sql : Sqlite) (requester owner nsid rkey : Str) (t : Table)
    → AllowOnly t
    → requester ≢ owner
    → (has_permission sql true requester owner nsid rkey t ≡ ok true)
      ↔ (any (applies sql requester owner (object_of nsid rkey)) t ≡ true)
has_permission_iff sql requester owner nsid rkey t a ne =
    ground (arith, has_permission-AllowOnly sql requester owner nsid rkey t a ne)

set_effect-AllowOnly : (g o n : Str) (t : Table) → AllowOnly t → AllowOnly (set_effect g o n t)
unfolding set_effect
set_effect-AllowOnly g o n [] a = tt
set_effect-AllowOnly g o n (p ∷ ps) a = elim (Bool-cases (is_live g o n p)) [
  | inl holds ↦ rw holds (refl, a.1)
  | inr fails ↦ rw fails (a.0, set_effect-AllowOnly g o n ps a.1)
]

mark_deleted-AllowOnly : (g o n : Str) (t : Table) → AllowOnly t → AllowOnly (mark_deleted g o n t)
unfolding mark_deleted
mark_deleted-AllowOnly g o n [] a = tt
mark_deleted-AllowOnly g o n (p ∷ ps) a = elim (Bool-cases (is_live g o n p)) [
  | inl holds ↦ rw holds (a.0, mark_deleted-AllowOnly g o n ps a.1)
  | inr fails ↦ rw fails (a.0, mark_deleted-AllowOnly g o n ps a.1)
]

append-AllowOnly :
    (t : Table) (p : Permission) → AllowOnly t → p.effect ≡ allow → AllowOnly (t ++ p ∷ [])
append-AllowOnly [] p a e = (e, tt)
append-AllowOnly (q ∷ t) p a e = (a.0, append-AllowOnly t p a.1 e)

-- Whether the database answers or not, AddLexiconReadPermission and RemoveLexiconReadPermission
-- leave a table with no denials such a table.
pub changes-AllowOnly :
    (up : Bool) (grantee owner nsid : Str) (t : Table)
    → AllowOnly t
    → AllowOnly (add_lexicon_read_permission up grantee owner nsid t).1
      × AllowOnly (remove_lexicon_read_permission up grantee owner nsid t).1
unfolding add_lexicon_read_permission remove_lexicon_read_permission
changes-AllowOnly up g o n t a =
    let P : Result StoreError (Unit {0}) × Table → Type 0 = λ r. AllowOnly r.1 in
    (
      on_both P (not up) _ _ a (
          on_both P (any (is_live g o n) t) _ _ (set_effect-AllowOnly g o n t a) (
            on_both P (any (has_key g o n) t) _ _ a (
              append-AllowOnly t
                (record { grantee = g; owner = o; object = n; effect = allow; is_deleted = false })
                a refl))),
      on_both P up _ _ (mark_deleted-AllowOnly g o n t a) a,
    )

-- A row covers the records below its object, and the object itself.
covers-object_of :
    (sql : Sqlite) (laws : SqliteLaws sql) (rkey : Str) (p : Permission)
    → covers sql (object_of p.object rkey) p ≡ true
unfolding covers object_of
covers-object_of sql laws [] p = rw (str_eq_refl p.object) refl
covers-object_of sql laws (b ∷ rkey) p = ground (
  arith,
  append_assoc p.object (str ".") (b ∷ rkey),
  append_assoc p.object (str ".") (str "%"),
  laws.like_prefix (p.object ++ str ".") (b ∷ rkey),
)

-- A live row under the key applies to every record below the object.
pub live-applies :
    (sql : Sqlite) (laws : SqliteLaws sql) (g o n rkey : Str) (p : Permission)
    → is_live g o n p ≡ true
    → applies sql g o (object_of n rkey) p ≡ true
unfolding is_live has_key applies
live-applies sql laws g o n rkey p h =
    ground (arith, str_eq_iff p.object n, covers-object_of sql laws rkey p)

set_effect-live :
    (g o n : Str) (f : Permission → Bool) (t : Table)
    → any (is_live g o n) t ≡ true
    → ((p : Permission) → is_live g o n p ≡ true → f (record p { effect = allow }) ≡ true)
    → any f (set_effect g o n t) ≡ true
unfolding set_effect any
set_effect-live g o n f [] h k = cc
set_effect-live g o n f (p ∷ ps) h k = elim (Bool-cases (is_live g o n p)) [
  | inl holds ↦ rw holds (rw (k p holds) refl)
  | inr fails ↦ ground (arith, fails, set_effect-live g o n f ps)
]

any-append :
    (f : Permission → Bool) (t : Table) (p : Permission) → f p ≡ true → any f (t ++ p ∷ []) ≡ true
unfolding any
any-append f [] p h = ground arith
any-append f (q ∷ t) p h = ground (arith, any-append f t p h)

added-applies :
    (sql : Sqlite) (laws : SqliteLaws sql) (up : Bool) (g o n rkey : Str) (t : Table)
    → (add_lexicon_read_permission up g o n t).0 ≡ ok tt
    → any (applies sql g o (object_of n rkey)) (add_lexicon_read_permission up g o n t).1 ≡ true
unfolding add_lexicon_read_permission is_live has_key
added-applies sql laws false g o n rkey t h = cc
added-applies sql laws true g o n rkey t h = elim (Bool-cases (any (is_live g o n) t)) [
  | inl there ↦ rw there (
      set_effect-live g o n (applies sql g o (object_of n rkey)) t there
        (λ p live. live-applies sql laws g o n rkey (record p { effect = allow }) live))
  | inr absent ↦ elim (Bool-cases (any (has_key g o n) t)) [
    | inl taken ↦ ground (arith, h, absent, taken)
    | inr free ↦
        rw (absent, free)
          (any-append (applies sql g o (object_of n rkey)) t _ (
            live-applies sql laws g o n rkey _
              (ground (arith, str_eq_refl g, str_eq_refl o, str_eq_refl n))))
  ]
]

-- On a table with no denials, where AddLexiconReadPermission succeeds, HasPermission then lets the
-- grantee read every record of the lexicon, and the lexicon itself.
pub add-grants :
    (sql : Sqlite) (laws : SqliteLaws sql) (up : Bool) (grantee owner nsid rkey : Str) (t : Table)
    → AllowOnly t
    → (add_lexicon_read_permission up grantee owner nsid t).0 ≡ ok tt
    → has_permission sql true grantee owner nsid rkey
        (add_lexicon_read_permission up grantee owner nsid t).1
      ≡ ok true
add-grants sql laws up g o n rkey t a h =
    let added : Table = (add_lexicon_read_permission up g o n t).1 in
    ground (
      arith,
      str_eq_iff g o,
      added-applies sql laws up g o n rkey t h,
      has_permission-AllowOnly sql g o n rkey added (changes-AllowOnly up g o n t a).0,
      has_permission-owner sql g o n rkey added,
    )
