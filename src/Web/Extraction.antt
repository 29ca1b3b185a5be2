-- ===== src/Web/Extraction.antt =====
-- The files that the extraction of an archive writes.
use habitat_new.Prelude.{
  ℕ, Str, Bool, Bool-cases, true, false, Option-cases, some, List, [], ◌∷◌, ◌++◌, ◌≡◌, refl, sym,
  ap, ◌∙◌, inl, inr, Result, ok, err, arith,
}
use mathlib.Core.List.{append_assoc}
use habitat_new.Web.Defs.{
  Entry, EntryType, directory, regular, other, Stat, exists, not_exists, stat_failed, Os, WebError,
  checked, extract_failed, extract_entry, extract_entries, extract_tar_gz,
}

-- The system that also keeps the paths that were opened for writing, in their order.
abbrev pub logged : {World : Type 0} → Os World → Os (List Str × World)
logged os = record {
  join = os.join;
  stat = λ path (log, w). os.stat path w;
  mkdir_all = λ path (log, w). let (done, w') = os.mkdir_all path w in (done, (log, w'));
  mkdir_temp = λ (log, w). let (temp, w') = os.mkdir_temp w in (temp, (log, w'));
  remove_all = λ path (log, w). let (done, w') = os.remove_all path w in (done, (log, w'));
  get = λ url (log, w). let (answer, w') = os.get url w in (answer, (log, w'));
  create = λ path content (log, w). let (done, w') = os.create path content w in (done, (log, w'));
  write = λ path mode content (log, w).
      let (done, w') = os.write path mode content w in (done, (log ++ path ∷ [], w'));
  read_archive = λ path (log, w). os.read_archive path w;
  config_of = os.config_of;
}

checked-ok : {World : Type 0} (r : Bool × World) → (checked extract_failed r).0 ≡ ok tt → r.0 ≡ true
checked-ok (true, w) h = refl
checked-ok (false, w) h = cc

checked-world :
    {World : Type 0} (r : Bool × (List Str × World)) → (checked extract_failed r).1.0 ≡ r.1.0
checked-world (true, w) = refl
checked-world (false, w) = refl

module _ {World : Type 0} (os : Os World) (dest : Str) where
  -- The path of an entry that is a file.
  abbrev pub target : (name : Str) → EntryType → List Str
  target name directory = []
  target name regular = os.join (dest ∷ name ∷ []) ∷ []
  target name other = []

  -- The paths of the files of an archive.
  abbrev pub targets : List Entry → List Str
  targets [] = []
  targets (e ∷ es) = target e.name e.type ++ targets es

  append_nil : (l : List Str) → l ++ [] ≡ l
  append_nil [] = refl
  append_nil (a ∷ l) = ap (λ r. a ∷ r) (append_nil l)

  extract_entry-writes :
      (name : Str) (type : EntryType) (mode : ℕ) (content : Str) (log : List Str) (w : World)
      → (extract_entry
          (logged os)
          dest
          (record { name = name; type = type; mode = mode; content = content })
          (log, w)).1.0
        ≡ log ++ target name type
  unfolding extract_entry
  extract_entry-writes name regular mode content log w = refl
  extract_entry-writes name other mode content log w = sym (append_nil log)
  extract_entry-writes name directory mode content log w =
      elim (os.stat (os.join (dest ∷ name ∷ [])) w)
        as (λ (x : Stat).
          (let r : Bool × (List Str × World) = elim x [
            | exists ↦ (true, (log, w))
            | not_exists ↦
                let (done, w') = os.mkdir_all (os.join (dest ∷ name ∷ [])) w in (done, (log, w'))
            | stat_failed ↦
                let (done, w') = os.mkdir_all (os.join (dest ∷ name ∷ [])) w in (done, (log, w'))
          ] in
            r.1.0)
          ≡ log ++ []) [
            | exists ↦ sym (append_nil log)
            | not_exists ↦ sym (append_nil log)
            | stat_failed ↦ sym (append_nil log)
          ]

  extract_entries-writes :
      (es : List Entry) (ends : Bool) (log : List Str) (w : World)
      → (extract_entries (logged os) dest es ends (log, w)).0 ≡ true
      → (extract_entries (logged os) dest es ends (log, w)).1.0 ≡ log ++ targets es
  unfolding extract_entries
  extract_entries-writes [] ends log w h = sym (append_nil log)
  extract_entries-writes (e ∷ es) ends log w h =
      let r = extract_entry (logged os) dest e (log, w) in
      let rest = extract_entries (logged os) dest es ends r.1 in
      elim (Bool-cases r.0) [
        | inr stopped ↦
            let fails : (extract_entries (logged os) dest (e ∷ es) ends (log, w)).0 ≡ false =
              rw (stopped, extract_entries) refl in
            cc (h, fails)
        | inl done ↦
            let same : extract_entries (logged os) dest (e ∷ es) ends (log, w) ≡ rest =
              rw (done, extract_entries) refl in
            ap (λ (x : Bool × (List Str × World)). x.1.0) same
            ∙ (extract_entries-writes es ends r.1.0 r.1.1
                  (sym (ap (λ (x : Bool × (List Str × World)). x.0) same) ∙ h)
                ∙ (ap (λ l. l ++ targets es)
                      (extract_entry-writes e.name e.type e.mode e.content log w)
                    ∙ append_assoc log (target e.name e.type) (targets es)))
      ]

  extract_entries-ends :
      (es : List Entry) (ends : Bool) (lw : List Str × World)
      → (extract_entries (logged os) dest es ends lw).0 ≡ true
      → ends ≡ true
  unfolding extract_entries
  extract_entries-ends [] ends lw h = h
  extract_entries-ends (e ∷ es) ends lw h =
      ground (arith, h, extract_entries-ends es ends (extract_entry (logged os) dest e lw).1)

  -- An extraction that succeeds has read an archive without an error and opened for writing, in
  -- their order, the files of the archive: each under the destination joined with its name,
  -- whatever the name is.
  pub extract_tar_gz-writes :
      (path : Str) (log : List Str) (w : World)
      → (extract_tar_gz (logged os) path dest (log, w)).0 ≡ ok tt
      → (es : List Entry) × (os.read_archive path w ≡ some (es, true))
        × ((extract_tar_gz (logged os) path dest (log, w)).1.0 ≡ log ++ targets es)
  unfolding extract_tar_gz
  extract_tar_gz-writes path log w h = elim (Option-cases (os.read_archive path w)) [
    | inl e ↦
        let fails : (extract_tar_gz (logged os) path dest (log, w)).0 ≡ err extract_failed =
          rw (e, extract_tar_gz) refl in
        cc (h, fails)
    | inr ((es, ends), e) ↦
        let r = extract_entries (logged os) dest es ends (log, w) in
        let same : extract_tar_gz (logged os) path dest (log, w) ≡ checked extract_failed r =
          rw (e, extract_tar_gz) refl in
        let done =
          checked-ok r
            (sym (ap (λ (x : Result WebError (Unit {0}) × (List Str × World)). x.0) same) ∙ h) in
        let ended = extract_entries-ends es ends (log, w) done in
        (
          es,
          e ∙ ap (λ b. some (es, b)) ended,
          ap (λ (x : Result WebError (Unit {0}) × (List Str × World)). x.1.0) same
              ∙ (checked-world r ∙ extract_entries-writes es ends log w done),
        )
  ]
