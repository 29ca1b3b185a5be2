-- ===== src/Web/Defs.antt =====
-- webPackageManager (package_manager.go): bundles are downloaded, unpacked and removed.
use habitat_new.Prelude.{
  ℕ, Str, str, str_eq, Bool, true, false, not, Option, none, some, List, [], ◌∷◌, Result, ok, err,
  if◌then◌else◌,
}
use habitat_new.Prelude.Dict.{Dict, values, entries}
use habitat_new.Prelude.Json.{Json}
use habitat_new.App.{Package, Installation, web}
use habitat_new.Controller.{PackageManager}

-- BundleInstallationConfig
pub record BundleConfig : Type 0 where
  pub download_url : Str
  pub bundle_directory_name : Str

-- The types of a tar header that the extraction tells apart.
pub data EntryType : Type 0 where
  directory regular other : EntryType

-- An entry of an archive: its header and its content.
pub record Entry : Type 0 where
  pub name : Str
  pub type : EntryType
  pub mode : ℕ
  pub content : Str

-- The outcome of os.Stat.
pub data Stat : Type 0 where
  exists not_exists stat_failed : Stat

-- What the package manager takes from os, path/filepath, net/http, archive/tar, compress/gzip and
-- encoding/json, on a world of any type. A test is true where the call has no error.
pub record Os (World : Type 0) : Type 0 where
  pub join : List Str → Str
  pub stat : Str → World → Stat
  pub mkdir_all : Str → World → Bool × World
  pub mkdir_temp : World → Option Str × World
  pub remove_all : Str → World → Bool × World
  -- http.Get: the body, of whatever status
  pub get : (url : Str) → World → Option Str × World
  -- os.Create and io.Copy
  pub create : (path content : Str) → World → Bool × World
  -- os.OpenFile with O_CREATE and O_RDWR, io.Copy and Close
  pub write : (path : Str) → (mode : ℕ) → (content : Str) → World → Bool × World
  -- os.Open and gzip.NewReader: the entries up to the end, or up to an error (false).
  pub read_archive : (path : Str) → World → Option (List Entry × Bool)
  -- json.Marshal of a DriverConfig and json.Unmarshal
  pub config_of : Dict Json → Option BundleConfig

pub data WebError : Type 0 where
  wrong_driver bad_config mkdir_failed temp_failed download_failed create_failed extract_failed
        remove_failed :
      WebError

-- The error of a test.
abbrev pub checked : {World : Type 0} → WebError → Bool × World → Result WebError (Unit {0}) × World
checked e (true, w) = (ok tt, w)
checked e (false, w) = (err e, w)

module _ {World : Type 0} (os : Os World) where
  -- The body of the loop of extractTarGz, without an error of the archive.
  unfoldable pub extract_entry : (dest : Str) → Entry → World → Bool × World
  extract_entry dest e w = elim e.type [
    | directory ↦ elim (os.stat (os.join (dest ∷ e.name ∷ [])) w) [
      | exists ↦ (true, w)
      | not_exists ↦ os.mkdir_all (os.join (dest ∷ e.name ∷ [])) w
      | stat_failed ↦ os.mkdir_all (os.join (dest ∷ e.name ∷ [])) w
    ]
    | regular ↦ os.write (os.join (dest ∷ e.name ∷ [])) e.mode e.content w
    | other ↦ (true, w)
  ]

  -- The loop of extractTarGz
  unfoldable pub extract_entries : (dest : Str) → List Entry → (ends : Bool) → World → Bool × World
  unfolding extract_entry
  extract_entries dest [] ends w = (ends, w)
  extract_entries dest (e ∷ es) ends w =
      let (done, w') = extract_entry dest e w in
      let rest = extract_entries dest es ends w' in if done then rest else (false, w')

  -- extractTarGz
  unfoldable pub extract_tar_gz : (path dest : Str) → World → Result WebError (Unit {0}) × World
  unfolding extract_entries
  extract_tar_gz path dest w = elim (os.read_archive path w) [
    | none ↦ (err extract_failed, w)
    | some (entries, ends) ↦ checked extract_failed (extract_entries dest entries ends w)
  ]

  -- downloadWebBundle
  unfoldable pub download_web_bundle : (url file : Str) → World → Result WebError (Unit {0}) × World
  download_web_bundle url file w =
      let (answer, w') = os.get url w in
      elim answer [
        | none ↦ (err download_failed, w')
        | some body ↦ checked create_failed (os.create file body w')
      ]

  -- The part of downloadAndExtractWebBundle with the temporary directory.
  unfoldable pub extract_with :
      (url bundle_path dir : Str) → World → Result WebError (Unit {0}) × World
  unfolding download_web_bundle extract_tar_gz
  extract_with url bundle_path dir w =
      let file = os.join (dir ∷ str "bundle.tar.gz" ∷ []) in
      let (made, w1) = os.mkdir_all bundle_path w in
      if not made
      then (err mkdir_failed, w1)
      else (let (downloaded, w2) = download_web_bundle url file w1 in
          elim downloaded [ err e ↦ (err e, w2) | ok _ ↦ extract_tar_gz file bundle_path w2 ])

  -- downloadAndExtractWebBundle: the temporary directory is removed at the end.
  unfoldable pub download_and_extract :
      (url bundle_path : Str) → World → Result WebError (Unit {0}) × World
  unfolding extract_with
  download_and_extract url bundle_path w =
      let (temp, w') = os.mkdir_temp w in
      elim temp [
        | none ↦ (err temp_failed, w')
        | some dir ↦
            let (r, w'') = extract_with url bundle_path dir w' in (r, (os.remove_all dir w'').1)
      ]

  module _ (web_bundle_path : Str) where
    -- getBundlePath
    unfoldable pub bundle_path : BundleConfig → (version : Str) → Str
    bundle_path config version =
        os.join (web_bundle_path ∷ config.bundle_directory_name ∷ version ∷ [])

    -- IsInstalled
    unfoldable pub is_installed : Package → (version : Str) → World → Result WebError Bool
    unfolding bundle_path
    is_installed pkg version w = elim (os.config_of pkg.driver_config) [
      | none ↦ err bad_config
      | some config ↦ elim (os.stat (bundle_path config version) w) [
        | not_exists ↦ ok false
        | exists ↦ ok true
        | stat_failed ↦ ok true
      ]
    ]

    -- InstallPackage
    unfoldable pub install_bundle :
        Package → (version : Str) → World → Result WebError (Unit {0}) × World
    unfolding bundle_path download_and_extract str_eq
    install_bundle pkg version w =
        let (made, w') = os.mkdir_all web_bundle_path w in
        if not (str_eq pkg.driver web)
        then (err wrong_driver, w)
        else (if not made then (err mkdir_failed, w') else (elim (os.config_of pkg.driver_config) [
          | none ↦ (err bad_config, w')
          | some config ↦ download_and_extract config.download_url (bundle_path config version) w'
        ]))

    -- UninstallPackage
    unfoldable pub uninstall_bundle :
        Package → (version : Str) → World → Result WebError (Unit {0}) × World
    unfolding bundle_path
    uninstall_bundle pkg version w = elim (os.config_of pkg.driver_config) [
      | none ↦ (err bad_config, w)
      | some config ↦ elim (os.stat (bundle_path config version) w) [
        | not_exists ↦ (ok tt, w)
        | exists ↦ checked remove_failed (os.remove_all (bundle_path config version) w)
        | stat_failed ↦ checked remove_failed (os.remove_all (bundle_path config version) w)
      ]
    ]

    -- The loop of RestoreFromState, with the error of the apps before. An app that fails does not
    -- end it.
    unfoldable pub restore_bundles :
        List Installation → Result WebError (Unit {0}) → World → Result WebError (Unit {0}) × World
    unfolding install_bundle str_eq
    restore_bundles [] last w = (last, w)
    restore_bundles (a ∷ apps) last w =
        let (r, w') = install_bundle a.pkg a.version w in
        let failed = restore_bundles apps r w' in
        let went_on = restore_bundles apps last w' in
        let skipped = restore_bundles apps last w in
        if str_eq a.driver web then (elim r [ ok _ ↦ went_on | err _ ↦ failed ]) else skipped

    -- The manager as the controller calls it, with the text of an error.
    unfoldable pub web_package_manager : (text : WebError → Str) → PackageManager World
    unfolding install_bundle restore_bundles values
    web_package_manager text = record {
      install_package = λ pkg version w. told (install_bundle pkg version w);
      restore = λ apps w. told (restore_bundles (values (entries apps)) (ok tt) w);
    }
      where
        told : Result WebError (Unit {0}) × World → Result Str (Unit {0}) × World
        told (ok _, w) = (ok tt, w)
        told (err e, w) = (err (text e), w)
