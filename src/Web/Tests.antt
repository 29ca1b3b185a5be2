-- ===== src/Web/Tests.antt =====
-- Runs of the web package manager on a system that only counts.
use habitat_new.Prelude.{
  ℕ, suc, Str, str, true, none, some, List, [], ◌∷◌, ◌++◌, ◌≡◌, refl, ok, err,
}
use habitat_new.App.{Package, web, noop}
use habitat_new.Web.Defs.{
  Entry, directory, regular, not_exists, Os, wrong_driver, extract_tar_gz, install_bundle,
}
use habitat_new.Web.Extraction.{logged, targets, extract_tar_gz-writes}

-- Paths joined by slashes, without the cleaning of filepath.Join.
abbrev join : List Str → Str
join [] = []
join (p ∷ []) = p
join (p ∷ q ∷ ps) = p ++ (str "/" ++ join (q ∷ ps))

abbrev archive : List Entry
archive =
    record { name = str "a"; type = directory; mode = 493; content = [] }
    ∷ record { name = str "../x"; type = regular; mode = 420; content = str "c" }
    ∷ []

abbrev os : Os ℕ
os = record {
  join = join;
  stat = λ path w. not_exists;
  mkdir_all = λ path w. (true, suc w);
  mkdir_temp = λ w. (some (str "/tmp/b"), suc w);
  remove_all = λ path w. (true, suc w);
  get = λ url w. (some [], suc w);
  create = λ path content w. (true, suc w);
  write = λ path mode content w. (true, suc w);
  read_archive = λ path w. some (archive, true);
  config_of =
      λ config. some (record { download_url = str "https://a/b"; bundle_directory_name = str "b" });
}

abbrev package_of : (driver : Str) → Package
package_of driver = record {
  driver = driver;
  driver_config = none;
  registry_url_base = [];
  registry_package_id = [];
  registry_package_tag = [];
}

unpacked : (extract_tar_gz (logged os) (str "t") (str "/web/b/1") ([], 0)).0 ≡ ok tt
unfolding extract_tar_gz
unpacked = refl

-- A name that leads out of the destination is taken as it is.
extract_tar_gz-writes_example :
    (es : List Entry) × (os.read_archive (str "t") 0 ≡ some (es, true))
    × ((extract_tar_gz (logged os) (str "t") (str "/web/b/1") ([], 0)).1.0
        ≡ targets os (str "/web/b/1") es)
extract_tar_gz-writes_example = extract_tar_gz-writes os (str "/web/b/1") (str "t") [] 0 unpacked

escaping : targets os (str "/web/b/1") archive ≡ str "/web/b/1/../x" ∷ []
escaping = refl

installed :
    (install_bundle (logged os) (str "/web") (package_of web) (str "1") ([], 0)).1
    ≡ (str "/web/b/1/../x" ∷ [], 8)
unfolding install_bundle
installed = refl

refused : install_bundle os (str "/web") (package_of noop) (str "1") 0 ≡ (err wrong_driver, 0)
unfolding install_bundle
refused = refl
