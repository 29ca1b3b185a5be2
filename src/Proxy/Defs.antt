-- ===== src/Proxy/Defs.antt =====
-- Rules, the rule set, matching and serving. A response is its status code and what handles it.
use habitat_new.Prelude.{
  ℕ, ltb, Str, str, str_eq, has_prefix, trim_prefix, count_byte, Bool, true, false, not, ◌||◌,
  Option, none, some, is_some, List, [], ◌∷◌, Result, ok, err, if◌then◌else◌,
}
use habitat_new.Prelude.Dict.{find, insert, erase}

pub record Rule : Type 0 where
  pub id : Str
  pub type : Str
  pub matcher : Str
  pub target : Str
  pub app_id : Str

abbrev pub file_server : Str
file_server = str "file"

abbrev pub redirect : Str
redirect = str "redirect"

abbrev pub embedded_frontend : Str
embedded_frontend = str "embedded_frontend"

pub data RuleError : Type 0 where
  already_present : Str → RuleError
  unsupported_type : Str → RuleError
  missing_rule : Str → RuleError
  unknown_rule_type : Str → RuleError
  bad_target : Str → RuleError

-- RuleSet.rules; the base path is a field of the server that nothing here reads.
abbrev pub RuleSet : Type 0
RuleSet = List (Str × Rule)

-- The test of RuleSet.AddRule on the type.
unfoldable pub is_supported : Str → Bool
is_supported t = str_eq t redirect || str_eq t file_server || str_eq t embedded_frontend

-- RuleSet.AddRule: the error, if any, and the set afterwards.
unfoldable pub add_rule : Rule → RuleSet → Result RuleError (Unit {0}) × RuleSet
unfolding is_supported
add_rule rule rs =
    if is_some (find rule.id rs)
    then (err (already_present rule.id), rs)
    else if not (is_supported rule.type)
    then (err (unsupported_type rule.type), rs)
    else (ok tt, insert rule.id rule rs)

-- RuleSet.Remove
unfoldable pub remove : Str → RuleSet → Result RuleError (Unit {0}) × RuleSet
remove name rs =
    if is_some (find name rs) then (ok tt, erase name rs) else (err (missing_rule name), rs)

-- matchRule on the URL's path.
unfoldable pub match_rule : Str → Rule → Bool
unfolding has_prefix trim_prefix
match_rule path rule =
    if has_prefix path rule.matcher
    then (let rest = trim_prefix path rule.matcher in str_eq rest [] || has_prefix rest (str "/"))
    else false

-- rankMatch
unfoldable pub rank_match : Rule → ℕ
unfolding count_byte
rank_match rule = count_byte b'/' rule.matcher

-- The loop variables of ServeHTTP: bestMatch with its rank, none for nil and -1.
abbrev pub Best : Type 0
Best = Option (Rule × ℕ)

-- rank > highestRank
abbrev pub beats : ℕ → Best → Bool
beats rank none = true
beats rank (some (_, highest)) = ltb highest rank

-- One round of the loop.
unfoldable pub consider : Str → Best → Rule → Best
unfolding match_rule rank_match
consider path best rule =
    if match_rule path rule
    then (if beats (rank_match rule) best then some (rule, rank_match rule) else best)
    else best

unfoldable pub best_from : Str → Best → RuleSet → Best
unfolding consider
best_from path best [] = best
best_from path best ((_, rule) ∷ rs) = best_from path (consider path best rule) rs

-- The search loop of ServeHTTP.
unfoldable pub best_match : Str → RuleSet → Option Rule
unfolding best_from
best_match path rs = elim (best_from path none rs) [ none ↦ none | some (rule, _) ↦ some rule ]

-- What a request is handed to: the two handlers of handler.go with what they keep of the rule.
pub data Handler : Type 0 where
  forward : (matcher host base : Str) → Handler
  files : (prefix path base : Str) → Handler

-- net/url.Parse as far as getRedirectHandler reads it: the host and the path.
abbrev pub ParseUrl : Type 0
ParseUrl = Str → Option (Str × Str)

-- getRedirectHandler
unfoldable pub get_redirect_handler : ParseUrl → Rule → Result RuleError Handler
get_redirect_handler parse rule = elim (parse rule.target) [
  | none ↦ err (bad_target rule.target)
  | some (host, path) ↦ ok (forward rule.matcher host path)
]

-- getFileServerHandler with the option WithBasePath
unfoldable pub get_file_server_handler : Rule → Str → Result RuleError Handler
get_file_server_handler rule base = ok (files rule.matcher rule.target base)

-- getHandlerFromRule
unfoldable pub get_handler_from_rule : ParseUrl → Rule → Str → Result RuleError Handler
unfolding get_redirect_handler get_file_server_handler
get_handler_from_rule parse rule base =
    if str_eq rule.type redirect
    then get_redirect_handler parse rule
    else if str_eq rule.type file_server
    then get_file_server_handler rule base
    else err (unknown_rule_type rule.type)

-- A call of the http.ResponseWriter: WriteHeader, or Write of the text of an error.
pub data Write : Type 0 where
  write_header : ℕ → Write
  write_error : RuleError → Write

-- How ServeHTTP answers: by calls of its own, in their order, or by a handler.
pub data Reply : Type 0 where
  written : List Write → Reply
  served : Rule → Handler → Reply

-- ProxyServer.ServeHTTP
unfoldable pub serve_http : ParseUrl → Str → RuleSet → Str → Reply
unfolding best_match get_handler_from_rule
serve_http parse base rs path = elim (best_match path rs) [
  | none ↦ written (write_header 404 ∷ [])
  | some rule ↦ elim (get_handler_from_rule parse rule base) [
    | err e ↦ written (write_error e ∷ write_header 500 ∷ [])
    | ok h ↦ served rule h
  ]
]

-- The status that net/http sends (documentation of http.ResponseWriter): a Write before WriteHeader
-- makes it 200, later calls of WriteHeader do not change it.
unfoldable pub sent_status : List Write → ℕ
sent_status [] = 200
sent_status (write_header code ∷ _) = code
sent_status (write_error _ ∷ _) = 200

-- The status of an answer that ServeHTTP writes itself.
unfoldable pub status : Reply → Option ℕ
unfolding sent_status
status (written ws) = some (sent_status ws)
status (served _ _) = none
