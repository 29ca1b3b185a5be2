-- ===== src/Lib.antt =====
-- Habitat: the node's controller with the state it keeps, the processes it runs and the reverse
-- proxy in front of them; the repository of private records with its permissions; and the
-- authentication of users, of other servers and of apps.
--
-- A node holds one document of JSON, its state. The controller changes it by transitions, which
-- the database validates, turns into JSON patches, applies, checks against a schema and writes to
-- a file; it starts and stops processes through the drivers of the process manager, installs
-- packages through package managers, and gives the reverse proxy the rules by which it serves
-- requests. At startup the state is migrated and what it lists is installed and started again.
--
-- The private records are rows of an SQLite database, by the owner's DID and a key that is the
-- collection and the record's own key. Permissions are rows too: a grantee may read what an owner
-- has granted, and the store asks for that before it hands out a record.
--
-- A user signs in with their PDS through OAuth; a cookie session keeps the key, the tokens and the
-- nonce, with which the broker forwards requests to the PDS. The node is an OAuth server for apps
-- itself, whose tokens hold their sealed session. Another server proves its identity by signing a
-- challenge, for a token. The server of the private records asks these for its caller.
--
-- The modules and the code they are about:
--   Prelude        Go strings as byte lists, maps, values with an error, encoding/json's `any`.
--   App            internal/app: Package, Installation, DriverTypeFromString.
--   Process        internal/process: NewID, driverFromID, the Driver interface, processManager.
--   Proxy          internal/node/reverse_proxy: RuleSet, AddRule, Remove, matchRule, rankMatch,
--                  getHandlerFromRule, ServeHTTP with its calls of the ResponseWriter (Defs); the
--                  status that net/http sends for them is `sent_status`.
--   State          internal/node/state: state.go (Types, Schema), schema.go (Schema),
--                  migrations.go (Schema, Migrations), transitions.go and types.go (Transitions),
--                  json.go (Propose), db.go (Db).
--   Controller     internal/node/controller: controller.go (Defs, Apps), server.go (Server);
--                  Defs also has the PackageManager of internal/app.
--   Permissions    internal/permissions/sqlite_store.go: HasPermission and the calls that grant,
--                  remove and list permissions.
--   Privi          internal/privi: repo.go and privi.go, putRecord, getRecord, listRecords (Defs);
--                  server.go (Server).
--   Auth           internal/auth: session.go (Session), dpop.go (Dpop), broker.go (Broker),
--                  oauth_client.go (Types, Client), login_handler.go (Signin).
--   Oauthserver    internal/oauthserver: session.go, strategy.go, storage.go and client.go (Defs),
--                  oauth_server.go (Handlers).
--   Bffauth        internal/bffauth: challenge.go, session.go, jwt.go and provider.go (Defs).
--   Web            internal/web/package_manager.go: the package manager (Defs).
--   Lexgen         cmd/lexgen/main.go: names (Names), the generated code (Defs).
--
-- The model keeps the code's shape. A map is an association list, none where Go's map is nil; the
-- iteration takes its entries in the order of the list, for every such order. A function that
-- returns a value and an error returns a Result; a method that changes its object returns the new
-- object. The outcome of a write to the file is an argument (`done`, or `failed` with what is then
-- on the disk), as are new UUIDs and the time. Drivers and package managers are records of
-- functions that act on a world of any type. Every loop is a structural recursion on the list it
-- goes through, so that no bound or fuel is needed.
--
-- Code of other packages is a parameter: encoding/json, evanphx/json-patch, wI2L/jsondiff,
-- qri-io/jsonschema, the comparison of versions by golang.org/x/mod/semver and the embedded schema
-- files make up the record `Codec` (State.Codec). What the theorems assume of them is the record
-- `CodecLaws` (State.CodecLaws): what unmarshalling gives back, what a patch does to the document
-- that encodes a state, and that a diff leads from one to the other. State.Sample has a codec that
-- meets them. Patches are written into JSON text and paths without escaping; the theorems ask that
-- the IDs in them need none (`HasTokens`): they are printable ASCII without slash, tilde, quote and
-- backslash. The laws keep the order of a map's list through a document. The code is looser there:
-- encoding/json sorts the members, and a loop of Go may take another order after each decoding.
--
-- A query is the selection and the order that its SQL spells out, over the list of the table's
-- rows; what it takes from SQLite (LIKE, LENGTH, the order of texts) is the record `Sqlite`, with
-- the behaviour of LIKE that the theorems use in `SqliteLaws` (Permissions.Defs). gorm's soft
-- delete marks a row. Whether the database answers is an argument of each call.
--
-- Cryptography and transport are parameters too: `Crypto` with `TokenLaws` (Bffauth: what
-- golang-jwt signs it parses back), `Keys` with `KeysLaws` (Auth: marshalled keys and tokens read
-- back), `Sealing` with `SealingLaws` (Oauthserver: cbor, base64 and secretbox read back what they
-- wrote), `Transport` (Auth.Dpop: the signature and http.DefaultClient, on a world of any type; one
-- `send` is one call of its Do, redirects included), and a record `Outside` for each server that
-- says what it takes from net/url, fosite, the identity directory and the interfaces that it is
-- given: OAuthClient for the broker and the OAuth server, whose implementation is Auth.Client
-- (Auth.Refreshing puts it in), and the OAuth server's Validate for the private records. `Remote`
-- and `Directory` do so for the client and the sign-in (Auth), `Os` for the files of the web package
-- manager (Web). Each has an instance in the Sample of its module or in its Tests. Saving a cookie
-- and encoding a response are taken to succeed. In lexgen, the order in which Go goes through a map
-- is an argument, `iterate`.
--
-- Transitions have a specification on the typed state, State.Transitions.Step: `step` says what a
-- transition checks and changes without documents, patches or schemas, and `run` does a list.
-- State.Invariant.Defs says which states are consistent.
--
-- Not modelled: the forwarding of requests and the listeners of the proxy, the routes of the HTTP
-- servers, Docker (its driver and package manager are parameters), locking in the database and the
-- rule set (each call is one step), the blobs, the encryption and the signing method of
-- internal/privi, the stores of internal/permissions over casbin and in memory, the handlers that
-- only hand on the client's metadata, HandleToken, which hands its request to fosite, the client of
-- internal/bffauth, the files that lexgen reads and writes, the configuration, the app store, the
-- other commands, the generated API and the frontend.
pub mod Prelude
pub mod App
pub mod Process
pub mod Proxy
pub mod State
pub mod Controller
pub mod Permissions
pub mod Privi
pub mod Auth
pub mod Oauthserver
pub mod Bffauth
pub mod Lexgen
pub mod Web
