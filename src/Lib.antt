-- ===== src/Lib.antt =====
-- Xal-Tor-Ka is an authentication gate in front of NGINX. NGINX asks the gate about every request
-- (/validate); the gate finds the route in its matrix of backends, looks at the route's rule, at the
-- session cookie and at the user's grants, and answers 200, 401 or 403. Sessions come from the
-- login pages: a local password, an LDAP bind or a one-time code, then a TOTP code.
--
-- Base: truth tests, lists, texts, maps and signed numbers that all parts share.
-- Models (models/config.go): Settings, Services and Identity hold the structures; Grants holds
--   GrantID, EffectiveGrantID, CanonicalRule and CanonicalizeRules.
-- Matrix (matrix/matrix.go): Resolve as the two nested loops of the source, and Authorized.
-- Auth: Sessions (auth/session.go), Otp (auth/otp.go), Totp (auth/totp.go), Directory
--   (auth/directory.go). History and Trust run the session store over any sequence of calls.
-- Config: Validate (config/validate.go), a chain of checks with the source's messages; Expand
--   (config/expand.go), the variables in a text.
-- Providers: Local (providers/local.go), Ldap (providers/ldap.go).
-- Handlers: Server (the shared state of handlers/server.go), Net (client addresses), Next
--   (sanitizeNext), Validate (handleValidate), Gate (handlers/adminauth.go), Login
--   (handlers/login.go), Code (handlers/otp.go), Services (Reload, HealthTargets, mergeProviders),
--   Listing (groupTiles, tilesFor, canSeeBackend), Number (strconv.Atoi where its error is ignored).
-- Handlers.Admin (handlers/admin.go): the parent holds mutateServices, mutateUsers, afterMutation and
--   the guard around every handler; Links, Form, Backends, Scan, Networks, Users and Grants hold the
--   edits, Upstream their texts. Saved is the induction principle for an edit of services.json, Ids
--   the relation of those that change an id. Setup (handlers/setup.go), Profile (handlers/profile.go) and
--   ProviderForms (handlers/providers.go) are built on the same parent.
-- Agent (agent/): Command checks and runs a command, Serve answers a connection, Buffer keeps the
--   front of the output. Remote.Control (remote/control.go): the commands that come by chat.
-- Proxy (proxy/generate.go): Group orders the backends of a host, Locations finds its blocks, of which Blocks
--   says when no two have one path.
-- Health.Checker (health/checker.go): the ticks, the last states and the alerts.
-- Tests: the theorems at concrete values.
--
-- State is passed explicitly: an operation takes the store or the server and returns the new one.
-- The mutexes make the methods of a store atomic, so a concurrent run is a sequence of steps. The
-- clock, the random source and the success of a write to disk are arguments. An instant is a number
-- of nanoseconds; Go's int is an integer without bounds, except where a counter is a uint64 (Totp)
-- or a text is read as a number (Config.Validate, Handlers.Number). Texts are sequences of characters, and `len` is
-- their length in bytes; texts that are not UTF-8 are outside the model. A nil or a missing key is
-- `none`. Recursion follows the lists and texts that the loops run over; only Config.Expand and the
-- digits of a number are on fuel, the number of characters and the number of digits of the type.
--
-- Parameters stand for code outside the repository: the parsing of addresses and URLs (NetLib,
-- UrlLib), the directory server (LdapNet), HMAC-SHA1, Base32 and the digest. So do the check of a
-- password (auth/password.go, argon2id) and the rich text of a tile (handlers/richtext.go), which the
-- model does not open.
--
-- A handler of the administration is a function of an Effects value: the clock, the success of each
-- write, what a torn write leaves, and the values that hashing and the random source give. The users
-- of the directory share the arrays of their grants with the copies that an edit works on; Grants
-- writes out what the directory then shows.
--
-- Not modelled: files and their JSON encoding, the OIDC exchange, certificates, notifications, the
-- texts of pages and the tables they show, and the hosting extension.
pub mod Base
pub mod Models
pub mod Matrix
pub mod Auth
pub mod Config
pub mod Providers
pub mod Handlers
pub mod Proxy
pub mod Health
pub mod Agent
pub mod Remote
pub mod Tests
