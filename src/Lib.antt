-- ===== src/Lib.antt =====
-- micro-identity-sidecar: an OAuth 2.1 and OpenID Connect server that runs beside an application.
--
-- The program's parts. internal/jwtutil signs and verifies JWTs. internal/keys holds the signing keys
-- and rotates them. internal/session keeps sessions, as JWTs (stateless.go) or as rows of a table under
-- the hash of an opaque token (stateful.go), over a backend in memory or in a file; bridge.go chooses
-- between the two. internal/pkce checks code verifiers. internal/oidc is the server: /authorize
-- issues codes, /token exchanges codes and refresh tokens, /userinfo, /revoke and the discovery
-- documents are the rest. cmd/sidecar/main.go connects them: all stateful sessions and refresh tokens
-- share one table, and both kinds of session share the key manager.
--
-- The files. A definition has the name of its Go function in snake case.
--   Prelude: tests, lists over the native numbers, results, and Go's maps as association lists.
--   Go: what is used of encoding/base64, strings and the decimals of fmt; Duration is time.ParseDuration
--     and its values on whole units.
--   Platform: crypto/sha256, crypto/rsa, crypto/ed25519, the text of encoding/json and utf8.ValidString,
--     as a record of functions that everything takes; IsSound is what their documentation promises.
--   Jwt: internal/jwtutil/jwt.go. Claims is the JSON of a claim set, Token the rest, Exponent the numbers
--     of a JWK.
--   Keys: internal/keys/manager.go. A Manager is a value, its methods functions on it;
--     Published is the key set; Generation, Invariant, Kid, Rotation, Jwks and
--     Reading, which reads a JWK by the standards, are the proofs.
--   Session: session.go and backend.go; Table is what a backend promises; Memory, File, Opaque, Stateless
--     and Bridge are the files backend_memory.go, backend_file.go, stateful.go, stateless.go, bridge.go.
--     World is what the stores share: the keys and the table.
--   Pkce: internal/pkce/pkce.go.
--   Oidc: internal/oidc. Server holds the records, Clients and Users the registries, Issue and Token
--     token.go, Authorize and Resources the other handlers; a handler is a function of the request, the
--     time and what the random source gives, from state to state and response. Routes is the mux of
--     server.go and main.go, Wire what writeJSON writes. History is the server of main.go and what a
--     sequence of calls does to it, and what the tokens that it hands out are good for. Concurrent has
--     the requests to /token in flight, as threads that move from one access of shared state to the
--     next, in any interleaving.
--   Config: internal/config/config.go, over an environment that is a function.
--   Main: cmd/sidecar/main.go up to the point where the server listens; a start ends in a failure or in
--     a process. Session/Any is the backend that it chooses, as a value of the interface.
--   Middleware: examples/middleware/middleware.go, the remote validator, and in Local the cached one;
--     Local/Members and Local/Printed have the JSON between the key set and the cache.
--   ExampleApp: examples/exampleapp/main.go.
--   Examples: a platform that keeps every promise, and the theorems applied on it.
--
-- Conventions and bounds. Time counts nanoseconds from 1970 on and durations are not negative; the zero
-- time of a key that is not retired is `none`. A call reads the clock once. Numbers in JSON are naturals
-- below 2^53, which a float64 holds exactly, and any other number is `raw` text that does not decode
-- into an integer field; the names of JSON members are matched exactly, and an object has a name once.
-- The order in which Go ranges over a map is never observable, so a map is a list without repeated keys.
-- A nil signer or verifier, on which the program would panic, is the error `no_signer`; managers as
-- NewManager makes them never reach it. Errors of the disk are a script that the file backend plays, and
-- a gob file that was written to its end is decoded as the table that was encoded. Each method
-- that takes a lock is one step; a history is a sequence of whole requests, and only Oidc/Concurrent
-- takes requests apart. A duration from the environment is an int64, written as a signed number;
-- where main passes it on as a period of the server it must not be negative, and a configuration with
-- a negative one is the outcome `unclocked`. Recursion is structural everywhere but in three places:
-- the digits of Go/Decimal and of `low_first` in Jwt/Exponent, whose fuel is the number itself, and the
-- loop of ParseDuration, whose fuel is the length of the text, of which each round takes a byte
-- (Go/Duration/Fuel). The lemmas on their values show the fuel to be enough.
--
-- Not modelled: the HTTP server and the parsing of URLs, forms, headers and basic authentication, which
-- a Request holds already parsed; the cleaning of paths by the mux; the HTML pages; the assembly of a
-- redirect's URL; response headers; the indented text of the key set; logging; the shutdown of main.
pub mod Prelude
pub mod Go
pub mod Platform
pub mod Jwt
pub mod Config
pub mod Keys
pub mod Session
pub mod Pkce
pub mod Oidc
pub mod Main
pub mod Middleware
pub mod ExampleApp
pub mod Examples
