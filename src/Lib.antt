-- ===== src/Lib.antt =====
-- Verification of workers-auth, an authentication library for Cloudflare Workers.
--
-- The program. An application mounts routes that log a user in and mint sessions, and a middleware
-- that reads the session of each request. Sessions live in a session store (D1, KV or Postgres). The
-- providers recognise a user by a cookie or bearer session, a magic link, an API key or a JWT. Login by
-- email code, PIN and trusted device has a store of its own, with one table each for rate limits,
-- email codes, login guards, trusted devices and credentials. The routes call both stores, the
-- WebCrypto helpers and the CSRF check.
--
-- The files and the code (paths are those of the repository):
--   Prelude           Boolean tests, rows of a table (`update_where` and the like), tables by key
--   Limits, Codes, Guards, Devices, Creds, Store
--                     src/device-auth/store.ts, `d1DeviceAuthStore`: one function for each
--                     operation, named after it (`hitRateLimit` is `hit_rate_limit`)
--   Crypto, Base64    src/crypto.ts
--   Keys              src/device-auth/keys.ts, `buildKeyRing`
--   Pin, Material     src/device-auth/credentials.ts: `isWeakPin` and `pinCredential`
--   Revocation        src/store/revocation.ts
--   Sessions          src/store/d1.ts and the types of src/types.ts
--   KvSessions        src/store/kv.ts
--   Csrf              src/csrf.ts
--   Web               replies, events, the state of a request, and the monad of a handler
--   Request           what a request presents: body, address, device token
--   Ip                src/device-auth/ip.ts
--   Handlers          src/device-auth/index.ts, `deviceAuth`: its settings; below it Plumbing (the
--                     gate, limits, presented device), Session (src/device-auth/sessions.ts, reading
--                     and minting), Email and Verify (`/email/start`, `/email/verify`), Login
--                     (`/pin`, `/pin/status`, `/pin/login`), Manage (devices, logout)
--   Routes            src/middleware.ts and src/routes.ts
--   MagicLink         src/providers/magic-link.ts: the two token stores, `start` and `verify`
--   ApiKeys           src/providers/api-key.ts: the two key stores, `issueApiKey` and `verify`
--   Pg                the semantics of the SQL statements of src/store/pg; below it Executor
--                     (executor.ts), Sessions (session.ts), DeviceAuth (device-auth.ts; Replace has
--                     its transaction and cleanup) and Contract (the calls of `DeviceAuthStore`)
--   Cookies           src/cookie.ts, and the cookies that src/middleware.ts sets and clears; Uri has
--                     `encodeURIComponent` and `decodeURIComponent`
--   Neon              src/providers/neon.ts: Keys has the cached key set, Verify the token
--   EmailCode         src/device-auth/index.ts, `generateEmailCode`
--   Auth              src/index.ts: the checks of `createAuth`, `destroySession` and `verify`
--   DeviceAuth        src/device-auth/index.ts: the checks and defaults of the options, from which
--                     come the settings that Handlers starts with
--   Bearer            src/providers/session-bearer.ts
--   Client            src/client.ts: a machine whose steps are the calls of the client and the
--                     settlements of its fetches
--   Tests             the theorems at concrete inputs
--
-- How the code is modelled. A time is a natural number of milliseconds; where the code subtracts
-- times, the model adds on the other side (`window_start + window ≤ now`), so nothing is cut off at
-- 0. One SQL statement is one function on a table, and a batch is one function that has no effect
-- where it throws; so requests interleave between statements and not within one. An insert that
-- breaks a constraint is none. A handler is a program in a monad that may stop with a reply or
-- throw; what was written before stays written. It reads the clock once, and its random values are
-- arguments. KV is eventually consistent: what its reads return is an argument. WebCrypto, URL
-- parsing, `toLowerCase`, the printing of dates and the callbacks of the options are parameters. No
-- loop needs fuel: the loops run over lists, that of `generateEmailCode` over what the platform
-- draws. The one recursion on fuel is `decimal`, which prints a number `n` with fuel `n + 1`, more than
-- it has digits.
--
-- Not modelled: concurrent fetches of one key set (one request runs at a time), the entropy estimate
-- of a secret (logarithms of floats), fractions of seconds, what a Postgres driver returns beyond rows
-- and counts, the constant response headers and the test helpers. A `getToken` or
-- `getKey` of the application replaces the modelled one. Of a session's metadata only what the library
-- writes is kept, and of an API key's record all but its claims.
pub mod Prelude
pub mod Limits
pub mod Codes
pub mod Guards
pub mod Devices
pub mod Creds
pub mod Store
pub mod Crypto
pub mod Keys
pub mod Base64
pub mod Pin
pub mod Material
pub mod Revocation
pub mod Sessions
pub mod KvSessions
pub mod Csrf
pub mod Web
pub mod Request
pub mod Ip
pub mod Handlers
pub mod Routes
pub mod MagicLink
pub mod ApiKeys
pub mod Pg
pub mod Bearer
pub mod Cookies
pub mod Client
pub mod EmailCode
pub mod Auth
pub mod DeviceAuth
pub mod Neon
pub mod Tests
