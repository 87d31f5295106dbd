-- ===== src/Lib.antt =====
-- Ligament 2FA, verified: the models of the Go server's own logic and the theorems about them.
--
-- The server answers RADIUS Access-Requests (PAP, or PAP inside EAP-TTLS and PEAP), logins of a REST
-- API and of a cabinet, with a password and a second factor: a TOTP code, a backup code, a code
-- delivered by mail, SMS or Telegram, or a push that the user approves. A packet goes through
-- internal/radiusserver/eap to the credentials, these to internal/auth, which asks internal/store for
-- users, challenges and secrets and tells internal/firewall of every failure. internal/license
-- decides how many users the server may have.
--
-- Prelude: native numbers, lists, Boolean tests, and the results of fallible functions.
-- Eap: internal/radiusserver/eap. Eap/Bytes big-endian fields; Eap/Packet packet.go (Parse, Build);
--   Eap/Avp avp.go (BuildAVP, ParseAVPs); Eap/Flags, Eap/Ttls and Eap/Peap ttls.go and peap.go (ParseTTLS,
--   BuildTTLS, FragmentTTLS and their PEAP forms); Eap/Assembler the reassembly (Add);
--   Eap/Fragment a receiver of a whole chain, as handleTTLS and handlePEAP begin. Eap/Mschap mschapv2.go: the
--   messages and TLVs; Eap/Mschap/Keys the hashes, VerifyMSCHAPv2 and the derivation of keys.
-- Store: internal/store. Store/State the rows, the clock and the monad of queries; Store/Triple the
--   rules to reason about it; Store/Challenges challenges.go; Store/Totp totp.go;
--   Store/Trust radius_trusted.go; Store/Oidc oidc.go.
-- Auth: internal/auth. Auth/Config the settings and the cryptography; Auth/Audit audit and FailLocked;
--   Auth/Totp verifyTOTP; Auth/Codes VerifyChallengeCode and VerifyAnyCode, with what an accepted code is
--   in Auth/Codes/Factor; Auth/Split SplitCandidates;
--   Auth/Login LocalVerifier.Verify and VerifyPasswordAndCode; Auth/Radius RADIUSAuth and
--   livePendingPush, with the held request in Auth/Radius/Hold and the push that it is held for in
--   Auth/Radius/Pending.
-- License: internal/license. License/File ParseLicense and ParseRevocation; License/Status
--   computeStatus, daysLeft and CheckBuildAllowed; License/Manager the operations of the manager.
-- Firewall: internal/firewall and internal/store/firewall.go. Firewall/Bans BanFail and BanActive;
--   Firewall/Guard the cached lists, CheckUntil and Fail; Firewall/RealIp RealIPFrom.
-- Exchange: the EAP exchange of internal/radiusserver. Exchange/Session eapSession and its queue of
--   fragments; Exchange/Table eapSessionStore; Exchange/Trust radiusTrustGate and radiusAuthWithTrust;
--   Exchange/Reply sendEAP, rejectEAP, failEAP, pumpTTLS and pumpPEAP; Exchange/Ttls handleTTLS and
--   finishInnerPAP; Exchange/Factors the checks of an MS-CHAPv2 response and of the second factor in
--   handlePEAPInner; Exchange/Inner the rest of handlePEAPInner and finishPEAP; Exchange/Peap handlePEAP;
--   Exchange/Handler handleEAPAuth; Exchange/Signature messageauth.go; Exchange/Access handleAuth and
--   handleAcct of server.go. A module Grants, Steps or Fate
--   says what each handler's outcome may be, Exchange/Handler/Visits what that of one request may be;
--   Exchange/Handler/Run puts requests in a row, each a Visit in a log.
-- Oidc: internal/oidc, handleToken, VerifyPKCE and VerifyClientSecret, on the tables of internal/store/oidc.go
--   in Store/Oidc; Oidc/Spent says what keeps a claimed code claimed.
-- RateLimit: internal/radiusserver/ratelimit.go, allow, refill and sweepLocked; RateLimit/Lists,
--   RateLimit/Credit and RateLimit/Bound lead to the bound of the limiter.
-- Witness: concrete inputs.
--
-- How the code is read. A byte is a number below 256, and a field of w bits is written with its
-- `% 2 ^ w`. A hash or a sealed secret is the number that its bytes spell. A declared length of -1 and a
-- nil pointer are `none`. A database is a list of rows a table; each statement is one query, and a
-- list of faults says which queries fail. A failed query changes nothing. The clock stands still
-- within a request, except in the held one, where each tick is at least a second and other requests'
-- statements run. Fresh ids are given by the caller; the user's id 0
-- is uuid.Nil. A day of make_interval is 86400 seconds, as in a session whose time zone does not change
-- its clocks. The password verifier is the local one.
--
-- Fuel. The loop of ParseAVPs runs on the length of its input and one, each round taking at least a
-- header's twelve bytes; the loop of the fragmentation runs on the payload's length, each round taking
-- at least a byte. The held request runs on a list of ticks: with more ticks than there are seconds up
-- to the deadline it is answered.
--
-- The exchange. Time is counted in whole seconds. A request to handleEAPAuth comes with what its TLS
-- worker returns at this step (Tls: the step of the handshake, the decrypted data, the sealed data) and
-- with what is drawn at random (Chance). The session is unlocked while a push holds the request;
-- `meanwhile` is what other packets make of it, and Quiet says that these were only repetitions of the
-- packet in hand, which leave the state, the last request, the inner state and the name as they are.
-- The letters of a Calling-Station-Id are read as ASCII. What an Access-Accept says of reply attributes is
-- the name that they are looked up by.
--
-- Given by parameters, as the code relies on them: MD4, SHA-1, HMAC, DES, the MarshalBinary and the
-- HMAC-MD5 of RADIUS packets, SHA-256, argon2, the box that seals secrets, HOTP
-- and TOTP; base64, JSON and Ed25519 for the licence; net, net/netip and strings for addresses; what
-- a delivery of a push returns. The detail of an audit entry is reduced to its reason.
--
-- Not modelled: the HTTP handlers, the deliveries, the rest of OpenID Connect, WebAuthn, LDAP, the settings'
-- parser, TLS and the bridge to its worker, the reply attributes and the descriptions of access points.
pub mod Prelude
pub mod Eap
pub mod Store
pub mod Auth
pub mod License
pub mod Firewall
pub mod Exchange
pub mod Oidc
pub mod RateLimit
pub mod Witness
