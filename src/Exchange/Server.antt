-- ===== src/Exchange/Server.antt =====
-- What the handlers of internal/radiusserver are given: settings, cryptography, a request, what the
-- TLS worker makes of it, and random draws.
use ligament_2fa.Prelude.{ℕ, Bool, Option, List, String}
use ligament_2fa.Auth.Config.{Env}
use ligament_2fa.Auth.Radius.{PushEnv, Tick}
use ligament_2fa.Eap.Bytes.{Bytes}
use ligament_2fa.Eap.Mschap.Keys.{Hashes}
use ligament_2fa.Exchange.Session.{Session}

pub record Server : Type 0 where
  pub env : Env
  pub hashes : Hashes
  -- A byte string as the text that it spells.
  pub text : Bytes → String
  -- `Box.DecryptAAD` of a user's password_enc; `none` is an error.
  pub open_password : String → ℕ → Option Bytes
  -- `s.box()` succeeds.
  pub has_box : Bool
  -- There is an EAP certificate, or `EnsureEAPCert` makes one.
  pub has_certificate : Bool
  -- radius.trust_days and totp.period.
  pub trust_days : ℕ
  pub totp_period : ℕ

-- What the handlers read of an Access-Request; a missing attribute is [], a missing MTU is 0.
pub record Request : Type 0 where
  pub state : Bytes
  pub eap : Bytes
  pub framed_mtu : ℕ
  pub calling_station : Bytes
  pub src_ip : String

-- `waitHandshakeStep` without an error, and the keys that the worker exports when it has finished.
pub record Handshake : Type 0 where
  pub output : Bytes
  pub finished : Bool
  pub exported : Bytes

-- What the TLS worker does in the course of one request, behind the bridge of eapsession.go.
pub record Tls : Type 0 where
  -- `deliver`, then `waitHandshakeStep`; `none` is an error.
  pub shake : Bytes → Option Handshake
  -- `deliver`, then `waitAppData`; `none` is an error.
  pub app_data : Bytes → Option Bytes
  -- The two calls of `takeAppData`.
  pub taken : Bytes
  pub extra : Bytes
  -- `takeOutput`, where the handler has written nothing.
  pub stuck : Bytes
  -- `writeInner`: what `takeOutput` gives in addition; `none` is an error.
  pub seal : Bytes → Option Bytes

-- The rest that a request meets: random draws, and a push that may hold it. While it is held the
-- session is unlocked, and other packets may change it; `meanwhile` is the identity where it was
-- never unlocked.
pub record Chance : Type 0 where
  pub states : List Bytes
  pub challenge : Bytes
  pub nonce : Bytes
  pub push : PushEnv
  pub ticks : List Tick
  pub meanwhile : Session → Session
