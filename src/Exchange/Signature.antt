-- ===== src/Exchange/Signature.antt =====
-- internal/radiusserver/messageauth.go: the Message-Authenticator of RFC 3579. The packet is that of
-- layeh.com/radius, whose `MarshalBinary` is a parameter, as HMAC-MD5 is.
use ligament_2fa.Prelude.{
  ℕ, ◌≡◌, refl, ap, ◌∙◌, Bool, true, false, not, Option, none, some, List, [], ◌∷◌, ◌++◌, arith,
  ◌==◌, if◌then◌else◌, length, All, any, select, find,
}
use ligament_2fa.Auth.Config.{bytes_eq, bytes_eq_refl}
use ligament_2fa.Eap.Bytes.{Bytes}

abbrev pub message_authenticator_type : ℕ
message_authenticator_type = 80

abbrev pub mac_size : ℕ
mac_size = 16

pub record Avp : Type 0 where
  pub kind : ℕ
  pub value : Bytes

pub record RadiusPacket : Type 0 where
  pub code : ℕ
  pub identifier : ℕ
  pub authenticator : Bytes
  pub secret : Bytes
  pub attributes : List Avp

pub record Wire : Type 0 where
  -- `MarshalBinary`; `none` is an error.
  pub marshal : RadiusPacket → Option Bytes
  -- `hmac.New(md5.New, secret)`, the message after the secret.
  pub hmac_md5 : Bytes → Bytes → Bytes

abbrev pub is_mac : Avp → Bool
is_mac a = a.kind == message_authenticator_type

abbrev pub zero_mac : Bytes
zero_mac = 0 ∷ 0 ∷ 0 ∷ 0 ∷ 0 ∷ 0 ∷ 0 ∷ 0 ∷ 0 ∷ 0 ∷ 0 ∷ 0 ∷ 0 ∷ 0 ∷ 0 ∷ 0 ∷ []

abbrev pub value_of : Option Avp → Option Bytes
value_of none = none
value_of (some a) = some a.value

-- `Attributes.Lookup`.
abbrev pub lookup_mac : List Avp → Option Bytes
lookup_mac attrs = value_of (find is_mac attrs)

-- `hasMessageAuthenticator`.
unfoldable pub has_message_authenticator : RadiusPacket → Bool
has_message_authenticator p = any is_mac p.attributes

-- The first Message-Authenticator, with another value.
unfoldable pub set_first : Bytes → List Avp → List Avp
set_first v [] = []
set_first v (a ∷ rest) =
    let later = set_first v rest in if is_mac a then record a { value = v } ∷ rest else a ∷ later

abbrev pub same_mac : (Bytes → Bytes) → Option Bytes → Bytes → Bool
same_mac mac none orig = false
same_mac mac (some b) orig = bytes_eq (mac b) orig

abbrev pub check_mac : Wire → RadiusPacket → Option Bytes → Bool
check_mac wire p none = true
check_mac wire p (some orig) =
    if not (length orig == mac_size)
    then false
    else same_mac (wire.hmac_md5 p.secret)
        (wire.marshal (record p { attributes = set_first zero_mac p.attributes })) orig

-- `verifyMessageAuthenticator`; a packet without the attribute passes.
unfoldable pub verify_message_authenticator : Wire → RadiusPacket → Bool
verify_message_authenticator wire p = check_mac wire p (lookup_mac p.attributes)

-- `Attributes.Del`.
abbrev pub without_mac : List Avp → List Avp
without_mac attrs = select (λ a. not (is_mac a)) attrs

abbrev pub with_mac : Bytes → RadiusPacket → RadiusPacket
with_mac v p = record p {
  attributes =
      without_mac p.attributes ++ (record { kind = message_authenticator_type; value = v } ∷ []);
}

-- `forceResponseMessageAuthenticator`: the old attributes go, and one is put last, computed over the
-- packet with zeros in its place; the loop from the end finds that one.
unfoldable pub sign_message_authenticator : Wire → RadiusPacket → RadiusPacket
sign_message_authenticator wire p = elim (wire.marshal (with_mac zero_mac p)) [
  | none ↦ record p { attributes = without_mac p.attributes }
  | some b ↦ with_mac (wire.hmac_md5 p.secret b) p
]

abbrev Bare : List Avp → Type 0
Bare attrs = All (λ a. is_mac a ≡ false) attrs

without-Bare : (attrs : List Avp) → Bare (without_mac attrs)
without-Bare [] = tt
without-Bare (a ∷ rest) = go (is_mac a) refl (without-Bare rest)
  where
    go :
        (b : Bool)
        → is_mac a ≡ b
        → Bare (without_mac rest)
        → Bare (if not b then a ∷ without_mac rest else without_mac rest)
    go true e h = h
    go false e h = (e, h)

abbrev mac_of : Bytes → Avp
mac_of v = record { kind = message_authenticator_type; value = v }

set_first-last :
    (v w : Bytes) (attrs : List Avp)
    → Bare attrs
    → set_first v (attrs ++ (mac_of w ∷ [])) ≡ attrs ++ (mac_of v ∷ [])
unfolding set_first
set_first-last v w [] h = refl
set_first-last v w (a ∷ rest) h = rw (h.0) (ap (◌∷◌ a) (set_first-last v w rest h.1))

find-last :
    (w : Bytes) (attrs : List Avp)
    → Bare attrs
    → find is_mac (attrs ++ (mac_of w ∷ [])) ≡ some (mac_of w)
find-last w [] h = refl
find-last w (a ∷ rest) h = rw (h.0) (find-last w rest h.1)

any-last : (w : Bytes) (attrs : List Avp) → any is_mac (attrs ++ (mac_of w ∷ [])) ≡ true
any-last w [] = refl
any-last w (a ∷ rest) = ground (arith, any-last w rest)

-- A packet that can be sent is signed so that it passes the check of its Message-Authenticator, where
-- HMAC-MD5 has 16 bytes; attributes of the same type that it had before do not matter.
pub verify-sign :
    (wire : Wire) (p : RadiusPacket) (b : Bytes)
    → ((k m : Bytes) → length (wire.hmac_md5 k m) ≡ mac_size)
    → wire.marshal (with_mac zero_mac p) ≡ some b
    → (has_message_authenticator (sign_message_authenticator wire p) ≡ true)
      × (verify_message_authenticator wire (sign_message_authenticator wire p) ≡ true)
unfolding verify_message_authenticator sign_message_authenticator has_message_authenticator
verify-sign wire p b size e =
    rw (e, sign_message_authenticator)
      (
        any-last mac (without_mac p.attributes),
        ap (check_mac wire (with_mac mac p)) looked ∙ checked,
      )
  where
    mac : Bytes
    mac = wire.hmac_md5 p.secret b

    bare : Bare (without_mac p.attributes)
    bare = without-Bare p.attributes

    looked : lookup_mac (with_mac mac p).attributes ≡ some mac
    looked = ap value_of (find-last mac (without_mac p.attributes) bare)

    zeroed :
        wire.marshal (record p { attributes = set_first zero_mac (with_mac mac p).attributes })
        ≡ some b
    zeroed = rw (set_first-last zero_mac mac (without_mac p.attributes) bare) e

    checked : check_mac wire (with_mac mac p) (some mac) ≡ true
    checked = rw (size p.secret b, zeroed, check_mac, same_mac) (bytes_eq_refl mac)
