-- ===== src/Eap/Packet.antt =====
-- internal/radiusserver/eap/packet.go: the EAP packet and its wire format.
pub mod RoundTrip
use ligament_2fa.Prelude.{
  ℕ, ◌+◌, ◌%◌, ◌<◌, ◌≡◌, List, [], ◌∷◌, ◌++◌, length, slice, drop, ltb, if◌then◌else◌, Result, ok,
  err,
}
use ligament_2fa.Eap.Bytes.{Bytes, nth, put_u16, u16}

abbrev pub code_request : ℕ
code_request = 1

abbrev pub code_response : ℕ
code_response = 2

abbrev pub code_success : ℕ
code_success = 3

abbrev pub code_failure : ℕ
code_failure = 4

abbrev pub type_identity : ℕ
type_identity = 1

abbrev pub type_nak : ℕ
type_nak = 3

abbrev pub type_ttls : ℕ
type_ttls = 21

abbrev pub type_peap : ℕ
type_peap = 25

abbrev pub type_mschapv2 : ℕ
type_mschapv2 = 26

abbrev pub type_tlv : ℕ
type_tlv = 33

abbrev pub header_len : ℕ
header_len = 4

pub record Packet : Type 0 where
  pub code : ℕ
  pub id : ℕ
  pub payload : Bytes

-- The errors of `Parse`.
pub data ParseError : Type 0 where
  short : ParseError
  bad_length : ℕ → ParseError
  truncated : ℕ → ℕ → ParseError

-- `(*Packet).Type`: the first byte of the data, 0 where there is none.
abbrev type_of : Bytes → ℕ
type_of [] = 0
type_of (t ∷ _) = t

unfoldable pub packet_type : Packet → ℕ
packet_type p = type_of p.payload

-- `(*Packet).IdentityData`.
unfoldable pub identity_data : Packet → Bytes
identity_data p = if ltb (length p.payload) 2 then [] else drop 1 p.payload

unfoldable pub parse : Bytes → Result ParseError Packet
parse b =
    let len = u16 (slice b 2 4) in
    if ltb (length b) header_len
    then err short
    else if ltb len header_len
    then err (bad_length len)
    else if ltb (length b) len
    then err (truncated len (length b))
    else ok (record { code = nth b 0; id = nth b 1; payload = slice b header_len len })

unfoldable pub build : ℕ → ℕ → Bytes → Bytes
build code id payload = code ∷ id ∷ (put_u16 ((header_len + length payload) % 65536) ++ payload)

unfoldable pub build_identity : ℕ → ℕ → Bytes → Bytes
build_identity code id identity = build code id (type_identity ∷ identity)

unfoldable pub build_result : ℕ → ℕ → Bytes
build_result code id = build code id []
