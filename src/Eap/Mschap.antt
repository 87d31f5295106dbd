-- ===== src/Eap/Mschap.antt =====
-- internal/radiusserver/eap/mschapv2.go: the EAP-MSCHAPv2 packets and the TLVs of PEAP.
-- A Go array of n bytes is a list of n bytes. Hashes and ciphers are in Eap/Mschap/Keys.
pub mod Keys
pub mod Tlv
pub mod Responses
use ligament_2fa.Prelude.{
  ℕ, zero, suc, ◌+◌, ◌-◌, ◌*◌, ◌/◌, ◌%◌, ◌^◌, ◌≤◌, ◌<◌, min, max, bit_and, bit_or, ◌≡◌, refl, sym,
  ap, ◌∙◌, subst, ◌≢◌, ◌↔◌, ◌⊎◌, inl, inr, Bool, true, false, not, ◌&&◌, ◌||◌, Option, none, some,
  List, [], ◌∷◌, ◌++◌, map, append-nil, append_assoc, arith, ltb, leb, ◌==◌, if◌then◌else◌, ltb→lt,
  lt→ltb, leb→le, ==_iff, tests, Bool-cases, Option-cases, length, get_or, take, drop, All, slice,
  length-append, take-append-drop, length-take, length-drop, take-append, drop-append, take_all,
  drop_all, Result, ok, err, is_ok, any, count_where, select, update_where, find, String, str_eq,
  Among, Among-select,
}
use ligament_2fa.Eap.Bytes.{Bytes, nth, put_u16, u16}
use ligament_2fa.Eap.Packet.{build, code_request, type_mschapv2, type_tlv, type_peap}

abbrev pub op_challenge : ℕ
op_challenge = 1

abbrev pub op_response : ℕ
op_response = 2

abbrev pub op_success : ℕ
op_success = 3

abbrev pub op_failure : ℕ
op_failure = 4

-- `BuildMSCHAPv2Challenge`.
unfoldable pub build_mschap_challenge : ℕ → ℕ → Bytes → Bytes → Bytes
build_mschap_challenge eap_id mschap_id challenge name = build code_request eap_id (
    type_mschapv2
    ∷ op_challenge
    ∷ mschap_id
    ∷ (put_u16 ((5 + 16 + length name) % 65536) ++ (16 ∷ (challenge ++ name))))

-- `MSCHAPv2Response`.
pub record MschapResponse : Type 0 where
  pub id : ℕ
  pub peer_challenge : Bytes
  pub nt_response : Bytes
  pub flags : ℕ
  pub user_name : Bytes

pub data MschapError : Type 0 where
  short_response : MschapError
  not_mschap : ℕ → MschapError
  not_response : ℕ → MschapError
  bad_value_size : ℕ → MschapError

-- `ParseMSCHAPv2Response`; the MS-Length field and the eight reserved bytes are not looked at.
unfoldable pub parse_mschap_response : Bytes → Result MschapError MschapResponse
parse_mschap_response b =
    if ltb (length b) (1 + 5 + 49)
    then err short_response
    else if not (nth b 0 == type_mschapv2)
    then err (not_mschap (nth b 0))
    else if not (nth b 1 == op_response)
    then err (not_response (nth b 1))
    else if not (nth b 5 == 49)
    then err (bad_value_size (nth b 5))
    else ok (record {
      id = nth b 2;
      peer_challenge = slice b 6 22;
      nt_response = slice b 30 54;
      flags = nth b 54;
      user_name = drop 55 b;
    })

-- The data that `BuildMSCHAPv2Success` and `BuildMSCHAPv2Failure` share.
abbrev message_data : ℕ → ℕ → Bytes → Bytes
message_data op mschap_id msg =
    type_mschapv2 ∷ op ∷ mschap_id ∷ (put_u16 ((4 + length msg) % 65536) ++ msg)

unfoldable pub build_mschap_success : ℕ → ℕ → Bytes → Bytes
build_mschap_success eap_id mschap_id auth_response =
    build code_request eap_id (message_data op_success mschap_id auth_response)

unfoldable pub build_mschap_failure : ℕ → ℕ → Bytes → Bytes
build_mschap_failure eap_id mschap_id message =
    build code_request eap_id (message_data op_failure mschap_id message)

-- The Result TLV: type 3 with the mandatory bit, length 2, status.
abbrev result_tlv : ℕ → Bytes
result_tlv status = put_u16 0x8003 ++ (put_u16 2 ++ put_u16 status)

-- `BuildResultTLV`.
unfoldable pub build_result_tlv : ℕ → ℕ → Bool → Bytes
build_result_tlv code id success = build code id (type_tlv ∷ result_tlv (if success then 1 else 2))

-- `BuildCryptobindingTLV`, of a nonce of 32 bytes; `hmac` is HMAC-SHA1, of 20 bytes.
unfoldable pub cryptobinding_tlv : (Bytes → Bytes → Bytes) → Bytes → Bytes → Bytes
cryptobinding_tlv hmac nonce cmk =
    let head = put_u16 12 ++ (put_u16 56 ++ (0 ∷ 0 ∷ 0 ∷ 0 ∷ nonce)) in
    head
    ++ hmac cmk (
        (head
          ++ (0 ∷ 0 ∷ 0 ∷ 0 ∷ 0 ∷ 0 ∷ 0 ∷ 0 ∷ 0 ∷ 0 ∷ 0 ∷ 0 ∷ 0 ∷ 0 ∷ 0 ∷ 0 ∷ 0 ∷ 0 ∷ 0 ∷ 0 ∷ []))
        ++ (type_peap ∷ []))

-- `BuildPEAPResultAndCryptoRequest`.
unfoldable pub build_result_and_crypto : (Bytes → Bytes → Bytes) → ℕ → Bytes → Bytes → Bytes
build_result_and_crypto hmac inner_id nonce cmk =
    if length cmk == 0
    then build_result_tlv code_request inner_id true
    else build code_request inner_id (type_tlv ∷ (result_tlv 1 ++ cryptobinding_tlv hmac nonce cmk))

abbrev pub max_tlvs : Bytes → ℕ
max_tlvs b = suc (length b)

-- The loop of `ParseResultTLV` over the TLVs; `none` is the error that no Result TLV is there.
unfoldable pub result_loop : ℕ → Bytes → Option Bool
result_loop zero pos = none
result_loop (suc fuel) pos =
    let kind = bit_and (u16 (slice pos 0 2)) 0x3fff in
    let len = u16 (slice pos 2 4) in
    let rest = drop 4 pos in
    let later = result_loop fuel (drop len rest) in
    if ltb (length pos) 4
    then none
    else if ltb (length rest) len
    then none
    else if kind == 3 && leb 2 len
    then some (u16 (slice rest 0 2) == 1)
    else later

pub data TlvError : Type 0 where
  empty_tlv : TlvError
  not_tlv : ℕ → TlvError
  no_result : TlvError

abbrev found_result : Option Bool → Result TlvError Bool
found_result none = err no_result
found_result (some b) = ok b

-- `ParseResultTLV`.
unfoldable pub parse_result_tlv : Bytes → Result TlvError Bool
parse_result_tlv b =
    if ltb (length b) 1
    then err empty_tlv
    else if not (nth b 0 == type_tlv)
    then err (not_tlv (nth b 0))
    else found_result (result_loop (max_tlvs b) (drop 1 b))

-- The loop of `HasCryptobindingTLV`.
unfoldable pub cryptobinding_loop : ℕ → Bytes → Bool
cryptobinding_loop zero pos = false
cryptobinding_loop (suc fuel) pos =
    let kind = bit_and (u16 (slice pos 0 2)) 0x3fff in
    let len = u16 (slice pos 2 4) in
    let rest = drop 4 pos in
    let later = cryptobinding_loop fuel (drop len rest) in
    if ltb (length pos) 4
    then false
    else if ltb (length rest) len
    then false
    else if kind == 12
    then true
    else later

-- `HasCryptobindingTLV`.
unfoldable pub has_cryptobinding_tlv : Bytes → Bool
has_cryptobinding_tlv b =
    if ltb (length b) 1 || not (nth b 0 == type_tlv)
    then false
    else cryptobinding_loop (max_tlvs b) (drop 1 b)
