-- ===== src/Eap/Peap.antt =====
-- internal/radiusserver/eap/peap.go: the PEAPv0 message; the low three flag bits are the version.
use ligament_2fa.Prelude.{
  ℕ, ◌%◌, bit_and, bit_or, Bool, not, Option, none, some, List, [], ◌∷◌, ◌++◌, ltb, ◌==◌,
  if◌then◌else◌, length, drop, slice, Result, ok, err,
}
use ligament_2fa.Eap.Assembler.{Assembler, AddError, add}
use ligament_2fa.Eap.Bytes.{Bytes, nth, put_u32, u32}
use ligament_2fa.Eap.Flags.{flag_length, flag_more, flag_start, has_flag, frag_flags}
use ligament_2fa.Eap.Packet.{build, type_peap}
use ligament_2fa.Eap.Ttls.{
  TlsError, data_short, wrong_type, length_truncated, fragment_loop, max_fragment,
}

pub record Peap : Type 0 where
  pub flags : ℕ
  pub version : ℕ
  pub declared_len : Option ℕ
  pub payload : Bytes

abbrev pub peap_version0 : ℕ
peap_version0 = 0

unfoldable pub peap_start : Peap → Bool
peap_start p = has_flag p.flags flag_start

unfoldable pub peap_more : Peap → Bool
peap_more p = has_flag p.flags flag_more

unfoldable pub peap_length_present : Peap → Bool
peap_length_present p = has_flag p.flags flag_length

unfoldable pub parse_peap : Bytes → Result TlsError Peap
parse_peap b =
    let masked = bit_and (nth b 1) 0xf8 in
    let vers = bit_and (nth b 1) 0x07 in
    if ltb (length b) 2
    then err data_short
    else if not (nth b 0 == type_peap)
    then err (wrong_type (nth b 0))
    else if has_flag masked flag_length
    then (if ltb (length b) 6
        then err length_truncated
        else ok (record {
          flags = masked;
          version = vers;
          declared_len = some (u32 (slice b 2 6));
          payload = drop 6 b;
        }))
    else ok (record { flags = masked; version = vers; declared_len = none; payload = drop 2 b })

-- The `data` slice that `BuildPEAP` fills.
unfoldable pub peap_data : ℕ → Option ℕ → Bytes → Bytes
peap_data flags none payload = type_peap ∷ bit_or flags peap_version0 ∷ payload
peap_data flags (some n) payload =
    type_peap
    ∷ bit_or (bit_or flags flag_length) peap_version0
    ∷ (put_u32 (n % 4294967296) ++ payload)

unfoldable pub build_peap : ℕ → ℕ → ℕ → Option ℕ → Bytes → Bytes
build_peap code id flags declared payload = build code id (peap_data flags declared payload)

-- A round of `FragmentPEAP`.
abbrev pub emit_peap : ℕ → ℕ → ℕ → Bool → Bool → Bytes → Bytes
emit_peap code id total first last chunk =
    build_peap code id (frag_flags first (not last)) (some total) chunk

unfoldable pub fragment_peap : ℕ → ℕ → Bytes → List Bytes
fragment_peap code id payload =
    if length payload == 0
    then build_peap code id 0 none [] ∷ []
    else fragment_loop max_fragment (emit_peap code id (length payload)) payload (length payload) 0

-- `(*Assembler).AddPEAP`.
unfoldable pub add_peap : Assembler → Peap → Assembler × Result AddError (Option Bytes)
add_peap a p =
    add a (record { flags = p.flags; declared_len = p.declared_len; payload = p.payload })
