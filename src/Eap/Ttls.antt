-- ===== src/Eap/Ttls.antt =====
-- internal/radiusserver/eap/ttls.go: the EAP-TTLS message, without the assembler.
-- `DeclaredLen` is -1 where L is not set: an option here, as is the argument `declared`.
use ligament_2fa.Prelude.{
  ℕ, zero, suc, ◌+◌, ◌%◌, min, bit_or, Bool, not, Option, none, some, List, [], ◌∷◌, ◌++◌, ltb,
  ◌==◌, if◌then◌else◌, length, drop, slice, Result, ok, err,
}
use ligament_2fa.Eap.Bytes.{Bytes, nth, put_u32, u32}
use ligament_2fa.Eap.Flags.{flag_length, flag_more, flag_start, has_flag, frag_flags}
use ligament_2fa.Eap.Packet.{build, type_ttls}

pub record Ttls : Type 0 where
  pub flags : ℕ
  pub declared_len : Option ℕ
  pub payload : Bytes

-- `(*TTLS).Start`, `More` and `LengthPresent`.
unfoldable pub start : Ttls → Bool
start t = has_flag t.flags flag_start

unfoldable pub more : Ttls → Bool
more t = has_flag t.flags flag_more

unfoldable pub length_present : Ttls → Bool
length_present t = has_flag t.flags flag_length

pub data TlsError : Type 0 where
  data_short : TlsError
  wrong_type : ℕ → TlsError
  length_truncated : TlsError

unfoldable pub parse_ttls : Bytes → Result TlsError Ttls
parse_ttls b =
    if ltb (length b) 2
    then err data_short
    else if not (nth b 0 == type_ttls)
    then err (wrong_type (nth b 0))
    else if has_flag (nth b 1) flag_length
    then (if ltb (length b) 6
        then err length_truncated
        else ok (record {
          flags = nth b 1;
          declared_len = some (u32 (slice b 2 6));
          payload = drop 6 b;
        }))
    else ok (record { flags = nth b 1; declared_len = none; payload = drop 2 b })

-- The `data` slice that `BuildTTLS` fills.
unfoldable pub ttls_data : ℕ → Option ℕ → Bytes → Bytes
ttls_data flags none payload = type_ttls ∷ flags ∷ payload
ttls_data flags (some n) payload =
    type_ttls ∷ bit_or flags flag_length ∷ (put_u32 (n % 4294967296) ++ payload)

unfoldable pub build_ttls : ℕ → ℕ → ℕ → Option ℕ → Bytes → Bytes
build_ttls code id flags declared payload = build code id (ttls_data flags declared payload)

-- `MaxFragment`.
abbrev pub max_fragment : ℕ
max_fragment = 1000

-- The loop `for off := 0; off < len(payload);` that `FragmentTTLS`, `FragmentPEAP` and
-- `pushOutQueue` share: `emit first last chunk` is what a round appends, `size` the largest chunk.
module _ {ℓ} {A : Type ℓ} (size : ℕ) (emit : Bool → Bool → Bytes → A) (payload : Bytes) where
  unfoldable pub fragment_loop : ℕ → ℕ → List A
  fragment_loop zero off = []
  fragment_loop (suc fuel) off =
      let end = min (off + size) (length payload) in
      let rest = fragment_loop fuel end in
      if ltb off (length payload)
      then emit (off == 0) (end == length payload) (slice payload off end) ∷ rest
      else []

-- A round of `FragmentTTLS`; `flags |= L` and `|= M`, and the full length in every message.
abbrev pub emit_ttls : ℕ → ℕ → ℕ → Bool → Bool → Bytes → Bytes
emit_ttls code id total first last chunk =
    build_ttls code id (frag_flags first (not last)) (some total) chunk

unfoldable pub fragment_ttls : ℕ → ℕ → Bytes → List Bytes
fragment_ttls code id payload =
    if length payload == 0
    then build_ttls code id 0 none [] ∷ []
    else fragment_loop max_fragment (emit_ttls code id (length payload)) payload (length payload) 0
