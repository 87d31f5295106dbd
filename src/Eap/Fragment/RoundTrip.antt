-- ===== src/Eap/Fragment/RoundTrip.antt =====
-- ttls.go and peap.go: the receiver rebuilds what the sender fragmented.
use ligament_2fa.Prelude.{
  ℕ, zero, suc, ◌+◌, ◌-◌, ◌≤◌, ◌<◌, min, bit_and, bit_or, ◌≡◌, refl, ap, ◌∙◌, inl, inr, Bool, true,
  false, not, Option, none, some, [], ◌∷◌, arith, ltb, ◌==◌, Bool-cases, length, drop, slice,
  length-take, ok,
}
use ligament_2fa.Eap.Assembler.{reset, max_reassembly, Assembler}
use ligament_2fa.Eap.Bytes.{Bytes, IsByte, u32-put_u32}
use ligament_2fa.Eap.Flags.{
  flag_start, flag_more, frag_flags, flag_length, has_flag, has_flag-set_length,
  has_flag-masked_length,
}
use ligament_2fa.Eap.Fragment.{
  receive_ttls, receive_peap, Heard, resume, feed, receive_ttls_lem, receive_peap_lem,
}
use ligament_2fa.Eap.Fragment.Chain.{chain, emit_message, step}
use ligament_2fa.Eap.Packet.RoundTrip.{parse-build_exact}
use ligament_2fa.Eap.Peap.{build_peap, emit_peap, fragment_peap, add_peap, parse_peap, peap_data}
use ligament_2fa.Eap.Ttls.{
  build_ttls, emit_ttls, fragment_ttls, max_fragment, parse_ttls, ttls_data, fragment_loop,
}
use mathlib.Core.Path.{fun_ext}

-- Parsing the data of a TTLS message gives back its flags, its declared length and its payload, where
-- the flags are a byte and the length fits 32 bits: L is set where a length is declared, and where
-- none is declared the flags must not claim one.
pub parse_ttls-ttls_data :
    (flags : ℕ) (declared : Option ℕ) (payload : Bytes)
    → IsByte flags
    → (declared ≡ none → has_flag flags flag_length ≡ false)
    → ((n : ℕ) → declared ≡ some n → n < 4294967296)
    → parse_ttls (ttls_data flags declared payload)
      ≡ ok (record {
        flags = elim declared [ none ↦ flags | some n ↦ bit_or flags flag_length ];
        declared_len = declared;
        payload = payload;
      })
unfolding parse_ttls ttls_data
parse_ttls-ttls_data flags none payload b f d = ground (arith, f refl)
parse_ttls-ttls_data flags (some n) payload b f d =
    ground (arith, has_flag-set_length flags b, u32-put_u32 n [] (d n refl), d n refl)

-- So for PEAP, whose version bits come apart from the flags.
pub parse_peap-peap_data :
    (flags : ℕ) (n : ℕ) (payload : Bytes)
    → IsByte flags
    → n < 4294967296
    → parse_peap (peap_data flags (some n) payload)
      ≡ ok (record {
        flags = bit_and (bit_or (bit_or flags flag_length) 0) 0xf8;
        version = bit_and (bit_or (bit_or flags flag_length) 0) 0x07;
        declared_len = some n;
        payload = payload;
      })
unfolding parse_peap peap_data
parse_peap-peap_data flags n payload b d =
    ground (arith, has_flag-masked_length flags b, u32-put_u32 n [] d, d)

-- Two fragmenting loops that differ in what they emit are heard alike, where each message is.
pub feed-fragment_loop {ℓ κ} :
    {A : Type ℓ} {B : Type κ} (f : Assembler → A → Heard) (g : Assembler → B → Heard) (size : ℕ)
    (emit : Bool → Bool → Bytes → A) (emit' : Bool → Bool → Bytes → B)
    → ((a : Assembler) (first last : Bool) (chunk : Bytes)
        → length chunk ≤ size
        → f a (emit first last chunk) ≡ g a (emit' first last chunk))
    → (payload : Bytes) (fuel off : ℕ) (a : Assembler)
    → feed f a (fragment_loop size emit payload fuel off)
      ≡ feed g a (fragment_loop size emit' payload fuel off)
unfolding fragment_loop feed
feed-fragment_loop f g size emit emit' same payload zero off a = refl
feed-fragment_loop f g size emit emit' same payload (suc fuel) off a =
    elim (Bool-cases (ltb off (length payload))) [
      | inl e ↦ rw e (
          rw (same a (off == 0) (end == length payload) chunk short) (
            ap (resume (g a (emit' (off == 0) (end == length payload) chunk)))
              (fun_ext (λ a'. feed-fragment_loop f g size emit emit' same payload fuel end a'))))
      | inr e ↦ rw e
    ]
  where
    end : ℕ
    end = min (off + size) (length payload)

    chunk : Bytes
    chunk = slice payload off end

    short : length chunk ≤ size
    short = omega (arith, length-take (end - off) (drop off payload))

-- The flags of a fragment on the wire: L is always set.
abbrev wire_flags : Bool → Bool → ℕ
wire_flags first last = bit_or (frag_flags first (not last)) flag_length

wire_no_start : (first last : Bool) → has_flag (wire_flags first last) flag_start ≡ false
wire_no_start true true = refl
wire_no_start true false = refl
wire_no_start false true = refl
wire_no_start false false = refl

wire_more : (first last : Bool) → has_flag (wire_flags first last) flag_more ≡ not last
wire_more true true = refl
wire_more true false = refl
wire_more false true = refl
wire_more false false = refl

-- The version mask leaves the flags of a fragment as they are.
wire_flags_masked :
    (first last : Bool) → bit_and (bit_or (wire_flags first last) 0) 0xf8 ≡ wire_flags first last
wire_flags_masked true true = refl
wire_flags_masked true false = refl
wire_flags_masked false true = refl
wire_flags_masked false false = refl

pub frag_flags-IsByte : (first more : Bool) → IsByte (frag_flags first more)
frag_flags-IsByte true true = omega arith
frag_flags-IsByte true false = omega arith
frag_flags-IsByte false true = omega arith
frag_flags-IsByte false false = omega arith

length-ttls_data :
    (flags n : ℕ) (chunk : Bytes) → length (ttls_data flags (some n) chunk) ≡ 6 + length chunk
unfolding ttls_data
length-ttls_data flags n chunk = omega arith

length-peap_data :
    (flags n : ℕ) (chunk : Bytes) → length (peap_data flags (some n) chunk) ≡ 6 + length chunk
unfolding peap_data
length-peap_data flags n chunk = omega arith

module _ (code id : ℕ) (payload : Bytes) (total : length payload ≤ max_reassembly) where
  heard_ttls :
      (a : Assembler) (first last : Bool) (chunk : Bytes)
      → length chunk ≤ max_fragment
      → receive_ttls a (emit_ttls code id (length payload) first last chunk)
        ≡ step a (emit_message wire_flags (λ _. some (length payload)) first last chunk)
  unfolding build_ttls
  heard_ttls a first last chunk h =
      receive_ttls_lem a _
        (parse-build_exact code id
          (ttls_data (frag_flags first (not last)) (some (length payload)) chunk)
          (omega (arith, length-ttls_data (frag_flags first (not last)) (length payload) chunk)))
        (parse_ttls-ttls_data (frag_flags first (not last)) (some (length payload)) chunk
          (frag_flags-IsByte first (not last)) (λ e. cc) (λ n e. ground arith))

  -- A payload of 1 to 65536 bytes, fragmented by the sender, is rebuilt byte for byte by a receiver
  -- that is between two chains: the payload comes out once, with the last packet, and the receiver
  -- is ready for the next chain.
  pub feed-fragment_ttls :
      (a : Assembler)
      → a.buf ≡ []
      → a.in_flight ≡ false
      → 0 < length payload
      → feed receive_ttls a (fragment_ttls code id payload) ≡ some (reset, payload ∷ [])
  unfolding fragment_ttls
  feed-fragment_ttls a clear idle nonempty = rw nonzero (
      feed-fragment_loop receive_ttls step max_fragment (emit_ttls code id (length payload))
        (emit_message wire_flags (λ _. some (length payload))) heard_ttls payload (length payload) 0
        a
      ∙ chain max_fragment payload wire_flags (λ _. some (length payload)) (omega arith) total
          wire_no_start wire_more refl total a clear idle nonempty)
    where
      nonzero : (length payload == 0) ≡ false
      nonzero = ground arith

  heard_peap :
      (a : Assembler) (first last : Bool) (chunk : Bytes)
      → length chunk ≤ max_fragment
      → receive_peap a (emit_peap code id (length payload) first last chunk)
        ≡ step a (emit_message wire_flags (λ _. some (length payload)) first last chunk)
  unfolding build_peap
  heard_peap a first last chunk h =
      receive_peap_lem a _
        (parse-build_exact code id
          (peap_data (frag_flags first (not last)) (some (length payload)) chunk)
          (omega (arith, length-peap_data (frag_flags first (not last)) (length payload) chunk)))
        (parse_peap-peap_data (frag_flags first (not last)) (length payload) chunk
          (frag_flags-IsByte first (not last)) (omega arith))
      ∙ (unfold add_peap in rw (wire_flags_masked first last))

  -- The same for PEAP: a payload of 1 to 65536 bytes, fragmented by the sender, is rebuilt byte for byte
  -- by a receiver that is between two chains, comes out once, and leaves the receiver ready.
  pub feed-fragment_peap :
      (a : Assembler)
      → a.buf ≡ []
      → a.in_flight ≡ false
      → 0 < length payload
      → feed receive_peap a (fragment_peap code id payload) ≡ some (reset, payload ∷ [])
  unfolding fragment_peap
  feed-fragment_peap a clear idle nonempty = rw nonzero (
      feed-fragment_loop receive_peap step max_fragment (emit_peap code id (length payload))
        (emit_message wire_flags (λ _. some (length payload))) heard_peap payload (length payload) 0
        a
      ∙ chain max_fragment payload wire_flags (λ _. some (length payload)) (omega arith) total
          wire_no_start wire_more refl total a clear idle nonempty)
    where
      nonzero : (length payload == 0) ≡ false
      nonzero = ground arith
