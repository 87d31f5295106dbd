-- ===== src/Exchange/Session/Hearing.antt =====
-- eapsession.go: how the client hears a fragment of the outgoing queue.
use ligament_2fa.Prelude.{
  ℕ, ◌+◌, ◌≤◌, ◌<◌, bit_and, bit_or, ◌≡◌, refl, ◌∙◌, Bool, true, false, not, Option, none, some,
  arith, length, ok,
}
use ligament_2fa.Eap.Assembler.{Assembler}
use ligament_2fa.Eap.Bytes.{Bytes}
use ligament_2fa.Eap.Flags.{flag_start, flag_more, flag_length, frag_flags, has_flag}
use ligament_2fa.Eap.Fragment.{
  Heard, receive_ttls, receive_peap, receive_ttls_lem, receive_peap_lem,
}
use ligament_2fa.Eap.Fragment.Chain.{emit_message, step}
use ligament_2fa.Eap.Fragment.RoundTrip.{
  parse_ttls-ttls_data, parse_peap-peap_data, frag_flags-IsByte,
}
use ligament_2fa.Eap.Packet.{code_request}
use ligament_2fa.Eap.Packet.RoundTrip.{parse-build_exact}
use ligament_2fa.Eap.Peap.{build_peap, parse_peap, peap_data, add_peap}
use ligament_2fa.Eap.Ttls.{Ttls, build_ttls, ttls_data, max_fragment}
use ligament_2fa.Exchange.Session.{
  Proto, proto_peap, proto_ttls, OutFragment, out_fragment, build_for, fragment_packet,
}

-- What the client does with a packet of the session's protocol.
abbrev pub receive_for : Proto → Assembler → Bytes → Heard
receive_for proto_peap = receive_peap
receive_for proto_ttls = receive_ttls

-- The flags of a fragment on the wire: L is set where the first one declares the length.
abbrev pub sent_flags : Bool → Bool → ℕ
sent_flags true last = bit_or (frag_flags true (not last)) flag_length
sent_flags false last = frag_flags false (not last)

abbrev pub sent_length : ℕ → Bool → Option ℕ
sent_length total true = some total
sent_length total false = none

pub sent_no_start : (first last : Bool) → has_flag (sent_flags first last) flag_start ≡ false
sent_no_start true true = refl
sent_no_start true false = refl
sent_no_start false true = refl
sent_no_start false false = refl

pub sent_more : (first last : Bool) → has_flag (sent_flags first last) flag_more ≡ not last
sent_more true true = refl
sent_more true false = refl
sent_more false true = refl
sent_more false false = refl

-- The message that a fragment is heard as.
abbrev pub message_of : OutFragment → Ttls
message_of f = emit_message sent_flags (sent_length f.declared) f.first f.last f.chunk

-- A fragment that fits a packet, and a declared length of 32 bits.
abbrev pub Fits : OutFragment → Type 0
Fits f = (length f.chunk ≤ max_fragment) × (f.declared < 4294967296)

length-ttls_data :
    (flags : ℕ) (declared : Option ℕ) (chunk : Bytes)
    → length (ttls_data flags declared chunk) ≤ 6 + length chunk
unfolding ttls_data
length-ttls_data flags none chunk = omega arith
length-ttls_data flags (some n) chunk = omega arith

length-peap_data :
    (flags : ℕ) (declared : Option ℕ) (chunk : Bytes)
    → length (peap_data flags declared chunk) ≤ 6 + length chunk
unfolding peap_data
length-peap_data flags none chunk = omega arith
length-peap_data flags (some n) chunk = omega arith

later_no_length : (last : Bool) → has_flag (frag_flags false (not last)) flag_length ≡ false
later_no_length true = refl
later_no_length false = refl

module _ (id total : ℕ) (a : Assembler) (small : total < 4294967296) where
  heard_ttls :
      (first last : Bool) (chunk : Bytes)
      → length chunk ≤ max_fragment
      → receive_ttls a (fragment_packet proto_ttls id (out_fragment total first last chunk))
        ≡ step a (emit_message sent_flags (sent_length total) first last chunk)
  unfolding fragment_packet build_for build_ttls
  heard_ttls true last chunk h =
      receive_ttls_lem a _
        (parse-build_exact code_request id
          (ttls_data (frag_flags true (not last)) (some total) chunk)
          (omega (arith, h, length-ttls_data (frag_flags true (not last)) (some total) chunk)))
        (parse_ttls-ttls_data (frag_flags true (not last)) (some total) chunk
          (frag_flags-IsByte true (not last)) (λ e. cc) (λ n e. ground (arith, small)))
  heard_ttls false last chunk h =
      receive_ttls_lem a _
        (parse-build_exact code_request id (ttls_data (frag_flags false (not last)) none chunk)
          (omega (arith, h, length-ttls_data (frag_flags false (not last)) none chunk)))
        (parse_ttls-ttls_data (frag_flags false (not last)) none chunk
          (frag_flags-IsByte false (not last)) (λ _. later_no_length last) (λ n e. cc))

  later_peap :
      (last : Bool) (chunk : Bytes)
      → parse_peap (peap_data (frag_flags false (not last)) none chunk)
        ≡ ok (record {
          flags = frag_flags false (not last);
          version = 0;
          declared_len = none;
          payload = chunk;
        })
  unfolding parse_peap peap_data
  later_peap true chunk = ground arith
  later_peap false chunk = ground arith

  heard_peap :
      (first last : Bool) (chunk : Bytes)
      → length chunk ≤ max_fragment
      → receive_peap a (fragment_packet proto_peap id (out_fragment total first last chunk))
        ≡ step a (emit_message sent_flags (sent_length total) first last chunk)
  unfolding fragment_packet build_for build_peap add_peap
  heard_peap true last chunk h =
      receive_peap_lem a _
        (parse-build_exact code_request id
          (peap_data (frag_flags true (not last)) (some total) chunk)
          (omega (arith, h, length-peap_data (frag_flags true (not last)) (some total) chunk)))
        (parse_peap-peap_data (frag_flags true (not last)) total chunk
          (frag_flags-IsByte true (not last)) small)
      ∙ rw (masked last)
    where
      masked :
          (l : Bool)
          → bit_and (bit_or (bit_or (frag_flags true (not l)) flag_length) 0) 0xf8
            ≡ sent_flags true l
      masked true = refl
      masked false = refl
  heard_peap false last chunk h =
      receive_peap_lem a _
        (parse-build_exact code_request id (peap_data (frag_flags false (not last)) none chunk)
          (omega (arith, h, length-peap_data (frag_flags false (not last)) none chunk)))
        (later_peap last chunk)

  pub heard_for :
      (p : Proto) (first last : Bool) (chunk : Bytes)
      → length chunk ≤ max_fragment
      → receive_for p a (fragment_packet p id (out_fragment total first last chunk))
        ≡ step a (emit_message sent_flags (sent_length total) first last chunk)
  heard_for proto_peap first last chunk h = heard_peap first last chunk h
  heard_for proto_ttls first last chunk h = heard_ttls first last chunk h

abbrev pub hear : Assembler → OutFragment → Heard
hear a f = step a (message_of f)
