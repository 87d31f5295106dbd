-- ===== src/Witness/Eap.antt =====
-- Witnesses for EAP.
use ligament_2fa.Prelude.{◌≡◌, refl, true, none, some, [], ◌∷◌, ◌++◌, arith, ok}
use ligament_2fa.Eap.Assembler.{Assembler, add, new_assembler, reset}
use ligament_2fa.Eap.Assembler.Invariant.{IsSound, add-IsSound}
use ligament_2fa.Eap.Avp.{parse_avps, avp_user_name, avp_user_password}
use ligament_2fa.Eap.Avp.RoundTrip.{build_avps, last_value, parse_avps-build_avps}
use ligament_2fa.Eap.Bytes.{Bytes}
use ligament_2fa.Eap.Fragment.{feed, receive_ttls, receive_peap}
use ligament_2fa.Eap.Fragment.RoundTrip.{feed-fragment_ttls, feed-fragment_peap}
use ligament_2fa.Eap.Packet.{Packet, parse, build}
use ligament_2fa.Eap.Packet.RoundTrip.{parse-build, build-parse}
use ligament_2fa.Eap.Peap.{fragment_peap}
use ligament_2fa.Eap.Ttls.{Ttls, fragment_ttls}

abbrev hello : Bytes
hello = 104 ∷ 105 ∷ []

feed-fragment_ttls_example :
    feed receive_ttls new_assembler (fragment_ttls 1 7 hello) ≡ some (reset, hello ∷ [])
feed-fragment_ttls_example =
    feed-fragment_ttls 1 7 hello (omega arith) new_assembler refl refl (omega arith)

feed-fragment_peap_example :
    feed receive_peap new_assembler (fragment_peap 1 7 hello) ≡ some (reset, hello ∷ [])
feed-fragment_peap_example =
    feed-fragment_peap 1 7 hello (omega arith) new_assembler refl refl (omega arith)

parse-build_example :
    parse (build 2 9 hello ++ (0 ∷ [])) ≡ ok (record { code = 2; id = 9; payload = hello })
parse-build_example = parse-build 2 9 hello (0 ∷ []) (omega arith)

abbrev packet : Packet
packet = record { code = 2; id = 9; payload = 1 ∷ 65 ∷ [] }

abbrev wire : Bytes
wire = 2 ∷ 9 ∷ 0 ∷ 6 ∷ 1 ∷ 65 ∷ 3 ∷ []

build-parse_example : (tail : Bytes) × (wire ≡ build 2 9 (1 ∷ 65 ∷ []) ++ tail)
unfolding parse
build-parse_example = build-parse wire packet (ground arith) refl

parse_avps-build_avps_example :
    parse_avps (build_avps ((1, hello) ∷ (99, 5 ∷ []) ∷ (2, hello) ∷ []))
    ≡ ok (record {
      user_name = last_value avp_user_name [] ((1, hello) ∷ (99, 5 ∷ []) ∷ (2, hello) ∷ []);
      user_password = last_value avp_user_password [] ((1, hello) ∷ (99, 5 ∷ []) ∷ (2, hello) ∷ []);
    })
parse_avps-build_avps_example =
    parse_avps-build_avps ((1, hello) ∷ (99, 5 ∷ []) ∷ (2, hello) ∷ []) (ground arith)

abbrev last_part : Ttls
last_part = record { flags = 0; declared_len = none; payload = hello }

abbrev midway : Assembler
midway = record { buf = 1 ∷ []; declared = some 3; in_flight = true }

abbrev joined : Bytes
joined = 1 ∷ 104 ∷ 105 ∷ []

midway-IsSound : IsSound midway
midway-IsSound = record { within = omega arith; clear = λ h. absurd (cc h) }

add-IsSound_example : IsSound (add midway last_part).0
add-IsSound_example = add-IsSound midway last_part midway-IsSound
