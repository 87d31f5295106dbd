-- ===== src/Eap/Mschap/Tlv.antt =====
-- mschapv2.go: the TLVs that the server sends are read back, and the loops over TLVs end.
use ligament_2fa.Prelude.{
  ℕ, zero, suc, ◌≤◌, ◌<◌, ◌≡◌, refl, ◌∙◌, inl, inr, Bool, true, false, not, ◌∷◌, ◌++◌, arith, ltb,
  ◌==◌, if◌then◌else◌, Bool-cases, length, drop, slice, length-append, length-drop, ok,
}
use ligament_2fa.Eap.Bytes.{Bytes, u16}
use ligament_2fa.Eap.Mschap.{
  build_result_tlv, build_result_and_crypto, cryptobinding_tlv, result_tlv, result_loop,
  cryptobinding_loop, parse_result_tlv, has_cryptobinding_tlv,
}
use ligament_2fa.Eap.Packet.{Packet, parse, code_request, type_tlv}
use ligament_2fa.Eap.Packet.RoundTrip.{parse-build_exact}

-- More fuel than there are bytes changes nothing.
result_loop_fuel :
    (f g : ℕ) (pos : Bytes)
    → length pos < f
    → length pos < g
    → result_loop f pos ≡ result_loop g pos
unfolding result_loop
result_loop_fuel zero g pos h k = absurd (omega (arith, h))
result_loop_fuel (suc f) zero pos h k = absurd (omega (arith, k))
result_loop_fuel (suc f) (suc g) pos h k = elim (Bool-cases (ltb (length pos) 4)) [
  | inl e ↦ rw e refl
  | inr e ↦
      rw
        (result_loop_fuel f g (drop (u16 (slice pos 2 4)) (drop 4 pos))
          (ground (arith, h, e, length-drop (u16 (slice pos 2 4)) (drop 4 pos), length-drop 4 pos))
          (ground (arith, k, e, length-drop (u16 (slice pos 2 4)) (drop 4 pos), length-drop 4 pos)))
        refl
]

result_read : (b : Bool) → parse_result_tlv (type_tlv ∷ result_tlv (if b then 1 else 2)) ≡ ok b
unfolding parse_result_tlv result_loop
result_read true = refl
result_read false = refl

crypto_found :
    (f : ℕ) (rest : Bytes)
    → 56 ≤ length rest
    → cryptobinding_loop (suc (suc f)) (result_tlv 1 ++ (0 ∷ 12 ∷ 0 ∷ 56 ∷ rest)) ≡ true
unfolding cryptobinding_loop
crypto_found f rest le = ground (arith, le)

bound_by_loop :
    (rest : Bytes)
    → has_cryptobinding_tlv (type_tlv ∷ rest) ≡ cryptobinding_loop (suc (suc (length rest))) rest
unfolding has_cryptobinding_tlv
bound_by_loop rest = ground arith

plain_not_bound : has_cryptobinding_tlv (type_tlv ∷ result_tlv 1) ≡ false
unfolding has_cryptobinding_tlv cryptobinding_loop
plain_not_bound = refl

module _ (hmac : Bytes → Bytes → Bytes) (nonce cmk : Bytes)
    (mac_len : (k m : Bytes) → length (hmac k m) ≡ 20) (nonce_len : length nonce ≡ 32) where
  tlv_length : length (cryptobinding_tlv hmac nonce cmk) ≡ 60
  unfolding cryptobinding_tlv
  tlv_length = omega (arith, nonce_len, mac_len, length-append nonce _)

  crypto_read :
      parse_result_tlv (type_tlv ∷ (result_tlv 1 ++ cryptobinding_tlv hmac nonce cmk)) ≡ ok true
  unfolding parse_result_tlv result_loop cryptobinding_tlv
  crypto_read = ground (arith, mac_len)

  crypto_bound :
      has_cryptobinding_tlv (type_tlv ∷ (result_tlv 1 ++ cryptobinding_tlv hmac nonce cmk)) ≡ true
  unfolding cryptobinding_tlv
  crypto_bound =
      bound_by_loop (result_tlv 1 ++ cryptobinding_tlv hmac nonce cmk)
      ∙ crypto_found _ (drop 4 (cryptobinding_tlv hmac nonce cmk))
          (omega (arith, tlv_length, length-drop 4 (cryptobinding_tlv hmac nonce cmk)))

  -- The client reads the server's last inner request as it is meant: a success, together with a
  -- cryptobinding TLV where there is a compound MAC key, and none where there is not. The nonce has 32
  -- bytes and HMAC-SHA1 gives 20.
  pub parse_result_tlv-build_result_and_crypto :
      (id : ℕ)
      → (p : Packet) × ((parse (build_result_and_crypto hmac id nonce cmk) ≡ ok p)
          × ((parse_result_tlv p.payload ≡ ok true)
              × (has_cryptobinding_tlv p.payload ≡ not (length cmk == 0))))
  unfolding build_result_and_crypto build_result_tlv
  parse_result_tlv-build_result_and_crypto id = elim (Bool-cases (length cmk == 0)) [
    | inl e ↦
        rw (e, build_result_and_crypto)
          (
            _,
            (
              parse-build_exact code_request id (type_tlv ∷ result_tlv 1) (omega arith),
              (result_read true, plain_not_bound),
            ),
          )
    | inr e ↦
        rw (e, build_result_and_crypto)
          (
            _,
            (
              parse-build_exact code_request id
                  (type_tlv ∷ (result_tlv 1 ++ cryptobinding_tlv hmac nonce cmk))
                  (omega (
                    arith,
                    tlv_length,
                    length-append (result_tlv 1) (cryptobinding_tlv hmac nonce cmk),
                  )),
              (crypto_read, crypto_bound),
            ),
          )
  ]
