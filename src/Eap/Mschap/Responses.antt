-- ===== src/Eap/Mschap/Responses.antt =====
-- mschapv2.go: the DES keys of an MS-CHAPv2 response, and the length of derived keys.
use ligament_2fa.Prelude.{
  ℕ, zero, suc, ◌+◌, ◌*◌, ◌/◌, ◌%◌, ◌≤◌, ◌<◌, ◌≡◌, refl, inl, inr, true, ◌&&◌, [], ◌∷◌, ◌++◌, map,
  arith, ltb, ◌==◌, Bool-cases, length, All, length-append, length-take, String,
}
use ligament_2fa.Eap.Bytes.{Bytes, IsByte}
use ligament_2fa.Eap.Flags.{all_below, all_below_sound}
use ligament_2fa.Eap.Mschap.Keys.{Hashes, bits, with_parity, make_des_key, prf_loop, prf_plus}

-- The number that bytes spell, `base` to a byte.
abbrev pub spelled : ℕ → ℕ → Bytes → ℕ
spelled base n [] = n
spelled base n (b ∷ bs) = spelled base (n * base + b) bs

parity_table :
    all_below 128 (λ k. (with_parity k / 2 == k) && (bits 8 (with_parity k) % 2 == 1)) ≡ true
unfolding all_below
parity_table = refl

parity_ok : (k : ℕ) → k < 128 → (with_parity k / 2 ≡ k) × (bits 8 (with_parity k) % 2 ≡ 1)
parity_ok k h = ground (
  arith,
  all_below_sound 128 (λ x. (with_parity x / 2 == x) && (bits 8 (with_parity x) % 2 == 1)) k
      parity_table h,
)

-- The DES key of seven bytes has eight, each of odd parity; their upper seven bits spell the same
-- number of 56 bits as the seven bytes do.
pub make_des_key_parity :
    (a b c d e f g : ℕ)
    → All IsByte (a ∷ b ∷ c ∷ d ∷ e ∷ f ∷ g ∷ [])
    → let key = make_des_key (a ∷ b ∷ c ∷ d ∷ e ∷ f ∷ g ∷ []) in
      All (λ k. bits 8 k % 2 ≡ 1) key
      × (spelled 128 0 (map (λ k. k / 2) key) ≡ spelled 256 0 (a ∷ b ∷ c ∷ d ∷ e ∷ f ∷ g ∷ []))
unfolding make_des_key
make_des_key_parity a b c d e f g (ha, (hb, (hc, (hd, (he, (hf, (hg, _))))))) =
    let p1 = parity_ok (a / 2) (omega (arith, ha)) in
    let p2 = parity_ok (a % 2 * 64 + b / 4) (omega (arith, hb)) in
    let p3 = parity_ok (b % 4 * 32 + c / 8) (omega (arith, hc)) in
    let p4 = parity_ok (c % 8 * 16 + d / 16) (omega (arith, hd)) in
    let p5 = parity_ok (d % 16 * 8 + e / 32) (omega (arith, he)) in
    let p6 = parity_ok (e % 32 * 4 + f / 64) (omega (arith, hf)) in
    let p7 = parity_ok (f % 64 * 2 + g / 128) (omega (arith, hg)) in
    let p8 = parity_ok (g % 128) (omega arith) in
    (
      (p1.1, (p2.1, (p3.1, (p4.1, (p5.1, (p6.1, (p7.1, (p8.1, tt)))))))),
      omega (arith, p1.0, p2.0, p3.0, p4.0, p5.0, p6.0, p7.0, p8.0),
    )

prf_length :
    (h : Hashes)
    → ((k m : Bytes) → length (h.hmac_sha1 k m) ≡ 20)
    → (fuel : ℕ) (key seed : Bytes) (out_len counter : ℕ) (prev out : Bytes)
    → out_len ≤ length out + 20 * fuel
    → out_len ≤ length (prf_loop h fuel key seed out_len counter prev out)
unfolding prf_loop
prf_length h mac zero key seed out_len counter prev out le = omega (arith, le)
prf_length h mac (suc fuel) key seed out_len counter prev out le =
    elim (Bool-cases (ltb (length out) out_len)) [
      | inl e ↦ rw e (
          prf_length h mac fuel key seed out_len _ _ _ (
            omega (
              arith,
              le,
              length-append out
                  (h.hmac_sha1 key (prev ++ (seed ++ (((counter + 1) % 256) ∷ 0 ∷ 0 ∷ [])))),
              mac key (prev ++ (seed ++ (((counter + 1) % 256) ∷ 0 ∷ 0 ∷ []))),
            )))
      | inr e ↦ rw e (ground (arith, e))
    ]

-- PRF+ gives as many bytes as are asked for, where HMAC-SHA1 gives twenty.
pub length-prf_plus :
    (h : Hashes)
    → ((k m : Bytes) → length (h.hmac_sha1 k m) ≡ 20)
    → (key : Bytes) (label : String) (seed : Bytes) (n : ℕ)
    → length (prf_plus h key label seed n) ≡ n
unfolding prf_plus
length-prf_plus h mac key label seed n =
    let out = prf_loop h n key (h.ascii label ++ seed) n 0 [] [] in
    omega (
      arith,
      length-take n out,
      prf_length h mac n key (h.ascii label ++ seed) n 0 [] [] (omega arith),
    )
