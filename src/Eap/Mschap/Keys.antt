-- ===== src/Eap/Mschap/Keys.antt =====
-- internal/radiusserver/eap/mschapv2.go: the responses of RFC 2759 and the keys of PEAP, over hashes
-- and a block cipher that other packages provide. Labels and magic constants are fields of `Hashes`
-- where the code writes them as text.
use ligament_2fa.Prelude.{
  ℕ, zero, suc, ◌+◌, ◌-◌, ◌*◌, ◌/◌, ◌%◌, Bool, true, false, ◌&&◌, Option, none, some, [], ◌∷◌, ◌++◌,
  map, ltb, ◌==◌, if◌then◌else◌, length, take, drop, slice, any, String,
}
use ligament_2fa.Eap.Bytes.{Bytes, nth}
use ligament_2fa.Eap.Mschap.{MschapResponse}

pub record Hashes : Type 0 where
  pub md4 : Bytes → Bytes
  pub sha1 : Bytes → Bytes
  -- `hmac.New(sha1.New, key)`, the message after the key.
  pub hmac_sha1 : Bytes → Bytes → Bytes
  -- `des.NewCipher(key)`, then `Encrypt`.
  pub des : Bytes → Bytes → Bytes
  -- `utf16.Encode([]rune(password))` in little endian.
  pub utf16 : Bytes → Bytes
  pub ascii : String → Bytes
  pub upper_hex : Bytes → Bytes

-- `NTHash`.
unfoldable pub nt_hash : Hashes → Bytes → Bytes
nt_hash h password = h.md4 (h.utf16 password)

-- What follows the last `\`, or all.
unfoldable pub after_backslash : Bytes → Bytes
after_backslash [] = []
after_backslash (c ∷ cs) =
    let rest = after_backslash cs in
    if any (λ b. b == 92) cs then rest else if c == 92 then cs else c ∷ cs

-- What precedes the first `@`.
unfoldable pub before_at : Bytes → Bytes
before_at [] = []
before_at (c ∷ cs) = let rest = before_at cs in if c == 64 then [] else c ∷ rest

-- The name without its domain and realm.
unfoldable pub bare_name : Bytes → Bytes
bare_name name = before_at (after_backslash name)

-- `ChallengeHash`.
unfoldable pub challenge_hash : Hashes → Bytes → Bytes → Bytes → Bytes
challenge_hash h peer auth name = take 8 (h.sha1 (peer ++ (auth ++ bare_name name)))

-- The number of bits that are set in a byte.
abbrev pub bits : ℕ → ℕ → ℕ
bits zero b = 0
bits (suc n) b = b % 2 + bits n (b / 2)

-- A byte shifted left by one, and its lowest bit set where the others are even in number.
abbrev pub with_parity : ℕ → ℕ
with_parity k =
    let b = (k * 2) % 256 in if bits 8 b % 2 == 0 then (if b % 2 == 0 then b + 1 else b - 1) else b

-- `makeDESKey`: seven bytes in groups of seven bits, `<<` and `|` of disjoint bits being `*` and `+`.
unfoldable pub make_des_key : Bytes → Bytes
make_des_key k = map with_parity (
    nth k 0 / 2
    ∷ (nth k 0 % 2 * 64 + nth k 1 / 4)
    ∷ (nth k 1 % 4 * 32 + nth k 2 / 8)
    ∷ (nth k 2 % 8 * 16 + nth k 3 / 16)
    ∷ (nth k 3 % 16 * 8 + nth k 4 / 32)
    ∷ (nth k 4 % 32 * 4 + nth k 5 / 64)
    ∷ (nth k 5 % 64 * 2 + nth k 6 / 128)
    ∷ nth k 6 % 128
    ∷ [])

abbrev pad21 : Bytes → Bytes
pad21 hash = take 21 (
    hash
    ++ (0 ∷ 0 ∷ 0 ∷ 0 ∷ 0 ∷ 0 ∷ 0 ∷ 0 ∷ 0 ∷ 0 ∷ 0 ∷ 0 ∷ 0 ∷ 0 ∷ 0 ∷ 0 ∷ 0 ∷ 0 ∷ 0 ∷ 0 ∷ 0 ∷ []))

-- `ChallengeResponse`.
unfoldable pub challenge_response : Hashes → Bytes → Bytes → Bytes
challenge_response h challenge hash =
    let z = pad21 hash in
    h.des (make_des_key (slice z 0 7)) challenge
    ++ (h.des (make_des_key (slice z 7 14)) challenge
        ++ h.des (make_des_key (slice z 14 21)) challenge)

-- `GenerateAuthenticatorResponse`.
unfoldable pub authenticator_response : Hashes → Bytes → Bytes → Bytes → Bytes → Bytes → Bytes
authenticator_response h hash nt peer auth name =
    let digest = h.sha1 (h.md4 hash ++ (nt ++ h.ascii "Magic server to client signing constant")) in
    h.ascii "S="
    ++ h.upper_hex (
        h.sha1 (
          digest
          ++ (challenge_hash h peer auth name
              ++ h.ascii "Pad to make it do more than one iteration")))

-- The loop over the 24 bytes.
abbrev pub same_bytes : ℕ → Bytes → Bytes → Bool
same_bytes zero xs ys = true
same_bytes (suc n) xs ys = nth xs 0 == nth ys 0 && same_bytes n (drop 1 xs) (drop 1 ys)

-- `VerifyMSCHAPv2`; `none` is a wrong response.
unfoldable pub verify_mschap : Hashes → MschapResponse → Bytes → Bytes → Option Bytes
verify_mschap h r auth hash =
    let expected = challenge_response h (challenge_hash h r.peer_challenge auth r.user_name) hash in
    if same_bytes 24 r.nt_response expected
    then some (authenticator_response h hash r.nt_response r.peer_challenge auth r.user_name)
    else none

-- `GetMasterKey`.
unfoldable pub master_key : Hashes → Bytes → Bytes → Bytes
master_key h hash nt =
    take 16 (h.sha1 (h.md4 hash ++ (nt ++ h.ascii "This is the MPPE Master Key")))

abbrev pub client_send : String
client_send = "On the client side, this is the send key; on the server side, it is the receive key."

abbrev pub client_receive : String
client_receive =
    "On the client side, this is the receive key; on the server side, it is the send key."

abbrev repeated : ℕ → ℕ → Bytes
repeated zero b = []
repeated (suc n) b = b ∷ repeated n b

-- `GetAsymmetricStartKey`.
unfoldable pub start_key : Hashes → Bytes → Bool → Bool → Bytes
start_key h master is_send is_server =
    let magic =
      if is_send
      then (if is_server then client_receive else client_send)
      else (if is_server then client_send else client_receive) in
    take 16 (h.sha1 (master ++ (repeated 40 0 ++ (h.ascii magic ++ repeated 40 0xf2))))

-- `DerivePEAPISK`.
unfoldable pub peap_isk : Hashes → Bytes → Bytes → Bytes
peap_isk h hash nt =
    let master = master_key h hash nt in
    start_key h master false true ++ start_key h master true true

-- The loop of `PEAPPRFPlus`, whose counter is a byte.
unfoldable pub prf_loop : Hashes → ℕ → Bytes → Bytes → ℕ → ℕ → Bytes → Bytes → Bytes
prf_loop h zero key seed out_len counter prev out = out
prf_loop h (suc fuel) key seed out_len counter prev out =
    let next = (counter + 1) % 256 in
    let block = h.hmac_sha1 key (prev ++ (seed ++ (next ∷ 0 ∷ 0 ∷ []))) in
    let rest = prf_loop h fuel key seed out_len next block (out ++ block) in
    if ltb (length out) out_len then rest else out

-- `PEAPPRFPlus`; `seed` is the label and the seed.
unfoldable pub prf_plus : Hashes → Bytes → String → Bytes → ℕ → Bytes
prf_plus h key label seed out_len =
    take out_len (prf_loop h out_len key (h.ascii label ++ seed) out_len 0 [] [])

-- `DerivePEAPCMK`: IPMK and CMK.
unfoldable pub peap_cmk : Hashes → Bytes → Bytes → Bytes × Bytes
peap_cmk h tk isk =
    let imck = prf_plus h (take 40 tk) "Inner Methods Compound Keys" isk 60 in
    (take 40 imck, slice imck 40 60)

-- `DerivePEAPCSK`.
unfoldable pub peap_csk : Hashes → Bytes → Bytes
peap_csk h ipmk = prf_plus h ipmk "Session Key Generating Function" (0 ∷ []) 128
