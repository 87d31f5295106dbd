-- ===== src/Exchange/Session.antt =====
-- internal/radiusserver/eapsession.go: the session, and the queue of outgoing fragments.
-- A nil slice and an empty one are both []; a missing fragment size is 0.
pub mod Hearing
pub mod Drain
use ligament_2fa.Prelude.{
  ℕ, zero, suc, ◌+◌, ◌-◌, ◌*◌, ◌/◌, ◌%◌, ◌^◌, ◌≤◌, ◌<◌, min, max, bit_and, bit_or, ◌≡◌, refl, sym,
  ap, ◌∙◌, subst, ◌≢◌, ◌↔◌, ◌⊎◌, inl, inr, Bool, true, false, not, ◌&&◌, ◌||◌, Option, none, some,
  List, [], ◌∷◌, ◌++◌, map, append-nil, append_assoc, arith, ltb, leb, ◌==◌, if◌then◌else◌, ltb→lt,
  lt→ltb, leb→le, ==_iff, tests, Bool-cases, Option-cases, length, get_or, take, drop, All, slice,
  length-append, take-append-drop, length-take, length-drop, take-append, drop-append, take_all,
  drop_all, Result, ok, err, is_ok, any, count_where, select, update_where, find, String, str_eq,
  Among, Among-select, Result-cases,
}
use ligament_2fa.Eap.Assembler.{Assembler, new_assembler}
use ligament_2fa.Eap.Bytes.{Bytes}
use ligament_2fa.Eap.Flags.{frag_flags}
use ligament_2fa.Eap.Packet.{code_request}
use ligament_2fa.Eap.Peap.{build_peap}
use ligament_2fa.Eap.Ttls.{build_ttls, fragment_loop, max_fragment}

-- `eapProtocol`.
pub data Proto : Type 0 where
  proto_peap proto_ttls : Proto

-- `peapInnerState`.
pub data InnerState : Type 0 where
  wait_response wait_success_ack wait_tlv wait_failure_ack : InnerState

-- `eapPhase`.
pub data Phase : Type 0 where
  handshake handshake_done inner : Phase

pub Phase-cases : (p : Phase) → (p ≡ handshake) ⊎ ((p ≡ handshake_done) ⊎ (p ≡ inner))
Phase-cases handshake = inl refl
Phase-cases handshake_done = inr (inl refl)
Phase-cases inner = inr (inr refl)

-- `ttlsFrag`.
pub record OutFragment : Type 0 where
  pub chunk : Bytes
  pub first : Bool
  pub last : Bool
  pub declared : ℕ

-- `eapSession`, without the bridge to the TLS worker.
pub record Session : Type 0 where
  pub state : Bytes
  pub state_key : Bytes
  pub last_used : ℕ
  pub proto : Proto
  pub inner_state : InnerState
  pub auth_challenge : Bytes
  pub inner_req_id : ℕ
  pub inner_mschap_id : ℕ
  pub outer_identity : Bytes
  pub cmk : Bytes
  pub csk : Bytes
  pub raw_tls_key : Bytes
  pub phase : Phase
  pub key_block : Bytes
  pub pending_inner : Bytes
  pub frag : Assembler
  pub out_queue : List OutFragment
  pub req_id : ℕ
  pub id : ℕ
  pub frag_size : ℕ
  pub last_req : Bytes
  pub last_resp : Bytes

abbrev pub zeros16 : Bytes
zeros16 = 0 ∷ 0 ∷ 0 ∷ 0 ∷ 0 ∷ 0 ∷ 0 ∷ 0 ∷ 0 ∷ 0 ∷ 0 ∷ 0 ∷ 0 ∷ 0 ∷ 0 ∷ 0 ∷ []

-- `newEAPSession`.
unfoldable pub new_session : ℕ → Bytes → Bytes → Proto → Session
new_session now state key proto = record {
  state = state;
  state_key = key;
  last_used = now;
  proto = proto;
  inner_state = wait_response;
  auth_challenge = zeros16;
  inner_req_id = 0;
  inner_mschap_id = 0;
  outer_identity = [];
  cmk = [];
  csk = [];
  raw_tls_key = [];
  phase = handshake;
  key_block = [];
  pending_inner = [];
  frag = new_assembler;
  out_queue = [];
  req_id = 0;
  id = 0;
  frag_size = 0;
  last_req = [];
  last_resp = [];
}

-- `nextReqID`: the identifier, and the session whose next one is higher by one, modulo 256.
unfoldable pub next_req_id : Session → ℕ × Session
next_req_id s = (s.req_id, record s { req_id = (s.req_id + 1) % 256 })

abbrev pub out_fragment : ℕ → Bool → Bool → Bytes → OutFragment
out_fragment total first last chunk = record {
  chunk = chunk;
  first = first;
  last = last;
  declared = total;
}

abbrev pub chunk_size : Session → ℕ
chunk_size s = if s.frag_size == 0 then max_fragment else s.frag_size

-- `pushOutQueue`.
unfoldable pub push_out_queue : Bytes → Session → Session
push_out_queue payload s =
    let cut =
      fragment_loop (chunk_size s) (out_fragment (length payload)) payload (length payload) 0 in
    if length payload == 0 then s else record s { out_queue = s.out_queue ++ cut }

-- `BuildPEAP` or `BuildTTLS`, as the session's protocol has it.
unfoldable pub build_for : Proto → ℕ → ℕ → Option ℕ → Bytes → Bytes
build_for proto_peap id flags declared payload = build_peap code_request id flags declared payload
build_for proto_ttls id flags declared payload = build_ttls code_request id flags declared payload

abbrev declared_of : OutFragment → Option ℕ
declared_of f = if f.first then some f.declared else none

-- What a fragment is sent as.
unfoldable pub fragment_packet : Proto → ℕ → OutFragment → Bytes
fragment_packet proto id f =
    build_for proto id (frag_flags f.first (not f.last)) (declared_of f) f.chunk

abbrev pop_from : List OutFragment → Session → Option Bytes × Session
pop_from [] s = (none, s)
pop_from (f ∷ rest) s =
    let numbered = next_req_id (record s { out_queue = rest }) in
    (some (fragment_packet s.proto numbered.0 f), numbered.1)

-- `popOutFragment`.
unfoldable pub pop_out_fragment : Session → Option Bytes × Session
pop_out_fragment s = pop_from s.out_queue s

abbrev pop_or : Option Bytes × Session → Bytes × Session
pop_or (some pkt, s) = (pkt, s)
pop_or (none, s) =
    let numbered = next_req_id s in (build_for s.proto numbered.0 0 none [], numbered.1)

-- `popOrAck`.
unfoldable pub pop_or_ack : Session → Bytes × Session
pop_or_ack s = pop_or (pop_out_fragment s)

abbrev pub max_pending_inner : ℕ
max_pending_inner = 64 * 1024

-- `stashPendingInner`; `none` where the buffer would be too long.
unfoldable pub stash_pending_inner : Bytes → Session → Option Session
stash_pending_inner app s =
    if ltb max_pending_inner (length app) then none else some (record s { pending_inner = app })
