-- ===== src/Exchange/Session/Drain.antt =====
-- eapsession.go: what is put into the outgoing queue reaches the client, fragment by fragment.
use ligament_2fa.Prelude.{
  ℕ, zero, suc, ◌+◌, ◌-◌, ◌%◌, ◌≤◌, ◌<◌, min, ◌≡◌, refl, ap, ◌∙◌, inl, inr, false, some, List, [],
  ◌∷◌, arith, ltb, ◌==◌, Bool-cases, length, drop, All, slice, length-take,
}
use ligament_2fa.Eap.Assembler.{reset, max_reassembly, Assembler}
use ligament_2fa.Eap.Bytes.{Bytes}
use ligament_2fa.Eap.Fragment.{resume, feed}
use ligament_2fa.Eap.Fragment.Chain.{chain, emit_message, step}
use ligament_2fa.Eap.Fragment.RoundTrip.{feed-fragment_loop}
use ligament_2fa.Eap.Ttls.{fragment_loop, max_fragment}
use ligament_2fa.Exchange.Session.{
  chunk_size, push_out_queue, OutFragment, out_fragment, Session, next_req_id, pop_out_fragment,
  pop_or_ack,
}
use ligament_2fa.Exchange.Session.Hearing.{
  receive_for, sent_flags, sent_length, Fits, hear, sent_no_start, sent_more, heard_for,
}
use mathlib.Core.Path.{fun_ext}

-- The packets that come out where every acknowledgement is answered by the next fragment.
unfoldable pub drain : ℕ → Session → List Bytes
drain zero s = []
drain (suc n) s = let popped = pop_or_ack s in let rest = drain n popped.1 in popped.0 ∷ rest

-- The packets of a queue are heard as its fragments, whatever their identifiers.
feed-drain :
    (queue : List OutFragment) (s : Session) (a : Assembler)
    → s.out_queue ≡ queue
    → All Fits queue
    → feed (receive_for s.proto) a (drain (length queue) s) ≡ feed hear a queue
unfolding drain feed pop_or_ack pop_out_fragment next_req_id
feed-drain [] s a e h = refl
feed-drain (f ∷ rest) s a e h = rw e (
    rw (heard_for s.req_id f.declared a h.0.1 s.proto f.first f.last f.chunk h.0.0) (
      ap (resume (hear a f)) (
        fun_ext (λ a'.
          feed-drain rest (record s { out_queue = rest; req_id = (s.req_id + 1) % 256 }) a' refl
            h.1))))

loop-Fits :
    (size : ℕ) (payload : Bytes)
    → size ≤ max_fragment
    → length payload < 4294967296
    → (fuel off : ℕ)
    → All Fits (fragment_loop size (out_fragment (length payload)) payload fuel off)
unfolding fragment_loop
loop-Fits size payload le small zero off = tt
loop-Fits size payload le small (suc fuel) off = elim (Bool-cases (ltb off (length payload))) [
  | inl e ↦ rw e ((short, small), loop-Fits size payload le small fuel end)
  | inr e ↦ rw e tt
]
  where
    end : ℕ
    end = min (off + size) (length payload)

    short : length (slice payload off end) ≤ max_fragment
    short = omega (arith, le, length-take (end - off) (drop off payload))

size-Fits :
    (s : Session) → s.frag_size ≤ max_fragment → (0 < chunk_size s) × (chunk_size s ≤ max_fragment)
size-Fits s le = ground (arith, le)

-- Output of the TLS worker of 1 to 65536 bytes that is queued in a session with nothing else to send, and
-- sent fragment by fragment, each in answer to an acknowledgement, is rebuilt byte for byte by a client
-- that is between two chains, and comes out once, with the last fragment: in PEAP and in TTLS, for any
-- identifiers, and any fragment size up to `MaxFragment`.
pub drain-push_out_queue :
    (s : Session) (payload : Bytes) (a : Assembler)
    → s.out_queue ≡ []
    → s.frag_size ≤ max_fragment
    → 0 < length payload
    → length payload ≤ max_reassembly
    → a.buf ≡ []
    → a.in_flight ≡ false
    → feed
        (receive_for s.proto)
        a
        (drain (length (push_out_queue payload s).out_queue) (push_out_queue payload s))
      ≡ some (reset, payload ∷ [])
unfolding push_out_queue
drain-push_out_queue s payload a empty le pos small clear idle =
    rw (nonempty, empty)
      (feed-drain queue (record s { out_queue = queue }) a refl
          (loop-Fits (chunk_size s) payload (size-Fits s le).1 (omega (arith, small)) _ 0)
        ∙ feed-fragment_loop hear step (chunk_size s) (out_fragment (length payload))
            (emit_message sent_flags (sent_length (length payload))) (λ b first last chunk h. refl)
            payload (length payload) 0 a
        ∙ chain (chunk_size s) payload sent_flags (sent_length (length payload)) (size-Fits s le).0
            small sent_no_start sent_more refl tt a clear idle pos)
  where
    queue : List OutFragment
    queue = fragment_loop (chunk_size s) (out_fragment (length payload)) payload (length payload) 0

    nonempty : (length payload == 0) ≡ false
    nonempty = ground (arith, pos)
