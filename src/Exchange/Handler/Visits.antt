-- ===== src/Exchange/Handler/Visits.antt =====
-- eapauth.go: `handleEAPAuth` on one request, and what its answer rests on.
use ligament_2fa.Prelude.{
  ℕ, ◌≡◌, refl, ap, subst, inl, inr, Bool, true, false, Option, none, some, [], ◌∷◌, ◌==◌,
  Bool-cases, Option-cases, Result, ok, err, find, String, Result-cases, some_injective, All-find,
}
use ligament_2fa.Auth.Config.{bytes_eq}
use ligament_2fa.Eap.Bytes.{Bytes}
use ligament_2fa.Eap.Packet.{packet_type, parse, code_response, type_identity, Packet}
use ligament_2fa.Exchange.Handler.{
  identified, without, on_identity, on_packet, no_session, on_found, handle_eap_auth, Handled,
  set_frag_size, settle, on_session,
}
use ligament_2fa.Exchange.Handler.Steps.{
  Fine, Fine-update, cleanup-Fine, delete-Fine, Granted, Sure, SafeReply, Safe, created-Safe,
  settle-Safe, on_session-Fate,
}
use ligament_2fa.Exchange.Inner.Grants.{Quiet}
use ligament_2fa.Exchange.Peap.Grants.{MschapGrant}
use ligament_2fa.Exchange.Reply.{send_eap, Reply, accept, Outcome, reject_eap}
use ligament_2fa.Exchange.Reply.Fate.{answer-Fate}
use ligament_2fa.Exchange.Server.{Server, Request, Tls, Chance}
use ligament_2fa.Exchange.Session.{Session}
use ligament_2fa.Exchange.Table.{get_session, Table, has_key, hex_state, cleanup}
use ligament_2fa.Exchange.Ttls.Grants.{PapGrant}
use ligament_2fa.Store.State.{Error, and_then, return, World}

-- A request as it was handled: with what the randomness, the TLS worker and the world gave, at the table
-- of sessions that it found.
pub record Visit : Type 0 where
  pub request : Request
  pub chance : Chance
  pub tls : Tls
  pub world : World
  pub table : Table

-- The packet of the visit, and the session that the table gives for its State, as it is handled.
abbrev pub Came : Visit → Packet → Session → Type 0
Came v p s =
    (parse v.request.eap ≡ ok p)
    × ((s0 : Session) × ((get_session v.world.now (hex_state v.request.state) v.table).0 ≡ some s0)
        × (s ≡ set_frag_size v.request.framed_mtu s0))

-- At this visit the MS-CHAPv2 response of its packet was granted access under the name.
abbrev pub MschapAt : Server → Visit → String → Type 0
MschapAt server v given =
    (p : Packet) × ((s : Session) × (Came v p s)
      × (MschapGrant server v.request v.chance v.tls p v.world s given))

-- At this visit the inner PAP credentials of its packet were accepted.
abbrev pub PapAt : Server → Visit → String → Type 0
PapAt server v given =
    (p : Packet) × ((s : Session) × (Came v p s)
      × (PapGrant server v.request v.chance v.tls p v.world s given))

-- One visit; `M` and `P` hold at least of the names granted access at it.
module _ (server : Server) (M P : String → Type 0) (r : Request) (c : Chance) (tls : Tls)
    (quiet : Quiet c) where
  -- The packet grants nothing that the predicates do not know of.
  abbrev Known : Packet → World → Session → Type 0
  Known p w s =
      ((n : String) → MschapGrant server r c tls p w s n → M n)
      × ((n : String) → PapGrant server r c tls p w s n → P n)

  without-Fine :
      (found : Option Session) (t : Table)
      → Fine server M P t
      → Fine server M P (without server r c tls found t)
  without-Fine none t h = h
  without-Fine (some s) t h = delete-Fine server M P r c tls quiet s.state_key t h

  identified-Safe :
      (b : Bool) (now : ℕ) (p : Packet) (found : Option Session) (t : Table)
      → Fine server M P t
      → Safe server M P (identified server r c tls b now p found t)
  unfolding SafeReply reject_eap
  identified-Safe true now p found t h =
      created-Safe server M P r c tls quiet p now _ (without-Fine found t h)
  identified-Safe false now p found t h = (tt, h)

  identity-Safe :
      (now : ℕ) (p : Packet) (found : Option Session) (t : Table)
      → Fine server M P t
      → Safe server M P (on_identity server r c tls now p found t)
  unfolding on_identity
  identity-Safe now p found t h = identified-Safe server.has_certificate now p found t h

  -- What a request comes to, where the handler returns.
  SafeAnswer : Result Error Handled → Type 0
  SafeAnswer (ok h) = Safe server M P h
  SafeAnswer (err e) = Unit

  stepped :
      (p : Packet) (s : Session) (t : Table) (w : World)
      → Known p w s
      → Sure server M P s
      → Fine server M P t
      → (x : Result Error Outcome × World) → on_session server r c tls p s w ≡ x
      → SafeAnswer (and_then x (λ o. return (settle s.state_key t o))).0
  unfolding SafeAnswer
  stepped p s t w k v h (err e, w') q = tt
  stepped p s t w k v h (ok o, w') q = settle-Safe server M P r c tls quiet s.state_key t s o h (
      answer-Fate _ _ _ _ (ap (λ z. z.0) q)
        (on_session-Fate server M P r c tls quiet p s w k.0 k.1 v))

  packet-Safe :
      (now : ℕ) (p : Packet) (s : Session) (t : Table) (w : World)
      → Known p w s
      → Sure server M P s
      → Fine server M P t
      → SafeAnswer (on_packet server r c tls now p s t w).0
  unfolding on_packet SafeAnswer SafeReply settle send_eap
  packet-Safe now p s t w k v h = elim (Bool-cases (bytes_eq s.last_req r.eap)) [
    | inl e ↦
        rw (e, on_packet) (tt, Fine-update server M P (has_key s.state_key) (λ _. _) (λ _ _. v) t h)
    | inr e ↦
        rw (e, on_packet)
          (elim (Bool-cases (packet_type p == type_identity)) [
            | inl f ↦ rw (f, on_packet) (identity-Safe now p (some s) t h)
            | inr f ↦ rw (f, on_packet) (stepped p s t w k v h _ refl)
          ])
  ]

  size-Sure : (mtu : ℕ) (s : Session) → Sure server M P s → Sure server M P (set_frag_size mtu s)
  unfolding set_frag_size
  size-Sure mtu s v = elim (Bool-cases (mtu == 0)) [ inl e ↦ rw e v | inr e ↦ rw e v ]

  found-Safe :
      (now : ℕ) (p : Packet) (found : Option Session) (t : Table) (w : World)
      → ((s : Session) → found ≡ some s → Known p w (set_frag_size r.framed_mtu s))
      → ((s : Session) → found ≡ some s → Sure server M P s)
      → Fine server M P t
      → SafeAnswer (on_found server r c tls now p (found, t) w).0
  unfolding SafeAnswer SafeReply reject_eap
  found-Safe now p none t w k v h = elim (Bool-cases (packet_type p == type_identity)) [
    | inl e ↦ rw (e, on_found, no_session) (identity-Safe now p none t h)
    | inr e ↦ rw (e, on_found, no_session) (tt, h)
  ]
  found-Safe now p (some s) t w k v h =
      packet-Safe now p (set_frag_size r.framed_mtu s) _ w (k s refl)
        (size-Sure r.framed_mtu s (v s refl))
        (Fine-update server M P (has_key s.state_key) (set_frag_size r.framed_mtu)
          (size-Sure r.framed_mtu) t h)

  got-Sure :
      (now : ℕ) (key : Bytes) (t : Table)
      → Fine server M P t
      → ((s : Session) → (get_session now key t).0 ≡ some s → Sure server M P s)
        × Fine server M P (get_session now key t).1
  unfolding get_session
  got-Sure now [] t h = ((λ s e. absurd (cc e)), h)
  got-Sure now (b ∷ bs) t h = (
    λ s e. elim (Option-cases (find (has_key (b ∷ bs)) (cleanup now t))) [
      | inl n ↦ absurd (cc (rw (n, get_session) at e))
      | inr (s', n) ↦ subst (Sure server M P) (some_injective (rw (n, get_session) at e)) (
          All-find (Sure server M P) (has_key (b ∷ bs)) (cleanup now t) n
            (cleanup-Fine server M P r c tls quiet now t h).0)
    ],
    Fine-update server M P (has_key (b ∷ bs)) (λ s. record s { last_used = now }) (λ s v. v) _
        (cleanup-Fine server M P r c tls quiet now t h),
  )

  abbrev visit : Table → World → Visit
  visit t w = record { request = r; chance = c; tls = tls; world = w; table = t }

  handle-Safe :
      (t : Table) (w : World)
      → ((p : Packet) (s : Session) → Came (visit t w) p s → Known p w s)
      → Fine server M P t
      → SafeAnswer (handle_eap_auth server r c tls t w).0
  unfolding handle_eap_auth SafeAnswer SafeReply reject_eap
  handle-Safe t w k h = elim (Result-cases (parse r.eap)) [
    | inr (_, e) ↦ rw (e, handle_eap_auth) (tt, h)
    | inl (p, e) ↦
        rw (e, handle_eap_auth)
          (elim (Bool-cases (p.code == code_response)) [
            | inl f ↦
                rw (f, handle_eap_auth)
                  (found-Safe w.now p (get_session w.now (hex_state r.state) t).0
                    (get_session w.now (hex_state r.state) t).1 w
                    (λ s0 q. k p (set_frag_size r.framed_mtu s0) (e, (s0, q, refl)))
                    (got-Sure w.now (hex_state r.state) t h).0
                    (got-Sure w.now (hex_state r.state) t h).1)
            | inr f ↦ rw (f, handle_eap_auth) (tt, h)
          ])
  ]

  pub handled :
      (t : Table) (w : World) {h : Handled}
      → ((p : Packet) (s : Session) → Came (visit t w) p s → Known p w s)
      → Fine server M P t
      → (handle_eap_auth server r c tls t w).0 ≡ ok h
      → Safe server M P h
  unfolding SafeAnswer
  handled t w k v e = subst SafeAnswer e (handle-Safe t w k v)

  pub accepted :
      {reply : Option Reply} {given : String} {pkt : Bytes} {keys : Option (Bytes × Bytes)}
      → reply ≡ some (accept given pkt keys)
      → SafeReply server M P reply
      → Granted server M P given
  unfolding SafeReply
  accepted e v = subst (SafeReply server M P) e v
