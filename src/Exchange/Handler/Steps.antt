-- ===== src/Exchange/Handler/Steps.antt =====
-- eapauth.go: what one step of a session, and the making of one, keep of all sessions.
use ligament_2fa.Prelude.{
  ℕ, ◌≤◌, ◌≡◌, refl, subst, ◌⊎◌, inl, inr, Bool, true, false, not, ◌&&◌, Option, none, some, arith,
  ltb, ◌==◌, Bool-cases, Option-cases, length, drop, All, select, update_where, String,
  some_injective, All-select, All-update_where,
}
use ligament_2fa.Eap.Bytes.{Bytes}
use ligament_2fa.Eap.Packet.{packet_type, Packet, type_nak, type_ttls, type_peap}
use ligament_2fa.Exchange.Handler.{
  Handled, set_frag_size, settle, begin_session, on_created, on_nak, on_session, is_peap, offers,
}
use ligament_2fa.Exchange.Inner.Grants.{Quiet}
use ligament_2fa.Exchange.Peap.Grants.{MschapGrant, handle_peap-Fate}
use ligament_2fa.Exchange.Reply.{send_eap, Reply, accept, Outcome, reject_eap}
use ligament_2fa.Exchange.Reply.Fate.{
  Passing, Fate, goes_on, waits, fails, refuses, accepts, OkFate, answers, send_eap-Fate,
}
use ligament_2fa.Exchange.Server.{Server, Request, Tls, Chance}
use ligament_2fa.Exchange.Session.{new_session, proto_peap, Session, next_req_id}
use ligament_2fa.Exchange.Table.{
  Table, has_key, hex_state, create_session, delete_session, cleanup, make_room, fresh_state,
  is_live, eap_session_cap, victim,
}
use ligament_2fa.Exchange.Table.Bounded.{room_capped}
use ligament_2fa.Exchange.Table.Keys.{length-select, length-update_where}
use ligament_2fa.Exchange.Ttls.Grants.{PapGrant, handle_ttls-Fate}
use ligament_2fa.Store.State.{World}

-- `M name` and `P name`: the checks of an MS-CHAPv2 response, or of an inner PAP, granted access under the
-- name.
module _ (server : Server) (M P : String → Type 0) where
  abbrev pub Granted : String → Type 0
  Granted given = M given ⊎ P given

  abbrev pub Sure : Session → Type 0
  Sure s = Passing s.inner_state → M (server.text s.outer_identity)

  -- Every session is sure, and there are no more than the cap.
  abbrev pub Fine : Table → Type 0
  Fine t = All Sure t × (length t ≤ eap_session_cap)

  pub Fine-update :
      (test : Session → Bool) (f : Session → Session)
      → ((s : Session) → Sure s → Sure (f s))
      → (t : Table) → Fine t
      → Fine (update_where test f t)
  Fine-update test f keeps t h =
      (All-update_where Sure test f keeps t h.0, rw (length-update_where test f t) h.1)

  pub Fine-select : (test : Session → Bool) (t : Table) → Fine t → Fine (select test t)
  Fine-select test t h = (All-select Sure test t h.0, omega (arith, h.1, length-select test t))

  unfoldable pub SafeReply : Option Reply → Type 0
  SafeReply (some (accept given pkt keys)) = Granted given
  SafeReply _ = Unit

  -- The table is fine, and an accept rests on a grant.
  abbrev pub Safe : Handled → Type 0
  Safe h = SafeReply h.0 × Fine h.1

  module _ (r : Request) (c : Chance) (tls : Tls) (quiet : Quiet c) where
    abbrev F : Session → Outcome → Type 0
    F s = Fate Granted (λ n. M (server.text n)) s.state r.eap

    nak-Fate : (p : Packet) (s : Session) → Sure s → F s (on_nak server r c tls p s)
    unfolding on_nak next_req_id
    nak-Fate p s v = elim (Bool-cases (is_peap s.proto && offers type_ttls (drop 1 p.payload))) [
      | inl e ↦
          rw e (send_eap-Fate Granted (λ n. M (server.text n)) s.state r.eap _ _ (refl, (refl, v)))
      | inr e ↦ rw e (refuses s p.id refl refl v)
    ]

    pub on_session-Fate :
        (p : Packet) (s : Session) (w : World)
        → ((n : String) → MschapGrant server r c tls p w s n → M n)
        → ((n : String) → PapGrant server r c tls p w s n → P n)
        → Sure s
        → OkFate Granted (λ n. M (server.text n)) s.state r.eap (on_session server r c tls p s w).0
    unfolding on_session
    on_session-Fate p s w mint pay v = elim (Bool-cases (packet_type p == type_peap)) [
      | inl e ↦
          rw (e, on_session)
            (handle_peap-Fate Granted M s.state server r c tls p w s quiet (λ n g. inl g) mint refl
              v)
      | inr e ↦
          rw (e, on_session)
            (elim (Bool-cases (packet_type p == type_ttls)) [
              | inl f ↦
                  rw (f, on_session)
                    (handle_ttls-Fate Granted (λ n. M (server.text n)) s.state server r c tls p w s
                      (λ n g. inr (pay n g)) refl v)
              | inr f ↦
                  rw (f, on_session)
                    (elim (Bool-cases (packet_type p == type_nak)) [
                      | inl g ↦ rw (g, on_session) (answers _ _ _ _ (nak-Fate p s v))
                      | inr g ↦ rw (g, on_session) (answers _ _ _ _ (refuses s p.id refl refl v))
                    ])
            ])
    ]

    pub settle-Safe :
        (key : Bytes) (t : Table) (s : Session) (o : Outcome)
        → Fine t
        → F s o
        → Safe (settle key t o)
    unfolding settle SafeReply reject_eap delete_session
    settle-Safe key t s o h (goes_on s' pkt e q l g) =
        rw (e, q) (tt, Fine-update (has_key key) (λ _. s') (λ _ _. g.1.1) t h)
    settle-Safe key t s o h (waits s' e q g) =
        rw (e, q) (tt, Fine-update (has_key key) (λ _. s') (λ _ _. g.1.1) t h)
    settle-Safe key t s o h (fails id e q) =
        rw (e, q) (tt, Fine-select (λ x. not (has_key key x)) t h)
    settle-Safe key t s o h (refuses s' id e q v) =
        rw (e, q) (tt, Fine-update (has_key key) (λ _. s') (λ _ _. v) t h)
    settle-Safe key t s o h (accepts given pkt keys e q g) =
        rw (e, q) (g, Fine-select (λ x. not (has_key key x)) t h)

    begin-Sure :
        (p : Packet) (key : Bytes) (t : Table) (now : ℕ) (b k : Bytes)
        → Fine t
        → Safe (settle key t (begin_session server r c tls p (new_session now b k proto_peap)))
    unfolding settle begin_session next_req_id new_session set_frag_size send_eap SafeReply
    begin-Sure p key t now b k h = elim (Bool-cases (r.framed_mtu == 0)) [
      | inl e ↦ rw e (tt, Fine-update (has_key key) (λ _. _) (λ _ _ x. absurd x) t h)
      | inr e ↦ rw e (tt, Fine-update (has_key key) (λ _. _) (λ _ _ x. absurd x) t h)
    ]

    pub cleanup-Fine : (now : ℕ) (t : Table) → Fine t → Fine (cleanup now t)
    unfolding cleanup
    cleanup-Fine now t h = Fine-select (is_live now) t h

    pub delete-Fine : (key : Bytes) (t : Table) → Fine t → Fine (delete_session key t)
    unfolding delete_session
    delete-Fine key t h = Fine-select (λ x. not (has_key key x)) t h

    room-Fine : (now : ℕ) (t room : Table) → Fine t → make_room now t ≡ some room → Fine room
    unfolding make_room
    room-Fine now t room h e = go (ltb (length t) eap_session_cap) (victim now t) refl refl
      where
        go :
            (b : Bool) (v : Option Session)
            → ltb (length t) eap_session_cap ≡ b
            → victim now t ≡ v
            → Fine room
        go true v q x = subst Fine (some_injective (rw q at e)) h
        go false none q x = absurd (cc (rw (q, x) at e))
        go false (some v) q x =
            subst Fine (some_injective (rw (q, x) at e)) (delete-Fine v.state_key t h)

    pub created-Safe :
        (p : Packet) (now : ℕ) (t : Table)
        → Fine t
        → Safe (on_created server r c tls p (create_session now c.states proto_peap t))
    unfolding create_session SafeReply reject_eap new_session
    created-Safe p now t h = elim (Option-cases (make_room now (cleanup now t))) [
      | inl e ↦ rw (e, create_session) (tt, cleanup-Fine now t h)
      | inr (room, e) ↦
          rw (e, create_session)
            (elim (Option-cases (fresh_state c.states room)) [
              | inl f ↦
                  rw (f, create_session)
                    (tt, room-Fine now (cleanup now t) room (cleanup-Fine now t h) e)
              | inr (b, f) ↦
                  rw (f, create_session)
                    (begin-Sure p (hex_state b) _ now b (hex_state b) (
                      (
                        (λ x. absurd x),
                        (room-Fine now (cleanup now t) room (cleanup-Fine now t h) e).0,
                      ),
                      omega
                          (arith, room_capped now (cleanup now t) room e (cleanup-Fine now t h).1),
                    ))
            ])
    ]
