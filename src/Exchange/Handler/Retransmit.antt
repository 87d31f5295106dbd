-- ===== src/Exchange/Handler/Retransmit.antt =====
-- eapauth.go: `handleEAPAuth` on the repetition of a packet.
use ligament_2fa.Prelude.{ℕ, ◌≡◌, sym, ap, ◌∙◌, true, some, ok, some_injective}
use ligament_2fa.Auth.Config.{bytes_eq, bytes_eq_refl}
use ligament_2fa.Eap.Bytes.{Bytes}
use ligament_2fa.Eap.Packet.{Packet}
use ligament_2fa.Exchange.Handler.{settle, on_session, on_packet}
use ligament_2fa.Exchange.Handler.Steps.{on_session-Fate, Granted}
use ligament_2fa.Exchange.Inner.Grants.{Quiet}
use ligament_2fa.Exchange.Reply.{challenge, Outcome, send_eap, reject_eap}
use ligament_2fa.Exchange.Reply.Fate.{Fate, goes_on, waits, fails, refuses, accepts, answer-Fate}
use ligament_2fa.Exchange.Server.{Server, Request, Tls, Chance}
use ligament_2fa.Exchange.Session.{Session}
use ligament_2fa.Exchange.Table.{Table}
use ligament_2fa.Store.State.{World}

-- Where a packet for a session is answered by a challenge, `on_packet` answers its repetition, given the
-- session as that answer left it, by that very challenge, whatever the TLS worker, the database and the
-- other sessions are by then; it writes the session back as it was given, and leaves the database as it
-- was. The statement begins after the lookup of the session, which may have expired, or been evicted, by
-- then. While a push holds the first packet only its repetitions come for its session.
pub retransmission :
    (server : Server) (r : Request) (c : Chance) (tls : Tls) (w : World)
    → Quiet c
    → (p : Packet) (s : Session) (o : Outcome) (s' : Session) (st pkt : Bytes)
    → (on_session server r c tls p s w).0 ≡ ok o
    → o.session ≡ some s'
    → o.reply ≡ some (challenge st pkt)
    → (r' : Request) (c' : Chance) (tls' : Tls) (now : ℕ) (t : Table) (w' : World) → r'.eap ≡ r.eap
    → on_packet server r' c' tls' now p s' t w' ≡ (
      ok (settle s'.state_key t (record { reply = some (challenge st pkt); session = some s' })),
      w',
    )
unfolding reject_eap on_packet send_eap
retransmission server r c tls w quiet p s o s' st pkt e x a r' c' tls' now t w' same = go (
    answer-Fate _ _ _ _ e (
      on_session-Fate server (λ n. Unit) (λ n. Unit) r c tls quiet p s w (λ n g. tt) (λ n g. tt)
        (λ x. tt)))
  where
    go :
        Fate (Granted server (λ n. Unit) (λ n. Unit)) (λ n. Unit) s.state r.eap o
        → on_packet server r' c' tls' now p s' t w' ≡ (
          ok (
              settle s'.state_key t
                (record { reply = some (challenge st pkt); session = some s' })),
          w',
        )
    go (goes_on u pkt' y q l g) = rw repeats (
        ap (λ z. (ok (settle s'.state_key t (record { reply = z; session = some s' })), w')) answer)
      where
        whole : u ≡ s'
        whole = some_injective (sym y ∙ x)

        repeats : bytes_eq s'.last_req r'.eap ≡ true
        repeats = rw (same, ap (λ z. z.last_req) (sym whole) ∙ g.1.0) (bytes_eq_refl r.eap)

        answer : some (challenge s'.state s'.last_resp) ≡ some (challenge st pkt)
        answer =
            rw (ap (λ z. z.state) (sym whole) ∙ g.0, ap (λ z. z.last_resp) (sym whole) ∙ l)
              (sym q ∙ a)
    go (waits u y q g) = absurd cc
    go (fails id y q) = absurd cc
    go (refuses u id y q v) = absurd cc
    go (accepts given pkt' keys y q g) = absurd cc
