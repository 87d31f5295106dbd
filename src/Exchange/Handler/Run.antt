-- ===== src/Exchange/Handler/Run.antt =====
-- eapauth.go: `handleEAPAuth` over any sequence of requests.
use ligament_2fa.Prelude.{
  ◌≤◌, ◌≡◌, refl, ◌⊎◌, inl, inr, Option, some, [], ◌∷◌, arith, length, ok, String, All, List, Among,
}
use ligament_2fa.Eap.Bytes.{Bytes}
use ligament_2fa.Exchange.Handler.{handle_eap_auth, Handled}
use ligament_2fa.Exchange.Handler.Steps.{Fine, Sure, Safe}
use ligament_2fa.Exchange.Handler.Visits.{Visit, MschapAt, PapAt, handled, accepted}
use ligament_2fa.Exchange.Inner.Grants.{Quiet}
use ligament_2fa.Exchange.Reply.{Reply, accept}
use ligament_2fa.Exchange.Server.{Server}
use ligament_2fa.Exchange.Table.{eap_session_cap, Table}

-- At one of the visits.
abbrev pub Once : Server → List Visit → String → Type 0
Once server log given = (v : Visit) × (Among v log) × (MschapAt server v given)

-- What is known of the names grows.
Fine-grows :
    (server : Server) (M M' P P' : String → Type 0)
    → ((n : String) → M n → M' n)
    → (t : Table) → Fine server M P t
    → Fine server M' P' t
Fine-grows server M M' P P' grows t h = (go t h.0, h.1)
  where
    go : (t : Table) → All (Sure server M P) t → All (Sure server M' P') t
    go [] h = tt
    go (s ∷ t) h = ((λ x. grows _ (h.0 x)), go t h.1)

-- The visits so far, the last one first, and the table that they lead to from the empty one.
pub data Served (server : Server) : List Visit → Table → Type 0 where
  idle : Served server [] []
  serves :
      {log : List Visit} {t' : Table} {reply : Option Reply} (v : Visit)
      → Served server log v.table
      → Quiet v.chance
      → (handle_eap_auth server v.request v.chance v.tls v.table v.world).0 ≡ ok (reply, t')
      → Served server (v ∷ log) t'

-- A visit to a fine table answers safely, and leaves a fine one.
visited :
    (server : Server) (log : List Visit) (v : Visit) {h : Handled}
    → Quiet v.chance
    → Fine server (Once server log) (λ n. Unit) v.table
    → (handle_eap_auth server v.request v.chance v.tls v.table v.world).0 ≡ ok h
    → Safe server (Once server (v ∷ log)) (PapAt server v) h
visited server log v quiet fine e =
    handled server (Once server (v ∷ log)) (PapAt server v) v.request v.chance v.tls quiet v.table
      v.world (λ p s came. ((λ n g. (v, inl refl, (p, (s, came, g)))), (λ n g. (p, (s, came, g)))))
      (Fine-grows server (Once server log) (Once server (v ∷ log)) (λ n. Unit) (PapAt server v)
        (λ n o. (o.0, inr o.1, o.2)) v.table fine)
      e

Served-Fine :
    (server : Server) (log : List Visit) (t : Table)
    → Served server log t
    → Fine server (Once server log) (λ n. Unit) t
Served-Fine server log t idle = (tt, omega arith)
Served-Fine server _ t' (serves {log = log} v before quiet e) =
    Fine-grows server (Once server (v ∷ log)) (Once server (v ∷ log)) (PapAt server v) (λ n. Unit)
      (λ n o. o) t' (visited server log v quiet (Served-Fine server log v.table before) e).1

-- However many requests come, with whatever data and at whatever times, there are never more than 1024
-- sessions. While a push holds a request only repetitions of its packet come for its session.
pub Served-Capped :
    (server : Server) (log : List Visit) (t : Table)
    → Served server log t
    → length t ≤ eap_session_cap
Served-Capped server log t served = (Served-Fine server log t served).1

-- Whatever requests have been handled from the empty table on, no Access-Accept is sent before an
-- authentication: where a request is answered by an Access-Accept for a name, then either the inner PAP
-- credentials that this very request brought, with this user name, were accepted by RADIUS
-- authentication, under the name without its domain and realm; or, at this request or an earlier one of
-- the run, an MS-CHAPv2 response that that request brought was granted access under this very name, by
-- its checks against the challenge of the session found for that request. What a packet brought is
-- what its data, or the chain of fragments that it ends, are decrypted to, after what the session has
-- kept of the inner phase. While a push holds a request
-- only repetitions of its packet come for its session.
pub accept_after_grant :
    (server : Server) (log : List Visit) (v : Visit)
    → Served server log v.table
    → Quiet v.chance
    → (given : String) (pkt : Bytes) (keys : Option (Bytes × Bytes)) (t' : Table)
    → (handle_eap_auth server v.request v.chance v.tls v.table v.world).0
      ≡ ok (some (accept given pkt keys), t')
    → ((u : Visit) × (Among u (v ∷ log)) × (MschapAt server u given)) ⊎ PapAt server v given
accept_after_grant server log v before quiet given pkt keys t' e =
    accepted server (Once server (v ∷ log)) (PapAt server v) v.request v.chance v.tls quiet refl
      (visited server log v quiet (Served-Fine server log v.table before) e).0
