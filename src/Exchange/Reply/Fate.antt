-- ===== src/Exchange/Reply/Fate.antt =====
-- eapauth.go: what may become of a session in one step, told from the answer and the session left.
use ligament_2fa.Prelude.{
  ℕ, ◌≡◌, refl, subst, inl, inr, Option, none, some, List, [], ◌∷◌, arith, ◌==◌, Bool-cases, length,
  Result, ok, err, String,
}
use ligament_2fa.Eap.Bytes.{Bytes}
use ligament_2fa.Exchange.Reply.{
  challenge, accept, Outcome, send_eap, fail_eap, reject_eap, accept_eap, pump_ttls, pump_peap,
}
use ligament_2fa.Exchange.Server.{Tls}
use ligament_2fa.Exchange.Session.{
  stash_pending_inner, Session, OutFragment, InnerState, wait_success_ack, wait_tlv, next_req_id,
  push_out_queue, pop_or_ack, pop_out_fragment,
}
use ligament_2fa.Store.State.{Error}

-- The states after the inner authentication has succeeded.
abbrev pub Passing : InnerState → Type 0
Passing wait_success_ack = Unit
Passing wait_tlv = Unit
Passing _ = ⊥

-- `G name`: an authentication has granted access under the name; `V` says so of an identity.
-- The session goes on with the same State after the request `req`; or it ends, refused or granted.
module _ (G : String → Type 0) (V : Bytes → Type 0) (st req : Bytes) where
  -- A session past the inner authentication has had its identity granted.
  abbrev pub Vouched : Session → Type 0
  Vouched s = Passing s.inner_state → V s.outer_identity

  abbrev pub Good : Session → Type 0
  Good s = (s.state ≡ st) × ((s.last_req ≡ req) × Vouched s)

  pub data Fate (o : Outcome) : Type 0 where
    goes_on :
        (s : Session) (pkt : Bytes)
        → o.session ≡ some s
        → o.reply ≡ some (challenge st pkt)
        → s.last_resp ≡ pkt
        → Good s
        → Fate o
    waits : (s : Session) → o.session ≡ some s → o.reply ≡ none → Good s → Fate o
    fails : (id : ℕ) → o.session ≡ none → o.reply ≡ some (reject_eap id) → Fate o
    refuses :
        (s : Session) (id : ℕ)
        → o.session ≡ some s
        → o.reply ≡ some (reject_eap id)
        → Vouched s
        → Fate o
    accepts :
        (name : String) (pkt : Bytes) (keys : Option (Bytes × Bytes))
        → o.session ≡ none
        → o.reply ≡ some (accept name pkt keys)
        → G name
        → Fate o

  unfoldable pub OkFate : Result Error Outcome → Type 0
  OkFate (ok o) = Fate o
  OkFate (err e) = Unit

  pub answers : {o : Outcome} → Fate o → OkFate (ok o)
  unfolding OkFate
  answers f = f

  pub errs : (e : Error) → OkFate (err e)
  unfolding OkFate
  errs e = tt

  pub answer-Fate : {r : Result Error Outcome} {o : Outcome} → r ≡ ok o → OkFate r → Fate o
  unfolding OkFate
  answer-Fate e f = subst OkFate e f

  pub fail_eap-Fate : (s : Session) → Fate (fail_eap s)
  unfolding fail_eap
  fail_eap-Fate s = fails s.id refl refl

  pub send_eap-Fate : (s : Session) (pkt : Bytes) → Good s → Fate (send_eap s pkt)
  unfolding send_eap
  send_eap-Fate s pkt (e, (q, v)) =
      goes_on (record s { last_resp = pkt }) pkt refl (rw e) refl (e, (q, v))

  -- The queue and the identifiers do not matter.
  next-Fate :
      (s : Session) (queue : List OutFragment)
      → s.out_queue ≡ queue
      → Good s
      → Fate (send_eap (pop_or_ack s).1 (pop_or_ack s).0)
  unfolding pop_or_ack pop_out_fragment next_req_id
  next-Fate s [] e g = rw e (send_eap-Fate _ _ g)
  next-Fate s (f ∷ rest) e g = rw e (send_eap-Fate _ _ g)

  push-Good : (s : Session) (out : Bytes) → Good s → Good (push_out_queue out s)
  unfolding push_out_queue
  push-Good s out g = elim (Bool-cases (length out == 0)) [ inl e ↦ rw e g | inr e ↦ rw e g ]

  pub pump_ttls-Fate : (tls : Tls) (out : Bytes) (s : Session) → Good s → Fate (pump_ttls tls out s)
  unfolding pump_ttls
  pump_ttls-Fate tls out s g = next-Fate (push_out_queue _ s) _ refl (push-Good s _ g)

  pub pump_peap-Fate :
      (tls : Tls) (sealed out : Bytes) (s : Session) → Good s → Fate (pump_peap tls sealed out s)
  unfolding pump_peap
  pump_peap-Fate tls sealed out s g = next-Fate (push_out_queue _ s) _ refl (push-Good s _ g)

  pub accept_eap-Fate :
      (name : String) (s : Session) (id : ℕ) → G name → Fate (accept_eap name s id)
  unfolding accept_eap
  accept_eap-Fate name s id g = accepts name _ _ refl refl g

  pub stash-Good :
      (app : Bytes) (s : Session) {s' : Session}
      → stash_pending_inner app s ≡ some s'
      → Good s
      → Good s'
  unfolding stash_pending_inner
  stash-Good app s e g = ground (arith, e, g)
