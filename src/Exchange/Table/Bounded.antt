-- ===== src/Exchange/Table/Bounded.antt =====
-- eapsession.go, `create`: the cap on sessions, and whom it may cost a session.
use ligament_2fa.Prelude.{
  ℕ, ◌≤◌, ◌<◌, ◌≡◌, refl, sym, ap, ◌∙◌, subst, ◌⊎◌, inl, inr, Bool, true, false, not, Option, none,
  some, List, [], ◌∷◌, arith, ltb, Bool-cases, Option-cases, length, All, any, Among,
  some_injective,
}
use ligament_2fa.Auth.Config.{bytes_eq, bytes_eq_refl, bytes_eq_sound}
use ligament_2fa.Eap.Bytes.{Bytes}
use ligament_2fa.Exchange.Session.{new_session, Proto, Session}
use ligament_2fa.Exchange.Table.{
  at_cap, cleanup, create_session, is_live, Table, has_key, hex_state, is_active, victim, older,
  delete_session, fresh_state, make_room, eap_session_cap,
}
use ligament_2fa.Exchange.Table.Keys.{
  Distinct, Among-kept, length-select, length-drops, same_key, Distinct-select,
}

older-Among : (s : Session) (o : Option Session) → (older s o ≡ s) ⊎ (o ≡ some (older s o))
older-Among s none = inl refl
older-Among s (some v) = elim (Bool-cases (ltb v.last_used s.last_used)) [
  | inl e ↦ rw (e, older) (inr refl)
  | inr e ↦ rw (e, older) (inl refl)
]

victim-Idle :
    (now : ℕ) (t : Table) (v : Session)
    → victim now t ≡ some v
    → Among v t × (is_active now v ≡ false)
unfolding victim
victim-Idle now [] v e = absurd (cc e)
victim-Idle now (s ∷ t) v e = elim (Bool-cases (is_active now s)) [
  | inl q ↦ (let later = victim-Idle now t v (rw (q, victim) at e) in (inr later.0, later.1))
  | inr q ↦
      (let whole = some_injective (rw (q, victim) at e) in
        elim (older-Among s (victim now t)) [
          | inl o ↦ (inl (sym whole ∙ o), rw (sym whole ∙ o) q)
          | inr o ↦ (let later = victim-Idle now t v (o ∙ ap some whole) in (inr later.0, later.1))
        ])
]

victim-none : (now : ℕ) (t : Table) → victim now t ≡ none → All (λ s. is_active now s ≡ true) t
unfolding victim
victim-none now [] e = tt
victim-none now (s ∷ t) e = elim (Bool-cases (is_active now s)) [
  | inl q ↦ (q, victim-none now t (rw (q, victim) at e))
  | inr q ↦ absurd (cc (rw (q, victim) at e))
]

pub room_capped :
    (now : ℕ) (t room : Table)
    → make_room now t ≡ some room
    → length t ≤ eap_session_cap
    → length room < eap_session_cap
unfolding make_room delete_session
room_capped now t room e le = elim (Bool-cases (ltb (length t) eap_session_cap)) [
  | inl q ↦
      subst (λ x. length x < eap_session_cap) (some_injective (rw (q, make_room) at e))
        (ground (arith, q))
  | inr q ↦ elim (Option-cases (victim now t)) [
    | inl n ↦ absurd (cc (rw (q, n, make_room) at e))
    | inr (v, n) ↦
        subst (λ x. length x < eap_session_cap) (some_injective (rw (q, n, make_room) at e))
          (omega (
            arith,
            le,
            length-drops (λ s. not (has_key v.state_key s)) v t (victim-Idle now t v n).0
                (ground (arith, bytes_eq_refl v.state_key)),
          ))
  ]
]

no_room :
    (now : ℕ) (t : Table)
    → make_room now t ≡ none
    → All (λ s. is_active now s ≡ true) t × ((eap_session_cap ≤ length t) × (t ≡ t))
unfolding make_room
no_room now t e = elim (Bool-cases (ltb (length t) eap_session_cap)) [
  | inl q ↦ absurd (cc (rw (q, make_room) at e))
  | inr q ↦ elim (Option-cases (victim now t)) [
    | inl n ↦ (victim-none now t n, (ground (arith, q), refl))
    | inr (v, n) ↦ absurd (cc (rw (q, n, make_room) at e))
  ]
]

-- Room is made at the cost of one session that is not active, or of none.
room_spares :
    (now : ℕ) (t room : Table)
    → make_room now t ≡ some room
    → Distinct t
    → Distinct room × ((s : Session) → is_active now s ≡ true → Among s t → Among s room)
unfolding make_room delete_session
room_spares now t room e d = elim (Bool-cases (ltb (length t) eap_session_cap)) [
  | inl q ↦
      subst (λ x. Distinct x × ((s : Session) → is_active now s ≡ true → Among s t → Among s x))
        (some_injective (rw (q, make_room) at e)) (d, λ s a m. m)
  | inr q ↦ elim (Option-cases (victim now t)) [
    | inl n ↦ absurd (cc (rw (q, n, make_room) at e))
    | inr (v, n) ↦
        subst (λ x. Distinct x × ((s : Session) → is_active now s ≡ true → Among s t → Among s x))
          (some_injective (rw (q, n, make_room) at e))
          (
            Distinct-select _ t d,
            λ s a m.
                Among-kept (λ x. not (has_key v.state_key x)) s t m
                  (differs s a m v (victim-Idle now t v n) (bytes_eq s.state_key v.state_key) refl),
          )
  ]
]
  where
    differs :
        (s : Session)
        → is_active now s ≡ true
        → Among s t
        → (v : Session) → Among v t × (is_active now v ≡ false)
        → (b : Bool) → bytes_eq s.state_key v.state_key ≡ b
        → not (bytes_eq s.state_key v.state_key) ≡ true
    differs s a m v i false q = rw q
    differs s a m v i true q = absurd (cc (a, i.1, same_key t s v d m i.0 (bytes_eq_sound _ _ q)))

fresh_unused :
    (draws : List Bytes) (t : Table) (b : Bytes)
    → fresh_state draws t ≡ some b
    → any (has_key (hex_state b)) t ≡ false
unfolding fresh_state
fresh_unused [] t b e = absurd (cc e)
fresh_unused (x ∷ xs) t b e = elim (Bool-cases (any (has_key (hex_state x)) t)) [
  | inl q ↦ fresh_unused xs t b (rw (q, fresh_state) at e)
  | inr q ↦ rw (some_injective (rw (q, fresh_state) at e)) at q
]

active-Live : (now : ℕ) (s : Session) → is_active now s ≡ true → is_live now s ≡ true
active-Live now s e = ground (arith, e)

module _ (now : ℕ) (draws : List Bytes) (proto : Proto) (t : Table) where
  kept_capped : length t ≤ eap_session_cap → length (cleanup now t) ≤ eap_session_cap
  unfolding cleanup
  kept_capped le = omega (arith, le, length-select (is_live now) t)

  -- `create` keeps the number of sessions within the cap.
  pub create-Capped :
      length t ≤ eap_session_cap → length (create_session now draws proto t).1 ≤ eap_session_cap
  unfolding create_session
  create-Capped le = elim (Option-cases (make_room now (cleanup now t))) [
    | inl e ↦ rw (e, create_session) (kept_capped le)
    | inr (room, e) ↦
        rw (e, create_session)
          (elim (Option-cases (fresh_state draws room)) [
            | inl f ↦
                rw (f, create_session)
                  (omega (arith, room_capped now (cleanup now t) room e (kept_capped le)))
            | inr (b, f) ↦
                rw (f, create_session)
                  (omega (arith, room_capped now (cleanup now t) room e (kept_capped le)))
          ])
  ]

  create-Spared :
      Distinct t
      → Distinct (create_session now draws proto t).1
        × ((s : Session)
            → is_active now s ≡ true
            → Among s t
            → Among s (create_session now draws proto t).1)
  unfolding create_session cleanup Distinct new_session
  create-Spared d = elim (Option-cases (make_room now (cleanup now t))) [
    | inl e ↦ rw (e, create_session) (kept_keys, live)
    | inr (room, e) ↦
        (let spared = room_spares now (cleanup now t) room e kept_keys in
          elim (Option-cases (fresh_state draws room)) [
            | inl f ↦ rw (e, f, create_session) (spared.0, λ s a m. spared.1 s a (live s a m))
            | inr (b, f) ↦
                rw (e, f, create_session)
                  (
                    (fresh_unused draws room b f, spared.0),
                    λ s a m. inr (spared.1 s a (live s a m)),
                  )
          ])
  ]
    where
      kept_keys : Distinct (cleanup now t)
      kept_keys = Distinct-select (is_live now) t d

      live : (s : Session) → is_active now s ≡ true → Among s t → Among s (cleanup now t)
      live s a m = Among-kept (is_live now) s t m (active-Live now s a)

  -- The creation of a session, also at the cap, takes no active session away: one that was used less
  -- than thirty seconds ago is still in the table, unchanged, where the table has each key once.
  pub create_spares_active :
      Distinct t
      → (s : Session) → is_active now s ≡ true
      → Among s t
      → Among s (create_session now draws proto t).1
  create_spares_active d s a m = (create-Spared d).1 s a m

  pub create-Distinct : Distinct t → Distinct (create_session now draws proto t).1
  create-Distinct d = (create-Spared d).0

  -- A session is refused only where there are 1024 sessions or more that have not expired, and every one
  -- of them is active; and the others are then in the table as they were.
  create_refused :
      (create_session now draws proto t).0 ≡ at_cap
      → All (λ s. is_active now s ≡ true) (cleanup now t)
        × ((eap_session_cap ≤ length (cleanup now t))
            × ((create_session now draws proto t).1 ≡ cleanup now t))
  unfolding create_session
  create_refused q = elim (Option-cases (make_room now (cleanup now t))) [
    | inr (room, e) ↦ elim (Option-cases (fresh_state draws room)) [
      | inl f ↦ absurd (cc (rw (e, f, create_session) at q))
      | inr (b, f) ↦ absurd (cc (rw (e, f, create_session) at q))
    ]
    | inl e ↦ rw (e, create_session) (no_room now (cleanup now t) e)
  ]
