-- ===== src/Exchange/Table/Keys.antt =====
-- The table of sessions as a map: its keys, and the parts that a test selects.
use ligament_2fa.Prelude.{
  suc, ◌≤◌, ◌<◌, ◌≡◌, refl, sym, ap, ◌∙◌, inl, inr, Bool, true, false, List, [], ◌∷◌, arith,
  Bool-cases, length, any, select, update_where, Among,
}
use ligament_2fa.Auth.Config.{bytes_eq_refl}
use ligament_2fa.Exchange.Session.{Session}
use ligament_2fa.Exchange.Table.{Table, has_key}

-- A map has each key once.
unfoldable pub Distinct : Table → Type 0
Distinct [] = Unit
Distinct (s ∷ t) = (any (has_key s.state_key) t ≡ false) × Distinct t

module _ {A : Type 0} (test : A → Bool) where
  pub Among-any : (a : A) (xs : List A) → Among a xs → test a ≡ true → any test xs ≡ true
  Among-any a [] m e = elim m [ ]
  Among-any a (x ∷ xs) (inl q) e = rw (sym q, e)
  Among-any a (x ∷ xs) (inr m) e = ground (arith, Among-any a xs m e)

  pub Among-kept : (a : A) (xs : List A) → Among a xs → test a ≡ true → Among a (select test xs)
  Among-kept a [] m e = elim m [ ]
  Among-kept a (x ∷ xs) (inl q) e = rw (sym q, e) (inl refl)
  Among-kept a (x ∷ xs) (inr m) e = elim (Bool-cases (test x)) [
    | inl f ↦ rw f (inr (Among-kept a xs m e))
    | inr f ↦ rw f (Among-kept a xs m e)
  ]

  pub length-select : (xs : List A) → length (select test xs) ≤ length xs
  length-select [] = omega arith
  length-select (x ∷ xs) = ground (arith, length-select xs)

  pub length-drops :
      (a : A) (xs : List A) → Among a xs → test a ≡ false → length (select test xs) < length xs
  length-drops a [] m e = elim m [ ]
  length-drops a (x ∷ xs) (inl q) e = rw (sym q, e) (omega (arith, length-select xs))
  length-drops a (x ∷ xs) (inr m) e = ground (arith, length-drops a xs m e)

pub same_key :
    (t : Table) (a b : Session)
    → Distinct t
    → Among a t
    → Among b t
    → a.state_key ≡ b.state_key
    → a ≡ b
unfolding Distinct
same_key [] a b d m n e = elim m [ ]
same_key (s ∷ t) a b d (inl p) (inl q) e = p ∙ sym q
same_key (s ∷ t) a b d (inl p) (inr n) e =
    absurd
      (cc (d.0, Among-any (has_key s.state_key) b t n (rw (sym e, p) (bytes_eq_refl s.state_key))))
same_key (s ∷ t) a b d (inr m) (inl q) e =
    absurd (cc (d.0, Among-any (has_key s.state_key) a t m (rw (e, q) (bytes_eq_refl s.state_key))))
same_key (s ∷ t) a b d (inr m) (inr n) e = same_key t a b d.1 m n e

any-select :
    {A : Type 0} (f test : A → Bool) (xs : List A)
    → any f xs ≡ false
    → any f (select test xs) ≡ false
any-select f test [] e = refl
any-select f test (x ∷ xs) e = ground (arith, e, any-select f test xs)

pub Distinct-select : (test : Session → Bool) (t : Table) → Distinct t → Distinct (select test t)
unfolding Distinct
Distinct-select test [] d = tt
Distinct-select test (s ∷ t) d = elim (Bool-cases (test s)) [
  | inl e ↦ rw e (any-select (has_key s.state_key) test t d.0, Distinct-select test t d.1)
  | inr e ↦ rw e (Distinct-select test t d.1)
]

pub length-update_where :
    {A : Type 0} (test : A → Bool) (f : A → A) (xs : List A)
    → length (update_where test f xs) ≡ length xs
length-update_where test f [] = refl
length-update_where test f (x ∷ xs) = ap suc (length-update_where test f xs)
