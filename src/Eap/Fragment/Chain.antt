-- ===== src/Eap/Fragment/Chain.antt =====
-- ttls.go: one fragment at the assembler, and the chain that the fragmenting loop makes.
use ligament_2fa.Prelude.{
  ℕ, zero, suc, ◌+◌, ◌-◌, ◌≤◌, ◌<◌, min, ◌≡◌, refl, ap, ◌∙◌, inl, inr, Bool, true, false, not,
  Option, none, some, List, [], ◌∷◌, ◌++◌, arith, ◌==◌, lt→ltb, Bool-cases, length, take, slice,
  length-take, take_all,
}
use ligament_2fa.Eap.Assembler.{Assembler, add, reset, max_reassembly}
use ligament_2fa.Eap.Bytes.{Bytes}
use ligament_2fa.Eap.Flags.{flag_more, flag_start, has_flag}
use ligament_2fa.Eap.Fragment.{Heard, heard, feed, feed_next, feed_done}
use ligament_2fa.Eap.Ttls.{Ttls, more, start, fragment_loop}
use native.Mathlib.Nat.{sub-zero, suc-sub-suc}

abbrev pub flying : Bytes → ℕ → Assembler
flying buf d = record { buf = buf; declared = some d; in_flight = true }

-- A message whose declared length, if it has one, is within the cap.
abbrev pub CapOk : Option ℕ → Type 0
CapOk none = Unit
CapOk (some d) = d ≤ max_reassembly

module _ (flags : ℕ) (declared : Option ℕ) (chunk : Bytes)
    (no_start : has_flag flags flag_start ≡ false) (capped : CapOk declared) where
  abbrev message : Ttls
  message = record { flags = flags; declared_len = declared; payload = chunk }

  -- A fragment with M extends the chain.
  pub add_middle :
      (buf : Bytes) (d : ℕ)
      → length (buf ++ chunk) ≤ max_reassembly
      → has_flag flags flag_more ≡ true
      → heard (add (flying buf d) message) ≡ some (flying (buf ++ chunk) d, none)
  unfolding add start more
  add_middle buf d h m = ground arith

  -- A fragment without M completes it.
  pub add_last :
      (buf : Bytes) (d : ℕ)
      → length (buf ++ chunk) ≡ d
      → d ≤ max_reassembly
      → has_flag flags flag_more ≡ false
      → heard (add (flying buf d) message) ≡ some (reset, some (buf ++ chunk))
  unfolding add start more
  add_last buf d e h m = ground arith

module _ (a : Assembler) (clear : a.buf ≡ []) (idle : a.in_flight ≡ false) (flags d : ℕ)
    (chunk : Bytes) (no_start : has_flag flags flag_start ≡ false) (nonempty : 0 < length chunk)
    (capped : d ≤ max_reassembly) (short : length chunk ≤ d) where
  abbrev opening : Ttls
  opening = record { flags = flags; declared_len = some d; payload = chunk }

  -- A first fragment with M opens a chain.
  pub add_first :
      has_flag flags flag_more ≡ true → heard (add a opening) ≡ some (flying chunk d, none)
  unfolding add start more
  add_first m = ground arith

  -- A message of one fragment is complete at once.
  pub add_only :
      length chunk ≡ d
      → has_flag flags flag_more ≡ false
      → heard (add a opening) ≡ some (reset, some chunk)
  unfolding add start more
  add_only e m = ground arith

-- The chunks of a payload, one after the other.
take-slice {ℓ} :
    {A : Type ℓ} (xs : List A) (i j : ℕ) → i ≤ j → take i xs ++ slice xs i j ≡ take j xs
take-slice xs zero j h = simp sub-zero
take-slice [] (suc i) zero h = absurd (omega arith)
take-slice [] (suc i) (suc j) h = take_all [] _ (omega arith)
take-slice (x ∷ xs) (suc i) zero h = absurd (omega arith)
take-slice (x ∷ xs) (suc i) (suc j) h =
    ap (◌∷◌ x) (rw suc-sub-suc (take-slice xs i j (omega arith)))

module _ {ℓ} {A : Type ℓ} (size : ℕ) (emit : Bool → Bool → Bytes → A) (payload : Bytes) where
  pub loop_done :
      (fuel off : ℕ) → length payload ≤ off → fragment_loop size emit payload fuel off ≡ []
  unfolding fragment_loop
  loop_done zero off h = refl
  loop_done (suc fuel) off h = ground arith

  abbrev pub end_of : ℕ → ℕ
  end_of off = min (off + size) (length payload)

  pub loop_step :
      (fuel off : ℕ)
      → off < length payload
      → fragment_loop size emit payload (suc fuel) off
        ≡ emit (off == 0) (end_of off == length payload) (slice payload off (end_of off))
          ∷ fragment_loop size emit payload fuel (end_of off)
  unfolding fragment_loop
  loop_step fuel off h = rw (lt→ltb _ _ h)

abbrev pub step : Assembler → Ttls → Heard
step a t = heard (add a t)

-- The message of a round, its flags and declared length left open.
abbrev pub emit_message : (Bool → Bool → ℕ) → (Bool → Option ℕ) → Bool → Bool → Bytes → Ttls
emit_message flags_of decl first last chunk = record {
  flags = flags_of first last;
  declared_len = decl first;
  payload = chunk;
}

-- What the messages of a round carry: no S, M unless last, the declared length at least first.
module _ (size : ℕ) (payload : Bytes) (flags_of : Bool → Bool → ℕ) (decl : Bool → Option ℕ)
    (pos : 0 < size) (fits : length payload ≤ max_reassembly)
    (no_start : (first last : Bool) → has_flag (flags_of first last) flag_start ≡ false)
    (more_bit : (first last : Bool) → has_flag (flags_of first last) flag_more ≡ not last)
    (decl_first : decl true ≡ some (length payload)) (decl_capped : CapOk (decl false)) where
  abbrev emit : Bool → Bool → Bytes → Ttls
  emit = emit_message flags_of decl

  decl_ok : (first : Bool) → CapOk (decl first)
  decl_ok true = rw decl_first fits
  decl_ok false = decl_capped

  upto :
      (off : ℕ)
      → off < length payload
      → take off payload ++ slice payload off (end_of size emit payload off)
        ≡ take (end_of size emit payload off) payload
  upto off lt = take-slice payload off _ (omega arith)

  length-upto :
      (off : ℕ)
      → off < length payload
      → length (take off payload ++ slice payload off (end_of size emit payload off))
        ≡ end_of size emit payload off
  length-upto off lt =
      rw (upto off lt) (omega (arith, length-take (end_of size emit payload off) payload))

  chain_rest :
      (fuel off : ℕ)
      → 0 < off
      → off < length payload
      → length payload ≤ off + fuel
      → feed step
          (flying (take off payload) (length payload))
          (fragment_loop size emit payload fuel off)
        ≡ some (reset, payload ∷ [])
  chain_rest zero off p lt enough = absurd (omega arith)
  chain_rest (suc fuel) off p lt enough =
      rw (loop_step size emit payload fuel off lt) (elim (Bool-cases (end == length payload)) [
        | inl e ↦
            rw (e, loop_done size emit payload fuel end (ground arith))
              (feed_next step _ _ [] (last_step e)
                ∙ rw (feed_done, upto off lt, take_all payload end (ground arith)))
        | inr e ↦ rw e (
            feed_next step _ _ _ (middle_step e)
            ∙ rw (upto off lt) (chain_rest fuel end (ground arith) (ground arith) (ground arith)))
      ])
    where
      end : ℕ
      end = min (off + size) (length payload)

      chunk : Bytes
      chunk = slice payload off end

      last_step :
          (end == length payload) ≡ true
          → heard (add (flying (take off payload) (length payload)) (emit (off == 0) true chunk))
            ≡ some (reset, some (take off payload ++ chunk))
      last_step e =
          add_last (flags_of (off == 0) true) (decl (off == 0)) chunk (no_start _ _) (decl_ok _)
            (take off payload) (length payload) (ground (arith, length-upto off lt)) fits
            (more_bit _ _)

      middle_step :
          (end == length payload) ≡ false
          → heard (add (flying (take off payload) (length payload)) (emit (off == 0) false chunk))
            ≡ some (flying (take off payload ++ chunk) (length payload), none)
      middle_step e =
          add_middle (flags_of (off == 0) false) (decl (off == 0)) chunk (no_start _ _) (decl_ok _)
            (take off payload) (length payload) (ground (arith, length-upto off lt)) (more_bit _ _)

  pub chain :
      (a : Assembler)
      → a.buf ≡ []
      → a.in_flight ≡ false
      → 0 < length payload
      → feed step a (fragment_loop size (emit_message flags_of decl) payload (length payload) 0)
        ≡ some (reset, payload ∷ [])
  chain a clear idle nonempty = rw (succ) (
      rw (loop_step size emit payload fuel 0 nonempty) (elim (Bool-cases (end == length payload)) [
        | inl e ↦
            rw (e, loop_done size emit payload fuel end (ground arith))
              (feed_next step _ _ [] (only_step e)
                ∙ rw (feed_done, sub-zero, take_all payload end (ground arith)))
        | inr e ↦ rw e (
            feed_next step _ _ _ (first_step e)
            ∙ rw sub-zero (chain_rest fuel end (ground arith) (ground arith) (ground arith)))
      ]))
    where
      fuel : ℕ
      fuel = length payload - 1

      succ : length payload ≡ suc fuel
      succ = omega arith

      end : ℕ
      end = min (0 + size) (length payload)

      chunk : Bytes
      chunk = slice payload 0 end

      len : length chunk ≡ end
      len = rw sub-zero (omega (arith, length-take end payload))

      only_step :
          (end == length payload) ≡ true
          → heard (add a (emit true true chunk)) ≡ some (reset, some chunk)
      only_step e = rw decl_first (
          add_only a clear idle (flags_of true true) (length payload) chunk (no_start _ _)
            (ground (arith, len)) fits (ground (arith, len)) (ground (arith, len)) (more_bit _ _))

      first_step :
          (end == length payload) ≡ false
          → heard (add a (emit true false chunk)) ≡ some (flying chunk (length payload), none)
      first_step e = rw decl_first (
          add_first a clear idle (flags_of true false) (length payload) chunk (no_start _ _)
            (ground (arith, len)) fits (ground (arith, len)) (more_bit _ _))
