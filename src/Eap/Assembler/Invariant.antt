-- ===== src/Eap/Assembler/Invariant.antt =====
-- ttls.go, `Add`: the reassembly buffer is bounded, and what is returned is what was declared.
use ligament_2fa.Prelude.{ℕ, ◌≤◌, ◌≡◌, true, false, some, [], ◌++◌, arith, length, ok}
use ligament_2fa.Eap.Assembler.{Assembler, add, max_reassembly, new_assembler, reset}
use ligament_2fa.Eap.Bytes.{Bytes}
use ligament_2fa.Eap.Ttls.{Ttls, start, more}

-- The buffer is within the cap, and empty between two chains.
pub record IsSound (a : Assembler) : Type 0 where
  pub within : length a.buf ≤ max_reassembly
  pub clear : a.in_flight ≡ false → a.buf ≡ []

pub new-IsSound : IsSound new_assembler
new-IsSound = ground arith

-- Whatever message arrives, an assembler whose buffer is within 64 KiB, and empty whenever no chain
-- is in flight, stays so.
pub add-IsSound : (a : Assembler) (t : Ttls) → IsSound a → IsSound (add a t).0
unfolding add
add-IsSound a t v = ground arith

-- A payload that an assembler of this kind returns fits the cap, ends its chain, and leaves the assembler empty; its
-- message did not carry M; and in a chain without S it is the buffer followed by the message's
-- payload.
add_complete :
    (a : Assembler) (t : Ttls) {full : Bytes}
    → IsSound a
    → (add a t).1 ≡ ok (some full)
    → (length full ≤ max_reassembly)
      × ((add a t).0 ≡ reset)
      × (more t ≡ false)
      × (start t ≡ false → full ≡ a.buf ++ t.payload)
unfolding add
add_complete a t v h = (ground arith, ground arith, ground arith, ground arith)

-- Where a chain is in flight that declared a length, a message without S completes only a payload of
-- that length.
add_declared :
    (a : Assembler) (t : Ttls) (d : ℕ) {full : Bytes}
    → a.in_flight ≡ true
    → a.declared ≡ some d
    → start t ≡ false
    → (add a t).1 ≡ ok (some full)
    → length full ≡ d
unfolding add
add_declared a t d flying e s h = ground arith
