-- ===== src/Eap/Flags.antt =====
-- The flag byte of EAP-TTLS and PEAP messages (ttls.go, peap.go): L, M and S.
use ligament_2fa.Prelude.{
  ℕ, zero, suc, ◌<◌, bit_and, bit_or, ◌≡◌, refl, Bool, true, not, ◌&&◌, arith, ◌==◌, if◌then◌else◌,
}

abbrev pub flag_length : ℕ
flag_length = 0x80

abbrev pub flag_more : ℕ
flag_more = 0x40

abbrev pub flag_start : ℕ
flag_start = 0x20

-- `flags & m != 0`.
abbrev pub has_flag : ℕ → ℕ → Bool
has_flag flags m = not (bit_and flags m == 0)

-- The flags of a fragment, as the fragmenting loops join them.
abbrev pub frag_flags : Bool → Bool → ℕ
frag_flags first more = bit_or (if first then flag_length else 0) (if more then flag_more else 0)

-- Every value below a bound, by evaluation.
unfoldable pub all_below : ℕ → (ℕ → Bool) → Bool
all_below zero test = true
all_below (suc n) test = test n && all_below n test

pub all_below_sound :
    (n : ℕ) (test : ℕ → Bool) (x : ℕ) → all_below n test ≡ true → x < n → test x ≡ true
unfolding all_below
all_below_sound zero test x h lt = absurd (omega arith)
all_below_sound (suc n) test x h lt = ground (arith, all_below_sound n test x)

length_table : all_below 256 (λ f. has_flag (bit_or f flag_length) flag_length) ≡ true
unfolding all_below
length_table = refl

-- Setting L makes it present.
pub has_flag-set_length : (f : ℕ) → f < 256 → has_flag (bit_or f flag_length) flag_length ≡ true
has_flag-set_length f h = all_below_sound 256 _ f length_table h

mask_table :
    all_below 256 (λ f. has_flag (bit_and (bit_or (bit_or f flag_length) 0) 0xf8) flag_length)
    ≡ true
unfolding all_below
mask_table = refl

-- So it does where the version bits are masked away.
pub has_flag-masked_length :
    (f : ℕ) → f < 256 → has_flag (bit_and (bit_or (bit_or f flag_length) 0) 0xf8) flag_length ≡ true
has_flag-masked_length f h = all_below_sound 256 _ f mask_table h
