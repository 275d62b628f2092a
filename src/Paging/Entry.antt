-- ===== src/Paging/Entry.antt =====
-- The bits of page-table entries: what `map_page` writes, and what the walks test.
use rock.Base.{
  ℕ, ◌%◌, ◌^◌, ◌<◌, ◌≡◌, ap, ◌∙◌, bit_and, bit_or, Bool, not, ◌==◌, arith, bit-bit_or, bit-bit_and,
}
use native.Mathlib.Decide.{dec_lt}
use rock.Base.Bits.Shift.{
  half, double, ones, bit_and-double, bit_and-ones, bit_and-flag, bit_or-zero, half-bit_or,
  half-bit_and,
}
use rock.Paging.{flag_p, flag_ps, flags_mask, frame_mask, link4, link5}

-- the tests of the walks
abbrev pub is_present : ℕ → Bool
is_present e = not (bit_and e flag_p == 0)

abbrev pub is_huge : ℕ → Bool
is_huge e = not (bit_and e flag_ps == 0)

-- the frame that an entry points to
abbrev pub frame_of : ℕ → ℕ
frame_of e = bit_and e frame_mask

-- Flags that a caller passes: present, and nothing in the address bits.
pub record IsFlags (flags : ℕ) : Type 0 where
  pub word : flags < 2 ^ 64
  pub present : flags % 2 ≡ 1
  pub low : flags % 2 ^ 63 < 2 ^ 12

-- A frame that tables can stand in.
pub record IsFrame (f : ℕ) : Type 0 where
  pub page : f % 2 ^ 12 ≡ 0
  pub low : f < 2 ^ 47

frame_of-half : (e : ℕ) → e < 2 ^ 64 → frame_of e ≡ double 12 (half 12 e)
frame_of-half e h =
    bit_and-double 12 e (ones 52) ∙ ap (double 12) (bit_and-ones 52 (half 12 e) (omega arith))

module _ (a flags : ℕ) (fr : IsFrame a) (fl : IsFlags flags) where
  high_flags : bit_and (half 12 flags) (half 12 flags_mask) ≡ 0
  high_flags = elim (dec_lt flags (2 ^ 63)) [
    | yes low ↦ rw (no_nx (omega (arith, fl.low)))
    | no high ↦ rw (only_nx (omega (arith, fl.low, fl.word)))
  ]
    where
      no_nx : half 12 flags ≡ 0 → half 12 flags ≡ 0
      no_nx e = e

      only_nx : half 12 flags ≡ 2 ^ 51 → half 12 flags ≡ 2 ^ 51
      only_nx e = e

  half-link5 : half 12 (link5 flags a) ≡ half 12 a
  half-link5 =
      half-bit_or 12 a (bit_and flags flags_mask)
      ∙ ap (bit_or (half 12 a)) (half-bit_and 12 flags flags_mask ∙ high_flags)
      ∙ bit_or-zero (half 12 a)

  half-link4 : half 12 (link4 flags a) ≡ half 12 a
  half-link4 =
      half-bit_or 12 (link5 flags a) 2 ∙ ap (λ t. bit_or t 0) half-link5 ∙ bit_or-zero (half 12 a)

  frame_of-half_same : (e : ℕ) → half 12 e ≡ half 12 a → frame_of e ≡ a
  frame_of-half_same e h = omega (arith, frame_of-half e (omega (arith, h, fr.low)), h, fr.page)

  pub frame_of-link5 : frame_of (link5 flags a) ≡ a
  frame_of-link5 = frame_of-half_same (link5 flags a) half-link5

  pub frame_of-link4 : frame_of (link4 flags a) ≡ a
  frame_of-link4 = frame_of-half_same (link4 flags a) half-link4

  pub present-link5 : bit_and (link5 flags a) flag_p ≡ 1
  present-link5 = omega (
    arith,
    bit_and-flag 0 (link5 flags a),
    bit-bit_or 0 a (bit_and flags flags_mask),
    bit-bit_and 0 flags flags_mask,
    fl.present,
    fr.page,
  )

  pub present-link4 : bit_and (link4 flags a) flag_p ≡ 1
  present-link4 = omega (
    arith,
    bit_and-flag 0 (link4 flags a),
    bit-bit_or 0 (link5 flags a) 2,
    bit_and-flag 0 (link5 flags a),
    present-link5,
  )

  pub huge-link5 : bit_and (link5 flags a) flag_ps ≡ 0
  huge-link5 = omega (
    arith,
    bit_and-flag 7 (link5 flags a),
    bit-bit_or 7 a (bit_and flags flags_mask),
    bit-bit_and 7 flags flags_mask,
    fr.page,
  )

  pub huge-link4 : bit_and (link4 flags a) flag_ps ≡ 0
  huge-link4 = omega (
    arith,
    bit_and-flag 7 (link4 flags a),
    bit-bit_or 7 (link5 flags a) 2,
    bit_and-flag 7 (link5 flags a),
    huge-link5,
  )
