-- ===== src/Common/Text/Laws.antt =====
-- What trimming and a change of case leave as it is.
use gh_aw_mcpg.Common.{Bool, some, ℕ, [], arith, false, if◌then◌else◌, refl, true, ◌∷◌, ◌≡◌}
use gh_aw_mcpg.Common.Text.{
  Str, any_byte, is_space, str_eq, strip_prefix, to_lower, to_upper, trim_left, trim_right,
  trim_space,
}

trim_left-trim_right : (s : Str) → trim_left (trim_right s) ≡ trim_right (trim_left s)
unfolding trim_left trim_right
trim_left-trim_right [] = refl
trim_left-trim_right (c ∷ s) = ground (arith, trim_left-trim_right s)

trim_left_idem : (s : Str) → trim_left (trim_left s) ≡ trim_left s
unfolding trim_left
trim_left_idem [] = refl
trim_left_idem (c ∷ s) = ground (arith, trim_left_idem s)

trim_right_idem : (s : Str) → trim_right (trim_right s) ≡ trim_right s
unfolding trim_right
trim_right_idem [] = refl
trim_right_idem (c ∷ s) = ground (arith, trim_right_idem s)

-- Trimming twice is trimming once.
pub trim_space_idem : (s : Str) → trim_space (trim_space s) ≡ trim_space s
unfolding trim_space
trim_space_idem s = rw (
  trim_left-trim_right (trim_left s),
  trim_right_idem (trim_left (trim_left s)),
  trim_left_idem s,
)

pub to_lower_idem : (s : Str) → to_lower (to_lower s) ≡ to_lower s
unfolding to_lower
to_lower_idem [] = refl
to_lower_idem (c ∷ s) = ground (arith, to_lower_idem s)

pub to_upper_idem : (s : Str) → to_upper (to_upper s) ≡ to_upper s
unfolding to_upper
to_upper_idem [] = refl
to_upper_idem (c ∷ s) = ground (arith, to_upper_idem s)

trim_left-to_upper : (s : Str) → trim_left (to_upper s) ≡ to_upper (trim_left s)
unfolding trim_left to_upper
trim_left-to_upper [] = refl
trim_left-to_upper (c ∷ s) = ground (arith, trim_left-to_upper s)

trim_right-to_upper : (s : Str) → trim_right (to_upper s) ≡ to_upper (trim_right s)
unfolding trim_right to_upper
trim_right-to_upper [] = refl
trim_right-to_upper (c ∷ s) = ground (arith, trim_right-to_upper s)

-- Trimming and upper case commute.
pub trim_space-to_upper : (s : Str) → trim_space (to_upper s) ≡ to_upper (trim_space s)
unfolding trim_space
trim_space-to_upper s = rw (trim_left-to_upper s, trim_right-to_upper (trim_left s)) refl

trim_left-to_lower : (s : Str) → trim_left (to_lower s) ≡ to_lower (trim_left s)
unfolding trim_left to_lower
trim_left-to_lower [] = refl
trim_left-to_lower (c ∷ s) = ground (arith, trim_left-to_lower s)

trim_right-to_lower : (s : Str) → trim_right (to_lower s) ≡ to_lower (trim_right s)
unfolding trim_right to_lower
trim_right-to_lower [] = refl
trim_right-to_lower (c ∷ s) = ground (arith, trim_right-to_lower s)

-- Trimming and lower case commute.
pub trim_space-to_lower : (s : Str) → trim_space (to_lower s) ≡ to_lower (trim_space s)
unfolding trim_space
trim_space-to_lower s = rw (trim_left-to_lower s, trim_right-to_lower (trim_left s)) refl

-- a string without white space
unfoldable pub no_space : Str → Bool
no_space [] = true
no_space (c ∷ s) = if is_space c then false else no_space s

trim_right-no_space : (s : Str) → no_space s ≡ true → trim_right s ≡ s
unfolding trim_right no_space
trim_right-no_space [] h = refl
trim_right-no_space (c ∷ s) h = ground (arith, trim_right-no_space s)

pub trim_space-no_space : (s : Str) → no_space s ≡ true → trim_space s ≡ s
unfolding trim_space trim_left trim_right no_space
trim_space-no_space [] h = refl
trim_space-no_space (c ∷ s) h = ground (arith, trim_right-no_space s)

any_byte-trim_left :
    (p : ℕ → Bool) (s : Str) → any_byte p s ≡ false → any_byte p (trim_left s) ≡ false
unfolding any_byte trim_left
any_byte-trim_left p [] h = refl
any_byte-trim_left p (c ∷ s) h = ground (arith, any_byte-trim_left p s)

any_byte-trim_right :
    (p : ℕ → Bool) (s : Str) → any_byte p s ≡ false → any_byte p (trim_right s) ≡ false
unfolding any_byte trim_right
any_byte-trim_right p [] h = refl
any_byte-trim_right p (c ∷ s) h = ground (arith, any_byte-trim_right p s)

-- What no byte of a string is, no byte of the trimmed string is,
pub any_byte-trim_space :
    (p : ℕ → Bool) (s : Str) → any_byte p s ≡ false → any_byte p (trim_space s) ≡ false
unfolding trim_space
any_byte-trim_space p s h = any_byte-trim_right p (trim_left s) (any_byte-trim_left p s h)

-- and no byte of what follows a prefix.
pub any_byte-strip_prefix :
    (p : ℕ → Bool) (t s rest : Str)
    → strip_prefix t s ≡ some rest
    → any_byte p s ≡ false
    → any_byte p rest ≡ false
unfolding any_byte strip_prefix
any_byte-strip_prefix p [] s rest e h = ground arith
any_byte-strip_prefix p (b ∷ t) [] rest e h = ground arith
any_byte-strip_prefix p (b ∷ t) (c ∷ s) rest e h = ground (arith, any_byte-strip_prefix p t s rest)
