-- ===== src/Config/Rules/Mount.antt =====
-- The mounts that `MountFormat` of internal/config/validation_rules.go accepts.
-- A mount of a source, a destination and a mode.
use gh_aw_mcpg.Common.{
  All, Bool-cases, List, [], ap, arith, false, inl, inr, is_nil, refl, sym, true, ◌++◌, ◌==◌, ◌↔◌,
  ◌∙◌, ◌∷◌, ◌≡◌,
}
use gh_aw_mcpg.Common.Result.{ok}
use gh_aw_mcpg.Common.Split.{count_byte, split}
use gh_aw_mcpg.Common.Split.Laws.{All-split, Lacks, join-split, split-Lacks, split-append}
use gh_aw_mcpg.Common.Text.{Str, bytes, has_prefix, join, str_beq_iff, str_eq, strip_prefix}
use gh_aw_mcpg.Config.Rules.{is_mode, is_rooted, mount_format, mount_parts_format}

abbrev pub IsMount : Str → Type 0
IsMount mount =
    (source : Str) × (dest : Str) × (mode : Str) × (join (b':' ∷ []) (source ∷ dest ∷ mode ∷ [])
      ≡ mount)
    × Lacks b':' source
    × Lacks b':' dest
    × (is_rooted source ≡ true)
    × (is_rooted dest ≡ true)
    × (is_mode mode ≡ true)

is_mode-Lacks : (mode : Str) → is_mode mode ≡ true → Lacks b':' mode
unfolding count_byte
is_mode-Lacks mode h = elim (Bool-cases (mode == bytes "ro")) [
  | inl e ↦ rw ((str_beq_iff mode (bytes "ro")).0 e) refl
  | inr e ↦
      let same : mode ≡ bytes "rw" = ground (arith, str_beq_iff mode (bytes "rw")) in rw same refl
]

mount_parts_format-IsMount :
    (parts : List Str) (mount : Str)
    → join (b':' ∷ []) parts ≡ mount
    → All (Lacks b':') parts
    → mount_parts_format parts ≡ ok tt
    → IsMount mount
unfolding mount_parts_format
mount_parts_format-IsMount [] mount j h e = ground arith
mount_parts_format-IsMount (a ∷ []) mount j h e = ground arith
mount_parts_format-IsMount (a ∷ b ∷ []) mount j h e = ground arith
mount_parts_format-IsMount (a ∷ b ∷ c ∷ []) mount j (ha, (hb, rest)) e =
    (a, b, c, j, ha, hb, ground arith, ground arith, ground arith)
mount_parts_format-IsMount (a ∷ b ∷ c ∷ d ∷ parts) mount j h e = ground arith

is_rooted-nil : (path : Str) → is_rooted path ≡ true → is_nil path ≡ false
unfolding has_prefix strip_prefix
is_rooted-nil [] h = ground arith
is_rooted-nil (c ∷ path) h = refl

split-join :
    (source dest mode : Str)
    → Lacks b':' source
    → Lacks b':' dest
    → Lacks b':' mode
    → split b':' (join (b':' ∷ []) (source ∷ dest ∷ mode ∷ [])) ≡ source ∷ dest ∷ mode ∷ []
unfolding join
split-join source dest mode ls ld lm =
    split-append b':' source (dest ++ b':' ∷ mode) ls
    ∙ ap (λ parts. source ∷ parts)
        (split-append b':' dest mode ld ∙ ap (λ parts. dest ∷ parts) (split-Lacks b':' mode lm))

IsMount-mount_format : (mount : Str) → IsMount mount → mount_format mount ≡ ok tt
unfolding mount_format mount_parts_format
IsMount-mount_format mount (source, dest, mode, j, ls, ld, rs, rd, m) =
    ap (λ t. mount_parts_format (split b':' t)) (sym j)
    ∙ ap mount_parts_format (split-join source dest mode ls ld (is_mode-Lacks mode m))
    ∙ ground (arith, is_rooted-nil source rs, is_rooted-nil dest rd)

-- A mount is accepted exactly if it is an absolute source, an absolute destination and `ro` or `rw`,
-- joined by colons, of which the first two have none.
pub mount_format_iff : (mount : Str) → (mount_format mount ≡ ok tt) ↔ IsMount mount
unfolding mount_format
mount_format_iff mount = (
  λ e.
      mount_parts_format-IsMount (split b':' mount) mount (join-split b':' mount)
        (All-split b':' mount) e,
  IsMount-mount_format mount,
)
