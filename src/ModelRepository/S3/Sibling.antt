-- ===== src/ModelRepository/S3/Sibling.antt =====
-- Which paths of the object store give a model its versions, in `load_model` of the S3 repository of
-- src/model_repository/repository.rs.
use toutates.Base.{ℕ, ◌^◌, ◌<◌, ◌==◌, [], ◌∷◌, ◌++◌, some, false, ◌≡◌, refl, ◌∙◌, arith}
use toutates.Base.Chars.{Chars, is_empty, to_chars, strip_prefix}
use toutates.Base.Chars.Laws.{Within, Within-Free, split-append}
use toutates.Base.Chars.Decimal.{to_chars-Within, to_chars-some, parse_unsigned-to_chars}
use toutates.ModelRepository.S3.{slash, trim_slashes, segment_after, version_of}

strip_prefix-append : (p s : Chars) → strip_prefix p (p ++ s) ≡ some s
unfolding strip_prefix
strip_prefix-append [] s = refl
strip_prefix-append (c ∷ cs) s = ground (arith, strip_prefix-append cs s)

trim_slashes-digits :
    (s t : Chars) → Within 48 58 s → is_empty s ≡ false → trim_slashes (s ++ t) ≡ s ++ t
unfolding trim_slashes
trim_slashes-digits [] t w e = absurd (ground (arith, e))
trim_slashes-digits (c ∷ cs) t (l, h, w) e =
    let other : (c == slash) ≡ false = ground arith in rw other refl

trim_slashes-slash : (s : Chars) → trim_slashes (slash ∷ s) ≡ trim_slashes s
unfolding trim_slashes
trim_slashes-slash s = refl

segment_after-append :
    (prefix s t rest : Chars)
    → trim_slashes s ≡ t ++ (slash ∷ rest)
    → Within 48 58 t
    → segment_after prefix (prefix ++ s) ≡ some t
unfolding segment_after
segment_after-append prefix s t rest trimmed w =
    rw
      (
        segment_after,
        strip_prefix-append prefix s,
        trimmed,
        split-append slash t rest (Within-Free slash 48 58 t (omega arith) w),
      )
      refl

version_of-trimmed :
    (prefix s rest : Chars) (v : ℕ)
    → v < 2 ^ 64
    → trim_slashes s ≡ to_chars v ++ (slash ∷ rest)
    → version_of prefix (prefix ++ s) ≡ some v
unfolding version_of
version_of-trimmed prefix s rest v fits trimmed =
    rw (version_of, segment_after-append prefix s (to_chars v) rest trimmed (to_chars-Within v))
      (parse_unsigned-to_chars (2 ^ 64) v fits)

digits_kept : (v : ℕ) (t : Chars) → trim_slashes (to_chars v ++ t) ≡ to_chars v ++ t
digits_kept v t = trim_slashes-digits (to_chars v) t (to_chars-Within v) (to_chars-some v)

-- For a version v that fits a u64, a path in the folder v of a model gives the model the version v,
-- and so does a path of another model whose name is this model's name with the digits of v after it.
pub version_of-sibling :
    (model_prefix rest : Chars) (v : ℕ)
    → v < 2 ^ 64
    → (version_of model_prefix (model_prefix ++ (slash ∷ to_chars v ++ (slash ∷ rest))) ≡ some v)
      × (version_of model_prefix (model_prefix ++ (to_chars v ++ (slash ∷ rest))) ≡ some v)
version_of-sibling model_prefix rest v fits =
    let own = to_chars v ++ (slash ∷ rest) in
    (
      version_of-trimmed model_prefix (slash ∷ own) rest v fits
          (trim_slashes-slash own ∙ digits_kept v (slash ∷ rest)),
      version_of-trimmed model_prefix own rest v fits (digits_kept v (slash ∷ rest)),
    )
