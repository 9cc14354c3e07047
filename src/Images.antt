-- ===== src/Images.antt =====
-- internal/cli/images.go: the image tags of the compose files.
pub mod Tags
pub mod Environ
use fabric_network_builder.Prelude.{
  Bool, true, false, not, ◌&&◌, ◌||◌, if◌then◌else◌, Option, none, some, [], Bytes, codes, bytes_eq,
  cut, has_prefix, ℤ, pos, ltb_ℤ, eqb_ℤ, Result, ok, err, ◌>>=◌,
}
use fabric_network_builder.Prelude.Decimal.{atoi}

pub record ImageTags : Type 0 where
  pub image : Bytes
  pub tools : Bytes

-- The errors, with the tag that they name.
pub data ImageError : Type 0 where
  not_supported : Bytes → ImageError
  no_tools_image : Bytes → ImageError

-- What the numbers of a version say; a part that is not a number passes.
unfoldable pub numbers_at_least_25 : Option ℤ → Option ℤ → Bool
numbers_at_least_25 none minor = true
numbers_at_least_25 (some major) none = true
numbers_at_least_25 (some major) (some minor) =
    ltb_ℤ (pos 2) major || (eqb_ℤ major (pos 2) && not (ltb_ℤ minor (pos 5)))

-- The first two parts of `strings.SplitN(tag, ".", 3)`: a tag without a dot has one.
unfoldable pub parts_at_least_25 : Bytes × Option Bytes → Bool
parts_at_least_25 (major, none) = true
parts_at_least_25 (major, some rest) = numbers_at_least_25 (atoi major) (atoi (cut b'.' rest).0)

unfoldable pub fabric_version_at_least_25 : Bytes → Bool
fabric_version_at_least_25 tag = parts_at_least_25 (cut b'.' tag)

-- A variable of the environment, or a default when it is empty or not set.
unfoldable pub override : Bytes → Bytes → Bytes
override v default = if bytes_eq v [] then default else v

-- The switch on the tools tag; `image_tag` is the builder's default.
unfoldable pub default_tools : Bytes → Bytes → Result ImageError Bytes
default_tools image_tag image =
    if has_prefix image (codes "2.")
    then ok image
    else if has_prefix image_tag (codes "2.")
    then ok image_tag
    else err (no_tools_image image)

abbrev pub with_tools : Bytes → Bytes → Result ImageError ImageTags
with_tools i t = ok (record { image = i; tools = t })

-- The tools tag, once the image tag is known to be supported.
unfoldable pub resolve_tools : Bytes → Bytes → Bytes → Result ImageError ImageTags
resolve_tools image_tag i v =
    if not (bytes_eq v []) then with_tools i v else (default_tools image_tag i >>= with_tools i)

unfoldable pub resolve_image_tags : Bytes → (Bytes → Bytes) → Result ImageError ImageTags
resolve_image_tags image_tag getenv =
    let i = override (getenv (codes "FNB_IMAGETAG")) image_tag in
    if not (fabric_version_at_least_25 i)
    then err (not_supported i)
    else resolve_tools image_tag i (getenv (codes "FNB_TOOLSIMAGETAG"))
