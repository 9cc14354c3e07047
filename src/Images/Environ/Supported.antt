-- ===== src/Images/Environ/Supported.antt =====
-- The image tag of the compose files is a supported one.
use fabric_network_builder.Prelude.{
  [], ◌∷◌, true, ◌≡◌, refl, sym, ap, ◌∙◌, some, Bytes, codes, bytes_eq, Result, ok, err, ◌>>=◌,
  >>=-eq-ok,
}
use fabric_network_builder.Prelude.Dict
use fabric_network_builder.Prelude.Dict.{Dict, lookup-insert}
use fabric_network_builder.Images.{
  ImageTags, ImageError, override, fabric_version_at_least_25, resolve_image_tags,
}
use fabric_network_builder.Images.Tags.{override-eq, resolve_image_tags-ok}
use fabric_network_builder.Images.Environ.{
  Defaults, EnvError, add_tags, add_version, tags_of, compose_env,
}

image_tag-added :
    (d : Defaults) (channel : Bytes) (t : ImageTags) (ids : Dict Bytes)
    → Dict.lookup (codes "IMAGE_TAG") (add_tags d channel t ids) ≡ some t.image
unfolding add_tags codes bytes_eq
image_tag-added d channel t ids =
    lookup-insert (codes "IMAGE_TAG") (codes "TIMEOUT") _ _
    ∙ lookup-insert (codes "IMAGE_TAG") (codes "BASE_IMAGE_TAG") _ _
    ∙ lookup-insert (codes "IMAGE_TAG") (codes "TOOLS_IMAGE_TAG") _ _
    ∙ lookup-insert (codes "IMAGE_TAG") (codes "IMAGE_TAG") _ _

image_tag-kept :
    (cc_version : Bytes) (env : Dict Bytes)
    → Dict.lookup (codes "IMAGE_TAG") (add_version cc_version env)
      ≡ Dict.lookup (codes "IMAGE_TAG") env
unfolding add_version codes bytes_eq
image_tag-kept [] env = refl
image_tag-kept (c ∷ v) env = lookup-insert (codes "IMAGE_TAG") (codes "CHAINCODE_VERSION") _ _

tags_of-ok : (r : Result ImageError ImageTags) (t : ImageTags) → tags_of r ≡ ok t → r ≡ ok t
tags_of-ok (ok u) t e = cc e
tags_of-ok (err m) t e = cc e

-- When composeEnv succeeds, IMAGE_TAG is the tag of FNB_IMAGETAG, or the default where that is empty,
-- and passes the version test, whatever the chaincodes' IDs are.
pub compose_env-image_tag :
    (d : Defaults) (getenv : Bytes → Bytes) (ids : Result EnvError (Dict Bytes))
    (channel cc_version : Bytes) (env : Dict Bytes)
    → compose_env d getenv ids channel cc_version ≡ ok env
    → (Dict.lookup (codes "IMAGE_TAG") env
        ≡ some (override (getenv (codes "FNB_IMAGETAG")) d.image_tag))
      × (fabric_version_at_least_25 (override (getenv (codes "FNB_IMAGETAG")) d.image_tag) ≡ true)
unfolding compose_env
compose_env-image_tag d getenv ids channel cc_version env e =
    let (t, resolved, rest) =
      >>=-eq-ok (tags_of (resolve_image_tags d.image_tag getenv))
        (λ t. ids >>= λ found. ok (add_version cc_version (add_tags d channel t found))) e in
    let (found, read, made) =
      >>=-eq-ok ids (λ found. ok (add_version cc_version (add_tags d channel t found))) rest in
    let tags = resolve_image_tags-ok d.image_tag getenv t (tags_of-ok _ t resolved) in
    let same : add_version cc_version (add_tags d channel t found) ≡ env = cc made in
    let tag = override-eq (getenv (codes "FNB_IMAGETAG")) d.image_tag t.image tags.0 in
    (
      ap (Dict.lookup (codes "IMAGE_TAG")) (sym same)
          ∙ image_tag-kept cc_version (add_tags d channel t found)
          ∙ image_tag-added d channel t found
          ∙ ap some tag,
      ap fabric_version_at_least_25 (sym tag) ∙ tags.1,
    )
