-- ===== src/Images/Environ.antt =====
-- internal/cli/images.go: the environment of the compose files.
pub mod Supported
use fabric_network_builder.Prelude.{
  List, [], ◌∷◌, ◌++◌, Bool, true, false, if◌then◌else◌, Option, none, some, Bytes, codes, bytes_eq,
  cut, is_nil, Result, ok, err, ◌>>=◌,
}
use fabric_network_builder.Prelude.Spaces.{trim_space}
use fabric_network_builder.Prelude.Dict
use fabric_network_builder.Prelude.Dict.{Dict}
use fabric_network_builder.Images.{ImageTags, ImageError, resolve_image_tags}

-- The names that the build sets.
pub record Defaults : Type 0 where
  pub image_tag : Bytes
  pub ca_image_tag : Bytes
  pub base_image_tag : Bytes
  pub image_ns : Bytes

pub data EnvError : Type 0 where
  image_error : ImageError → EnvError
  file_error : Bytes → EnvError

-- `strings.TrimSuffix`
unfoldable pub trim_suffix : Bytes → Bytes → Bytes
trim_suffix [] suffix = []
trim_suffix (c ∷ s) suffix =
    let rest = trim_suffix s suffix in if bytes_eq (c ∷ s) suffix then [] else c ∷ rest

-- The variable of a file: CCID_ and the file's name up to its first dash, in upper case.
unfoldable pub id_name : (Bytes → Bytes) → (Bytes → Bytes) → Bytes → Bytes
id_name base to_upper file =
    codes "CCID_" ++ to_upper (cut b'-' (trim_suffix (base file) (codes ".id"))).0

-- `chaincodeIDs`, on the files that are found, each with what reading it gives.
unfoldable pub chaincode_ids :
    (Bytes → Bytes)
    → (Bytes → Bytes)
    → List (Bytes × Result Bytes Bytes)
    → Dict Bytes
    → Result EnvError (Dict Bytes)
chaincode_ids base to_upper [] ids = ok ids
chaincode_ids base to_upper ((file, err e) ∷ files) ids = err (file_error e)
chaincode_ids base to_upper ((file, ok b) ∷ files) ids =
    chaincode_ids base to_upper files (Dict.insert (id_name base to_upper file) (trim_space b) ids)

-- What `maps.Copy` adds to the IDs.
unfoldable pub add_tags : Defaults → Bytes → ImageTags → Dict Bytes → Dict Bytes
add_tags d channel t ids = Dict.insert (codes "TIMEOUT") (codes "10000") (
    Dict.insert (codes "BASE_IMAGE_TAG") d.base_image_tag (
      Dict.insert (codes "TOOLS_IMAGE_TAG") t.tools (
        Dict.insert (codes "IMAGE_TAG") t.image (
          Dict.insert (codes "CA_IMAGE_TAG") d.ca_image_tag (
            Dict.insert (codes "IMAGE_NS") d.image_ns
              (Dict.insert (codes "CHANNEL_NAME") channel ids))))))

unfoldable pub add_version : Bytes → Dict Bytes → Dict Bytes
add_version cc_version env =
    if is_nil cc_version then env else Dict.insert (codes "CHAINCODE_VERSION") cc_version env

abbrev pub tags_of : Result ImageError ImageTags → Result EnvError ImageTags
tags_of (ok t) = ok t
tags_of (err e) = err (image_error e)

-- `composeEnv`; the IDs are what `chaincodeIDs` gives.
unfoldable pub compose_env :
    Defaults
    → (Bytes → Bytes)
    → Result EnvError (Dict Bytes)
    → Bytes
    → Bytes
    → Result EnvError (Dict Bytes)
compose_env d getenv ids channel cc_version =
    tags_of (resolve_image_tags d.image_tag getenv) >>= λ t.
    ids >>= λ found. ok (add_version cc_version (add_tags d channel t found))
