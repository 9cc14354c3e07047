-- ===== src/Examples/Images.antt =====
-- Image tags of concrete environments.
use fabric_network_builder.Prelude.{
  ◌≡◌, refl, true, ltb, leb, ◌==◌, ◌&&◌, ◌||◌, ◌++◌, ◌∷◌, [], if◌then◌else◌, Bytes, codes, bytes_eq,
  cut, has_prefix, arith, List, Result, ok, some,
}
use fabric_network_builder.Prelude.Decimal.{atoi, print_ℕ, parse_ℕ, scan}
use fabric_network_builder.Images.{
  ImageTags, numbers_at_least_25, parts_at_least_25, fabric_version_at_least_25, override,
  default_tools, resolve_tools, resolve_image_tags,
}
use fabric_network_builder.Prelude.Defaults.{IsOrDefault}
use fabric_network_builder.Prelude.Dict
use fabric_network_builder.Prelude.Dict.{Dict}
use fabric_network_builder.Prelude.Spaces.{trim_space, trim_left, trim_right, space_width}
use fabric_network_builder.Images.Environ.{
  Defaults, trim_suffix, id_name, chaincode_ids, add_tags, add_version, compose_env,
}
use fabric_network_builder.Images.Environ.Supported.{compose_env-image_tag}
use fabric_network_builder.Images.Tags.{IsTools, resolve_image_tags-ok, at_least_25-print_ℕ}

-- FNB_IMAGETAG is set to a release of Fabric 3, and nothing else is set.
abbrev getenv : Bytes → Bytes
getenv name = if bytes_eq name (codes "FNB_IMAGETAG") then codes "3.1.1" else []

abbrev default_tag : Bytes
default_tag = codes "2.5.16"

abbrev tags : ImageTags
tags = record { image = codes "3.1.1"; tools = default_tag }

resolve_image_tags-ok_example :
    IsOrDefault [] default_tag (getenv (codes "FNB_IMAGETAG")) tags.image
    × (fabric_version_at_least_25 tags.image ≡ true)
    × IsTools default_tag (getenv (codes "FNB_TOOLSIMAGETAG")) tags
unfolding codes bytes_eq cut has_prefix atoi parse_ℕ scan numbers_at_least_25 parts_at_least_25
    fabric_version_at_least_25 override default_tools resolve_tools resolve_image_tags
resolve_image_tags-ok_example = resolve_image_tags-ok default_tag getenv tags refl

at_least_25-print_ℕ_example :
    fabric_version_at_least_25 (print_ℕ 2 ++ (b'.' ∷ (print_ℕ 4 ++ (b'.' ∷ codes "9"))))
    ≡ (ltb 2 2 || (2 == 2 && leb 5 4))
at_least_25-print_ℕ_example = at_least_25-print_ℕ 2 4 (codes "9") (omega arith) (omega arith)

abbrev defaults : Defaults
defaults = record {
  image_tag = default_tag;
  ca_image_tag = codes "1.5.21";
  base_image_tag = codes "0.4.22";
  image_ns = codes "hyperledger";
}

abbrev same_text : Bytes → Bytes
same_text s = s

abbrev id_files : List (Bytes × Result Bytes Bytes)
id_files = (codes "cc-1.id", ok (codes "cc:12 ")) ∷ []

environ_runs : Unit {0}
unfolding codes bytes_eq cut has_prefix atoi parse_ℕ scan numbers_at_least_25 parts_at_least_25
    fabric_version_at_least_25 override default_tools resolve_tools resolve_image_tags trim_suffix
    id_name chaincode_ids add_tags add_version compose_env Dict.lookup Dict.insert trim_space
    trim_left trim_right space_width
environ_runs = tt

-- The file cc-1.id gives the variable CCID_cc.
reads_ids :
    chaincode_ids same_text same_text id_files [] ≡ ok ((codes "CCID_cc", codes "cc:12") ∷ [])
unfolding environ_runs
reads_ids = refl

abbrev environ : Dict Bytes
environ = add_version [] (add_tags defaults (codes "c") tags [])

compose_env-image_tag_example :
    (Dict.lookup (codes "IMAGE_TAG") environ
      ≡ some (override (getenv (codes "FNB_IMAGETAG")) defaults.image_tag))
    × (fabric_version_at_least_25 (override (getenv (codes "FNB_IMAGETAG")) defaults.image_tag)
        ≡ true)
unfolding environ_runs
compose_env-image_tag_example =
    compose_env-image_tag defaults getenv (ok []) (codes "c") [] environ refl
