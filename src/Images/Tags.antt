-- ===== src/Images/Tags.antt =====
-- Which tags `resolveImageTags` accepts.
use mathlib.Core.Path.{subst}
use fabric_network_builder.Prelude.{
  ℕ, ◌≡◌, ◌≢◌, ◌<◌, ◌^◌, sym, ap, ◌∙◌, true, false, not, ◌&&◌, ◌||◌, ltb, leb, ◌==◌, if◌then◌else◌,
  some, [], ◌∷◌, ◌++◌, ◌⊎◌, inl, inr, Bytes, codes, bytes_eq, bytes_eq→eq, bytes_eq_iff, has_prefix,
  pos, Result, ok, err, Bool-cases, arith, ◌>>=◌, >>=-eq-ok,
}
use fabric_network_builder.Prelude.Defaults.{IsOrDefault, if-IsOrDefault}
use fabric_network_builder.Prelude.Decimal.{
  atoi, print_ℕ, atoi-parse_ℕ, parse_ℕ-print_ℕ, print_ℕ-ne-dot,
}
use fabric_network_builder.Cli.Args.Reading.Forms.{cut_at}
use fabric_network_builder.Images.{
  ImageTags, ImageError, numbers_at_least_25, parts_at_least_25, fabric_version_at_least_25,
  not_supported, with_tools, override, default_tools, resolve_tools, resolve_image_tags,
}

-- The default of the tools tag: the image tag, or the builder's, whichever is first one of Fabric 2.
abbrev pub IsDefaultTools : Bytes → ImageTags → Type 0
IsDefaultTools image_tag t =
    ((has_prefix t.image (codes "2.") ≡ true) × (t.tools ≡ t.image))
    ⊎ ((has_prefix t.image (codes "2.") ≡ false)
        × (has_prefix image_tag (codes "2.") ≡ true)
        × (t.tools ≡ image_tag))

default_tools-ok :
    (image_tag image tag : Bytes)
    → default_tools image_tag image ≡ ok tag
    → IsDefaultTools image_tag (record { image = image; tools = tag })
unfolding default_tools
default_tools-ok image_tag image tag e = elim (Bool-cases (has_prefix image (codes "2."))) [
  | inl fabric_2 ↦ inl (fabric_2, ground arith)
  | inr other ↦ inr (other, ground arith, ground arith)
]

err-ne-ok : {x : ImageError} {t : ImageTags} → Path (Result ImageError ImageTags) (err x) (ok t) → ⊥
err-ne-ok e = cc

override-IsOrDefault : (v default : Bytes) → IsOrDefault [] default v (override v default)
unfolding override
override-IsOrDefault v default = if-IsOrDefault [] default v (bytes_eq v []) (bytes_eq_iff v [])

pub override-eq : (v default tag : Bytes) → IsOrDefault [] default v tag → tag ≡ override v default
override-eq v default tag h = elim (override-IsOrDefault v default) [
  | inl (set, e) ↦ elim h [ inl h' ↦ h'.1 ∙ sym e | inr h' ↦ absurd (set h'.0) ]
  | inr (unset, e) ↦ elim h [ inl h' ↦ absurd (h'.0 unset) | inr h' ↦ h'.1 ∙ sym e ]
]

made :
    (i v : Bytes) (t : ImageTags)
    → Path (Result ImageError ImageTags) (ok (record { image = i; tools = v })) (ok t)
    → Path ImageTags (record { image = i; tools = v }) t
made i v t e = cc

ok-parts :
    (i v : Bytes) (t : ImageTags)
    → Path (Result ImageError ImageTags) (ok (record { image = i; tools = v })) (ok t)
    → (t.image ≡ i) × (t.tools ≡ v)
ok-parts i v t e =
    let same = made i v t e in (sym (ap (λ r. r.image) same), sym (ap (λ r. r.tools) same))

-- The tools tag is the variable's, or, where that is empty, the default.
abbrev pub IsTools : Bytes → Bytes → ImageTags → Type 0
IsTools image_tag v t = ((v ≢ []) × (t.tools ≡ v)) ⊎ ((v ≡ []) × IsDefaultTools image_tag t)

resolve_tools-ok :
    (image_tag i v : Bytes) (t : ImageTags)
    → resolve_tools image_tag i v ≡ ok t
    → (t.image ≡ i) × IsTools image_tag v t
unfolding resolve_tools
resolve_tools-ok image_tag i v t e = elim (Bool-cases (bytes_eq v [])) [
  | inl unset ↦
      let found = >>=-eq-ok (default_tools image_tag i) (with_tools i) (
        sym (
          ap (λ b. if not b then with_tools i v else (default_tools image_tag i >>= with_tools i))
            unset)
        ∙ e) in
      let parts = ok-parts i found.0 t found.2 in
      (
        parts.0,
        inr (
          bytes_eq→eq v [] unset,
          subst (IsDefaultTools image_tag) (made i found.0 t found.2)
              (default_tools-ok image_tag i found.0 found.1),
        ),
      )
  | inr set ↦
      let parts = ok-parts i v t (
        sym (
          ap (λ b. if not b then with_tools i v else (default_tools image_tag i >>= with_tools i))
            set)
        ∙ e) in
      (parts.0, inl ((λ e'. cc (set, (bytes_eq_iff v []).1 e')), parts.1))
]

-- When `resolveImageTags` succeeds, the image tag is the one of FNB_IMAGETAG, or the default where
-- that is empty, and passes the version test, and the tools tag is the one of FNB_TOOLSIMAGETAG, or,
-- where that is empty, the image tag if it begins with "2.", and else the default, which then does.
pub resolve_image_tags-ok :
    (image_tag : Bytes) (getenv : Bytes → Bytes) (t : ImageTags)
    → resolve_image_tags image_tag getenv ≡ ok t
    → IsOrDefault [] image_tag (getenv (codes "FNB_IMAGETAG")) t.image
      × (fabric_version_at_least_25 t.image ≡ true)
      × IsTools image_tag (getenv (codes "FNB_TOOLSIMAGETAG")) t
unfolding resolve_image_tags
resolve_image_tags-ok image_tag getenv t e =
    let i = override (getenv (codes "FNB_IMAGETAG")) image_tag in
    let tools = getenv (codes "FNB_TOOLSIMAGETAG") in
    elim (Bool-cases (fabric_version_at_least_25 i)) [
      | inl supported ↦
          let rest = resolve_tools-ok image_tag i tools t (
            sym (
              ap (λ b. if not b then err (not_supported i) else resolve_tools image_tag i tools)
                supported)
            ∙ e) in
          (
            subst (IsOrDefault [] image_tag (getenv (codes "FNB_IMAGETAG"))) (sym rest.0)
                (override-IsOrDefault (getenv (codes "FNB_IMAGETAG")) image_tag),
            ap fabric_version_at_least_25 rest.0 ∙ supported,
            rest.1,
          )
      | inr old ↦ absurd (
          err-ne-ok (
            sym (
              ap (λ b. if not b then err (not_supported i) else resolve_tools image_tag i tools)
                old)
            ∙ e))
    ]

numbers :
    (major minor : ℕ)
    → numbers_at_least_25 (some (pos major)) (some (pos minor))
      ≡ (ltb 2 major || (major == 2 && leb 5 minor))
unfolding numbers_at_least_25
numbers major minor = ground arith

-- A tag that begins with two numbers, each with a dot behind it, passes the version test exactly when
-- they are those of 2.5 or a later version; the numbers are below 2^63.
pub at_least_25-print_ℕ :
    (major minor : ℕ) (rest : Bytes)
    → major < 2 ^ 63
    → minor < 2 ^ 63
    → fabric_version_at_least_25 (print_ℕ major ++ (b'.' ∷ (print_ℕ minor ++ (b'.' ∷ rest))))
      ≡ (ltb 2 major || (major == 2 && leb 5 minor))
unfolding fabric_version_at_least_25 parts_at_least_25
at_least_25-print_ℕ major minor rest hm hn =
    ap parts_at_least_25 (cut_at b'.' (print_ℕ major) _ (print_ℕ-ne-dot major))
    ∙ ap (λ p. numbers_at_least_25 (atoi (print_ℕ major)) (atoi p.0))
        (cut_at b'.' (print_ℕ minor) rest (print_ℕ-ne-dot minor))
    ∙ ap (λ a. numbers_at_least_25 a (atoi (print_ℕ minor)))
        (atoi-parse_ℕ (print_ℕ major) major (parse_ℕ-print_ℕ major) hm)
    ∙ ap (λ b. numbers_at_least_25 (some (pos major)) b)
        (atoi-parse_ℕ (print_ℕ minor) minor (parse_ℕ-print_ℕ minor) hn)
    ∙ numbers major minor
