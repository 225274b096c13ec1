-- ===== src/CloudCore/Identifiers/Tests.antt =====
-- The examples of crates/c6-cloud-core/src/identifiers.rs, and the theorem at one of them.
use cresix.Base.{
  ◌≡◌, ◌↔◌, ◌≤◌, ◌∷◌, [], refl, ok, err, arith, true, false, length, all, is_ok, List, Bool, map,
}
use cresix.Base.Text.{codes, split, is_one_of, is_trimmed, has_control}
use cresix.CloudCore.Identifiers.{
  validate_slug, reserved_names, account_handle_new, workspace_namespace_new, project_slug_new,
  installation_label_new, reserved_name, is_alnum_at, has_double_hyphen, unsafe_label,
}
use cresix.CloudCore.Identifiers.Kebab.{is_word, validate_slug_iff}

canonical : is_ok (account_handle_new (codes "neal-6")) ≡ true
unfolding account_handle_new validate_slug is_alnum_at has_double_hyphen
canonical = refl

refused : List Bool
refused =
    map (λ v. is_ok (account_handle_new v))
      (codes "Neal" ∷ codes "-neal" ∷ codes "neal-" ∷ codes "neal--six" ∷ codes "ne_al" ∷ [])

all_refused : refused ≡ false ∷ false ∷ false ∷ false ∷ false ∷ []
unfolding refused account_handle_new validate_slug is_alnum_at has_double_hyphen
all_refused = refl

reserved : workspace_namespace_new (codes "api") ≡ err (reserved_name (codes "workspace namespace"))
unfolding workspace_namespace_new validate_slug is_alnum_at has_double_hyphen
reserved = refl

slash : is_ok (project_slug_new (codes "a/b")) ≡ false
unfolding project_slug_new validate_slug is_alnum_at has_double_hyphen
slash = refl

padded_label : installation_label_new (codes " laptop ") ≡ err unsafe_label
unfolding installation_label_new is_trimmed has_control
padded_label = refl

validate_slug_iff_example :
    (validate_slug (codes "paper-street") (codes "workspace namespace") 3 63 reserved_names ≡ ok tt)
    ↔ ((3 ≤ length (codes "paper-street"))
        × (length (codes "paper-street") ≤ 63)
        × (all is_word (split b'-' (codes "paper-street")) ≡ true)
        × (is_one_of reserved_names (codes "paper-street") ≡ false))
validate_slug_iff_example =
    validate_slug_iff (codes "paper-street") (codes "workspace namespace") 3 63 reserved_names
      (omega arith)
