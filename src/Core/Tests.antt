-- ===== src/Core/Tests.antt =====
-- The tests of crates/c6-core/src/permissions.rs and of the credential types.
use cresix.Base.{err, ◌≡◌, refl, true, false}
use cresix.Base.Text.{codes}
use cresix.Core.Permissions.{
  allows, contributor, owner, runner, publish, push_branch, manage_members, minimum,
}
use cresix.Core.Credentials.{type_from_str, unknown_type}

contributor_cannot_publish : allows contributor publish ≡ false
unfolding allows minimum
contributor_cannot_publish = refl

owner_manages_members : allows owner manage_members ≡ true
unfolding allows minimum
owner_manages_members = refl

runner_cannot_push : allows runner push_branch ≡ false
unfolding allows minimum
runner_cannot_push = refl

unknown_credential : type_from_str (codes "api") ≡ err unknown_type
unfolding type_from_str
unknown_credential = refl
