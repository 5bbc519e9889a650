-- ===== src/V2/Groups.antt =====
-- Memberships in groups (conjurapi/group_membership_v2.go).
use Prim.Native.String.{String, ◌++◌}
use conjur_api_go.Common.{Option, [], ◌∷◌, ◌==◌, ◌||◌, not, if◌then◌else◌, Result, err}
use conjur_api_go.Requests.{Context, Request, route}
use conjur_api_go.Requests.Json.{Json, text, object, end, field}
use conjur_api_go.Session.{Client, Server}
use conjur_api_go.Session.Submit.{Ending, data_call, json_call}
use conjur_api_go.V2.{
  new_v2_request, new_v2_json_request, v2_api_header_beta, account_of, joined, error_if, missing,
  unless_failed, explained, min_version, not_supported_in_old_versions, require_version,
}
use conjur_api_go.Version.{Semver, Decoding}

pub record GroupMember : Type 0 where
  pub id : String
  pub kind : String

unfoldable pub member_json : GroupMember → Json
member_json m = object (field "id" (text m.id) (field "kind" (text m.kind) end))

-- GroupMember.Validate
unfoldable pub validate_member : GroupMember → Option String
validate_member m = joined (
    error_if (missing (m.id == "" || m.kind == "") "Must specify a Member") (
      error_if
        (missing (not (m.kind == "user" || m.kind == "host" || m.kind == "group"))
          ("Invalid member kind: " ++ m.kind))
        []))

unfoldable pub add_group_membership_url : Context → String → String
add_group_membership_url context group_id =
    route context ("groups" ∷ account_of context ∷ group_id ∷ "members" ∷ [])

unfoldable pub remove_group_membership_url : Context → String → GroupMember → String
remove_group_membership_url context group_id member =
    route context
      ("groups" ∷ account_of context ∷ group_id ∷ "members" ∷ member.kind ∷ member.id ∷ [])

unfoldable pub add_group_member_request : Context → String → GroupMember → Result Request
unfolding member_json
add_group_member_request context group_id member =
    if group_id == ""
    then err "Must specify a Group ID"
    else unless_failed (validate_member member) (
        explained "Failed to create add group member request" (
          new_v2_json_request context "POST" (add_group_membership_url context group_id)
            (member_json member) v2_api_header_beta))

unfoldable pub remove_group_member_request : Context → String → GroupMember → Result Request
remove_group_member_request context group_id member =
    if group_id == ""
    then err "Must specify a Group ID"
    else unless_failed (validate_member member) (
        explained "Failed to create remove group member request" (
          new_v2_request context "DELETE" (remove_group_membership_url context group_id member)
            v2_api_header_beta))

abbrev pub group_api_too_old : String
group_api_too_old = not_supported_in_old_versions "Group Membership API" min_version

module _ {W V : Type 0} (server : Server W) (decoding : Decoding) (semver : Semver V) where
  unfoldable pub add_group_member :
      {A : Type 0} → (String → Result A) → String → GroupMember → Client W → W → Ending W A
  add_group_member decode group_id member c w =
      require_version server decoding semver min_version group_api_too_old c w (λ d v.
        json_call server decode d
          (add_group_member_request (server.context d.config) group_id member) v)

  unfoldable pub remove_group_member : String → GroupMember → Client W → W → Ending W String
  remove_group_member group_id member c w =
      require_version server decoding semver min_version group_api_too_old c w (λ d v.
        data_call server d (remove_group_member_request (server.context d.config) group_id member)
          v)
