-- ===== src/Examples/Auth.antt =====
-- The validation of a presigned URL.
use anywhere_mesh.Base.{
  Text, codes, ◌≡◌, refl, some, false, true, List, [], ◌∷◌, ◌++◌, contains, starts_with, ends_with,
  find, split, text_beq,
}
use anywhere_mesh.Common.Auth.{IamIdentity}
use anywhere_mesh.Server.Auth.{
  star, extract_xml_field, cut_part, match_parts, matches_arn_pattern, is_role_allowed, judge,
  judge_answer, validate_with_sts, authenticate, accepted,
}
use anywhere_mesh.Server.Auth.Fill.{fill}
use anywhere_mesh.Server.Auth.Patterns.{matches_arn_pattern_sound}
use anywhere_mesh.Server.Auth.Complete.{matches_arn_pattern_complete}
use anywhere_mesh.Server.Auth.Misses.{matches_arn_pattern_misses}
use anywhere_mesh.Server.Auth.Identity.{IsValidated, authenticate-success}
use anywhere_mesh.Examples.{role, auth_service, auth_request}

role_matches : matches_arn_pattern role (codes "arn:*:role/*") ≡ true
unfolding matches_arn_pattern match_parts cut_part text_beq contains split starts_with find
    ends_with
role_matches = refl

matches_arn_pattern_sound_example : (gaps : List Text) × (role ≡ fill (codes "arn:*:role/*") gaps)
matches_arn_pattern_sound_example =
    matches_arn_pattern_sound role (codes "arn:*:role/*") role_matches

matches_arn_pattern_complete_example :
    matches_arn_pattern
      (fill (codes "*:role/" ++ codes "*") (codes "aws" ∷ codes "mesh" ∷ []))
      (codes "*:role/" ++ codes "*")
    ≡ true
matches_arn_pattern_complete_example =
    matches_arn_pattern_complete (codes "*:role/") (codes "aws" ∷ codes "mesh" ∷ [])

matches_arn_pattern_misses_example :
    (codes "mesh" ++ (codes "-" ++ codes "mesh")
      ≡ fill (star ∷ codes "mesh") ((codes "mesh" ++ codes "-") ∷ []))
    × (matches_arn_pattern (codes "mesh" ++ (codes "-" ++ codes "mesh")) (star ∷ codes "mesh")
        ≡ false)
unfolding contains
matches_arn_pattern_misses_example = matches_arn_pattern_misses b'm' (codes "esh") (codes "-") refl

succeeds : (authenticate auth_service auth_request).success ≡ true
unfolding authenticate validate_with_sts judge_answer judge is_role_allowed matches_arn_pattern
    match_parts cut_part extract_xml_field find text_beq contains split ends_with starts_with
succeeds = refl

authenticate-success_example :
    (url : Text) × (i : IamIdentity) × (auth_request.presigned_url ≡ some url)
    × (authenticate auth_service auth_request ≡ accepted i.arn i.account_id i.user_id)
    × IsValidated auth_service url i
authenticate-success_example = authenticate-success auth_service auth_request refl succeeds
