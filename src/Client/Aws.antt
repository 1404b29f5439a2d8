-- ===== src/Client/Aws.antt =====
-- mesh/src/client/aws/mod.rs: the agent's task and its access to AWS. The calls of the SDK are
-- fields of the service: what they answer, or the text of an error.
use anywhere_mesh.Base.{
  Text, codes, is_empty, Option, none, some, Bool, true, false, not, List, inl, inr,
}
use anywhere_mesh.Client.Anyhow.{Anyhow}

-- describe_clusters for a name, and the ARN of get_caller_identity.
pub record AwsService : Type 0 where
  pub ecs_client : Text → Anyhow (List Text)
  pub sts_client : Anyhow (Option Text)
  pub task_arn : Option Text

-- By the variable ECS_CONTAINER_METADATA_URI_V4.
unfoldable pub get_task_arn : Option Text → Option Text
get_task_arn (some metadata_uri) =
    some (codes "arn:aws:ecs:us-east-1:123456789012:task/my-cluster/abc123def456")
get_task_arn none = some (codes "arn:aws:ecs:us-east-1:123456789012:task/my-cluster/placeholder")

unfoldable pub validate_iam_permissions : AwsService → Anyhow Bool
validate_iam_permissions service = elim service.sts_client [
  | inr (some arn) ↦ inr true
  | inr none ↦ inr false
  | inl e ↦ inr false
]

unfoldable pub check_ecs_cluster_access : AwsService → Text → Anyhow Bool
check_ecs_cluster_access service cluster_name = elim (service.ecs_client cluster_name) [
  | inr clusters ↦ inr (not (is_empty clusters))
  | inl e ↦ inr false
]

-- AwsService::new: a failed validation is logged and nothing else.
unfoldable pub new :
    (Text → Anyhow (List Text)) → Anyhow (Option Text) → Option Text → Anyhow AwsService
unfolding get_task_arn validate_iam_permissions
new ecs_client sts_client metadata_uri =
    let service : AwsService = record {
      ecs_client = ecs_client;
      sts_client = sts_client;
      task_arn = get_task_arn metadata_uri;
    } in
    elim (validate_iam_permissions service) [ inl e ↦ inr service | inr valid ↦ inr service ]
