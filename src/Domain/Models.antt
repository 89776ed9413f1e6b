-- ===== src/Domain/Models.antt =====
-- domain/models.py: the value objects on which policy and execution decide, each with its
-- `__post_init__`. Constructing a value, and `dataclasses.replace`, is `validate` on the record.
use vuln_proof_claw.Common.{
  ℕ, Bool, false, ◌&&◌, not, Option, none, some, String, ltb, leb, ◌==◌, any, contains, codes,
  nat_eq, string_eq,
}
use vuln_proof_claw.Common.Results.{ok, ◌>>◌}
use vuln_proof_claw.Domain.Enums.{
  RiskLevel, RiskLevel-discrete, risk_level_eq, ActionState, TaskState,
}
use vuln_proof_claw.Domain.Errors.{Time, Raises, require_text, require_sha256, refuse_if}

pub record Engagement : Type 0 where
  pub project_id : String
  pub name : String
  pub starts_at : Time
  pub ends_at : Time
  pub maximum_risk : RiskLevel
  pub auto_execute_l1 : Bool
  pub destructive_actions_enabled : Bool
  pub id : String
  pub created_at : Time

unfoldable pub validate_engagement : Engagement → Raises Engagement
unfolding RiskLevel-discrete
validate_engagement e = do
  require_text e.name "name"
  refuse_if (leb e.ends_at e.starts_at) "ends_at must be later than starts_at"
  refuse_if (e.destructive_actions_enabled && not (e.maximum_risk == RiskLevel.l4))
      "destructive actions require the engagement maximum risk to be L4"
  ok e

pub record Action : Type 0 where
  pub engagement_id : String
  pub task_id : String
  pub action_type : String
  pub normalized_target : String
  pub parameter_digest : String
  pub risk_level : RiskLevel
  pub idempotency_key : String
  pub query : String
  pub id : String
  pub state : ActionState
  pub approval_id : Option String
  pub created_at : Time
  pub started_at : Option Time
  pub completed_at : Option Time

-- `a is not None and b is not None and a < b`
abbrev pub earlier : Option Time → Option Time → Bool
earlier (some a) (some b) = ltb a b
earlier (some a) none = false
earlier none b = false

unfoldable pub validate_action : Action → Raises Action
validate_action a = do
  require_text a.action_type "action_type"
  require_text a.normalized_target "normalized_target"
  require_text a.idempotency_key "idempotency_key"
  require_sha256 a.parameter_digest "parameter_digest"
  refuse_if (any (contains (codes "?#\r\n")) (codes a.query))
      "query must not contain a delimiter or line break"
  refuse_if (earlier a.started_at (some a.created_at))
      "started_at must not be earlier than created_at"
  refuse_if (earlier a.completed_at (some a.created_at))
      "completed_at must not be earlier than created_at"
  refuse_if (earlier a.completed_at a.started_at) "completed_at must not be earlier than started_at"
  ok a

pub record Approval : Type 0 where
  pub engagement_id : String
  pub action_type : String
  pub normalized_target : String
  pub parameter_digest : String
  pub risk_level : RiskLevel
  pub expires_at : Time
  pub permitted_executions : ℕ
  pub approver : String
  pub id : String
  pub approved_at : Time
  pub consumed_executions : ℕ

unfoldable pub validate_approval_record : Approval → Raises Approval
validate_approval_record p = do
  require_text p.action_type "action_type"
  require_text p.normalized_target "normalized_target"
  require_text p.approver "approver"
  require_sha256 p.parameter_digest "parameter_digest"
  refuse_if (leb p.expires_at p.approved_at) "expires_at must be later than approved_at"
  refuse_if (ltb p.permitted_executions 1) "permitted_executions must be at least one"
  refuse_if (not (leb p.consumed_executions p.permitted_executions))
      "consumed_executions is outside the permitted range"
  ok p

-- `Approval.authorizes`
unfoldable pub authorizes : Approval → Action → Time → Bool
unfolding RiskLevel-discrete
authorizes p a at =
    (leb p.approved_at at && ltb at p.expires_at)
    && (ltb p.consumed_executions p.permitted_executions)
    && (p.engagement_id == a.engagement_id)
    && (p.action_type == a.action_type)
    && (p.normalized_target == a.normalized_target)
    && (p.parameter_digest == a.parameter_digest)
    && (p.risk_level == a.risk_level)

pub record Task : Type 0 where
  pub flow_id : String
  pub title : String
  pub sequence : ℕ
  pub state : TaskState
  pub attempts : ℕ
  pub id : String
  pub created_at : Time

unfoldable pub validate_task : Task → Raises Task
validate_task t = do require_text t.title "title"; ok t
