-- ===== src/Policy/Risk.antt =====
-- policy/risk.py: the risk level of an action type. Texts are code points, since the normalization
-- works character by character.
pub mod Known
use mathlib.Core.List.{flat_map, reverse}
use vuln_proof_claw.Common.{
  ℕ, Bool, true, false, ◌&&◌, ◌||◌, not, List, [], ◌∷◌, any, all, nat_beq, is_empty, is_space,
  codes, codes_beq, if◌then◌else◌, String, refl, ◌≡◌,
}
use vuln_proof_claw.Common.Unicode.{Unicode, ascii}
use vuln_proof_claw.Common.Results.{ok, ◌>>◌, ◌>>=◌}
use vuln_proof_claw.Domain.Enums.{RiskLevel}
use vuln_proof_claw.Domain.Errors.{Raises, refuse_if}

-- `ACTION_RISK_LEVELS`
abbrev pub action_risk_levels : List (String × RiskLevel)
action_risk_levels =
    ("public_page_read", RiskLevel.l0)
    ∷ ("robots_read", RiskLevel.l0)
    ∷ ("passive_fingerprint", RiskLevel.l0)
    ∷ ("passive_discovery", RiskLevel.l0)
    ∷ ("active_safe_api_read", RiskLevel.l0)
    ∷ ("directory_enumeration", RiskLevel.l1)
    ∷ ("port_scan", RiskLevel.l1)
    ∷ ("active_api_probe", RiskLevel.l1)
    ∷ ("vulnerability_scan", RiskLevel.l2)
    ∷ ("restricted_shell", RiskLevel.l2)
    ∷ ("isolated_python", RiskLevel.l2)
    ∷ ("exploit_attempt", RiskLevel.l2)
    ∷ ("password_test", RiskLevel.l2)
    ∷ ("file_upload", RiskLevel.l2)
    ∷ ("post_exploitation", RiskLevel.l3)
    ∷ ("privilege_escalation", RiskLevel.l3)
    ∷ ("lateral_movement", RiskLevel.l3)
    ∷ ("data_modification", RiskLevel.l4)
    ∷ ("data_deletion", RiskLevel.l4)
    ∷ ("persistence", RiskLevel.l4)
    ∷ ("destructive_operation", RiskLevel.l4)
    ∷ []

-- `PERMANENT_DENY_ACTIONS`
abbrev pub permanent_deny_actions : List String
permanent_deny_actions =
    "cover_tracks" ∷ "disable_security_controls" ∷ "self_propagation" ∷ "unbounded_targeting" ∷ []

-- `name in names`, for a name that is held as code points.
abbrev pub is_named : List String → List ℕ → Bool
is_named names name = any (λ other. codes_beq (codes other) name) names

-- `d.get(name, default)`
abbrev pub get_risk : List (String × RiskLevel) → List ℕ → RiskLevel → RiskLevel
get_risk [] name default = default
get_risk ((other, level) ∷ d) name default =
    if codes_beq (codes other) name then level else get_risk d name default

drop_spaces : List ℕ → List ℕ
unfolding is_space
drop_spaces [] = []
drop_spaces (c ∷ cs) = if is_space c then drop_spaces cs else c ∷ cs

-- `str.strip`
unfoldable pub strip : List ℕ → List ℕ
unfolding drop_spaces
strip cs = reverse (drop_spaces (reverse (drop_spaces cs)))

-- `[\s-]` of `_ACTION_SEPARATOR`
unfoldable pub is_separator : ℕ → Bool
unfolding is_space
is_separator c = is_space c || nat_beq c b'-'

-- `_ACTION_SEPARATOR.sub("_", …)`: one underscore for each run of separators. The flag says that
-- the character before belongs to a run.
unfoldable pub squeeze : Bool → List ℕ → List ℕ
unfolding is_separator
squeeze in_run [] = []
squeeze in_run (c ∷ cs) =
    let rest = squeeze (is_separator c) cs in
    if is_separator c then if in_run then rest else b'_' ∷ rest else c ∷ rest

-- `ACTION_RISK_LEVELS.get(name, RiskLevel.L2)`
unfoldable pub risk_of_name : List ℕ → RiskLevel
risk_of_name name = get_risk action_risk_levels name RiskLevel.l2

module _ (unicode : Unicode) where
  -- `character.isalnum() or character == "_"`
  abbrev pub is_word : ℕ → Bool
  is_word c = unicode.is_alnum c || nat_beq c b'_'

  unfoldable pub normalize_action_type : String → Raises (List ℕ)
  unfolding strip squeeze
  normalize_action_type value = do
    let normalized = squeeze false (flat_map unicode.lower (strip (codes value)))
    refuse_if (is_empty normalized) "action_type must not be empty"
    refuse_if (not (all is_word normalized)) "action_type contains an invalid character"
    ok normalized

  unfoldable pub classify_risk : String → Raises RiskLevel
  classify_risk action_type = do name ← normalize_action_type action_type; ok (risk_of_name name)

  unfoldable pub is_permanently_denied : String → Raises Bool
  is_permanently_denied action_type = do
    name ← normalize_action_type action_type
    ok (is_named permanent_deny_actions name)
