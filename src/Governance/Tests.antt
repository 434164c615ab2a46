-- ===== src/Governance/Tests.antt =====
-- Concrete runs of the governance services.
use ogra.Prelude.{◌≡◌, ◌≢◌, refl, true, false, none, some, List, [], ◌∷◌, arith}
use ogra.Governance.Classification.{public, internal, confidential, restricted}
use ogra.Governance.HighWater.{Source}
use ogra.Governance.Policy.Types.{
  Compute, allow, RouteName, AgentPermissions, PolicyInput, Approval,
}
use ogra.Governance.Policy.Registry.{default_policies}
use ogra.Governance.Policy.Evaluate.{evaluate, classify, public_tier, finish}
use ogra.Governance.Policy.Gates.{
  effective_classification, apply_high_water, check_injection, check_manifest, check_permissions,
}
use ogra.Governance.Policy.Network.{NetworkAsked}
use ogra.Governance.Policy.Egress.{Justified, evaluate-Justified}
use ogra.Governance.Policy.Outcome.{Agrees, evaluate-Agrees}
use ogra.Governance.Policy.Overrides.{IsUnapprovedNetworkRun, network_approval_overridden}
use ogra.Governance.Route.{RouteInput, Fresh, route_of, cloud_steps_of, decide_route}
use ogra.Governance.Route.Decisions.{MayRunInCloud, cloud_steps-MayRunInCloud}

abbrev note_source : Source
note_source = record { source_type = "note"; source_id = "n1"; classification = internal }

abbrev card_source : Source
card_source = record { source_type = "card"; source_id = "c1"; classification = confidential }

abbrev two_sources : List Source
two_sources = note_source ∷ card_source ∷ []

abbrev public_run : PolicyInput
public_run = record {
  data_classification = some public;
  workspace_default_classification = none;
  knowledge_base_classification = none;
  provider_id = some "openai";
  provider_is_local = false;
  provider_data_retention_policy = none;
  provider_training_opt_out = none;
  requested_compute = some Compute.cloud;
  requires_cloud = true;
  has_user_approval = false;
  agent_manifest = none;
  agent_permissions = none;
  requested_tools = [];
  has_prompt_injection_warning = false;
}

abbrev restricted_run : PolicyInput
restricted_run = record public_run { data_classification = some restricted }

abbrev network_agent : AgentPermissions
network_agent = record {
  can_use_cloud = true;
  can_write_to_disk = false;
  can_access_network = true;
  allowed_tools = none;
}

abbrev network_run : PolicyInput
network_run = record public_run { agent_permissions = some network_agent }

abbrev fresh_ids : Fresh
fresh_ids = record {
  run_id = "run_1";
  decision_id = "rd_1";
  policy_evaluation_id = "pe_1";
  policy_version_hash = "v";
  created_at = 5;
}

abbrev public_route : RouteInput
public_route = record { policy_input = public_run; model_id = none; sources = none }

abbrev sourced_route : RouteInput
sourced_route = record {
  policy_input = restricted_run;
  model_id = none;
  sources = some two_sources;
}

restricted_class : effective_classification restricted_run ≡ some restricted
unfolding effective_classification
restricted_class = refl

public_steps : (decide_route default_policies public_route fresh_ids).cloud_steps ≢ []
unfolding decide_route evaluate apply_high_water check_injection check_manifest check_permissions
    classify effective_classification public_tier default_policies finish cloud_steps_of route_of
public_steps h = absurd (ground arith)

evaluate-Justified_example :
    Justified public_run (evaluate default_policies public_run).route
    × NetworkAsked public_run public_run.agent_permissions (evaluate default_policies public_run)
evaluate-Justified_example = evaluate-Justified public_run

evaluate-Agrees_example :
    Agrees
      (evaluate default_policies network_run).decision
      (evaluate default_policies network_run).route
      (evaluate default_policies network_run).required_approvals
evaluate-Agrees_example = evaluate-Agrees network_run

unapproved_network : IsUnapprovedNetworkRun network_run network_agent
unapproved_network = record {
  base = refl;
  no_knowledge_base = refl;
  wants = refl;
  not_local = refl;
  provider = refl;
  retention = refl;
  training = refl;
  agent = refl;
  may_cloud = refl;
  network = refl;
  no_tools = refl;
  clean = refl;
  unapproved = refl;
}

network_approval_overridden_example :
    ((evaluate default_policies network_run).decision ≡ allow)
    × ((evaluate default_policies network_run).route ≡ RouteName.cloud)
    × ((evaluate default_policies network_run).required_approvals
        ≡ Approval.allow_agent_network ∷ [])
network_approval_overridden_example =
    network_approval_overridden network_run network_agent unapproved_network

cloud_steps-MayRunInCloud_example : MayRunInCloud public_run
cloud_steps-MayRunInCloud_example = cloud_steps-MayRunInCloud public_route fresh_ids public_steps
