-- ===== src/Durable/Effect.antt =====
-- The effect ledger: the types and `EFFECT_TRANSITIONS` of
-- ogra-desktop/src/core/durable-runtime-types.ts, and the tables of effects, receipts, approval
-- bindings and audit edges (ogra-desktop/src/core/database.ts), with the columns that
-- ogra-desktop/src/core/durable-runtime-service.ts writes.
pub mod Plan
pub mod Transition
pub mod Receipt
pub mod Ledger
pub mod Attempts
pub mod Keys
pub mod Writers
pub mod Closed
pub mod Awaiting
use ogra.Prelude.{
  ℕ, String, Bool, true, false, ◌&&◌, ◌||◌, Option, none, some, List, [], ◌∷◌, str_eq, select,
  insert_row, exists_row, if◌then◌else◌,
}
use ogra.Audit.Json.{Json}
use ogra.Audit.Chain.{EventMeta}
use ogra.Durable.Transaction.{OgraErrorCode, effect_not_found, Result, ok, err, Tx, require_some}
use ogra.Durable.Frame.{Frames}
use ogra.Durable.Lease.{Leases}

pub data EffectState : Type 0 where
  planned in_flight unknown received awaiting_callback_verification committed : EffectState
  quarantined compensating compensated failed cancelled_before_send : EffectState

-- `EFFECT_TRANSITIONS`
unfoldable pub effect_transitions : EffectState → List EffectState
effect_transitions planned = in_flight ∷ cancelled_before_send ∷ failed ∷ []
effect_transitions in_flight = received ∷ awaiting_callback_verification ∷ unknown ∷ failed ∷ []
effect_transitions received = awaiting_callback_verification ∷ committed ∷ quarantined ∷ failed ∷ []
effect_transitions awaiting_callback_verification = committed ∷ quarantined ∷ failed ∷ []
effect_transitions unknown = received ∷ committed ∷ quarantined ∷ failed ∷ in_flight ∷ []
effect_transitions committed = compensating ∷ []
effect_transitions compensating = compensated ∷ failed ∷ unknown ∷ []
effect_transitions quarantined = []
effect_transitions compensated = []
effect_transitions failed = []
effect_transitions cancelled_before_send = []

abbrev pub state_name : EffectState → String
state_name planned = "planned"
state_name in_flight = "in_flight"
state_name unknown = "unknown"
state_name received = "received"
state_name awaiting_callback_verification = "awaiting_callback_verification"
state_name committed = "committed"
state_name quarantined = "quarantined"
state_name compensating = "compensating"
state_name compensated = "compensated"
state_name failed = "failed"
state_name cancelled_before_send = "cancelled_before_send"

abbrev pub state_eq : EffectState → EffectState → Bool
state_eq a b = str_eq (state_name a) (state_name b)

abbrev pub includes_state : List EffectState → EffectState → Bool
includes_state [] s = false
includes_state (x ∷ xs) s = state_eq x s || includes_state xs s

-- A row of `run_effects`.
pub record RunEffect : Type 0 where
  pub id : String
  pub run_id : String
  pub owner_frame_id : String
  pub effect_type : String
  pub adapter_kind : String
  pub payload_fingerprint : String
  pub callback_capsule_ref : String
  pub callback_capsule_hash : String
  pub callback_capsule_format_version : String
  pub idempotency_key_ref : String
  pub idempotency_key_hash : String
  pub state : EffectState
  pub allowed_repair_actions : List String
  pub dependency_effect_ids : List String
  pub effect_revision : ℕ
  pub route_decision_id : Option String
  pub policy_evaluation_id : Option String
  pub capsule_fingerprint : Option String
  pub current_approval_id : Option String
  pub policy_version_hash : Option String
  pub scope_hash : Option String
  pub redaction_rule_version : Option String
  pub ingress_finding_id : Option String
  pub authoritative_receipt_id : Option String
  pub external_receipt_hash : Option String
  pub created_event_id : Option String
  pub terminal_event_id : Option String
  pub created_at : ℕ
  pub updated_at : ℕ

pub data ApplicationStatus : Type 0 where
  not_applied applied unknown : ApplicationStatus

-- A row of `effect_receipts`.
pub record EffectReceipt : Type 0 where
  pub id : String
  pub effect_id : String
  pub attempt_no : ℕ
  pub request_id : Option String
  pub request_hash : Option String
  pub response_hash : Option String
  pub result_capsule_ref : Option String
  pub result_capsule_hash : Option String
  pub result_capsule_format_version : Option String
  pub provider_status : Option String
  pub application_status : ApplicationStatus
  pub receipt_hash : String
  pub received_at : ℕ
  pub event_id : Option String

pub data BindingKind : Type 0 where
  initial recovery_retry : BindingKind

-- A row of `effect_approval_bindings`.
pub record EffectApprovalBinding : Type 0 where
  pub id : String
  pub effect_id : String
  pub callback_attempt_no : ℕ
  pub approval_id : String
  pub approval_revision : ℕ
  pub binding_kind : BindingKind
  pub created_event_id : String

-- A row of `audit_edges`.
pub record AuditEdge : Type 0 where
  pub id : String
  pub run_id : String
  pub from_kind : String
  pub from_id : String
  pub relation : String
  pub to_kind : String
  pub to_id : String
  pub source_event_id : Option String

pub record EffectTables : Type 0 where
  pub frames : Frames
  pub leases : Leases
  pub effects : List RunEffect
  pub receipts : List EffectReceipt
  pub bindings : List EffectApprovalBinding
  pub edges : List AuditEdge

abbrev pub with_id : String → RunEffect → Bool
with_id id e = str_eq e.id id

abbrev pub find_effect : String → List RunEffect → Option RunEffect
find_effect id effects = select (with_id id) effects

-- `readEffect`
unfoldable pub read_effect : String → EffectTables → Result RunEffect
read_effect id t = elim (find_effect id t.effects) [ some e ↦ ok e | none ↦ err effect_not_found ]

abbrev pub reread_effect : String → Tx EffectTables RunEffect
reread_effect id = λ t. require_some (find_effect id t.effects) effect_not_found t

-- `UNIQUE(from_kind, from_id, relation, to_kind, to_id)`
abbrev pub same_edge : AuditEdge → AuditEdge → Bool
same_edge e f =
    str_eq f.from_kind e.from_kind
    && str_eq f.from_id e.from_id
    && str_eq f.relation e.relation
    && str_eq f.to_kind e.to_kind
    && str_eq f.to_id e.to_id

-- A row that keeps an edge out of the table: that constraint, or the primary key `id`.
abbrev pub edge_taken : AuditEdge → AuditEdge → Bool
edge_taken e f = same_edge e f || str_eq f.id e.id

-- `appendEdge`: an edge whose key or id is there already is ignored.
unfoldable pub append_edge : AuditEdge → EffectTables → EffectTables
append_edge e t =
    if exists_row (edge_taken e) t.edges then t else record t { edges = insert_row e t.edges }

abbrev pub effect_meta : String → Option String → String → String → Json → EventMeta
effect_meta run_id frame_id effect_id event_type payload = record {
  run_id = run_id;
  workspace_id = none;
  event_type = event_type;
  event_payload = payload;
  policy_version_hash = none;
  redaction_rule_version = none;
  frame_id = frame_id;
  effect_id = some effect_id;
  repair_transaction_id = none;
  caused_by_event_id = none;
  idempotency_key_hash = none;
  external_receipt_hash = none;
  target_subtree_revision = none;
}
