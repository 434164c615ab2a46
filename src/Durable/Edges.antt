-- ===== src/Durable/Edges.antt =====
-- The projection of audit edges: `verifyAuditEdgesForRun` and `rebuildAuditEdgesForRun` of
-- ogra-desktop/src/core/durable-runtime-service.ts. Of a repair transaction, the columns that they
-- read; the random id of the n-th edge that a call adds is an argument.
pub mod Drafts
pub mod Append
pub mod Rebuild
use ogra.Prelude.{
  ℕ, zero, suc, ◌+◌, String, Bool, true, false, not, ◌&&◌, Option, some, List, [], ◌∷◌, ◌++◌, map,
  length, is_empty, str_eq, exists_row, select_all, delete_where, if◌then◌else◌,
}
use ogra.Durable.Effect.{RunEffect, EffectReceipt, AuditEdge, EffectTables, same_edge, append_edge}

-- The columns of `repair_transactions` that the projection reads.
pub record RepairRow : Type 0 where
  pub id : String
  pub run_id : String
  pub target_frame_id : String
  pub created_event_id : Option String

-- An edge without its id.
abbrev pub Draft : Type 0
Draft = String → AuditEdge

abbrev pub owns_effect : String → RunEffect → Draft
owns_effect run_id e edge_id = record {
  id = edge_id;
  run_id = run_id;
  from_kind = "frame";
  from_id = e.owner_frame_id;
  relation = "owns_effect";
  to_kind = "effect";
  to_id = e.id;
  source_event_id = e.created_event_id;
}

abbrev pub has_repair : String → RepairRow → Draft
has_repair run_id r edge_id = record {
  id = edge_id;
  run_id = run_id;
  from_kind = "frame";
  from_id = r.target_frame_id;
  relation = "has_repair";
  to_kind = "repair";
  to_id = r.id;
  source_event_id = r.created_event_id;
}

abbrev pub has_receipt : String → EffectReceipt → Draft
has_receipt run_id r edge_id = record {
  id = edge_id;
  run_id = run_id;
  from_kind = "effect";
  from_id = r.effect_id;
  relation = "has_receipt";
  to_kind = "receipt";
  to_id = r.id;
  source_event_id = r.event_id;
}

-- `effect_receipts er JOIN run_effects re ON re.id = er.effect_id WHERE re.run_id = ?`
abbrev pub receipt_of_run : String → EffectTables → EffectReceipt → Bool
receipt_of_run run_id t r =
    exists_row (λ (e : RunEffect). str_eq e.id r.effect_id && str_eq e.run_id run_id) t.effects

-- The edges that the three queries of both methods ask for, in their order.
unfoldable pub run_edges : String → List RepairRow → EffectTables → List Draft
run_edges run_id repairs t =
    map (owns_effect run_id) (select_all (λ (e : RunEffect). str_eq e.run_id run_id) t.effects)
    ++ map (has_repair run_id) (select_all (λ (r : RepairRow). str_eq r.run_id run_id) repairs)
    ++ map (has_receipt run_id) (select_all (receipt_of_run run_id t) t.receipts)

abbrev pub of_run : String → AuditEdge → Bool
of_run run_id a = str_eq a.run_id run_id

pub data DriftReason : Type 0 where
  missing_edges extra_edges in_step : DriftReason

pub record AuditEdgeDrift : Type 0 where
  pub missing : List AuditEdge
  pub extra : List AuditEdge
  pub reason : DriftReason

abbrev pub absent_from : List AuditEdge → AuditEdge → Bool
absent_from edges e = not (exists_row (same_edge e) edges)

abbrev pub drift_of : List AuditEdge → List AuditEdge → AuditEdgeDrift
drift_of missing extra = record {
  missing = missing;
  extra = extra;
  reason =
      if not (is_empty missing)
      then missing_edges
      else if not (is_empty extra)
      then extra_edges
      else in_step;
}

abbrev pub expected_edges : List Draft → List AuditEdge
expected_edges drafts = map (λ (d : Draft). d "expected") drafts

-- `verifyAuditEdgesForRun`
unfoldable pub verify_audit_edges_for_run : String → List RepairRow → EffectTables → AuditEdgeDrift
verify_audit_edges_for_run run_id repairs t =
    let expected = expected_edges (run_edges run_id repairs t) in
    let actual = select_all (of_run run_id) t.edges in
    drift_of (select_all (absent_from actual) expected) (select_all (absent_from expected) actual)

-- The calls of `appendEdge` one after the other; the first has the `n`-th id.
unfoldable pub append_edges : (ℕ → String) → ℕ → List Draft → EffectTables → EffectTables
append_edges ids n [] t = t
append_edges ids n (d ∷ drafts) t = append_edges ids (suc n) drafts (append_edge (d (ids n)) t)

-- `rebuildAuditEdgesForRun`, with the number that it returns
unfoldable pub rebuild_audit_edges_for_run :
    (ℕ → String) → String → List RepairRow → EffectTables → ℕ × EffectTables
rebuild_audit_edges_for_run ids run_id repairs t =
    let cleared = record t { edges = delete_where (of_run run_id) t.edges } in
    let drafts = run_edges run_id repairs cleared in
    (length drafts, append_edges ids 0 drafts cleared)
