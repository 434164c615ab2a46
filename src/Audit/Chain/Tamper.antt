-- ===== src/Audit/Chain/Tamper.antt =====
-- What `verifyAuditChain` detects, and what it cannot.
use ogra.Prelude.{
  ℕ, zero, suc, String, ◌≡◌, refl, sym, ◌∙◌, ap, Option, none, List, [], ◌∷◌, ◌++◌, All, or_else,
  eq_iff, arith, map,
}
use ogra.Audit.Json.{
  Json, null, num, str, obj, Members, end, member, sort_keys, sort_members, insert_member, key_le,
}
use ogra.Audit.Event.{RunEvent, genesis_hash, version_2, Platform, envelope, envelope_v2_hash}
use ogra.Audit.Chain.{last_event, intact, version_of, check_event, walk, verify_rows}
use ogra.Audit.Chain.Order.{hash_or, hash_or-cons}

-- The columns that the envelope covers are the same.
pub record SameColumns (r s : RunEvent) : Type 0 where
  pub id : r.id ≡ s.id
  pub run_id : r.run_id ≡ s.run_id
  pub workspace_id : or_else r.workspace_id "" ≡ or_else s.workspace_id ""
  pub sequence : r.sequence ≡ s.sequence
  pub event_type : r.event_type ≡ s.event_type
  pub event_payload_json : r.event_payload_json ≡ s.event_payload_json
  pub payload_hash : or_else r.payload_hash "" ≡ or_else s.payload_hash ""
  pub policy_version_hash : or_else r.policy_version_hash "" ≡ or_else s.policy_version_hash ""
  pub redaction_rule_version :
      or_else r.redaction_rule_version "" ≡ or_else s.redaction_rule_version ""
  pub created_at : r.created_at ≡ s.created_at
  pub previous_hash : r.previous_hash ≡ s.previous_hash

-- Two lists of the same length, related row by row.
abbrev pub Pairs : (RunEvent → RunEvent → Type 0) → List RunEvent → List RunEvent → Type 0
Pairs R [] [] = Unit
Pairs R (r ∷ rs) (s ∷ ss) = R r s × Pairs R rs ss
Pairs R [] (s ∷ ss) = ⊥
Pairs R (r ∷ rs) [] = ⊥

-- The text, or the number, at a place of an object.
abbrev value_in : ℕ → Members → Json
value_in n end = null
value_in zero (member k v ms) = v
value_in (suc n) (member k v ms) = value_in n ms

abbrev text_of : Json → String
text_of (str s) = s
text_of _ = ""

abbrev number_of : Json → ℕ
number_of (num n) = n
number_of _ = 0

abbrev value_at : ℕ → Json → Json
value_at n (obj ms) = value_in n ms
value_at n _ = null

abbrev text_at : ℕ → Json → String
text_at n v = text_of (value_at n v)

abbrev number_at : ℕ → Json → ℕ
number_at n v = number_of (value_at n v)

sorted_envelope-columns :
    (r s : RunEvent) → sort_keys (envelope r) ≡ sort_keys (envelope s) → SameColumns r s
unfolding sort_keys sort_members insert_member key_le
sorted_envelope-columns r s h = record {
  id = ap (text_at 4) h;
  run_id = ap (text_at 9) h;
  workspace_id = ap (text_at 11) h;
  sequence = ap (number_at 10) h;
  event_type = ap (text_at 2) h;
  event_payload_json = ap (text_at 1) h;
  payload_hash = ap (text_at 5) h;
  policy_version_hash = ap (text_at 6) h;
  redaction_rule_version = ap (text_at 8) h;
  created_at = ap (text_at 0) h;
  previous_hash = ap (text_at 7) h;
}

module _ (P : Platform) where
  -- The hash tells the two envelopes apart: equal hashes mean equal envelopes.
  abbrev pub NoCollision : RunEvent → RunEvent → Type 0
  NoCollision r s =
      envelope_v2_hash P r ≡ envelope_v2_hash P s → sort_keys (envelope r) ≡ sort_keys (envelope s)

  -- What a row that `verifyAuditChain` goes past has.
  check_event_sound :
      (run_id previous : String) (r : RunEvent)
      → check_event P run_id previous r ≡ none
      → version_of r ≡ version_2
      → (r.previous_hash ≡ previous) × (envelope_v2_hash P r ≡ r.event_hash)
  unfolding check_event
  check_event_sound run_id previous r h v = ground (
    arith,
    eq_iff r.run_id run_id,
    eq_iff (version_of r) version_2,
    eq_iff r.previous_hash previous,
    eq_iff (envelope_v2_hash P r) r.event_hash,
  )

  abbrev AllV2 : List RunEvent → Type 0
  AllV2 rs = All (λ r. version_of r ≡ version_2) rs

  walk-uncons :
      (run_id previous : String) (r : RunEvent) (rs : List RunEvent)
      → walk P run_id previous (r ∷ rs) ≡ intact
      → (check_event P run_id previous r ≡ none) × (walk P run_id r.event_hash rs ≡ intact)
  unfolding walk
  walk-uncons run_id previous r rs h = ground arith

  chain_determined :
      (run_id p q : String) (rs ss : List RunEvent)
      → walk P run_id p rs ≡ intact
      → walk P run_id q ss ≡ intact
      → AllV2 rs
      → AllV2 ss
      → Pairs NoCollision rs ss
      → hash_or p (last_event rs) ≡ hash_or q (last_event ss)
      → (p ≡ q) × Pairs SameColumns rs ss
  unfolding last_event
  chain_determined run_id p q [] [] hr hs vr vs nc e = (e, tt)
  chain_determined run_id p q [] (s ∷ ss) hr hs vr vs nc e = absurd nc
  chain_determined run_id p q (r ∷ rs) [] hr hs vr vs nc e = absurd nc
  chain_determined run_id p q (r ∷ rs) (s ∷ ss) hr hs vr vs nc e =
      let (cr, wr) = walk-uncons run_id p r rs hr in
      let (cs, ws) = walk-uncons run_id q s ss hs in
      let (same_hash, later) =
        chain_determined run_id r.event_hash s.event_hash rs ss wr ws vr.1 vs.1 nc.1
          (sym (hash_or-cons p r (last_event rs)) ∙ e ∙ hash_or-cons q s (last_event ss)) in
      let (linked_r, sealed_r) = check_event_sound run_id p r cr vr.0 in
      let (linked_s, sealed_s) = check_event_sound run_id q s cs vs.0 in
      let columns = sorted_envelope-columns r s (nc.0 (sealed_r ∙ same_hash ∙ sym sealed_s)) in
      (sym linked_r ∙ columns.previous_hash ∙ linked_s, (columns, later))

  -- Two chains of one run that both pass the walk of `verifyAuditChain`, with v2 rows, as many rows
  -- and the same last hash, agree in every column that the envelope covers, unless two of their
  -- envelopes collide.
  pub walk_tamper_evident :
      (run_id : String) (rs ss : List RunEvent)
      → verify_rows P run_id rs ≡ intact
      → verify_rows P run_id ss ≡ intact
      → AllV2 rs
      → AllV2 ss
      → Pairs NoCollision rs ss
      → hash_or genesis_hash (last_event rs) ≡ hash_or genesis_hash (last_event ss)
      → Pairs SameColumns rs ss
  unfolding verify_rows
  walk_tamper_evident run_id [] ss hr hs vr vs nc e = absurd (cc)
  walk_tamper_evident run_id (r ∷ rs) [] hr hs vr vs nc e = absurd (cc)
  walk_tamper_evident run_id (r ∷ rs) (s ∷ ss) hr hs vr vs nc e =
      (chain_determined run_id genesis_hash genesis_hash (r ∷ rs) (s ∷ ss) hr hs vr vs nc e).1

  walk_of_append :
      (run_id previous : String) (rs : List RunEvent) (r : RunEvent)
      → walk P run_id previous (rs ++ r ∷ []) ≡ intact
      → walk P run_id previous rs ≡ intact
  unfolding walk
  walk_of_append run_id previous [] r h = refl
  walk_of_append run_id previous (x ∷ xs) r h =
      ground (arith, walk_of_append run_id x.event_hash xs r)

  -- Taking the last event out of an intact chain leaves a chain that is found intact: the cut end
  -- is not detected.
  pub truncation_undetected :
      (run_id : String) (first : RunEvent) (rs : List RunEvent) (r : RunEvent)
      → verify_rows P run_id (first ∷ rs ++ r ∷ []) ≡ intact
      → verify_rows P run_id (first ∷ rs) ≡ intact
  unfolding verify_rows
  truncation_undetected run_id first rs r h = walk_of_append run_id genesis_hash (first ∷ rs) r h

  -- A row with other lineage columns, which the envelope does not cover.
  abbrev pub relabel : Option String → Option String → Option String → RunEvent → RunEvent
  relabel effect frame receipt r = record r {
    effect_id = effect;
    frame_id = frame;
    external_receipt_hash = receipt;
  }

  walk-relabel :
      (effect frame receipt : Option String) (run_id previous : String) (rs : List RunEvent)
      → walk P run_id previous (map (relabel effect frame receipt) rs) ≡ walk P run_id previous rs
  unfolding walk check_event envelope_v2_hash
  walk-relabel effect frame receipt run_id previous [] = refl
  walk-relabel effect frame receipt run_id previous (r ∷ rs) =
      ground (arith, walk-relabel effect frame receipt run_id r.event_hash rs)

  -- Rewriting the effect, frame and receipt columns of every row changes no verdict.
  pub lineage_undetected :
      (effect frame receipt : Option String) (run_id : String) (rs : List RunEvent)
      → verify_rows P run_id (map (relabel effect frame receipt) rs) ≡ verify_rows P run_id rs
  unfolding verify_rows
  lineage_undetected effect frame receipt run_id [] = refl
  lineage_undetected effect frame receipt run_id (r ∷ rs) =
      walk-relabel effect frame receipt run_id genesis_hash (r ∷ rs)
