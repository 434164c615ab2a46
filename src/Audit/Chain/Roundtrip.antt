-- ===== src/Audit/Chain/Roundtrip.antt =====
-- A log that was written by `transactionalAppend` alone passes `verifyAuditChain`.
use ogra.Prelude.{
  ◌≤◌, String, ◌≡◌, ◌≢◌, refl, sym, ◌∙◌, ap, subst, Option, none, some, List, [], ◌∷◌, ◌++◌, All,
  str_eq, eq_iff, arith, Bool-cases, if◌then◌else◌, inl, inr,
}
use text.Mathlib.TextPositions.{eq_refl}
use ogra.Audit.Json.{Json, sort_keys}
use ogra.Audit.Canonical.{sort_keys_idem}
use ogra.Audit.Event.{
  RunEvent, genesis_hash, version_2, Platform, canonical_json, envelope_v2_hash, payload_hash,
}
use ogra.Audit.Chain.{
  EventMeta, Surroundings, chain_key, events_of, last_event, hash_or_genesis, max_sequence, intact,
  version_of, draft_event, seal_event, append_event, check_event, walk, verify_rows,
  verify_audit_chain,
}
use ogra.Audit.Chain.Order.{events_of-append, events_of-append_other, hash_or, hash_or-cons}

module _ (P : Platform) where
  walk-append :
      (run_id previous : String) (l : List RunEvent) (r : RunEvent)
      → walk P run_id previous l ≡ intact
      → check_event P run_id (hash_or previous (last_event l)) r ≡ none
      → walk P run_id previous (l ++ r ∷ []) ≡ intact
  unfolding walk last_event
  walk-append run_id previous [] r h c = ground arith
  walk-append run_id previous (x ∷ xs) r h c =
      ground (arith, walk-append run_id x.event_hash xs r, hash_or-cons previous x (last_event xs))

  -- What the log rests on for one payload: parsing undoes printing.
  abbrev pub Parses : Json → Type 0
  Parses payload = P.parse (canonical_json P payload) ≡ some (sort_keys payload)

  canonical_twice : (v : Json) → canonical_json P (sort_keys v) ≡ canonical_json P v
  unfolding canonical_json
  canonical_twice v = ap P.stringify (sort_keys_idem v)

  -- A row whose columns are those that a seal of `payload` writes.
  record IsSealed (run_id previous : String) (payload : Json) (r : RunEvent) : Type 0 where
    in_run : r.run_id ≡ run_id
    linked : r.previous_hash ≡ previous
    version : version_of r ≡ version_2
    text : r.event_payload_json ≡ canonical_json P payload
    hashed : r.payload_hash ≡ some (payload_hash P payload)
    sealed : r.event_hash ≡ envelope_v2_hash P r

  payload_hash_twice : (v : Json) → payload_hash P (sort_keys v) ≡ payload_hash P v
  unfolding payload_hash
  payload_hash_twice v = ap P.sha256 (canonical_twice v)

  check_of_IsSealed :
      (run_id previous : String) (payload : Json) (r : RunEvent)
      → Parses payload
      → IsSealed run_id previous payload r
      → check_event P run_id previous r ≡ none
  unfolding check_event
  check_of_IsSealed run_id previous payload r h q = ground (
    arith,
    ap P.parse q.text,
    canonical_twice payload,
    payload_hash_twice payload,
    eq_iff r.run_id run_id,
    eq_iff (version_of r) version_2,
    eq_iff r.previous_hash previous,
    eq_iff (canonical_json P (sort_keys payload)) r.event_payload_json,
    eq_iff (payload_hash P (sort_keys payload)) (payload_hash P payload),
    eq_iff (envelope_v2_hash P r) r.event_hash,
  )

  draft-IsSealed :
      (s : Surroundings) (m : EventMeta) (log : List RunEvent)
      → IsSealed
          (chain_key m)
          (hash_or_genesis (last_event (events_of (chain_key m) log)))
          m.event_payload
          (seal_event P (draft_event P s m log))
  unfolding seal_event draft_event envelope_v2_hash payload_hash
  draft-IsSealed s m log = record {
    in_run = refl;
    linked = refl;
    version = refl;
    text = refl;
    hashed = refl;
    sealed = refl;
  }

  -- The chain of a run, as far as it is written, is whole.
  abbrev pub IsWhole : String → List RunEvent → Type 0
  IsWhole run_id log = walk P run_id genesis_hash (events_of run_id log) ≡ intact

  hash_or_genesis_lem : (o : Option RunEvent) → hash_or genesis_hash o ≡ hash_or_genesis o
  hash_or_genesis_lem none = refl
  hash_or_genesis_lem (some r) = refl

  seal_draft-sequence :
      (s : Surroundings) (m : EventMeta) (log : List RunEvent)
      → max_sequence (chain_key m) log ≤ (seal_event P (draft_event P s m log)).sequence
  unfolding seal_event draft_event
  seal_draft-sequence s m log = omega arith

  seal_draft-run_id :
      (s : Surroundings) (m : EventMeta) (log : List RunEvent)
      → (seal_event P (draft_event P s m log)).run_id ≡ chain_key m
  unfolding seal_event draft_event
  seal_draft-run_id s m log = refl

  pub events_of-append_event :
      (run_id : String) (s : Surroundings) (m : EventMeta) (log : List RunEvent)
      → events_of run_id (append_event P s m log) ≡ (
          if str_eq (chain_key m) run_id
          then events_of run_id log ++ seal_event P (draft_event P s m log) ∷ []
          else events_of run_id log)
  unfolding append_event
  events_of-append_event run_id s m log = elim (Bool-cases (str_eq (chain_key m) run_id)) [
    | inl own ↦
        let e : chain_key m ≡ run_id = (eq_iff _ _).0 own in
        rw own (
          events_of-append run_id log (seal_event P (draft_event P s m log)) (
            subst (λ k. max_sequence k log ≤ (seal_event P (draft_event P s m log)).sequence) e
              (seal_draft-sequence s m log))
          ∙ ap
              (λ b.
                if b
                then events_of run_id log ++ seal_event P (draft_event P s m log) ∷ []
                else events_of run_id log)
              (ap (λ k. str_eq k run_id) (seal_draft-run_id s m log) ∙ own))
    | inr other ↦ rw other (
        events_of-append_other run_id log (seal_event P (draft_event P s m log))
          (ap (λ k. str_eq k run_id) (seal_draft-run_id s m log) ∙ other))
  ]

  append-own :
      (s : Surroundings) (m : EventMeta) (log : List RunEvent)
      → Parses m.event_payload
      → IsWhole (chain_key m) log
      → IsWhole (chain_key m) (append_event P s m log)
  append-own s m log h whole =
      rw (events_of-append_event (chain_key m) s m log, eq_refl (chain_key m))
        (walk-append (chain_key m) genesis_hash (events_of (chain_key m) log)
          (seal_event P (draft_event P s m log)) whole
          (rw (hash_or_genesis_lem (last_event (events_of (chain_key m) log))) (
            check_of_IsSealed (chain_key m)
              (hash_or_genesis (last_event (events_of (chain_key m) log))) m.event_payload
              (seal_event P (draft_event P s m log)) h (draft-IsSealed s m log))))

  -- One append keeps the chain of every run whole.
  pub append_event-IsWhole :
      (run_id : String) (s : Surroundings) (m : EventMeta) (log : List RunEvent)
      → Parses m.event_payload
      → IsWhole run_id log
      → IsWhole run_id (append_event P s m log)
  append_event-IsWhole run_id s m log h whole = elim (Bool-cases (str_eq (chain_key m) run_id)) [
    | inl own ↦
        let e : chain_key m ≡ run_id = (eq_iff _ _).0 own in
        subst (λ k. IsWhole k (append_event P s m log)) e
          (append-own s m log h (subst (λ k. IsWhole k log) (sym e) whole))
    | inr other ↦ rw (events_of-append_event run_id s m log, other) whole
  ]

  -- A log after a sequence of appends to an empty one.
  unfoldable pub append_all : List (Surroundings × EventMeta) → List RunEvent → List RunEvent
  append_all [] log = log
  append_all ((s, m) ∷ ms) log = append_all ms (append_event P s m log)

  append_all-IsWhole :
      (run_id : String) (ms : List (Surroundings × EventMeta)) (log : List RunEvent)
      → All (λ e. Parses e.1.event_payload) ms
      → IsWhole run_id log
      → IsWhole run_id (append_all ms log)
  unfolding append_all
  append_all-IsWhole run_id [] log h whole = whole
  append_all-IsWhole run_id (e ∷ ms) log h whole =
      append_all-IsWhole run_id ms (append_event P e.0 e.1 log) h.1
        (append_event-IsWhole run_id e.0 e.1 log h.0 whole)

  verify_of_IsWhole :
      (run_id : String) (rows : List RunEvent)
      → walk P run_id genesis_hash rows ≡ intact
      → rows ≢ []
      → verify_rows P run_id rows ≡ intact
  unfolding verify_rows
  verify_of_IsWhole run_id [] whole some_ = absurd (some_ refl)
  verify_of_IsWhole run_id (r ∷ rs) whole some_ = whole

  -- Whatever is appended to an empty log, in whatever order and to whatever runs, the chain of each
  -- run that has an event is found intact, as long as parsing reads every stored payload back.
  pub append_all-verifies :
      (run_id : String) (ms : List (Surroundings × EventMeta))
      → All (λ e. Parses e.1.event_payload) ms
      → events_of run_id (append_all ms []) ≢ []
      → verify_audit_chain P run_id (append_all ms []) ≡ intact
  unfolding verify_audit_chain
  append_all-verifies run_id ms h some_ =
      verify_of_IsWhole run_id _ (append_all-IsWhole run_id ms [] h (unfold events_of walk in refl))
        some_
