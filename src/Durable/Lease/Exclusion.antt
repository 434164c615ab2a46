-- ===== src/Durable/Lease/Exclusion.antt =====
-- One holder at a time.
use ogra.Prelude.{
  ℕ, String, ◌≡◌, ◌≢◌, refl, sym, ap, ◌∙◌, ◌↔◌, ◌⊎◌, Bool, false, Option, none, some, List, [], ◌∷◌,
  str_eq, eq_iff, select, update_where, select-insert_row, select-update_where, select_sound, arith,
  Bool-cases, Option-cases, inl, inr, if◌then◌else◌,
}
use text.Mathlib.TextPositions.{eq_refl}
use ogra.Audit.Json.{str, object}
use ogra.Audit.Chain.{EventMeta, Surroundings}
use ogra.Audit.Log.{EventLog}
use ogra.Durable.Transaction.{
  Result, ok, err, is_ok, conclude, transactional_append, before_transaction,
}
use ogra.Durable.Lease.{
  Lease, Leases, AgentRun, run_is, of_run, find_lease, lease_expired, expiry, take_over, new_lease,
  lease_meta, workspace_id_for_run, acquire_body, acquire_lease,
}

-- The run's row after an update that leaves the key alone.
pub find-update :
    (run_id other : String) (p : Lease → Bool) (f : Lease → Lease) (leases : Leases)
    → ((l : Lease) → (f l).run_id ≡ l.run_id)
    → find_lease other (update_where p f leases)
      ≡ elim (find_lease other leases) [ none ↦ none | some l ↦ some (if p l then f l else l) ]
find-update run_id other p f leases h =
    select-update_where (of_run other) p f leases (λ l. ap (λ r. str_eq r other) (h l))

pub find_lease_sound :
    (run_id : String) (leases : Leases) (l : Lease)
    → find_lease run_id leases ≡ some l
    → l.run_id ≡ run_id
find_lease_sound run_id leases l h = (eq_iff _ _).0 (select_sound (of_run run_id) leases l h)

-- The run's row after an acquire or a takeover by `holder_id`.
abbrev pub IsHeldBy : String → ℕ → Lease → Type 0
IsHeldBy holder_id now l = (l.holder_id ≡ holder_id) × (lease_expired now l ≡ false)

acquire_new :
    (run_id holder_id : String) (now ttl_ms : ℕ) (event_id : String) (leases after : Leases)
    (l : Lease)
    → find_lease run_id leases ≡ none
    → acquire_body run_id holder_id now ttl_ms event_id leases ≡ ok (l, after)
    → (find_lease run_id after ≡ some l) × IsHeldBy holder_id now l
unfolding acquire_body
acquire_new run_id holder_id now ttl_ms event_id leases after l free h = ground (
  arith,
  select-insert_row (of_run run_id) (new_lease run_id holder_id now ttl_ms event_id) leases,
  eq_refl run_id,
)

acquire_taken :
    (run_id holder_id : String) (now ttl_ms : ℕ) (event_id : String) (leases after : Leases)
    (l old : Lease)
    → find_lease run_id leases ≡ some old
    → acquire_body run_id holder_id now ttl_ms event_id leases ≡ ok (l, after)
    → (find_lease run_id after ≡ some l) × IsHeldBy holder_id now l
unfolding acquire_body
acquire_taken run_id holder_id now ttl_ms event_id leases after l old taken h = ground (
  arith,
  find-update run_id run_id (of_run run_id) (take_over holder_id now ttl_ms event_id) leases
      (λ x. refl),
  find_lease_sound run_id leases old taken,
  eq_iff old.run_id run_id,
  eq_iff old.holder_id holder_id,
)

-- A successful `acquireLease` leaves the run's row with the caller as its holder, live at the time
-- of the call, and returns that row.
pub acquire-IsHeldBy :
    (run_id holder_id : String) (now ttl_ms : ℕ) (event_id : String) (leases after : Leases)
    (l : Lease)
    → acquire_body run_id holder_id now ttl_ms event_id leases ≡ ok (l, after)
    → (find_lease run_id after ≡ some l) × IsHeldBy holder_id now l
acquire-IsHeldBy run_id holder_id now ttl_ms event_id leases after l h =
    elim (Option-cases (find_lease run_id leases)) [
      | inl free ↦ acquire_new run_id holder_id now ttl_ms event_id leases after l free h
      | inr (old, taken) ↦
          acquire_taken run_id holder_id now ttl_ms event_id leases after l old taken h
    ]

-- A live lease of another holder.
abbrev pub HeldByOther : String → String → ℕ → Leases → Type 0
HeldByOther run_id holder_id now leases =
    (l : Lease) × (find_lease run_id leases ≡ some l)
    × (lease_expired now l ≡ false)
    × (l.holder_id ≢ holder_id)

-- The transaction of `acquireLease` fails exactly if another holder's lease is live.
body_refused_iff :
    (run_id holder_id : String) (now ttl_ms : ℕ) (event_id : String) (leases : Leases)
    → (is_ok (acquire_body run_id holder_id now ttl_ms event_id leases) ≡ false)
      ↔ HeldByOther run_id holder_id now leases
unfolding acquire_body
body_refused_iff run_id holder_id now ttl_ms event_id leases =
    let rewritten : (old : Lease)
        → find_lease run_id leases ≡ some old
        → find_lease run_id
            (update_where (of_run run_id) (take_over holder_id now ttl_ms event_id) leases)
          ≡ some (take_over holder_id now ttl_ms event_id old) =
      λ old taken. ground (
        arith,
        find-update run_id run_id (of_run run_id) (take_over holder_id now ttl_ms event_id) leases
            (λ x. refl),
        find_lease_sound run_id leases old taken,
        eq_iff old.run_id run_id,
      ) in
    elim (Option-cases (find_lease run_id leases)) [
      | inl free ↦ (
        λ h. absurd (
            ground (
              arith,
              select-insert_row (of_run run_id) (new_lease run_id holder_id now ttl_ms event_id)
                  leases,
              eq_refl run_id,
            )),
        λ (l, found, live, other). ground arith,
      )
      | inr (old, taken) ↦ (
        λ h. (
          old,
          taken,
          ground (arith, rewritten old taken),
          ground (arith, rewritten old taken, eq_iff old.holder_id holder_id),
        ),
        λ (l, found, live, other). ground (arith, eq_iff old.holder_id holder_id),
      )
    ]

module _ (L : EventLog) where
  open L use {Log, append, next_id}

  is_ok-conclude :
      {T A : Type 0} (before : T × Log) (log : Log) (r : Result (A × T))
      → is_ok (conclude L before log r).0 ≡ is_ok r
  unfolding conclude
  is_ok-conclude before log (ok a) = refl
  is_ok-conclude before log (err e) = refl

  abbrev acquired_meta : (ℕ → String) → String → Option String → ℕ → String → ℕ → EventMeta
  acquired_meta iso run_id workspace now holder_id ttl_ms =
      lease_meta run_id workspace "recovery_lease_acquired"
        (object (("holderId", str holder_id) ∷ ("expiresAt", str (iso (expiry now ttl_ms))) ∷ []))

  acquire_named :
      (s : Surroundings) (iso : ℕ → String) (runs : List AgentRun) (now : ℕ)
      (run_id holder_id : String) (ttl_ms : ℕ) (leases : Leases) (log : Log) (r : AgentRun)
      → str_eq holder_id "" ≡ false
      → select (run_is run_id) runs ≡ some r
      → acquire_lease L s iso runs now run_id holder_id ttl_ms (leases, log)
        ≡ transactional_append L s
            (acquired_meta iso run_id r.workspace_id now holder_id ttl_ms)
            (acquire_body run_id holder_id now ttl_ms)
            (leases, log)
  unfolding acquire_lease before_transaction workspace_id_for_run
  acquire_named s iso runs now run_id holder_id ttl_ms leases log r named found =
      ground (arith, named, found)

  acquire_is_ok :
      (s : Surroundings) (iso : ℕ → String) (runs : List AgentRun) (now : ℕ)
      (run_id holder_id : String) (ttl_ms : ℕ) (leases : Leases) (log : Log) (r : AgentRun)
      → str_eq holder_id "" ≡ false
      → select (run_is run_id) runs ≡ some r
      → is_ok (acquire_lease L s iso runs now run_id holder_id ttl_ms (leases, log)).0
        ≡ is_ok (
            acquire_body run_id holder_id now ttl_ms
              (next_id s (acquired_meta iso run_id r.workspace_id now holder_id ttl_ms) log)
              leases)
  unfolding transactional_append
  acquire_is_ok s iso runs now run_id holder_id ttl_ms leases log r named found =
      let m = acquired_meta iso run_id r.workspace_id now holder_id ttl_ms in
      ap (λ x. is_ok x.0)
        (acquire_named s iso runs now run_id holder_id ttl_ms leases log r named found)
      ∙ is_ok-conclude (leases, log) (append s m log)
          (acquire_body run_id holder_id now ttl_ms (next_id s m log) leases)

  -- Why an acquire may be refused: no holder is named, the run does not exist, or another holder's
  -- lease is live.
  abbrev pub Refusal : List AgentRun → ℕ → String → String → Leases → Type 0
  Refusal runs now run_id holder_id leases =
      (holder_id ≡ "")
      ⊎ ((select (run_is run_id) runs ≡ none) ⊎ HeldByOther run_id holder_id now leases)

  -- `acquireLease` fails exactly if no holder is named, the run does not exist, or the run has a
  -- live lease of another holder.
  pub acquire_refused_iff :
      (s : Surroundings) (iso : ℕ → String) (runs : List AgentRun) (now : ℕ)
      (run_id holder_id : String) (ttl_ms : ℕ) (leases : Leases) (log : Log)
      → (is_ok (acquire_lease L s iso runs now run_id holder_id ttl_ms (leases, log)).0 ≡ false)
        ↔ Refusal runs now run_id holder_id leases
  unfolding acquire_lease before_transaction workspace_id_for_run
  acquire_refused_iff s iso runs now run_id holder_id ttl_ms leases log =
      elim (Bool-cases (str_eq holder_id "")) [
        | inl nobody ↦ (λ h. inl ((eq_iff holder_id "").0 nobody), λ why. ground (arith, nobody))
        | inr named ↦ elim (Option-cases (select (run_is run_id) runs)) [
          | inl gone ↦ (λ h. inr (inl gone), λ why. ground (arith, named, gone))
          | inr (r, found) ↦
              let same =
                acquire_is_ok s iso runs now run_id holder_id ttl_ms leases log r named found in
              let iff =
                body_refused_iff run_id holder_id now ttl_ms
                  (next_id s (acquired_meta iso run_id r.workspace_id now holder_id ttl_ms) log)
                  leases in
              (
                λ h. inr (inr (iff.0 (sym same ∙ h))),
                λ why. elim why [
                  | inl nobody ↦ absurd (ground (arith, named, (eq_iff holder_id "").1 nobody))
                  | inr (inl gone) ↦ absurd (ground (arith, gone, found))
                  | inr (inr other) ↦ same ∙ iff.1 other
                ],
              )
        ]
      ]

-- `acquireLease` leaves the lease of every other run as it was.
pub acquire-other :
    (run_id holder_id other : String) (now ttl_ms : ℕ) (event_id : String) (leases after : Leases)
    (l : Lease)
    → run_id ≢ other
    → acquire_body run_id holder_id now ttl_ms event_id leases ≡ ok (l, after)
    → find_lease other after ≡ find_lease other leases
unfolding acquire_body
acquire-other run_id holder_id other now ttl_ms event_id leases after l ne h =
    elim (Option-cases (find_lease run_id leases)) [
      | inl free ↦ elim (Option-cases (find_lease other leases)) [
        | inl o ↦ ground (
          arith,
          select-insert_row (of_run other) (new_lease run_id holder_id now ttl_ms event_id) leases,
          eq_iff run_id other,
        )
        | inr (x, o) ↦ ground (
          arith,
          select-insert_row (of_run other) (new_lease run_id holder_id now ttl_ms event_id) leases,
          eq_iff run_id other,
        )
      ]
      | inr (old, taken) ↦ elim (Option-cases (find_lease other leases)) [
        | inl o ↦ ground (
          arith,
          find-update run_id other (of_run run_id) (take_over holder_id now ttl_ms event_id) leases
              (λ x. refl),
        )
        | inr (x, o) ↦ ground (
          arith,
          find-update run_id other (of_run run_id) (take_over holder_id now ttl_ms event_id) leases
              (λ x. refl),
          find_lease_sound other leases x o,
          eq_iff x.run_id run_id,
        )
      ]
    ]
