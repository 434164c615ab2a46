-- ===== src/Durable/Lease/Fencing.antt =====
-- The lease version as a fencing token: it grows with every write, so a holder that has been
-- overtaken is refused from then on.
use ogra.Prelude.{
  ℕ, ◌<◌, String, ◌≡◌, ◌≢◌, refl, ap, subst, ◌∙◌, false, Option, none, some, eq_iff,
  select-insert_row, arith, Option-cases, ◌⊎◌, inl, inr,
}
use text.Mathlib.TextPositions.{eq_refl}
use ogra.Durable.Transaction.{ok, is_ok}
use ogra.Durable.Lease.{
  Lease, Leases, of_run, find_lease, new_lease, take_over, renewed, released, at_version,
  acquire_body, renew_body, release_body,
}
use ogra.Durable.Lease.Exclusion.{find-update, find_lease_sound}

-- The version of the run's row, and 0 without one.
abbrev version_of : Option Lease → ℕ
version_of none = 0
version_of (some l) = l.lease_version

abbrev pub version : String → Leases → ℕ
version run_id leases = version_of (find_lease run_id leases)

abbrev holder_of : Option Lease → Option String
holder_of none = none
holder_of (some l) = some l.holder_id

-- One successful operation on the run's lease.
pub data Step (run_id : String) (leases after : Leases) : Type 0 where
  acquire :
      (holder_id : String) (now ttl_ms : ℕ) (event_id : String) (l : Lease)
      → acquire_body run_id holder_id now ttl_ms event_id leases ≡ ok (l, after)
      → Step run_id leases after
  renew :
      (holder_id : String) (v now ttl_ms : ℕ) (event_id : String) (l : Lease)
      → renew_body run_id holder_id v now ttl_ms event_id leases ≡ ok (l, after)
      → Step run_id leases after
  release :
      (holder_id : String) (v now : ℕ) (event_id : String)
      → release_body run_id holder_id v now event_id leases ≡ ok (tt, after)
      → Step run_id leases after

pub data Reach (run_id : String) (start : Leases) : Leases → Type 0 where
  here : Reach run_id start start
  next : {t u : Leases} → Reach run_id start t → Step run_id t u → Reach run_id start u

-- A row that is unchanged, or a version that has grown.
abbrev Advances : String → Leases → Leases → Type 0
Advances run_id leases after =
    (find_lease run_id after ≡ find_lease run_id leases)
    ⊎ (version run_id leases < version run_id after)

acquire-Advances :
    (run_id holder_id : String) (now ttl_ms : ℕ) (event_id : String) (leases after : Leases)
    (l : Lease)
    → acquire_body run_id holder_id now ttl_ms event_id leases ≡ ok (l, after)
    → Advances run_id leases after
unfolding acquire_body
acquire-Advances run_id holder_id now ttl_ms event_id leases after l h =
    elim (Option-cases (find_lease run_id leases)) [
      | inl free ↦ ground (
        arith,
        select-insert_row (of_run run_id) (new_lease run_id holder_id now ttl_ms event_id) leases,
        eq_refl run_id,
      )
      | inr (old, taken) ↦ ground (
        arith,
        find-update run_id run_id (of_run run_id) (take_over holder_id now ttl_ms event_id) leases
            (λ x. refl),
        find_lease_sound run_id leases old taken,
        eq_iff old.run_id run_id,
      )
    ]

renew-Advances :
    (run_id holder_id : String) (v now ttl_ms : ℕ) (event_id : String) (leases after : Leases)
    (l : Lease)
    → renew_body run_id holder_id v now ttl_ms event_id leases ≡ ok (l, after)
    → Advances run_id leases after
unfolding renew_body
renew-Advances run_id holder_id v now ttl_ms event_id leases after l h =
    elim (Option-cases (find_lease run_id leases)) [
      | inl free ↦ ground arith
      | inr (old, taken) ↦ ground (
        arith,
        find-update run_id run_id (at_version run_id v) (renewed now ttl_ms event_id) leases
            (λ x. refl),
        find_lease_sound run_id leases old taken,
        eq_iff old.run_id run_id,
      )
    ]

release-Advances :
    (run_id holder_id : String) (v now : ℕ) (event_id : String) (leases after : Leases)
    → release_body run_id holder_id v now event_id leases ≡ ok (tt, after)
    → Advances run_id leases after
unfolding release_body
release-Advances run_id holder_id v now event_id leases after h =
    elim (Option-cases (find_lease run_id leases)) [
      | inl free ↦ ground arith
      | inr (old, taken) ↦ ground (
        arith,
        find-update run_id run_id (at_version run_id v) (released now event_id) leases (λ x. refl),
        find_lease_sound run_id leases old taken,
        eq_iff old.run_id run_id,
      )
    ]

Step-Advances :
    (run_id : String) (leases after : Leases)
    → Step run_id leases after
    → Advances run_id leases after
Step-Advances run_id leases after (acquire holder_id now ttl_ms event_id l h) =
    acquire-Advances run_id holder_id now ttl_ms event_id leases after l h
Step-Advances run_id leases after (renew holder_id v now ttl_ms event_id l h) =
    renew-Advances run_id holder_id v now ttl_ms event_id leases after l h
Step-Advances run_id leases after (release holder_id v now event_id h) =
    release-Advances run_id holder_id v now event_id leases after h

-- Through any sequence of successful operations on a run's lease, its row is unchanged or its
-- version has grown: no version is used again for another holder or another term.
pub Reach-Advances :
    (run_id : String) (leases after : Leases)
    → Reach run_id leases after
    → Advances run_id leases after
Reach-Advances run_id leases after here = inl refl
Reach-Advances run_id leases after (next {t} r step) = elim (Reach-Advances run_id leases t r) [
  | inl same ↦ elim (Step-Advances run_id t after step) [
    | inl same' ↦ inl (same' ∙ same)
    | inr more ↦ inr (omega (arith, ap version_of same))
  ]
  | inr more ↦ elim (Step-Advances run_id t after step) [
    | inl same' ↦ inr (omega (arith, ap version_of same'))
    | inr more' ↦ inr (omega arith)
  ]
]

-- Once the run's row has moved past the version a holder was given, its renewal is refused.
stale_renewal :
    (run_id holder_id : String) (v now ttl_ms : ℕ) (event_id : String) (leases : Leases)
    → v < version run_id leases
    → is_ok (renew_body run_id holder_id v now ttl_ms event_id leases) ≡ false
unfolding renew_body
stale_renewal run_id holder_id v now ttl_ms event_id leases h =
    elim (Option-cases (find_lease run_id leases)) [
      | inl free ↦ ground arith
      | inr (old, taken) ↦ ground arith
    ]

stale_release :
    (run_id holder_id : String) (v now : ℕ) (event_id : String) (leases : Leases)
    → v < version run_id leases
    → is_ok (release_body run_id holder_id v now event_id leases) ≡ false
unfolding release_body
stale_release run_id holder_id v now event_id leases h =
    elim (Option-cases (find_lease run_id leases)) [
      | inl free ↦ ground arith
      | inr (old, taken) ↦ ground arith
    ]

-- A holder whose lease another holder has taken over since is refused: if the row of `old` was the
-- run's row at some time, and after any sequence of successful operations the run's row belongs to
-- another holder, then neither a renewal nor a release with the version of `old` succeeds, whoever
-- sends it.
pub overtaken_holder_refused :
    (run_id : String) (leases after : Leases) (old current : Lease)
    → Reach run_id leases after
    → find_lease run_id leases ≡ some old
    → find_lease run_id after ≡ some current
    → current.holder_id ≢ old.holder_id
    → (sender : String) (now ttl_ms : ℕ) (event_id : String)
    → (is_ok (renew_body run_id sender old.lease_version now ttl_ms event_id after) ≡ false)
      × (is_ok (release_body run_id sender old.lease_version now event_id after) ≡ false)
overtaken_holder_refused run_id leases after old current reach was is other sender now ttl_ms
      event_id =
    elim (Reach-Advances run_id leases after reach) [
      | inl same ↦ absurd (ground arith)
      | inr more ↦
          let newer = subst (λ o. version_of o < version run_id after) was more in
          (
            stale_renewal run_id sender old.lease_version now ttl_ms event_id after newer,
            stale_release run_id sender old.lease_version now event_id after newer,
          )
    ]
