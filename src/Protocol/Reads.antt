-- ===== src/Protocol/Reads.antt =====
-- What ogra-desktop/src/core/effect-protocol-service.ts reads of the capsules for other services.
use ogra.Prelude.{ℕ, String, Option}
use ogra.Capsule.{
  CapsuleKind, callback, result, SealedCapsuleRow, OpenCapsule, CapsuleTables, Vault, Fresh, Steps,
  fetch_by_binding,
}
use ogra.Capsule.Open.{open_by_effect}

module _ (V : Vault) where
  -- `loadCallbackPayload`
  abbrev load_callback_payload : String → ℕ → Fresh → Steps CapsuleTables OpenCapsule
  load_callback_payload effect_id attempt fresh = open_by_effect V effect_id callback attempt fresh

  -- `loadResultPayload`
  abbrev load_result_payload : String → ℕ → Fresh → Steps CapsuleTables OpenCapsule
  load_result_payload effect_id attempt fresh = open_by_effect V effect_id result attempt fresh

-- `readCapsuleForEffect`
abbrev read_capsule_for_effect : String → CapsuleKind → ℕ → CapsuleTables → Option SealedCapsuleRow
read_capsule_for_effect effect_id kind attempt t = fetch_by_binding effect_id kind attempt t
