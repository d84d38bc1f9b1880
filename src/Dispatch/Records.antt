-- ===== src/Dispatch/Records.antt =====
-- The records that `_GeneratorDispatchLedger` of skivolve/runner.py writes, with their keys in the
-- order of the canonical form.
use skivolve.Base.{String, Bool, if◌then◌else◌}
use skivolve.Base.Int.{pos}
use skivolve.Json.{int, str, Fields, end, field}
use skivolve.Dispatch.Types.{LogicalKey}

abbrev pub planned_record : String → LogicalKey → String → String → Fields
planned_record attempt_id key request variant = field "attempt_id" (str attempt_id) (
    field "case_id_sha256" (str key.case) (
      field "comparison_id_sha256" (str key.comparison) (
        field "event" (str "planned") (
          field "repetition" (int (pos key.repetition)) (
            field "request_sha256" (str request) (
              field "role_sha256" (str key.role) (field "variant_id_sha256" (str variant) end)))))))

abbrev pub dispatched_record : String → Fields
dispatched_record attempt_id =
    field "attempt_id" (str attempt_id) (field "event" (str "dispatched") end)

abbrev pub completed_record : String → String → Fields
completed_record attempt_id digest =
    field "attempt_id" (str attempt_id)
      (field "event" (str "completed") (field "provider_result_sha256" (str digest) end))

abbrev pub failed_record : String → Bool → String → Fields
failed_record attempt_id observed category = field "attempt_id" (str attempt_id) (
    field "dispatch_state" (str (if observed then "observed" else "not_observed"))
      (field "event" (str "failed") (field "failure_category" (str category) end)))

-- The records that the ledger writes after the header.
pub data Entry : Type 0 where
  planning : String → LogicalKey → String → String → Entry
  dispatching : String → Entry
  completing : String → String → Entry
  failing : String → Bool → String → Entry

abbrev pub entry_record : Entry → Fields
entry_record (planning i key request variant) = planned_record i key request variant
entry_record (dispatching i) = dispatched_record i
entry_record (completing i digest) = completed_record i digest
entry_record (failing i observed category) = failed_record i observed category
