-- ===== src/Lib.antt =====
-- Skivolve runs paired evaluations of agent skills and decides, from verifiers and a comparator,
-- whether a treatment beats a control. This library models the parts that decide what is run, what is
-- accounted for and what is believed.
--
-- The manifest (skivolve/manifest.py) turns a JSON document into a suite. `Manifest` holds it:
-- `Manifest.Values` has the readers of single values (`_object`, `_string`, `_integer`, `_number`,
-- `_list`, `_unique_ids`), `Manifest.Types` the dataclasses and the interfaces of `pathlib` and of the
-- comparator profiles, `Manifest.Paths` the readers of paths, and `Manifest.Provider`, `.Variants`,
-- `.Comparisons`, `.Contract`, `.Cases` and `.Suite` the functions `_parse_provider`,
-- `_parse_variants`, `_parse_comparisons`, `_parse_holdout_comparison_ids`,
-- `_parse_comparator_contract`, `_parse_cases`, `_assert_shared_verifier_separation` and
-- `load_suite`. A provider is looked up in the registry of skivolve/provider_capabilities.py, which is
-- `Capabilities`.
--
-- A run selects cases and comparisons of a suite: `Selection` holds `_selected` and its helpers of
-- skivolve/runner.py.
--
-- Every call of a generator is accounted for in a journal: `Dispatch` holds the class
-- `_GeneratorDispatchLedger` of skivolve/runner.py. `Dispatch.Replay` is `_replay`, `Dispatch.Records`
-- the records that are written, and `Dispatch.Ledger` the methods, as functions on a state that has
-- the ledger's fields and the content of the journal's file. An append can end in four ways, which the
-- disk chooses: the line is there, nothing was written, the call raises with the first bytes of the
-- line in the file (a short write, `os.fsync` or a check after it), or it raises at its last
-- attestation. Whether another ledger holds the lock file is an argument of `open_ledger`.
-- `Dispatch.Journal`, `.Extend`, `.Writes`, `.Steps`, `.Stopped`, `.Sound`, `.Methods`, `.Opening` and
-- `.Runs` lead from one line of the file to any sequence of calls; `.Stopped` is about an append that
-- raises when it has written. `.Arms`, `.Phases` and `.Faults` are about the journals that `_replay`
-- accepts or refuses, and `.Report` is about `audit`. JSON, SHA-256 and UTF-8 are the record `Codec`,
-- and `CodecLaws` states what the ledger relies on.
--
-- What a verifier prints is believed only if `_validate_verifier_payload` (skivolve/runner.py) accepts
-- it: `Verifier`, with `_serialized_arm_order`. The comparator's decisions `derive_eligibility` and
-- `derive_outcome` of skivolve/comparator_calibration/calibration.py are `Calibration`.
--
-- What a case hands over is normalised: `Artifacts` holds skivolve/artifacts.py. `Artifacts.Text` is the
-- replacement of line ends, `.Shape` is `_validate_json_shape`, `.Parse` is `_parse_bounded_json` with
-- the hooks that it gives to `json.loads`, and `.Normalize` is `normalize_artifact`. `.ShapeForm`
-- describes by recursion what the shape check accepts, `.ShapeTurn` is about one turn of its loop and
-- `.ShapeSpec` about all of it; `.ParseSpec`, `.Stable` and `.Settled` are about what is returned.
--
-- What a comparator may cost is bounded by a ledger: `Spend` holds `SpendLedger` and
-- `SpendReservation` of skivolve/comparator_runtime.py. `Spend.Ledger` has the state, the lines and
-- `_append_journal`, `.Calls` the calls that charge it, `.Reservation` the reservation, and `.Journal`
-- `_restore_journal` and the constructor. `.Account` is an abstract account in whole units, `.Refines`
-- and `.Implements` lead from the calls to it, and `.Failures` is about calls that raise. `.Run` has
-- the runs with whole lines as a step relation, `.Held`, `.Restoring` and `.Covered` are about their
-- amounts, and `.Turns` adds torn lines. `.Lines`, `.Outcome`, `.Replayed`, `.Owed`,
-- `.Tracks`, `.Crash` and `.Restored` are about the journal that a run with whole lines leaves.
-- `.Transport` is how `run_transport` spends, with the provider's outcome as an argument, and
-- `.Settled` is about it. The arithmetic of floats is the record `Arithmetic`; `ExactBelow` says that
-- it is exact for whole units up to a bound, as doubles are for up to 2^53 units of a power of two.
--
-- `Json` is the value that `json.loads` returns, with Python's equality; `Base` has the shared helpers:
-- `Base.Fallible` for functions that raise, `Base.Exec` for methods that also change a state,
-- `Base.Dict` for dicts in insertion order. Exceptions keep their message without the parts that the
-- source interpolates. All loops are structural recursion but the one of the shape check, whose fuel is
-- the number of nodes of the value, one for each turn. A finite float is a whole number of units of
-- 2^-1074, so the two zeros are one.
--
-- Not modelled: file metadata, fingerprints and directory checks, which the states reduce to the
-- content of a file, flags and the outcome of an append; the journal that a spend ledger leaves after a
-- torn line, which is not read back here; threads, since every method of a ledger holds its lock;
-- the reading of the manifest's file; texts that are not valid UTF-8; comparator profiles, which are the
-- interface `ProfileLibrary`. The comparator's executor, the aggregation of a run, holdout plans, the
-- providers, the Codex client, the optimiser and the command line have no model here.
pub mod Base
pub mod Json
pub mod Dispatch
pub mod Capabilities
pub mod Manifest
pub mod Selection
pub mod Calibration
pub mod Verifier
pub mod Artifacts
pub mod Spend
pub mod Examples
