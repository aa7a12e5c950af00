-- ===== src/Lib.antt =====
-- Sanhita compiles a regulator's circular into rules, has an officer sign each rule, runs the signed
-- rules over a firm's records, and follows each gap until the engine finds it closed. This library
-- models that core, which is under src/sanhita, and leaves out what stands around it.
--
-- The parts and their files:
--   Ir         ir/schema.py, ir/enums.py, ir/canonical.py. Schema has the rule and its parts field for
--              field, Fields what one field has to be, Validate all the validators, Ids `suffix_for_index` and
--              `obligation_id`, Sets `ObligationSet`, Obligation `signing_payload`,
--              `blocking_issues`, `certify` and `verify_signature`.
--   Certify    certify/ledger.py is Ledger (the entry, `append`, `verify_chain`) with Changes
--              (`_flatten` and `diff_obligations`); certify/lifecycle.py is Registry (`propose`,
--              `certify`, `reject`, `amend`) with AsOf (`as_of`) and Signatures
--              (`verify_signatures`). A registry is the versions by id, and the ledger that every
--              transition appends to.
--   Execute    execute/calendar.py is Calendar, evidence.py Evidence, report.py Report,
--              applicability.py Applicability. engine.py is Engine (`due_date`, `_why_not`, `_check`,
--              `_cite`) and Run (`run`, `_no_evidence`). The engine reads certified rules and the
--              evidence store and builds the report.
--   Amend      A new edition of a document. parse/clause_tree.py and analyse/references.py are Clauses
--              and References, as far as the others read them; diff/tree_diff.py is Diff
--              (`diff_trees`), diff/impact.py Impact (`assess_impact`), change.py Plan
--              (`plan_for_firm`), controls.py Controls.
--   Remediate  remediate/tasks.py: Log is the hash-chained log of tasks, Task the task, Store the
--              lifecycle of tasks. remediate/service.py is Service (`recheck_task`, over the engine),
--              remediate/amendment.py Amendment (`open_for_action`), with Verdict (`_verdict`) and
--              Recheck (`recheck_amendment_task`). Steps is the relation of a store to the next one
--              by a call of any of them.
--   Attention  health.py is Health (`assess_evidence_health`), which reads the evidence store as the
--              engine does; priority.py is Priority (`rank_open_work`), which puts the open tasks and
--              the rules whose records need attention in one list.
--   Receipt    analyse/receipt.py: `build_receipt` and `verify_receipt`.
--   Chain      the hash chain that the ledger and the task log share, seen as one interface (Layout):
--              each log gives its payload, and takes the theorems about chains.
--   Dates      Python's `datetime.date` as far as these modules use it, with its ordinal.
--   Prelude    Python's lists, texts, dictionaries and sorting, exceptions as results, and lemmas.
--   Tests      samples, tests, and the theorems at concrete inputs.
--
-- How the code is modelled. A method that changes an object takes the object's state and gives the
-- new one; a method that raises gives an error, and has changed nothing. Python's clock is an
-- argument (`now`, `today`). An instant is a number. SHA-256 and HMAC over canonical JSON, and the
-- dump of a rule, are parameters (Library, or `sha256_hex`), of which nothing is assumed: where a
-- result needs that digests do not collide, it says so by naming the collision.
-- A sentence that the engine builds for a reader is a constructor with what the sentence quotes; the
-- notes of the task log are texts.
--
-- Loops with fuel: `add_working_days` has a round for each day that is left before the last date that
-- Python has, and running out is Python's OverflowError; the loop over the closes of a period has a
-- round for each day of the window; the loops of `suffix_for_index` and of `str` divide a number and
-- have as many rounds as the number; the search for dependents has a round for each hop up to its
-- cap, as the source does. Elsewhere the years of a date are not bounded by 9999.
--
-- Not modelled: the parsing of PDF files, the extraction by a language model, the analyses but
-- for the search of references and the receipt, the web and command-line front ends, reading and
-- writing of JSON files, and floating-point telemetry. That part of the field validators which
-- normalises case, white space and order is taken to have run.
pub mod Prelude
pub mod Dates
pub mod Ir
pub mod Chain
pub mod Certify
pub mod Amend
pub mod Remediate
pub mod Execute
pub mod Attention
pub mod Receipt
mod Tests
