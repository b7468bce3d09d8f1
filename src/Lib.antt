-- ===== src/Lib.antt =====
-- A model of the shared core of the Loop RevOps agents, and of the agents that write through it.
--
-- The agents propose changes to Salesforce and people approve them. A gate is a row with an action
-- type, its votes and a status; a write asks for an approved gate; a bucket limits how often an
-- action may happen in an hour, a day or a week; changes are noted in the audit log.
--
-- - World: the tables of shared/db/schema.sql (gates, audit log, counters), the calls made of the
--   `sf` command line and the Slack messages posted, and the monad of actions that return or
--   raise. What was written before an exception stays written. World.Values has the JSON
--   dictionaries, World.Rows the rows.
-- - Governance (shared/governance.py): Tiers has the tables of tiers and limits, Gates the gates and
--   `write_audit`, Limits `check_rate_limit`. Lawful says what a row of a gate means; Decide and
--   Reachable carry it over the operations; Votes draws the consequences. Limits.Count relates the
--   counters to one number for each bucket and window, Limits.Budget counts calls.
-- - Salesforce (shared/mcp/salesforce_mcp.py): the writes, each behind `require_approved_gate`.
-- - Dispatcher (shared/slack_dispatcher.py): buttons and the sender with its dev guard; its child
--   Commands routes the commands.
-- - Cooldown (agents/revops_support/schema/cooldown_poller.py): the poller that opens confirmation
--   gates through Governance and writes to Slack through Dispatcher.
-- - Cs (agents/cs/handlers/slack_actions.py) and Onboarding (agents/onboarding/csm_enforcer.py): flows
--   that open gates, and write through Salesforce once the gates are approved.
-- - Schema (agents/revops_support/schema): Proposer files a change of the org's schema as a bundle
--   with a manifest and a gate, Sandbox tests it, Deployer deploys it once the gate and the test
--   allow it, Rollback deploys the revert bundle. Stored, Proposed, Tested, Cleared, Deployed and
--   Reverted have the proofs. World.Bundles is the directory of pending changes.
-- - Permissions (agents/revops_support/permissions): access_grant.py, and its children Provision
--   (user_provisioner.py) and Offboard (offboarding.py), which write through Salesforce and Bulk.
-- - Onboarding.ClosedWon and Onboarding.Creator (agents/onboarding/closed_won_poller.py and
--   onboarding_record_creator.py): the poller that creates an onboarding for each opportunity won.
-- - Onboarding.Stalls (agents/onboarding/milestone_monitor.py): the business days and the table of the
--   alerts, as values of its own; evaluate_stall and the scans are not modelled.
-- - Runs (shared/agent_base.py): the run wrapper with its row in agent_runs (World.Runs).
-- - Enroller (agents/top_of_funnel/sequence_enroller.py): enrolment of leads under a daily limit.
-- - Bulk (agents/revops_support/data_quality/bulk_updater.py): batches over the composite interface.
-- - Routing (agents/top_of_funnel/routing.py): owners of new leads, in rotation, on its own two
--   tables.
-- - Suppression (agents/top_of_funnel/suppression.py): whom not to contact, with a cache of verdicts.
-- - Schedule (shared/runtime/schedule.py): the registry of jobs.
-- - System: every operation that writes to the world as a step, the worlds reached
--   by steps, and the handlers as sequences of steps (System.Every). Lawful and Settled are about
--   the gates in the worlds reached, Gated about the gate behind a new onboarding.
-- - Base: Boolean tests, lists, tables with integer keys, texts and slices. Tests: the theorems at
--   concrete inputs.
--
-- Times are numbers of microseconds since the epoch, in UTC, and each is an argument of the function
-- that reads the clock. The Salesforce org, the Slack client, the environment variables, the SOQL
-- query and the HTTP client are the fields of `Env` and `Ports`, or arguments named `soql`. The
-- texts of exceptions are an argument `message`, and what `json.dumps` makes of the payload and of the
-- output of a run are arguments. Files are kept as the values written into them. A transaction is one
-- step; calls by several processes at once are not modelled. A table's next key is one more than its
-- largest.
-- Loops are structural recursion; `slices` takes as many rounds as its list is long, which is
-- enough since each round takes at least one element.
--
-- Not modelled: the texts of messages, logging, the reading of YAML and secrets, the reports and
-- scores of the agents, their prompts, and the clients of other services.
pub mod Base
pub mod World
pub mod Governance
pub mod Salesforce
pub mod Dispatcher
pub mod Cooldown
pub mod Cs
pub mod Onboarding
pub mod Enroller
pub mod Bulk
pub mod Schedule
pub mod Schema
pub mod Runs
pub mod Permissions
pub mod Routing
pub mod Suppression
pub mod System
pub mod Tests
