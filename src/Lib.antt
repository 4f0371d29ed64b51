-- ===== src/Lib.antt =====
-- Aeon runs agents as durable workflows. A run's steps are recorded in a journal, the tool gateway
-- decides with the tenant's Cedar policies whether a step may have an effect, and the outcome of a
-- step, a refusal included, is read back from the journal when the run resumes. This library models
-- that core.
--
-- Checkpoint: go/internal/checkpoint/checkpoint.go. `RunState` is the struct of that name;
-- `new_run_state`, `completed`, `attempted`, `durability`, `step_outcome` and `approval_actor` are
-- its methods. A Go int64 is its bit pattern, compared with the sign bit flipped, and wraps where
-- Go wraps.
--
-- Journal: go/internal/store/checkpointer.go. The state is the table run_checkpoints as the list of
-- its rows in the order of writing; `append`, `known_run` and `load` are the methods. Each
-- statement can fail (`Stage`), and a transaction that fails before its COMMIT leaves the table as
-- it was. The advisory lock serialises the appends of one run, so an interleaving of calls is a
-- sequence of them. How Postgres stores and compares jsonb is the parameter `Jsonb`, of which one
-- law is used, that a value is not distinct from itself. A COMMIT fails in one of two ways: nothing
-- is written, or only its answer is lost.
--
-- Policy: go/internal/policy/. `Policy.Engine` loads a bundle and decides a request as cedar.go
-- does; `Policy.TenantSet` holds one engine for each tenant as registry.go does. Cedar is the
-- parameter `Cedar`, of which no law is used.
--
-- Executions: go/internal/store/tool_executions.go. The state is the table tool_executions;
-- `claim`, `complete` and `release` are the methods, built from one function for each SQL
-- statement, so that Executions/Holders.antt can interleave the statements of all callers.
--
-- ToolExec: go/internal/toolexec/executor.go, where a tool is any function of the tenant and the
-- arguments. `World` holds the tools that ran and the recorder's rows.
--
-- Gateway: go/internal/api/tool_gateway_handlers.go and run_tenant.go. `execute`, `check_policy`
-- and `check_activity_policy` are the handlers, from the authenticated caller, the header and the
-- decoded body to the state after the call and the answer; `status` is the answer's HTTP status.
-- `Deployment` says which stores are configured and which statements fail during the request.
--
-- CircuitBreaker: go/internal/circuitbreaker/breaker.go. `record_outcome`, `is_quarantined` and
-- `reset` are the methods; the mutex makes the calls follow one another. Go's float64 is the
-- parameter `Floats`, of which no law is used, so rounding is not modelled.
--
-- Registry: go/internal/store/agent_registry.go. The state is the table agents as a list of rows. A
-- method reads, writes and reads back in separate statements; `Gaps` is what other calls do to the
-- table before the UPDATE and between it and the read back, and `RegistryFaults` says which
-- statement fails. Secrets: go/internal/secrets/broker.go, with the drawn reference and the time as
-- arguments.
--
-- KillSwitch: go/internal/api/circuit_breaker_handlers.go, the routes that compose the breaker, the
-- registry and the broker: `record_outcome_route`, `quarantine_route` and `unquarantine_route`.
-- `Switches` is the state of the three.
--
-- ModelGateway: go/internal/modelgateway/gateway.go and unsendable.go. `decide` is Decide: it
-- restricts the candidates, sorts them, and asks one provider after the other until one gives an
-- answer that is not empty. A provider is a function, so a call of it changes nothing that a later
-- one reads, but it may fail for any input. `Sorting` is sort.Slice, of which it is used that the
-- result is ascending and holds the same candidates.
--
-- Auth: go/internal/auth/auth.go and load.go. `load_bundle` is Load, `load_dir` LoadDir,
-- `must_load_from_env` MustLoadFromEnv, `authenticate` Authenticate and `require` the middleware. A
-- file is what reading and decoding it as YAML gives; SHA-256 is a function of which no law is
-- used. The two refusals of a token's hash, of its length and of its characters, are one here.
--
-- StepIdentity: go/internal/stepidentity/stepidentity.go. A float64 is its bits, so its bound is
-- exact; `check_integer_bounds` is checkIntegerBounds on a decoded value and `step_hash` is Hash.
--
-- Finops: go/internal/finops/ and go/internal/store/finops_ledger.go. `Finops.Pricing` is
-- finops.go, `Finops.Ceiling` ceiling.go, and `Finops.Reconcile` reconcile.go, whose loop over the
-- rows is `reconcile_rows`. `Finops.Ledger` holds the table model_gateway_costs as the list of its
-- rows in the order of writing: `record_entry` is Record and `spend_for_run` SpendForRun. Go's
-- float64 is the parameter `Dollars`, of which no law is used; the platform's usage of a request is
-- a function that may give none. The totals by model, run and agent and the texts of a ceiling and
-- of a divergence are not modelled.
--
-- ModelGateway.Bundle: go/internal/modelgateway/bundle.go, from the decoded document.
-- `resolve_profile` is ResolveProfile, `pricing_rates` PricingRates and
-- `verify_modalities_against_catalog` the function of that name.
--
-- DecideRoute: go/internal/api/model_gateway_handlers.go. `decide_route` is the handler of POST
-- /decide, which asks the ceiling (`over_budget`), decides, and writes the ledger (`record_cost`,
-- `record_discarded_attempts`). `Books` is what it reads and writes, `Setup` says which stores are
-- configured and what Postgres fails, and `Numerals` is what Go does with the numbers of a manifest
-- and of a usage block. Throttled: go/internal/providers/throttled.go, where a provider's error is
-- a text and `throttle_of` is the throttle in its chain.
--
-- RunControl: go/internal/runcontroller/controller.go and
-- go/internal/api/run_controller_handlers.go. Temporal's client is the parameter `Temporal`, of
-- which no law is used: a call changes its world and may fail, a query only reads it.
-- `RunControl.Controller` and `RunControl.Reports` hold the methods, `RunControl.Handlers` the
-- routes and `RunControl.Approvals` the two routes that decide, which signal the run and then
-- append to its journal. One request finds one world, so what another request does between the two
-- calls of one is not modelled. `RunControl.Stream` is the stream of a run's status, from what its
-- polls give until the client is gone. Traces are not modelled.
--
-- Json: the values of encoding/json, and the matching of an object's keys with a struct's fields.
-- Prelude: lists, association lists for Go maps, tests, integers and text. Examples: runs on
-- concrete inputs.
--
-- The text of errors and log lines and the spans are not modelled; an error is a constructor for
-- its place, and a time is an argument. Every loop is structural but that of `decimal`, whose fuel
-- is one more than the number, at least its count of digits, and that over the causes of a failure,
-- which is bounded by ten in the source too.
pub mod Prelude
pub mod Json
pub mod Checkpoint
pub mod Journal
pub mod Policy
pub mod Auth
pub mod Executions
pub mod ToolExec
pub mod Gateway
pub mod CircuitBreaker
pub mod Registry
pub mod Secrets
pub mod KillSwitch
pub mod ModelGateway
pub mod StepIdentity
pub mod Finops
pub mod Throttled
pub mod DecideRoute
pub mod RunControl
pub mod Examples
