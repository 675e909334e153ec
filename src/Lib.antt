-- ===== src/Lib.antt =====
-- ToolLayer AI: its contracts, the conversion of API descriptions into tools, the policy engine, the control plane
-- and the runtime.
--
-- An operator registers an API description with the control plane
-- (apps/control-plane/backend/control_plane), which converts its operations into tools
-- (packages/openapi-converter), reviews the draft that results, publishes it as an immutable
-- version of a connector, and pins versions in the signed snapshot of a deployment. The runtime
-- (apps/runtime/runtime_service) fetches that snapshot, verifies it and serves its tools to the callers that
-- their stored policies allow (packages/policy-engine). The documents that pass between the services, and
-- their digests and signatures, belong to packages/contracts.
--
-- Files:
--   Base, Json: shared lemmas; JSON values as Python holds them. A dict is its list of entries in order.
--   Contracts/Errors, Version, CanonicalJson, Signing, Models, Validation: the modules of the same names of
--     packages/contracts/toollayer_contracts. An exception is a `Failure`, and a function that may raise
--     returns a `Result`.
--   Contracts/Models/Operations: the validators of operations and tools in its models.py.
--   Policy/Authorization: packages/policy-engine/toollayer_policy/authorization.py.
--   Policy/Arguments, Policy/UrlText: its arguments.py, with the operations of Python on texts that it uses.
--   Policy/Destinations, Policy/Executor: its destinations.py and executor.py. Policy/Url and Policy/Address are
--     `urlsplit` and `ipaddress` as they use them. A call gives the requests that were sent and the result.
--   OpenApi/Naming, References, Schemas, Errors: naming.py, references.py, schema_conversion.py and errors.py
--     of packages/openapi-converter/toollayer_openapi.
--   OpenApi/Parameters, OpenApi/Converter: its converter.py, with `convert_operation`.
--   OpenApi/Analyzer: its analyzer.py. `analyze_document` takes the paths of a document to its operations.
--   Runtime/Snapshot, Runtime/Store: apps/runtime/runtime_service/snapshot.py: `load_snapshot_document`, and
--     the client and store with their `fetch`, `refresh` and `ensure_fresh`. A call takes the store to its
--     result and the next store; `Reach` has the stores that any sequence of calls leads to.
--   Runtime/Orchestrator: apps/runtime/runtime_service/orchestrator.py: `discover_in`, `execute_tool` and `handle`
--     as functions to the calls of the executor and the outcome.
--   ControlPlane/Review, Publication: review.py and publication.py of the control plane.
--   ControlPlane/Rows: its models.py. The rows of a database are one record, with the rows of a relationship
--     inside their owner.
--   ControlPlane/Versions, Drafts, Releases, Deployments: its service.py. An operation takes a database to its
--     result and the next database; an error leaves the database, as the transaction is rolled back.
--   ControlPlane/Requests: the requests that change the database as steps, and the databases they lead to.
--   Tests: the theorems at concrete inputs.
--
-- Parameters: SHA-256, Ed25519 and base64 (`Crypto`), the JSON Schema validator (`Schemas`), pydantic's
-- reading of fields into a model (`read_model`, `read_connector`), the executor and the model provider of the
-- orchestrator, the network, the clock and the text of a time, what the OpenAPI analyser gives for an upload
-- (`Analyzed`), whether the database accepts rows that another request may conflict with (`accepted`), the
-- tables of Unicode, DNS (`Resolver`), what httpx meets for a request (`Client`), the readers of JSON and of
-- integers from a text (`loads`, `read_int`), Python's equality of JSON values (`equal`), pydantic's checks of the
-- fields of a tool (`Checks`), and `str.lower`, decimal digits and digests for names (`NameTables`). Numbers are
-- unbounded, as in Python.
--
-- Bounds: recursion is on the structure of lists, texts and documents, but for three places. `resolve_from` and
-- `convert_from` recurse on what is left of the depth that the module itself allows (32 and 8), and refuse at
-- zero as the code does. `httpx_send` takes the number of readings of a body that it makes at most: a chunk
-- has a byte and the loop stops past the limit on bytes, so that the limit and two more are enough.
--
-- Not modelled: the loading of documents (loader.py of the converter), the base URL, title and summary of an
-- analysis, the display name and provenance of a tool, redaction, identity of the runtime, provider adapters, the
-- mock provider and demo API, routes, settings, migrations, scripts and user interface. Routes and settings are glue
-- around what is modelled, and the parts after them are samples, tooling and another language.
pub mod Base
pub mod Json
pub mod Contracts
pub mod Policy
pub mod OpenApi
pub mod Runtime
pub mod ControlPlane
pub mod Tests
