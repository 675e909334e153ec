-- ===== src/Runtime/Store.antt =====
-- snapshot.py: `SnapshotClient.fetch` and `SnapshotStore`. The network is a parameter: it answers a
-- request, with its `if-none-match` header, by a reply. Times are nanoseconds of the monotonic clock.
-- The lock makes each refresh one step.
pub mod Refresh
pub mod Reach
use toollayer_ai.Base.{
  ℕ, zero, suc, ◌*◌, ◌-◌, String, Bool, true, false, ◌||◌, Option, none, some, ltb, leb, eqb, ◌==◌,
  if◌then◌else◌,
}
use toollayer_ai.Json.{Json}
use toollayer_ai.Contracts.Errors.{
  Failure, tool_layer, snapshot_unavailable, unauthenticated, value_error, assertion_error, Result,
  ok, err, ◌>>=◌,
}
use toollayer_ai.Runtime.Snapshot.{
  LoadedSnapshot, SnapshotVerification, Environment, load_snapshot_document,
}

-- `httpx.HTTPError`, or a response with its body if that parses as JSON.
pub data Reply : Type 0 where
  unreachable : Reply
  response : (status_code : ℕ) (etag : Option String) (body : Option Json) → Reply

abbrev pub Network : Type 0
Network = Option String → Reply

-- `if if_none_match: headers["if-none-match"] = if_none_match`
abbrev pub header_value : Option String → Option String
header_value none = none
header_value (some tag) = if tag == "" then none else some tag

pub record SnapshotStore : Type 0 where
  pub refresh_seconds : ℕ
  pub current : Option LoadedSnapshot

-- `SnapshotStore(client, refresh_seconds=…)`
abbrev pub new_store : ℕ → SnapshotStore
new_store seconds = record {
  refresh_seconds = if ltb seconds 1 then 1 else seconds;
  current = none;
}

-- The property `current`.
unfoldable pub held : SnapshotStore → Result LoadedSnapshot
held store = elim store.current [
  | none ↦ err (tool_layer snapshot_unavailable)
  | some snapshot ↦ ok snapshot
]

abbrev pub nanoseconds : ℕ
nanoseconds = 1000000000

abbrev pub etag_of : Option LoadedSnapshot → Option String
etag_of none = none
etag_of (some existing) = existing.etag

-- The held snapshot, while it is younger than the refresh interval.
abbrev pub fresh : Option LoadedSnapshot → ℕ → ℕ → Option LoadedSnapshot
fresh none seconds now = none
fresh (some snapshot) seconds now =
    if ltb (now - snapshot.loaded_at) (seconds * nanoseconds) then some snapshot else none

module _ (env : Environment) (verification : SnapshotVerification) where
  abbrev pub load_body : Option Json → Option String → ℕ → Result (Option LoadedSnapshot)
  load_body none etag now = err value_error
  load_body (some body) etag now = do
    loaded ← load_snapshot_document env body etag verification now
    ok (some loaded)

  -- What `fetch` makes of the reply; `ok none` is an unchanged snapshot.
  unfoldable pub read_reply : Reply → ℕ → Result (Option LoadedSnapshot)
  read_reply unreachable now = err (tool_layer snapshot_unavailable)
  read_reply (response status etag body) now =
      if eqb status 304
      then ok none
      else if eqb status 404
      then err (tool_layer snapshot_unavailable)
      else if eqb status 401 || eqb status 403
      then err (tool_layer unauthenticated)
      else if leb 400 status
      then err (tool_layer snapshot_unavailable)
      else load_body body etag now

  unfoldable pub fetch : Network → Option String → ℕ → Result (Option LoadedSnapshot)
  unfolding read_reply
  fetch network if_none_match now = read_reply (network (header_value if_none_match)) now

  -- `refresh` after the fetch, which ended at `now`.
  unfoldable pub settle :
      SnapshotStore
      → Option LoadedSnapshot
      → Result (Option LoadedSnapshot)
      → ℕ
      → Result LoadedSnapshot × SnapshotStore
  settle store none (err e) now = (err e, store)
  settle store (some existing) (err (tool_layer code)) now = (ok existing, store)
  settle store (some existing) (err e) now = (err e, store)
  settle store none (ok none) now = (err assertion_error, store)
  settle store (some existing) (ok none) now =
      let refreshed = record existing { loaded_at = now } in
      (ok refreshed, record store { current = some refreshed })
  settle store existing (ok (some fetched)) now =
      (ok fetched, record store { current = some fetched })

  unfoldable pub refresh : SnapshotStore → Network → ℕ → Result LoadedSnapshot × SnapshotStore
  refresh store network now =
      settle store store.current (fetch network (etag_of store.current) now) now

  abbrev pub or_refresh :
      Option LoadedSnapshot → SnapshotStore → Network → ℕ → Result LoadedSnapshot × SnapshotStore
  or_refresh (some snapshot) store network now = (ok snapshot, store)
  or_refresh none store network now = refresh store network now

  -- One time `now` stands for the readings of the clock that one call makes.
  unfoldable pub ensure_fresh : SnapshotStore → Network → ℕ → Result LoadedSnapshot × SnapshotStore
  ensure_fresh store network now =
      or_refresh (fresh store.current store.refresh_seconds now) store network now

-- `SnapshotStore.set`
unfoldable pub set_snapshot : SnapshotStore → LoadedSnapshot → SnapshotStore
set_snapshot store snapshot = record store { current = some snapshot }
