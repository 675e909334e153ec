-- ===== src/Runtime/Orchestrator/Turns.antt =====
-- The turns of orchestrator.py: what they call, and in which snapshot.
use toollayer_ai.Base.{
  ℕ, ◌≡◌, refl, ◌⊎◌, inl, inr, String, Bool, true, false, Option, List, [], ◌∷◌, arith,
}
use toollayer_ai.Json.{Json, Fields}
use toollayer_ai.Contracts.Errors.{Result, ok, err, >>=-eq-ok}
use toollayer_ai.Policy.Authorization.{CallerIdentity}
use toollayer_ai.Runtime.Snapshot.{BoundTool, LoadedSnapshot, SnapshotVerification, Environment}
use toollayer_ai.Runtime.Store.{Network, SnapshotStore, ensure_fresh}
use toollayer_ai.Runtime.Store.Reach.{WasVerified, ensured, Reach, Reach-serves-WasVerified}
use toollayer_ai.Runtime.Orchestrator.{
  Orchestrator, OrchestrationOutcome, Call, Turn, execute_checked, resolve_call, within, run_call,
  dry_run_call, choose_call, handle_checked, read_utterance, execute_tool, after_reading, handle,
}
use toollayer_ai.Runtime.Orchestrator.Governed.{
  IsGoverned, resolve_call-IsGoverned, choose_call-IsGoverned,
}

-- The turn made no call, or the one governed call.
abbrev CallsOnly : Orchestrator → LoadedSnapshot → Option CallerIdentity → Bool → List Call → Type 0
CallsOnly orchestrator snapshot caller confirmed calls =
    (calls ≡ [])
    ⊎ ((call : Call) × (calls ≡ call ∷ []) × IsGoverned orchestrator snapshot caller confirmed call)

-- A turn that made a call or has an outcome acted in one verified snapshot: at most one call was made, a
-- governed one, and the outcome names the revision of that snapshot.
abbrev pub IsTurn :
    Environment → SnapshotVerification → Orchestrator → Option CallerIdentity → Bool → Turn → Type 0
IsTurn env verification orchestrator caller confirmed turn =
    ((turn.0 ≡ []) × ((o : OrchestrationOutcome) → turn.1 ≡ ok o → ⊥))
    ⊎ ((snapshot : LoadedSnapshot) × WasVerified env verification snapshot
        × CallsOnly orchestrator snapshot caller confirmed turn.0
        × ((o : OrchestrationOutcome)
            → turn.1 ≡ ok o
            → o.snapshot_revision ≡ snapshot.snapshot.revision))

module _ (orchestrator : Orchestrator) (snapshot : LoadedSnapshot) where
  run_call-revision :
      (bound : BoundTool) (validated : Fields) (request_id text : String) (trace : List String)
      (o : OrchestrationOutcome)
      → run_call orchestrator snapshot bound validated request_id text trace ≡ ok o
      → o.snapshot_revision ≡ snapshot.snapshot.revision
  unfolding run_call
  run_call-revision bound validated request_id text trace o h =
      let (result, _, e) = >>=-eq-ok (orchestrator.execute bound validated request_id) _ h in
      ground arith

  dry_run_call-revision :
      (bound : BoundTool) (validated : Fields) (request_id : String) (o : OrchestrationOutcome)
      → dry_run_call orchestrator snapshot bound validated request_id ≡ ok o
      → o.snapshot_revision ≡ snapshot.snapshot.revision
  unfolding dry_run_call
  dry_run_call-revision bound validated request_id o h =
      let (prepared, _, e) =
        >>=-eq-ok (orchestrator.prepare bound.tool validated bound.base_url) _ h in
      ground arith

  -- The calls and the revision of one turn within the snapshot.
  abbrev Kept : Option CallerIdentity → Bool → Turn → Type 0
  Kept caller confirmed turn =
      CallsOnly orchestrator snapshot caller confirmed turn.0
      × ((o : OrchestrationOutcome)
          → turn.1 ≡ ok o
          → o.snapshot_revision ≡ snapshot.snapshot.revision)

  execute_checked-Kept :
      (name request_id : String) (arguments : Json) (caller : Option CallerIdentity)
      (confirmed : Bool) (r : Result (BoundTool × Fields))
      → resolve_call orchestrator snapshot name arguments caller confirmed ≡ r
      → Kept caller confirmed (execute_checked orchestrator snapshot name request_id r)
  unfolding execute_checked
  execute_checked-Kept name request_id arguments caller confirmed (err e) h =
      (inl refl, λ o k. cc k)
  execute_checked-Kept name request_id arguments caller confirmed (ok (bound, validated)) h = (
    inr (
      record { bound = bound; arguments = validated },
      refl,
      resolve_call-IsGoverned orchestrator snapshot name arguments caller confirmed bound validated
          h,
    ),
    λ o k. run_call-revision bound validated request_id name _ o k,
  )

  handle_checked-Kept :
      (text request_id : String) (caller : Option CallerIdentity) (confirmed dry_run : Bool)
      (r : Result (BoundTool × Fields))
      → choose_call orchestrator snapshot text caller confirmed ≡ r
      → Kept caller confirmed (handle_checked orchestrator snapshot text request_id dry_run r)
  unfolding handle_checked
  handle_checked-Kept text request_id caller confirmed dry_run (err e) h = (inl refl, λ o k. cc k)
  handle_checked-Kept text request_id caller confirmed true (ok (bound, validated)) h =
      (inl refl, λ o k. dry_run_call-revision bound validated request_id o k)
  handle_checked-Kept text request_id caller confirmed false (ok (bound, validated)) h = (
    inr (
      record { bound = bound; arguments = validated },
      refl,
      choose_call-IsGoverned orchestrator snapshot text caller confirmed bound validated h,
    ),
    λ o k. run_call-revision bound validated request_id text _ o k,
  )

module _ (env : Environment) (verification : SnapshotVerification)
    (orchestrator : Orchestrator) where
  within-IsTurn :
      (store : SnapshotStore) (network : Network) (now : ℕ) (caller : Option CallerIdentity)
      (confirmed : Bool) (turn : LoadedSnapshot → Turn)
      (called : Result LoadedSnapshot × SnapshotStore)
      → Reach env verification store
      → ensure_fresh env verification store network now ≡ called
      → ((snapshot : LoadedSnapshot) → Kept orchestrator snapshot caller confirmed (turn snapshot))
      → IsTurn env verification orchestrator caller confirmed (within called turn).0
  within-IsTurn store network now caller confirmed turn (err e, next) reach h kept =
      inl (refl, λ o k. cc k)
  within-IsTurn store network now caller confirmed turn (ok snapshot, next) reach h kept =
      let (calls, revision) = kept snapshot in
      inr (
        snapshot,
        Reach-serves-WasVerified env verification snapshot reach (ensured network now h),
        calls,
        revision,
      )

  -- `execute_tool`, on a store that earlier calls led to: a turn makes at most one call of the executor. The call
  -- is of a tool of a snapshot that passed every check, one that the caller discovers in it and that its policy
  -- permits; its arguments satisfy the tool's schema, and it is confirmed where the tool wants that. The outcome
  -- names the revision of that snapshot, and a turn without a snapshot has no outcome.
  pub execute_tool-IsTurn :
      (store : SnapshotStore) (network : Network) (now : ℕ) (tool_name : String) (arguments : Json)
      (caller : Option CallerIdentity) (request_id : String) (confirmed : Bool)
      → Reach env verification store
      → IsTurn env verification orchestrator caller confirmed
          (execute_tool env verification orchestrator store network now tool_name arguments caller
            request_id confirmed).0
  unfolding execute_tool
  execute_tool-IsTurn store network now tool_name arguments caller request_id confirmed reach =
      within-IsTurn store network now caller confirmed _
        (ensure_fresh env verification store network now) reach refl
        (λ snapshot.
          execute_checked-Kept orchestrator snapshot tool_name request_id arguments caller confirmed
            _ refl)

  -- `handle`, on a store that earlier calls led to: whatever tool the model provider selects and whatever
  -- arguments it proposes, a turn makes at most one call of the executor. The call is of a tool of a snapshot that
  -- passed every check, one that the caller discovers in it and that its policy permits; its arguments satisfy the
  -- tool's schema, and it is confirmed where the tool wants that. The outcome, of a dry run too, names the revision
  -- of that snapshot, and a turn without a snapshot has no outcome.
  pub handle-IsTurn :
      (store : SnapshotStore) (network : Network) (now : ℕ) (utterance : String)
      (caller : Option CallerIdentity) (request_id : String) (confirmed dry_run : Bool)
      → Reach env verification store
      → IsTurn env verification orchestrator caller confirmed
          (handle env verification orchestrator store network now utterance caller request_id
            confirmed dry_run).0
  unfolding handle
  handle-IsTurn store network now utterance caller request_id confirmed dry_run reach =
      by_text (read_utterance utterance)
    where
      turn : String → Turn × SnapshotStore
      turn text = within (ensure_fresh env verification store network now) (λ snapshot.
          handle_checked orchestrator snapshot text request_id dry_run
            (choose_call orchestrator snapshot text caller confirmed))

      by_text :
          (r : Result String)
          → IsTurn env verification orchestrator caller confirmed
              (after_reading env verification orchestrator r store turn).0
      by_text (err e) = inl (refl, λ o k. cc k)
      by_text (ok text) =
          within-IsTurn store network now caller confirmed _
            (ensure_fresh env verification store network now) reach refl
            (λ snapshot.
              handle_checked-Kept orchestrator snapshot text request_id caller confirmed dry_run _
                refl)
