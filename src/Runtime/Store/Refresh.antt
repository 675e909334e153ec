-- ===== src/Runtime/Store/Refresh.antt =====
-- One refresh of snapshot.py: what it keeps when the control plane fails, and how fresh a served
-- snapshot is.
use toollayer_ai.Base.{
  ℕ, ◌*◌, ◌-◌, ◌<◌, ◌≡◌, refl, sym, ap, ◌∙◌, ◌↔◌, ◌⊎◌, inl, inr, Bool, true, false, if◌then◌else◌,
  String, Bool-cases, ltb, ltb→lt, Option, none, some, arith,
}
use toollayer_ai.Json.{Json, obj, get}
use toollayer_ai.Contracts.Errors.{
  ErrorCode, Failure, assertion_error, snapshot_integrity_failed, tool_layer, Result, ok, err,
  >>=-eq-ok, guard-eq-ok,
}
use toollayer_ai.Contracts.Version.{require_supported}
use toollayer_ai.Contracts.CanonicalJson.{snapshot_digest_excluded, verify_digest}
use toollayer_ai.Contracts.Validation.{validate_deployment_snapshot}
use toollayer_ai.Runtime.Snapshot.{
  declared_digest, version_failure, check_connectors, check_producer, validate_model,
  index_snapshot, LoadedSnapshot, SnapshotVerification, Environment, load_object,
  load_snapshot_document,
}
use toollayer_ai.Runtime.Store.{
  Reply, unreachable, response, Network, header_value, SnapshotStore, nanoseconds, etag_of,
  load_body, read_reply, fetch, settle, refresh, fresh, or_refresh, ensure_fresh,
}

-- `ToolLayerError`, which `refresh` catches where it holds a snapshot.
abbrev pub is_domain_error : Failure → Bool
is_domain_error (tool_layer code) = true
is_domain_error _ = false

-- The fetch ended in a failure that `refresh` raises: there is no snapshot to keep, or it is no domain error. Or the
-- control plane answered that nothing changed to a store that holds nothing.
abbrev pub Fails : Option LoadedSnapshot → Result (Option LoadedSnapshot) → Failure → Type 0
Fails held fetched failure =
    ((fetched ≡ err failure) × ((held ≡ none) ⊎ (is_domain_error failure ≡ false)))
    ⊎ ((held ≡ none) × (fetched ≡ ok none) × (failure ≡ assertion_error))

module _ (env : Environment) (verification : SnapshotVerification) where
  -- Whatever domain error the fetch ends in, a bad digest or signature included, a store that holds a
  -- snapshot goes on serving that snapshot and is unchanged.
  pub refresh_keeps :
      (store : SnapshotStore) (existing : LoadedSnapshot) (network : Network) (now : ℕ)
      (code : ErrorCode)
      → store.current ≡ some existing
      → fetch env verification network existing.etag now ≡ err (tool_layer code)
      → refresh env verification store network now ≡ (ok existing, store)
  unfolding refresh settle
  refresh_keeps store existing network now code held failed = rw held (rw failed)

  settle-err :
      (store : SnapshotStore) (existing : LoadedSnapshot) (e : Failure) (now : ℕ)
      → settle env verification store (some existing) (err e) now
        ≡ (if is_domain_error e then (ok existing, store) else (err e, store))
  unfolding settle
  settle-err store existing (tool_layer code) now = refl
  settle-err store existing _ now = refl

  settle-Fails :
      (store next : SnapshotStore) (held : Option LoadedSnapshot)
      (fetched : Result (Option LoadedSnapshot)) (now : ℕ) (failure : Failure)
      → settle env verification store held fetched now ≡ (err failure, next)
      → (next ≡ store) × Fails held fetched failure
  unfolding settle
  settle-Fails store next none (err e) now failure h = (ground arith, inl (ground arith, inl refl))
  settle-Fails store next (some existing) (err e) now failure h =
      let shown = sym (settle-err store existing e now) ∙ h in
      elim (Bool-cases (is_domain_error e)) [
        | inl domain ↦
            let kept : (ok existing, store) ≡ (err failure, next) = rw domain at shown in
            absurd (ground arith)
        | inr other ↦
            let raised : (err e, store) ≡ (err failure, next) = rw other at shown in
            let same : e ≡ failure = ground arith in
            (ground arith, inl (ap err same, inr (rw (← same) other)))
      ]
  settle-Fails store next none (ok none) now failure h =
      (ground arith, inr (refl, refl, ground arith))
  settle-Fails store next (some existing) (ok none) now failure h = absurd (ground arith)
  settle-Fails store next held (ok (some fetched)) now failure h = absurd (ground arith)

  settle-of_Fails :
      (store : SnapshotStore) (held : Option LoadedSnapshot)
      (fetched : Result (Option LoadedSnapshot)) (now : ℕ) (failure : Failure)
      → Fails held fetched failure
      → settle env verification store held fetched now ≡ (err failure, store)
  unfolding settle
  settle-of_Fails store none fetched now failure (inl (e, why)) = rw e refl
  settle-of_Fails store (some existing) fetched now failure (inl (e, inl empty)) =
      absurd (ground arith)
  settle-of_Fails store (some existing) fetched now failure (inl (e, inr other)) =
      rw e (settle-err store existing failure now ∙ rw other refl)
  settle-of_Fails store held fetched now failure (inr (empty, e, same)) = rw (empty, e, same) refl

  -- A refresh raises exactly where its fetch ends in a failure, and the store holds no snapshot or the failure is no
  -- domain error; or where a store that holds nothing is told that nothing changed, which is an assertion error. It
  -- then raises the failure of the fetch, or that error, and leaves the store as it was.
  pub refresh-Fails_iff :
      (store next : SnapshotStore) (network : Network) (now : ℕ) (failure : Failure)
      → (refresh env verification store network now ≡ (err failure, next)) ↔ (
          (next ≡ store)
          × Fails store.current
              (fetch env verification network (etag_of store.current) now)
              failure)
  unfolding refresh
  refresh-Fails_iff store next network now failure =
      let fetched = fetch env verification network (etag_of store.current) now in
      (
        settle-Fails store next store.current fetched now failure,
        λ f.
            settle-of_Fails store store.current fetched now failure f.1
            ∙ ap (λ s. (err failure, s)) (sym f.0),
      )

  loaded_at_now :
      (body : Json) (etag : Option String) (now : ℕ) (l : LoadedSnapshot)
      → load_snapshot_document env body etag verification now ≡ ok l
      → l.loaded_at ≡ now
  unfolding load_snapshot_document load_object
  loaded_at_now (obj document) etag now l h =
      let (_, _, h₁) =
        >>=-eq-ok (version_failure (require_supported (get "contract_version" document))) _ h in
      let (_, _, h₂) = >>=-eq-ok (validate_deployment_snapshot env.schemas document) _ h₁ in
      let (_, h₃) =
        guard-eq-ok
          (verify_digest env.sha256_hex snapshot_digest_excluded document
            (declared_digest (get "snapshot_digest" document)))
          (tool_layer snapshot_integrity_failed) _ h₂ in
      let (_, _, h₄) = >>=-eq-ok (check_producer env verification document) _ h₃ in
      let (snapshot, _, h₅) = >>=-eq-ok (validate_model env document) _ h₄ in
      let (_, _, h₆) = >>=-eq-ok (check_connectors snapshot.connectors) _ h₅ in
      let (_, _, h₇) = >>=-eq-ok (index_snapshot snapshot) _ h₆ in ground arith
  loaded_at_now _ etag now l h = cc

  load_body-loaded_at :
      (body : Option Json) (etag : Option String) (now : ℕ) (l : LoadedSnapshot)
      → load_body env verification body etag now ≡ ok (some l)
      → l.loaded_at ≡ now
  load_body-loaded_at none etag now l h = cc
  load_body-loaded_at (some body) etag now l h =
      let (loaded, from_body, e) =
        >>=-eq-ok (load_snapshot_document env body etag verification now) _ h in
      let same : loaded ≡ l = ground arith in
      rw (← same) (loaded_at_now body etag now loaded from_body)

  read_reply-loaded_at :
      (reply : Reply) (now : ℕ) (l : LoadedSnapshot)
      → read_reply env verification reply now ≡ ok (some l)
      → l.loaded_at ≡ now
  unfolding read_reply
  read_reply-loaded_at unreachable now l h = cc
  read_reply-loaded_at (response status etag body) now l h =
      ground (arith, load_body-loaded_at body etag now l)

  settle_age :
      (store next : SnapshotStore) (held : Option LoadedSnapshot)
      (r : Result (Option LoadedSnapshot)) (now : ℕ) (l : LoadedSnapshot)
      → ((x : LoadedSnapshot) → r ≡ ok (some x) → x.loaded_at ≡ now)
      → settle env verification store held r now ≡ (ok l, next)
      → (l.loaded_at ≡ now)
        ⊎ ((code : ErrorCode) × (r ≡ err (tool_layer code)) × (held ≡ some l) × (next ≡ store))
  unfolding settle
  settle_age store next none (err e) now l new h = cc
  settle_age store next (some x) (err (tool_layer code)) now l new h =
      inr (code, refl, ground arith, ground arith)
  settle_age store next (some x) (err _) now l new h = cc
  settle_age store next none (ok none) now l new h = cc
  settle_age store next (some x) (ok none) now l new h = inl (ground arith)
  settle_age store next held (ok (some x)) now l new h = inl (ground (arith, new x refl))

  fresh-eq-some :
      (held : Option LoadedSnapshot) (seconds now : ℕ) (l : LoadedSnapshot)
      → fresh held seconds now ≡ some l
      → now - l.loaded_at < seconds * nanoseconds
  fresh-eq-some none seconds now l h = cc
  fresh-eq-some (some x) seconds now l h =
      elim (Bool-cases (ltb (now - x.loaded_at) (seconds * nanoseconds))) [
        | inl young ↦
            let e : some x ≡ some l = rw young at h in
            let same : x ≡ l = ground arith in rw (← same) (ltb→lt _ _ young)
        | inr old ↦ absurd (ground arith)
      ]

  or_refresh_age :
      (store next : SnapshotStore) (young : Option LoadedSnapshot) (network : Network) (now : ℕ)
      (l : LoadedSnapshot)
      → 0 < store.refresh_seconds
      → ((x : LoadedSnapshot)
          → young ≡ some x
          → now - x.loaded_at < store.refresh_seconds * nanoseconds)
      → or_refresh env verification young store network now ≡ (ok l, next)
      → (now - l.loaded_at < store.refresh_seconds * nanoseconds)
        ⊎ ((code : ErrorCode) × (fetch env verification network (etag_of store.current) now
              ≡ err (tool_layer code))
            × (store.current ≡ some l)
            × (next ≡ store))
  unfolding refresh fetch
  or_refresh_age store next (some x) network now l positive age h =
      let same : x ≡ l = ground arith in inl (rw (← same) (age x refl))
  or_refresh_age store next none network now l positive age h =
      elim (settle_age store next store.current
        (fetch env verification network (etag_of store.current) now) now l
        (read_reply-loaded_at (network (header_value (etag_of store.current))) now) h) [
          | inl new ↦ inl (rw new (omega arith))
          | inr kept ↦ inr kept
        ]

  -- A served snapshot is less than one refresh interval old, or the store kept it because this very
  -- refresh ended in a domain error.
  pub ensure_fresh_age :
      (store next : SnapshotStore) (network : Network) (now : ℕ) (l : LoadedSnapshot)
      → 0 < store.refresh_seconds
      → ensure_fresh env verification store network now ≡ (ok l, next)
      → (now - l.loaded_at < store.refresh_seconds * nanoseconds)
        ⊎ ((code : ErrorCode) × (fetch env verification network (etag_of store.current) now
              ≡ err (tool_layer code))
            × (store.current ≡ some l)
            × (next ≡ store))
  unfolding ensure_fresh
  ensure_fresh_age store next network now l positive h =
      or_refresh_age store next (fresh store.current store.refresh_seconds now) network now l
        positive (fresh-eq-some store.current store.refresh_seconds now) h
