-- ===== src/Runtime/Store/Reach.antt =====
-- Every snapshot that a runtime serves was verified, over any sequence of requests and refreshes
-- against any network.
use toollayer_ai.Base.{ℕ, ◌≡◌, refl, subst, String, Option, none, some, arith}
use toollayer_ai.Json.{Json, Fields}
use toollayer_ai.Contracts.Errors.{tool_layer, Result, ok, err, >>=-eq-ok}
use toollayer_ai.Runtime.Snapshot.{
  LoadedSnapshot, SnapshotVerification, Environment, load_snapshot_document,
}
use toollayer_ai.Runtime.Snapshot.Loading.{IsVerified, load_snapshot_document-IsVerified}
use toollayer_ai.Runtime.Store.{
  Reply, unreachable, response, Network, header_value, SnapshotStore, new_store, etag_of, load_body,
  read_reply, fetch, settle, refresh, fresh, or_refresh, ensure_fresh,
}

module _ (env : Environment) (verification : SnapshotVerification) where
  -- Some document passed every check and is what this snapshot was loaded from.
  abbrev pub WasVerified : LoadedSnapshot → Type 0
  WasVerified l = (document : Fields) × IsVerified env verification document l

  WasVerified-loaded_at :
      (l : LoadedSnapshot) (now : ℕ) → WasVerified l → WasVerified (record l { loaded_at = now })
  WasVerified-loaded_at l now (document, v) = (
    document,
    record {
      version = v.version;
      declared = v.declared;
      major_line = v.major_line;
      not_newer = v.not_newer;
      valid = v.valid;
      intact = v.intact;
      accepted = v.accepted;
      model = v.model;
      connectors_checked = v.connectors_checked;
      snapshot_checked = v.snapshot_checked;
      indexed = v.indexed;
    },
  )

  -- What a store holds, if it holds a snapshot, was verified.
  abbrev pub Sound : Option LoadedSnapshot → Type 0
  Sound none = Unit
  Sound (some l) = WasVerified l

  load_body-WasVerified :
      (body : Option Json) (etag : Option String) (now : ℕ) (l : LoadedSnapshot)
      → load_body env verification body etag now ≡ ok (some l)
      → WasVerified l
  load_body-WasVerified none etag now l h = cc
  load_body-WasVerified (some body) etag now l h =
      let (loaded, from_body, e) =
        >>=-eq-ok (load_snapshot_document env body etag verification now) _ h in
      let same : loaded ≡ l = ground arith in
      let (fields, _, v) =
        load_snapshot_document-IsVerified env verification body etag now loaded from_body in
      rw (← same) (fields, v)

  Fetched : Result (Option LoadedSnapshot) → Type 0
  Fetched r = (l : LoadedSnapshot) → r ≡ ok (some l) → WasVerified l

  read_reply-WasVerified :
      (reply : Reply) (now : ℕ) → Fetched (read_reply env verification reply now)
  unfolding read_reply Fetched
  read_reply-WasVerified unreachable now l h = cc
  read_reply-WasVerified (response status etag body) now l h =
      load_body-WasVerified body etag now l (ground arith)

  -- A call leaves a sound store and serves, if it serves one, a verified snapshot.
  abbrev pub SoundCall : Result LoadedSnapshot × SnapshotStore → Type 0
  SoundCall (r, t) = Sound t.current × ((l : LoadedSnapshot) → r ≡ ok l → WasVerified l)

  settle-Sound :
      (store : SnapshotStore) (held : Option LoadedSnapshot) (r : Result (Option LoadedSnapshot))
      (now : ℕ)
      → store.current ≡ held
      → Sound held
      → Fetched r
      → SoundCall (settle env verification store held r now)
  unfolding settle Fetched
  settle-Sound store none (err e) now at s f = (rw at tt, λ l h. cc h)
  settle-Sound store (some x) (err (tool_layer code)) now at s f =
      (rw at s, λ l h. let same : x ≡ l = ground arith in rw (← same) s)
  settle-Sound store (some x) (err _) now at s f = (rw at s, λ l h. cc h)
  settle-Sound store none (ok none) now at s f = (rw at tt, λ l h. cc h)
  settle-Sound store (some x) (ok none) now at s f =
      let moved = WasVerified-loaded_at x now s in
      (
        moved,
        λ l h. let same : record x { loaded_at = now } ≡ l = ground arith in rw (← same) moved,
      )
  settle-Sound store held (ok (some x)) now at s f =
      (f x refl, λ l h. let same : x ≡ l = ground arith in rw (← same) (f x refl))

  -- One call on the store: it answers with a result and leaves a store.
  pub data Step (s : SnapshotStore) (r : Result LoadedSnapshot) (t : SnapshotStore) : Type 0 where
    refreshed :
        (network : Network) (now : ℕ) → refresh env verification s network now ≡ (r, t) → Step s r t
    ensured :
        (network : Network) (now : ℕ)
        → ensure_fresh env verification s network now ≡ (r, t)
        → Step s r t

  -- The stores of a running service: a new one, and what calls on it leave.
  pub data Reach : SnapshotStore → Type 0 where
    start : (seconds : ℕ) → Reach (new_store seconds)
    next : {s t : SnapshotStore} {r : Result LoadedSnapshot} → Reach s → Step s r t → Reach t

  refresh-Sound :
      (s : SnapshotStore) (network : Network) (now : ℕ)
      → Sound s.current
      → SoundCall (refresh env verification s network now)
  unfolding refresh fetch Fetched
  refresh-Sound s network now sound =
      settle-Sound s s.current (fetch env verification network (etag_of s.current) now) now refl
        sound (read_reply-WasVerified (network (header_value (etag_of s.current))) now)

  fresh-Sound :
      (held : Option LoadedSnapshot) (seconds now : ℕ) (l : LoadedSnapshot)
      → Sound held
      → fresh held seconds now ≡ some l
      → WasVerified l
  fresh-Sound none seconds now l sound h = cc
  fresh-Sound (some x) seconds now l sound h = let same : x ≡ l = ground arith in rw (← same) sound

  or_refresh-Sound :
      (s : SnapshotStore) (young : Option LoadedSnapshot) (network : Network) (now : ℕ)
      → Sound s.current
      → ((l : LoadedSnapshot) → young ≡ some l → WasVerified l)
      → SoundCall (or_refresh env verification young s network now)
  or_refresh-Sound s none network now sound young = refresh-Sound s network now sound
  or_refresh-Sound s (some x) network now sound young =
      (sound, λ l h. let same : x ≡ l = ground arith in rw (← same) (young x refl))

  ensure_fresh-Sound :
      (s : SnapshotStore) (network : Network) (now : ℕ)
      → Sound s.current
      → SoundCall (ensure_fresh env verification s network now)
  unfolding ensure_fresh
  ensure_fresh-Sound s network now sound =
      or_refresh-Sound s (fresh s.current s.refresh_seconds now) network now sound
        (λ l h. fresh-Sound s.current s.refresh_seconds now l sound h)

  Step-Sound :
      {s t : SnapshotStore} {r : Result LoadedSnapshot}
      → Step s r t
      → Sound s.current
      → SoundCall (r, t)
  Step-Sound {s} (refreshed network now e) sound =
      subst SoundCall e (refresh-Sound s network now sound)
  Step-Sound {s} (ensured network now e) sound =
      subst SoundCall e (ensure_fresh-Sound s network now sound)

  Reach-Sound : {s : SnapshotStore} → Reach s → Sound s.current
  Reach-Sound (start seconds) = tt
  Reach-Sound (next r step) = (Step-Sound step (Reach-Sound r)).0

  -- In a running service, whatever the network answered so far and answers now, every snapshot that a
  -- call on the store serves was loaded from a document that passed every check.
  pub Reach-serves-WasVerified :
      {s t : SnapshotStore} (l : LoadedSnapshot) → Reach s → Step s (ok l) t → WasVerified l
  Reach-serves-WasVerified l r step = (Step-Sound step (Reach-Sound r)).1 l refl
