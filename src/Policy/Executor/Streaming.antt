-- ===== src/Policy/Executor/Streaming.antt =====
-- The streamed reading of a response in executor.py: what it collects, and that it ends.
use toollayer_ai.Base.{
  ℕ, zero, suc, ◌+◌, ◌≤◌, ◌<◌, ◌≡◌, refl, sym, subst, ap, ◌∙◌, ◌⊎◌, inl, inr, String, Option, none,
  some, [], ◌∷◌, ◌++◌, leb, length, length-append, arith, Bool-cases, if◌then◌else◌,
}
use mathlib.Core.List.{append_assoc, append-nil}
use toollayer_ai.Json.{ℤ}
use toollayer_ai.Contracts.Errors.{
  tool_layer, upstream_timeout, response_too_large, Result, ok, err,
}
use toollayer_ai.Policy.Destinations.{unavailable}
use toollayer_ai.Contracts.Signing.{Bytes}
use toollayer_ai.Policy.Arguments.{PreparedRequest}
use toollayer_ai.Policy.Executor.{
  ExecutionLimits, Headers, Event, chunk, finished, timed_out, broken, Exchange, answered,
  unanswered, unreachable, take_bytes, read_body, declared_length_exceeds, with_status, with_agent,
  Client, Response, receive, httpx_send,
}

abbrev bytes_of : Event → Bytes
bytes_of (chunk bytes) = bytes
bytes_of _ = []

-- The bytes of `k` readings from reading `i` on.
pub received : ℕ → (ℕ → Event) → ℕ → Bytes
received zero body i = []
received (suc k) body i = bytes_of (body i) ++ received k body (suc i)

-- The bytes are the whole body, which is shorter than `ceiling`.
abbrev pub IsWhole : ℕ → (ℕ → Event) → Bytes → Type 0
IsWhole ceiling body bytes =
    (k : ℕ) × (bytes ≡ received k body 0) × (body k ≡ finished) × (length bytes < ceiling)

-- The bytes are the first `ceiling` bytes of the body.
abbrev pub IsCut : ℕ → (ℕ → Event) → Bytes → Type 0
IsCut ceiling body bytes =
    (k : ℕ) × (bytes ≡ take_bytes ceiling (received k body 0)) × (length bytes ≡ ceiling)

length-take_bytes : (n : ℕ) (bytes : Bytes) → n ≤ length bytes → length (take_bytes n bytes) ≡ n
unfolding take_bytes
length-take_bytes zero bytes h = refl
length-take_bytes (suc n) [] h = absurd (omega arith)
length-take_bytes (suc n) (byte ∷ bytes) h = omega (arith, length-take_bytes n bytes)

-- What the loop gives from reading `i` on, after `collected`.
abbrev Outcome : ℕ → ℕ → (ℕ → Event) → Bytes → Bytes → Type 0
Outcome ceiling i body collected bytes =
    ((k : ℕ) × (bytes ≡ collected ++ received k body i)
      × (body (i + k) ≡ finished)
      × (length bytes < ceiling))
    ⊎ ((k : ℕ) × (bytes ≡ take_bytes ceiling (collected ++ received k body i))
        × (length bytes ≡ ceiling))

received-chunk :
    (k i : ℕ) (body : ℕ → Event) (more : Bytes)
    → body i ≡ chunk more
    → received (suc k) body i ≡ more ++ received k body (suc i)
unfolding received
received-chunk k i body more e = ap (λ event. bytes_of event ++ received k body (suc i)) e

-- An outcome of the readings that follow a chunk is one of the readings from the chunk on.
Outcome-chunk :
    (ceiling i : ℕ) (body : ℕ → Event) (collected more bytes : Bytes)
    → body i ≡ chunk more
    → Outcome ceiling (suc i) body (collected ++ more) bytes
    → Outcome ceiling i body collected bytes
Outcome-chunk ceiling i body collected more bytes e (inl (k, same, end, small)) =
    let place : i + suc k ≡ suc i + k = omega arith in
    inl (
      suc k,
      same
          ∙ append_assoc collected more (received k body (suc i))
          ∙ ap (λ t. collected ++ t) (sym (received-chunk k i body more e)),
      ap body place ∙ end,
      small,
    )
Outcome-chunk ceiling i body collected more bytes e (inr (k, same, full)) = inr (
  suc k,
  same
      ∙ ap (take_bytes ceiling) (
          append_assoc collected more (received k body (suc i))
          ∙ ap (λ t. collected ++ t) (sym (received-chunk k i body more e))),
  full,
)

read_body-Outcome :
    (fuel i ceiling : ℕ) (body : ℕ → Event) (collected bytes : Bytes)
    → length collected < ceiling
    → read_body fuel i ceiling body collected ≡ some (ok bytes)
    → Outcome ceiling i body collected bytes
unfolding read_body received
read_body-Outcome zero i ceiling body collected bytes small h = cc
read_body-Outcome (suc fuel) i ceiling body collected bytes small h =
    go (body i) refl (λ more. read_body-Outcome fuel (suc i) ceiling body (collected ++ more) bytes)
  where
    go :
        (event : Event)
        → body i ≡ event
        → ((more : Bytes)
            → length (collected ++ more) < ceiling
            → read_body fuel (suc i) ceiling body (collected ++ more) ≡ some (ok bytes)
            → Outcome ceiling (suc i) body (collected ++ more) bytes)
        → Outcome ceiling i body collected bytes
    go (chunk more) e later =
        let h₁ : (if leb ceiling (length (collected ++ more))
              then some (ok (take_bytes ceiling (collected ++ more)))
              else read_body fuel (suc i) ceiling body (collected ++ more))
            ≡ some (ok bytes) =
          rw (e, read_body) at h in
        elim (Bool-cases (leb ceiling (length (collected ++ more)))) [
          | inl full ↦
              let cut : bytes ≡ take_bytes ceiling (collected ++ more) = ground arith in
              let one : collected ++ more ≡ collected ++ received 1 body i =
                ap (λ t. collected ++ t) (sym (received-chunk 0 i body more e ∙ append-nil more)) in
              inr (
                1,
                cut ∙ ap (take_bytes ceiling) one,
                rw cut (length-take_bytes ceiling (collected ++ more) (ground arith)),
              )
          | inr room ↦
              Outcome-chunk ceiling i body collected more bytes e
                (later more (ground arith) (rw room at h₁))
        ]
    go finished e later =
        let same : bytes ≡ collected =
          (let h₁ : some (ok collected) ≡ some (ok bytes) = rw (e, read_body) at h in
            ground arith) in
        let place : i + 0 ≡ i = omega arith in
        inl (0, same ∙ sym (append-nil collected), ap body place ∙ e, rw same small)
    go timed_out e later =
        let h₁ : some (err (tool_layer upstream_timeout)) ≡ some (ok bytes) =
          rw (e, read_body) at h in
        cc
    go broken e later =
        let h₁ : some (err unavailable) ≡ some (ok bytes) = rw (e, read_body) at h in cc

-- The loop ends, where each chunk has a byte, within one more reading than the bytes that are left.
read_body_total :
    (fuel i ceiling : ℕ) (body : ℕ → Event) (collected : Bytes)
    → ((n : ℕ) (more : Bytes) → body n ≡ chunk more → 0 < length more)
    → length collected < ceiling
    → ceiling < length collected + fuel
    → (result : Result Bytes) × (read_body fuel i ceiling body collected ≡ some result)
unfolding read_body
read_body_total zero i ceiling body collected full small enough = absurd (omega arith)
read_body_total (suc fuel) i ceiling body collected full small enough =
    go (body i) refl (λ more. read_body_total fuel (suc i) ceiling body (collected ++ more) full)
  where
    go :
        (event : Event)
        → body i ≡ event
        → ((more : Bytes)
            → length (collected ++ more) < ceiling
            → ceiling < length (collected ++ more) + fuel
            → (result : Result Bytes) × (read_body fuel (suc i) ceiling body (collected ++ more)
                ≡ some result))
        → (result : Result Bytes) × (read_body (suc fuel) i ceiling body collected ≡ some result)
    go (chunk more) e later = elim (Bool-cases (leb ceiling (length (collected ++ more)))) [
      | inl full ↦ (ok (take_bytes ceiling (collected ++ more)), rw (e, read_body) (rw full refl))
      | inr room ↦
          let grown = full i more e in
          let (result, read) =
            later more (ground arith) (omega (arith, length-append collected more, grown)) in
          (result, rw (e, read_body) (rw room read))
    ]
    go finished e later = (ok collected, rw (e, read_body))
    go timed_out e later = (err (tool_layer upstream_timeout), rw (e, read_body))
    go broken e later = (err unavailable, rw (e, read_body))

abbrev response_of : Response → Option (Result Response) → Response
response_of before (some (ok response)) = response
response_of before _ = before

with_status-eq-ok :
    (status : ℕ) (headers : Headers) (read : Option (Result Bytes)) {response : Response}
    → with_status status headers read ≡ some (ok response)
    → (bytes : Bytes) × (read ≡ some (ok bytes)) × (response ≡ (status, headers, bytes))
with_status-eq-ok status headers none h = cc
with_status-eq-ok status headers (some (err failure)) h = ground arith
with_status-eq-ok status headers (some (ok bytes)) h =
    (bytes, refl, sym (ap (response_of (status, headers, bytes)) h))

-- The bytes are those of the answer that the exchange is.
abbrev pub IsRead : ExecutionLimits → Exchange → Response → Type 0
IsRead limits exchange response =
    (body : ℕ → Event) × (exchange ≡ answered response.0 response.1 body)
    × (IsWhole (suc limits.max_response_bytes) body response.2
        ⊎ IsCut (suc limits.max_response_bytes) body response.2)

from_start :
    (ceiling : ℕ) (body : ℕ → Event) (bytes : Bytes)
    → Outcome ceiling 0 body [] bytes
    → IsWhole ceiling body bytes ⊎ IsCut ceiling body bytes
from_start ceiling body bytes (inl (k, same, end, small)) =
    let place : k ≡ 0 + k = omega arith in inl (k, same, ap body place ∙ end, small)
from_start ceiling body bytes (inr cut) = inr cut

receive-IsRead :
    (fuel : ℕ) (read_int : String → Option ℤ) (limits : ExecutionLimits) (exchange : Exchange)
    (response : Response)
    → receive fuel read_int limits exchange ≡ some (ok response)
    → IsRead limits exchange response
unfolding receive
receive-IsRead fuel read_int limits (answered status headers body) response h =
    elim (Bool-cases (declared_length_exceeds read_int headers limits.max_response_bytes)) [
      | inl over ↦
          let bad : some (err (tool_layer response_too_large)) ≡ some (ok response) =
            rw over at h in
          cc
      | inr fits ↦
          let (bytes, read, same) = with_status-eq-ok status headers _ (rw fits at h) in
          let ceiling = suc limits.max_response_bytes in
          let outcome = read_body-Outcome fuel 0 ceiling body [] bytes (omega arith) read in
          subst (IsRead limits (answered status headers body)) (sym same)
            (body, refl, from_start ceiling body bytes outcome)
    ]
receive-IsRead fuel read_int limits unanswered response h = ground arith
receive-IsRead fuel read_int limits unreachable response h = ground arith

-- What the request meets, with the header that `send` adds.
abbrev pub exchange : Client → PreparedRequest → Exchange
exchange client request = client (record request { headers = with_agent request.headers })

-- A response that `send` returns has the status and headers of an answer, and its bytes are the whole body, of at
-- most `max_response_bytes`, or the first `max_response_bytes + 1` bytes of a body that has more.
pub httpx_send-IsRead :
    (fuel : ℕ) (read_int : String → Option ℤ) (client : Client) (limits : ExecutionLimits)
    (request : PreparedRequest) (response : Response)
    → httpx_send fuel read_int client limits request ≡ some (ok response)
    → IsRead limits (exchange client request) response
unfolding httpx_send
httpx_send-IsRead fuel read_int client limits request response h =
    receive-IsRead fuel read_int limits (exchange client request) response h

-- Each chunk of an answer has a byte.
abbrev pub HasChunks : Exchange → Type 0
HasChunks (answered status headers body) =
    (n : ℕ) (more : Bytes) → body n ≡ chunk more → 0 < length more
HasChunks _ = Unit

receive_total :
    (read_int : String → Option ℤ) (limits : ExecutionLimits) (exchange : Exchange)
    → HasChunks exchange
    → (result : Result Response) × (receive (limits.max_response_bytes + 2) read_int limits exchange
        ≡ some result)
unfolding receive
receive_total read_int limits (answered status headers body) full =
    let fuel = limits.max_response_bytes + 2 in
    let (read, e) =
      read_body_total fuel 0 (suc limits.max_response_bytes) body [] full (omega arith)
        (omega arith) in
    elim (Bool-cases (declared_length_exceeds read_int headers limits.max_response_bytes)) [
      | inl over ↦ (err (tool_layer response_too_large), rw over refl)
      | inr fits ↦ rw fits (rw e (finish read))
    ]
  where
    finish :
        (read : Result Bytes)
        → (result : Result Response) × (with_status status headers (some read) ≡ some result)
    finish (err failure) = (err failure, refl)
    finish (ok bytes) = (ok (status, headers, bytes), refl)
receive_total read_int limits unanswered full = (err (tool_layer upstream_timeout), refl)
receive_total read_int limits unreachable full = (err unavailable, refl)

-- The reading of a response ends, even where its body does not: where each chunk has a byte, two more readings than
-- the limit has bytes are enough for `send` to return or raise.
pub httpx_send_total :
    (read_int : String → Option ℤ) (client : Client) (limits : ExecutionLimits)
    (request : PreparedRequest)
    → HasChunks (exchange client request)
    → (result : Result Response) × (httpx_send
          (limits.max_response_bytes + 2)
          read_int
          client
          limits
          request
        ≡ some result)
unfolding httpx_send
httpx_send_total read_int client limits request full =
    receive_total read_int limits (exchange client request) full
