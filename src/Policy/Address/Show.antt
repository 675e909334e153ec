-- ===== src/Policy/Address/Show.antt =====
-- `str` of an address, as `_resolved_addresses` gives the text of a literal.
use toollayer_ai.Base.{
  ℕ, suc, ◌+◌, ◌/◌, ◌%◌, String, not, Option, none, some, List, [], ◌∷◌, ◌++◌, ltb, eqb, ◌==◌,
  length, if◌then◌else◌,
}
use toollayer_ai.Contracts.CanonicalJson.{◌⧺◌}
use toollayer_ai.Policy.Address.{Address, v4, v6, show_v4, show_hextet, is_nil, take, drop}

-- `_string_from_ip_int`: the longest run of zeros so far and the run at hand, each as its place and length.
record Runs : Type 0 where
  best_start : ℕ
  best_length : ℕ
  start : ℕ
  run_length : ℕ

next_run : ℕ → String → Runs → Runs
next_run i text runs =
    let start = if eqb runs.run_length 0 then i else runs.start in
    let run_length = runs.run_length + 1 in
    if not (text == "0")
    then record runs { start = 0; run_length = 0 }
    else if ltb runs.best_length run_length
    then record {
      best_start = start;
      best_length = run_length;
      start = start;
      run_length = run_length;
    }
    else record runs { start = start; run_length = run_length }

scan_runs : ℕ → List String → Runs → Runs
scan_runs i [] runs = runs
scan_runs i (x ∷ xs) runs = scan_runs (suc i) xs (next_run i x runs)

-- `_compress_hextets`
compress : List String → List String
unfolding next_run scan_runs take drop
compress hextets =
    let runs =
      scan_runs 0 hextets (record { best_start = 0; best_length = 0; start = 0; run_length = 0 }) in
    let stop = runs.best_start + runs.best_length in
    let before = take runs.best_start hextets in
    let after = drop stop hextets in
    let front = if eqb runs.best_start 0 then "" ∷ before else before in
    let back = if eqb stop (length hextets) then after ++ ("" ∷ []) else after in
    if ltb 1 runs.best_length then front ++ ("" ∷ back) else hextets

join_colon : List String → String
join_colon [] = ""
join_colon (x ∷ xs) = let rest = join_colon xs in if is_nil xs then x else x ⧺ (":" ⧺ rest)

hextets_of : ℕ → ℕ → List String
unfolding show_hextet
hextets_of ℕ.zero n = []
hextets_of (suc k) n = hextets_of k (n / 65536) ++ (show_hextet (n % 65536) ∷ [])

abbrev with_scope : String → Option String → String
with_scope text none = text
with_scope text (some scope) = text ⧺ ("%" ⧺ scope)

-- `str(address)`
unfoldable pub show_address : Address → String
unfolding show_v4 compress join_colon hextets_of
show_address (v4 n) = show_v4 n
show_address (v6 n scope) = with_scope (join_colon (compress (hextets_of 8 n))) scope
