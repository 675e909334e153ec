-- ===== src/Policy/Address/Bounds.antt =====
-- The numbers of addresses: `ip_address` gives one of 32 bits for IPv4, and of 128 bits for IPv6.
use Prim.Native.Char.{code}
use Prim.Native.String.{count}
use native.Mathlib.Nat.{pow-suc, pow-zero, one-le-pow, mul-le-mul_left, mul-le-mul_right}
use toollayer_ai.Base.{
  ℕ, zero, suc, ◌+◌, ◌-◌, ◌*◌, ◌^◌, ◌≤◌, ◌<◌, ◌≡◌, refl, sym, ap, subst, ◌∙◌, inl, inr, String,
  Bool, true, false, not, ◌&&◌, ◌||◌, Option, none, some, List, [], ◌∷◌, arith, length, eqb, ltb,
  ◌==◌, Bool-cases, Option-cases, if◌then◌else◌,
}
use text.Mathlib.TextLemmas.{length-cons}
use toollayer_ai.Contracts.Models.{has_char}
use toollayer_ai.Policy.Address.{
  Address, v4, v6, split_on, parse_octet, all_octets, four_octets, parse_v4, hex_value, hex_from,
  parse_hextet, empty_places, with_suffix, partition, first_text, last_text, hextets_from, take,
  drop, assemble, value_of, value_of_parts, parse_v6_number, parse_v6, scoped, ip_address,
}

abbrev pub IsBounded : Address → Type 0
IsBounded (v4 n) = n < 2 ^ 32
IsBounded (v6 n scope) = n < 2 ^ 128

abbrev pub or_else : Address → Option Address → Address
or_else a none = a
or_else a (some b) = b

pow-add : (b i j : ℕ) → b ^ (i + j) ≡ b ^ i * b ^ j
pow-add b i zero = let e : i + 0 ≡ i = omega arith in rw e (rw (pow-zero b) (omega arith))
pow-add b i (suc j) =
    let e : i + suc j ≡ suc (i + j) = omega arith in
    rw e (rw (pow-suc b (i + j)) (rw (pow-suc b j) (rw (pow-add b i j) (omega arith))))

parse_octet-lt : (text : String) {n : ℕ} → parse_octet text ≡ some n → n < 256
unfolding parse_octet
parse_octet-lt text h = ground arith

all_octets-lt :
    (a b c d : Option ℕ) {n : ℕ}
    → ((m : ℕ) → a ≡ some m → m < 256)
    → ((m : ℕ) → b ≡ some m → m < 256)
    → ((m : ℕ) → c ≡ some m → m < 256)
    → ((m : ℕ) → d ≡ some m → m < 256)
    → all_octets a b c d ≡ some n
    → n < 2 ^ 32
all_octets-lt (some a) (some b) (some c) (some d) ha hb hc hd h =
    ground (arith, ha a refl, hb b refl, hc c refl, hd d refl)
all_octets-lt _ _ _ _ ha hb hc hd h = ground arith

four_octets-lt : (parts : List String) {n : ℕ} → four_octets parts ≡ some n → n < 2 ^ 32
four_octets-lt (a ∷ b ∷ c ∷ d ∷ []) h =
    all_octets-lt (parse_octet a) (parse_octet b) (parse_octet c) (parse_octet d)
      (λ m. parse_octet-lt a) (λ m. parse_octet-lt b) (λ m. parse_octet-lt c)
      (λ m. parse_octet-lt d) h
four_octets-lt _ h = ground arith

parse_v4-lt : (text : String) {n : ℕ} → parse_v4 text ≡ some n → n < 2 ^ 32
unfolding parse_v4
parse_v4-lt text {n} h = elim (Bool-cases (has_char b'/' text)) [
  | inl slash ↦ let e : none ≡ some n = rw slash at h in cc
  | inr plain ↦ four_octets-lt (split_on b'.' text) (rw plain at h)
]

-- A digit in base `b` keeps the number below the next power.
step_lt : (b n d : ℕ) → d < b → n * b + d + 1 ≤ (n + 1) * b
step_lt b n d h = grind arith

hex_value-lt : (c : ℕ) {d : ℕ} → hex_value c ≡ some d → d < 16
hex_value-lt c h = ground arith

hex_from-none : (s : String) → hex_from none s ≡ none
unfolding hex_from
hex_from-none String.[] = refl
hex_from-none (String.◌∷◌ c s) = refl

-- A number below `p` in base `b` leaves room for `q` digits.
room : (b n d p : ℕ) {m : ℕ} → d < b → m < (n * b + d + 1) * p → m < (n + 1) * (p * b)
room b n d p small h = omega (arith, mul-le-mul_right p (step_lt b n d small))

below_power : (b k n : ℕ) → 0 < b → n < (n + 1) * b ^ k
below_power b k n pos = omega (arith, mul-le-mul_left (n + 1) (one-le-pow k b pos))

hex_from-lt :
    (k n : ℕ) (s : String) {m : ℕ}
    → count s ≤ k
    → hex_from (some n) s ≡ some m
    → m < (n + 1) * 16 ^ k
unfolding hex_from
hex_from-lt k n String.[] {m} small h =
    let e : m ≡ n = ground arith in rw e (below_power 16 k n (omega arith))
hex_from-lt zero n (String.◌∷◌ c s) small h = absurd (omega (arith, length-cons c s))
hex_from-lt (suc k) n (String.◌∷◌ c s) {m} small h =
    let fits : count s ≤ k = omega (arith, length-cons c s) in
    rw (pow-suc 16 k) (elim (Option-cases (hex_value (code c))) [
      | inl e ↦ let stuck : none ≡ some m = sym (hex_from-none s) ∙ (rw e at h) in cc
      | inr (d, e) ↦
          room 16 n d (16 ^ k) (hex_value-lt (code c) e)
            (hex_from-lt k (n * 16 + d) s fits (rw e at h))
    ])

parse_hextet-lt : (text : String) {n : ℕ} → parse_hextet text ≡ some n → n < 65536
unfolding parse_hextet
parse_hextet-lt text {n} h =
    let read : hex_from (some 0) text ≡ some n = ground arith in
    let fits : count text ≤ 4 = ground arith in omega (arith, hex_from-lt 4 0 text fits read)

hextets_from-none : (xs : List String) → hextets_from none xs ≡ none
unfolding hextets_from
hextets_from-none [] = refl
hextets_from-none (x ∷ xs) = refl

hextets_from-lt :
    (k n : ℕ) (xs : List String) {m : ℕ}
    → length xs ≤ k
    → hextets_from (some n) xs ≡ some m
    → m < (n + 1) * 65536 ^ k
unfolding hextets_from
hextets_from-lt k n [] {m} small h =
    let e : m ≡ n = ground arith in rw e (below_power 65536 k n (omega arith))
hextets_from-lt zero n (x ∷ xs) small h = absurd (omega arith)
hextets_from-lt (suc k) n (x ∷ xs) {m} small h =
    rw (pow-suc 65536 k) (elim (Option-cases (parse_hextet x)) [
      | inl e ↦ let stuck : none ≡ some m = sym (hextets_from-none xs) ∙ (rw e at h) in cc
      | inr (d, e) ↦
          room 65536 n d (65536 ^ k) (parse_hextet-lt x e)
            (hextets_from-lt k (n * 65536 + d) xs (omega arith) (rw e at h))
    ])

length-take : (n : ℕ) (xs : List String) → length (take n xs) ≤ n
unfolding take
length-take zero xs = omega arith
length-take (suc n) [] = omega arith
length-take (suc n) (x ∷ xs) = omega (arith, length-take n xs)

length-drop : (n : ℕ) (xs : List String) → length (drop n xs) ≡ length xs - n
unfolding drop
length-drop zero xs = omega arith
length-drop (suc n) [] = omega arith
length-drop (suc n) (x ∷ xs) = omega (arith, length-drop n xs)

-- Eight hextets: `hi` of them, a run of zeros, and `lo` of them.
eight : (hi lo : ℕ) → hi + lo ≤ 8 → 65536 ^ hi * 65536 ^ (8 - (hi + lo)) * 65536 ^ lo ≡ 65536 ^ 8
eight hi lo fits =
    let k = 8 - (hi + lo) in
    let sums : hi + k + lo ≡ 8 = omega arith in
    ap (λ t. t * 65536 ^ lo) (sym (pow-add 65536 hi k))
    ∙ sym (pow-add 65536 (hi + k) lo)
    ∙ ap (λ t. 65536 ^ t) sums

shifted_lt : (m n a k l : ℕ) → m < a → 0 < k → n < (m * k + 1) * l → n < a * k * l
shifted_lt m n a k l h pos less =
    let step : m * k + 1 ≤ a * k = omega (arith, mul-le-mul_right k h) in
    omega (arith, mul-le-mul_right l step)

assemble-lt :
    (parts : List String) (hi lo : ℕ) {n : ℕ}
    → hi + lo ≤ 8
    → assemble parts hi lo ≡ some n
    → n < 2 ^ 128
unfolding assemble
assemble-lt parts hi lo {n} fits h =
    let k = 8 - (hi + lo) in
    let rest = drop (length parts - lo) parts in
    elim (Option-cases (hextets_from (some 0) (take hi parts))) [
      | inl e ↦ let stuck : none ≡ some n = sym (hextets_from-none rest) ∙ (rw e at h) in cc
      | inr (m, e) ↦
          let first = hextets_from-lt hi 0 (take hi parts) (length-take hi parts) e in
          let last =
            hextets_from-lt lo (m * 65536 ^ k) rest
              (omega (arith, length-drop (length parts - lo) parts)) (rw e at h) in
          let whole =
            shifted_lt m n (65536 ^ hi) (65536 ^ k) (65536 ^ lo) (omega (arith, first))
              (one-le-pow k 65536 (omega arith)) last in
          rw (eight hi lo fits) at whole
    ]

-- A test that failed, and the value after it.
passed {ℓ} :
    {A : Type ℓ} (test : Bool) (value : Option A) {n : A}
    → (if test then none else value) ≡ some n
    → (test ≡ false) × (value ≡ some n)
passed true value h = cc
passed false value h = (refl, h)

value_of-lt :
    (parts : List String) (places : List ℕ) {n : ℕ} → value_of parts places ≡ some n → n < 2 ^ 128
unfolding value_of
value_of-lt parts [] h =
    let (_, h₁) = passed (not (eqb (length parts) 8)) _ h in
    let (_, h₂) = passed (first_text parts == "" || last_text parts == "") _ h₁ in
    assemble-lt parts 8 0 (omega arith) h₂
value_of-lt parts (skip ∷ []) h =
    let hi = if first_text parts == "" then skip - 1 else skip in
    let after = length parts - skip - 1 in
    let lo = if last_text parts == "" then after - 1 else after in
    let (_, h₁) = passed (first_text parts == "" && ltb 0 hi) _ h in
    let (_, h₂) = passed (last_text parts == "" && ltb 0 lo) _ h₁ in
    let (small, h₃) = passed (ltb 7 (hi + lo)) _ h₂ in
    assemble-lt parts hi lo (at_most (hi + lo) small) h₃
  where
    at_most : (t : ℕ) → ltb 7 t ≡ false → t ≤ 8
    at_most t small = ground arith
value_of-lt parts (skip ∷ other ∷ more) h = ground arith

value_of_parts-lt :
    (parts : Option (List String)) {n : ℕ} → value_of_parts parts ≡ some n → n < 2 ^ 128
value_of_parts-lt none h = ground arith
value_of_parts-lt (some parts) h =
    value_of-lt parts (empty_places 0 parts) (passed (ltb 9 (length parts)) _ h).1

parse_v6_number-lt : (text : String) {n : ℕ} → parse_v6_number text ≡ some n → n < 2 ^ 128
unfolding parse_v6_number
parse_v6_number-lt text h =
    value_of_parts-lt (with_suffix (split_on b':' text))
      (passed (text == "" || ltb (length (split_on b':' text)) 3) _ h).1

scoped-IsBounded :
    (scope : Option String) (value : Option ℕ) {a : Address}
    → ((n : ℕ) → value ≡ some n → n < 2 ^ 128)
    → scoped scope value ≡ some a
    → IsBounded a
scoped-IsBounded scope none all h = let bad : ⊥ = cc in absurd bad
scoped-IsBounded scope (some n) {a} all h =
    subst IsBounded (ap (or_else (v6 n scope)) h) (all n refl)

parse_v6-IsBounded : (text : String) {a : Address} → parse_v6 text ≡ some a → IsBounded a
unfolding parse_v6
parse_v6-IsBounded text h =
    let parts = partition b'%' text in
    let number = parse_v6_number parts.0 in
    let (_, h₁) = passed (has_char b'/' text) _ h in
    elim (Bool-cases (not parts.1)) [
      | inl e ↦ scoped-IsBounded none number (λ n. parse_v6_number-lt parts.0) (rw e at h₁)
      | inr e ↦
          let (_, h₂) = passed (parts.2 == "" || has_char b'%' parts.2) _ (rw e at h₁) in
          scoped-IsBounded (some parts.2) number (λ n. parse_v6_number-lt parts.0) h₂
    ]

pub ip_address-IsBounded : (text : String) {a : Address} → ip_address text ≡ some a → IsBounded a
unfolding ip_address
ip_address-IsBounded text {a} h = elim (Option-cases (parse_v4 text)) [
  | inl e ↦ parse_v6-IsBounded text (rw e at h)
  | inr (n, e) ↦
      let same : some (v4 n) ≡ some a = rw e at h in
      subst IsBounded (ap (or_else (v4 n)) same) (parse_v4-lt text e)
]
