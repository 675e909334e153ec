-- ===== src/Contracts/Models/Access.antt =====
-- What the validator of `ToolAccessPolicy` in models.py makes sure of.
use toollayer_ai.Base.{
  ◌≡◌, refl, ◌≢◌, ◌⊎◌, inl, inr, ◌↔◌, String, Bool, true, false, not, ◌&&◌, ◌||◌, List, [], ◌∷◌,
  arith, ◌==◌, eq_iff, All, In, IsDistinct, distinct, distinct→IsDistinct, Bool-cases, text_lt,
  text_lt_asymm, text_lt_trans, text_lt_cases,
}
use toollayer_ai.Contracts.Errors.{ok, value_error, guard-eq-ok}
use toollayer_ai.Contracts.Models.{
  is_resource_key, all_keys, insert_sorted, sorted, no_roles, ToolAccessPolicy, make_access_policy,
}

abbrev pub IsResourceKey : String → Type 0
IsResourceKey s = is_resource_key s ≡ true

-- Not after, in the order of texts.
abbrev NotAfter : String → String → Type 0
NotAfter x y = text_lt y x ≡ false

abbrev IsSorted : List String → Type 0
IsSorted [] = Unit
IsSorted (x ∷ xs) = All (NotAfter x) xs × IsSorted xs

-- Each text stands before all that follow.
abbrev pub IsAscending : List String → Type 0
IsAscending [] = Unit
IsAscending (x ∷ xs) = All (λ y. text_lt x y ≡ true) xs × IsAscending xs

In-insert_sorted : (x y : String) (ys : List String) → In x (insert_sorted y ys) → (y ≡ x) ⊎ In x ys
unfolding insert_sorted
In-insert_sorted x y [] i = i
In-insert_sorted x y (z ∷ ys) i = elim (Bool-cases (text_lt z y)) [
  | inl after ↦ elim (rw after at i) [
    | inl here ↦ inr (inl here)
    | inr there ↦ elim (In-insert_sorted x y ys there) [
      | inl new ↦ inl new
      | inr old ↦ inr (inr old)
    ]
  ]
  | inr here ↦ rw here at i
]

insert_sorted-In : (x y : String) (ys : List String) → (y ≡ x) ⊎ In x ys → In x (insert_sorted y ys)
unfolding insert_sorted
insert_sorted-In x y [] i = i
insert_sorted-In x y (z ∷ ys) (inl new) = elim (Bool-cases (text_lt z y)) [
  | inl after ↦ rw after (inr (insert_sorted-In x y ys (inl new)))
  | inr here ↦ rw here (inl new)
]
insert_sorted-In x y (z ∷ ys) (inr (inl first)) = elim (Bool-cases (text_lt z y)) [
  | inl after ↦ rw after (inl first)
  | inr here ↦ rw here (inr (inl first))
]
insert_sorted-In x y (z ∷ ys) (inr (inr old)) = elim (Bool-cases (text_lt z y)) [
  | inl after ↦ rw after (inr (insert_sorted-In x y ys (inr old)))
  | inr here ↦ rw here (inr (inr old))
]

pub In-sorted : (x : String) (xs : List String) → In x (sorted xs) ↔ In x xs
unfolding sorted
In-sorted x [] = (λ i. i, λ i. i)
In-sorted x (y ∷ ys) = (
  λ i. elim (In-insert_sorted x y (sorted ys) i) [
    | inl here ↦ inl here
    | inr there ↦ inr ((In-sorted x ys).0 there)
  ],
  λ i. elim i [
    | inl here ↦ insert_sorted-In x y (sorted ys) (inl here)
    | inr there ↦ insert_sorted-In x y (sorted ys) (inr ((In-sorted x ys).1 there))
  ],
)

-- A property of all elements by one of each member.
pub All-of_In {κ} :
    (P : String → Type κ) (xs : List String) → ((x : String) → In x xs → P x) → All P xs
All-of_In P [] h = tt
All-of_In P (x ∷ xs) h = (h x (inl refl), All-of_In P xs (λ y i. h y (inr i)))

pub In-of_All {κ} :
    (P : String → Type κ) (xs : List String) → All P xs → (x : String) → In x xs → P x
In-of_All P [] h x i = absurd i
In-of_All P (y ∷ ys) (p, h) x (inl e) = subst' P e p
  where
    subst' : (Q : String → Type κ) → y ≡ x → Q y → Q x
    subst' Q e q = rw (← e) q
In-of_All P (y ∷ ys) (p, h) x (inr i) = In-of_All P ys h x i

clash : {b : Bool} → b ≡ false → b ≡ true → ⊥
clash h k = ground arith

NotAfter-trans : (x y z : String) → NotAfter x y → NotAfter y z → NotAfter x z
NotAfter-trans x y z h k = elim (Bool-cases (text_lt z x)) [
  | inl less ↦ elim (text_lt_cases x y) [
    | inl e ↦ absurd (clash (rw e k) less)
    | inr (inl before) ↦ absurd (ground (arith, text_lt_trans z x y less before))
    | inr (inr after) ↦ absurd (ground arith)
  ]
  | inr after ↦ after
]

insert_sorted-IsSorted :
    (x : String) (xs : List String) → IsSorted xs → IsSorted (insert_sorted x xs)
unfolding insert_sorted
insert_sorted-IsSorted x [] h = (tt, tt)
insert_sorted-IsSorted x (y ∷ ys) (first, rest) = elim (Bool-cases (text_lt y x)) [
  | inl after ↦ rw after (
    All-of_In (NotAfter y) (insert_sorted x ys)
        (λ z i. member z (In-insert_sorted z x ys i) (text_lt_asymm y x after)),
    insert_sorted-IsSorted x ys rest,
  )
  | inr here ↦ rw here (
    (
      here,
      All-of_In (NotAfter x) ys
          (λ z i. NotAfter-trans x y z here (In-of_All (NotAfter y) ys first z i)),
    ),
    (first, rest),
  )
]
  where
    member : (z : String) → (x ≡ z) ⊎ In z ys → text_lt x y ≡ false → NotAfter y z
    member z (inl e) after = rw (← e) after
    member z (inr i) after = In-of_All (NotAfter y) ys first z i

pub sorted-IsSorted : (xs : List String) → IsSorted (sorted xs)
unfolding sorted
sorted-IsSorted [] = tt
sorted-IsSorted (x ∷ xs) = insert_sorted-IsSorted x (sorted xs) (sorted-IsSorted xs)

ascending : (xs : List String) → IsSorted xs → IsDistinct xs → IsAscending xs
ascending [] h d = tt
ascending (x ∷ xs) (first, rest) (fresh, others) =
    (All-of_In (λ y. text_lt x y ≡ true) xs before, ascending xs rest others)
  where
    before : (y : String) → In y xs → text_lt x y ≡ true
    before y i = elim (text_lt_cases x y) [
      | inl e ↦ absurd (fresh (rw e i))
      | inr (inl less) ↦ less
      | inr (inr after) ↦ absurd (clash (In-of_All (NotAfter x) xs first y i) after)
    ]

keys_of_check : (xs : List String) → all_keys xs ≡ true → All IsResourceKey xs
unfolding all_keys
keys_of_check [] h = tt
keys_of_check (x ∷ xs) h = (ground arith, keys_of_check xs (ground arith))

-- The mode, and whether there is a role, agree.
abbrev pub Agrees : String → List String → Type 0
Agrees mode roles = ((mode ≡ "public") × (roles ≡ [])) ⊎ ((mode ≡ "restricted") × (roles ≢ []))

mode_agrees :
    (mode : String) (roles : List String)
    → (mode == "public" || mode == "restricted") ≡ true
    → not (mode == "public" && not (no_roles roles)) ≡ true
    → not (mode == "restricted" && no_roles roles) ≡ true
    → Agrees mode roles
mode_agrees mode [] s p r = ground (arith, eq_iff mode "public", eq_iff mode "restricted")
mode_agrees mode (x ∷ xs) s p r = elim (Bool-cases (mode == "restricted")) [
  | inl closed ↦ inr ((eq_iff mode "restricted").0 closed, λ e. cc e)
  | inr public ↦ absurd (ground arith)
]

pub record IsAccepted (mode : String) (given : List String) (p : ToolAccessPolicy) : Type 0 where
  pub mode_kept : p.access_mode ≡ mode
  pub agrees : Agrees mode p.allowed_roles
  pub keys : All IsResourceKey p.allowed_roles
  pub in_order : IsAscending p.allowed_roles
  pub same_roles : (role : String) → In role p.allowed_roles ↔ In role given

-- A policy that the model accepts has the given mode; its roles are those given, in ascending order
-- with none twice, each a resource key; and there is a role exactly in the mode "restricted".
pub make_access_policy-IsAccepted :
    (mode : String) (given : List String) (p : ToolAccessPolicy)
    → make_access_policy mode given ≡ ok p
    → IsAccepted mode given p
unfolding make_access_policy
make_access_policy-IsAccepted mode given p h =
    let (supported, h₁) = guard-eq-ok (mode == "public" || mode == "restricted") value_error _ h in
    let (keys, h₂) = guard-eq-ok (all_keys given) value_error _ h₁ in
    let (no_public, h₃) =
      guard-eq-ok (not (mode == "public" && not (no_roles (sorted given)))) value_error _ h₂ in
    let (some_role, h₄) =
      guard-eq-ok (not (mode == "restricted" && no_roles (sorted given))) value_error _ h₃ in
    let (once, h₅) = guard-eq-ok (distinct (sorted given)) value_error _ h₄ in
    let e : p ≡ record { access_mode = mode; allowed_roles = sorted given } = ground arith in
    let given_keys = keys_of_check given keys in
    rw e (record {
      mode_kept = refl;
      agrees = mode_agrees mode (sorted given) supported no_public some_role;
      keys =
          All-of_In IsResourceKey (sorted given)
            (λ x i. In-of_All IsResourceKey given given_keys x ((In-sorted x given).0 i));
      in_order =
          ascending (sorted given) (sorted-IsSorted given)
            (distinct→IsDistinct (sorted given) once);
      same_roles = λ role. In-sorted role given;
    })
