-- ===== src/ControlPlane/Review/Readiness.antt =====
-- When `review_readiness` of review.py finds no issue.
use toollayer_ai.Base.{
  ◌≡◌, refl, ◌≢◌, ◌↔◌, ◌⊎◌, inl, inr, String, Bool, true, false, not, ◌&&◌, Option, none, some,
  List, [], ◌∷◌, ◌++◌, arith, ◌==◌, eq_iff, All, In, contains→In, In→contains, Bool-cases,
}
use toollayer_ai.ControlPlane.Review.{
  OperationReview, ReviewState, Analysis, included, Issue, base_url_missing, no_operation_selected,
  review_out_of_sync, description_placeholder, restricted_without_roles, is_missing, no_entries,
  no_texts, analyzed_keys, reviewed_keys, subset, same_keys, when, entry_issues, all_entry_issues,
  review_readiness,
}

append-eq-nil {ℓ} : {A : Type ℓ} (xs ys : List A) → xs ++ ys ≡ [] → (xs ≡ []) × (ys ≡ [])
append-eq-nil [] ys h = (refl, h)
append-eq-nil (x ∷ xs) ys h = cc h

when-eq-nil_iff : (b : Bool) (issue : Issue) → (when b issue ≡ []) ↔ (b ≡ false)
when-eq-nil_iff true issue = (λ h. cc h, λ h. cc h)
when-eq-nil_iff false issue = (λ h. refl, λ h. refl)

-- Neither a placeholder nor a restriction that nobody could meet.
abbrev pub IsReady : OperationReview → Type 0
IsReady entry =
    (entry.description_origin ≢ "generated")
    × ((entry.access_mode ≢ "restricted") ⊎ (entry.allowed_roles ≢ []))

entry_issues_iff : (entry : OperationReview) → (entry_issues entry ≡ []) ↔ IsReady entry
unfolding entry_issues
entry_issues_iff entry = (forth, back)
  where
    no_role : (roles : List String) → no_texts roles ≡ false → roles ≢ []
    no_role [] h = cc h
    no_role (x ∷ xs) h = λ e. cc e

    has_role : (roles : List String) → roles ≢ [] → no_texts roles ≡ false
    has_role [] h = absurd (h refl)
    has_role (x ∷ xs) h = refl

    forth :
        when (entry.description_origin == "generated") (description_placeholder entry.operation_key)
            ++ when
                (entry.access_mode == "restricted" && no_texts entry.allowed_roles)
                (restricted_without_roles entry.operation_key)
          ≡ []
        → IsReady entry
    forth h =
        let (a, b) = append-eq-nil (when (entry.description_origin == "generated") _) _ h in
        let placeholder = (when-eq-nil_iff (entry.description_origin == "generated") _).0 a in
        let closed =
          (when-eq-nil_iff (entry.access_mode == "restricted" && no_texts entry.allowed_roles) _).0
            b in
        (
          ground (arith, eq_iff entry.description_origin "generated"),
          elim (Bool-cases (entry.access_mode == "restricted")) [
            | inl is_closed ↦ inr (no_role entry.allowed_roles (rw is_closed at closed))
            | inr open_mode ↦ inl (ground (arith, eq_iff entry.access_mode "restricted"))
          ],
        )

    back :
        IsReady entry
        → when
              (entry.description_origin == "generated")
              (description_placeholder entry.operation_key)
            ++ when
                (entry.access_mode == "restricted" && no_texts entry.allowed_roles)
                (restricted_without_roles entry.operation_key)
          ≡ []
    back (own, inl open_mode) =
        ground (
          arith,
          eq_iff entry.description_origin "generated",
          eq_iff entry.access_mode "restricted",
        )
    back (own, inr some_role) =
        ground (
          arith,
          eq_iff entry.description_origin "generated",
          has_role entry.allowed_roles some_role,
        )

all_entry_issues_iff :
    (entries : ReviewState) → (all_entry_issues entries ≡ []) ↔ All IsReady entries
unfolding all_entry_issues
all_entry_issues_iff [] = (λ h. tt, λ h. refl)
all_entry_issues_iff (entry ∷ entries) = (
  λ h.
      let (first, rest) = append-eq-nil (entry_issues entry) (all_entry_issues entries) h in
      ((entry_issues_iff entry).0 first, (all_entry_issues_iff entries).0 rest),
  λ (first, rest). rw ((entry_issues_iff entry).1 first) ((all_entry_issues_iff entries).1 rest),
)

-- Inclusion of sets of texts.
abbrev pub Subset : List String → List String → Type 0
Subset a b = (x : String) → In x a → In x b

subset→Subset : (a b : List String) → subset a b ≡ true → Subset a b
unfolding subset
subset→Subset [] b h x i = absurd i
subset→Subset (y ∷ a) b h x (inl e) = rw (← e) (contains→In b y (ground arith))
subset→Subset (y ∷ a) b h x (inr i) = subset→Subset a b (ground arith) x i

Subset→subset : (a b : List String) → Subset a b → subset a b ≡ true
unfolding subset
Subset→subset [] b h = refl
Subset→subset (y ∷ a) b h =
    ground (arith, In→contains b y (h y (inl refl)), Subset→subset a b (λ x i. h x (inr i)))

pub record CanPublish (analysis : Analysis) (state : ReviewState) (base_url : Option String)
    : Type 0 where
  pub base_url_given : (url : String) × (base_url ≡ some url) × (url ≢ "")
  pub some_included : included state ≢ []
  pub all_reviewed : Subset (analyzed_keys analysis) (reviewed_keys state)
  pub none_stale : Subset (reviewed_keys state) (analyzed_keys analysis)
  pub entries_ready : All IsReady (included state)

-- A draft has no issue exactly when its base URL is given, some operation is included, the reviewed
-- operations are those with a tool, and each included entry has a description of its own and, if it
-- is restricted, a role.
pub review_readiness_iff :
    (analysis : Analysis) (state : ReviewState) (base_url : Option String)
    → (review_readiness analysis state base_url ≡ []) ↔ CanPublish analysis state base_url
unfolding review_readiness
review_readiness_iff analysis state base_url = (forth, back)
  where
    given :
        (u : Option String) → is_missing u ≡ false → (url : String) × (u ≡ some url) × (url ≢ "")
    given none h = cc h
    given (some url) h = (url, refl, ground (arith, eq_iff url ""))

    not_missing :
        (u : Option String) → (url : String) × (u ≡ some url) × (url ≢ "") → is_missing u ≡ false
    not_missing u (url, e, full) = rw e (ground (arith, eq_iff url ""))

    not_none : (entries : ReviewState) → no_entries entries ≡ false → entries ≢ []
    not_none [] h = cc h
    not_none (x ∷ xs) h = λ e. cc e

    has_entries : (entries : ReviewState) → entries ≢ [] → no_entries entries ≡ false
    has_entries [] h = absurd (h refl)
    has_entries (x ∷ xs) h = refl

    forth :
        when (is_missing base_url) base_url_missing
            ++ (when (no_entries (included state)) no_operation_selected
                ++ (when
                      (not (same_keys (reviewed_keys state) (analyzed_keys analysis)))
                      review_out_of_sync
                    ++ all_entry_issues (included state)))
          ≡ []
        → CanPublish analysis state base_url
    forth h =
        let (a, h₁) = append-eq-nil (when (is_missing base_url) _) _ h in
        let (b, h₂) = append-eq-nil (when (no_entries (included state)) _) _ h₁ in
        let (c, d) =
          append-eq-nil
            (when (not (same_keys (reviewed_keys state) (analyzed_keys analysis)))
              review_out_of_sync)
            _ h₂ in
        let synced =
          (when-eq-nil_iff (not (same_keys (reviewed_keys state) (analyzed_keys analysis))) _).0
            c in
        record {
          base_url_given = given base_url ((when-eq-nil_iff (is_missing base_url) _).0 a);
          some_included =
              not_none (included state) ((when-eq-nil_iff (no_entries (included state)) _).0 b);
          all_reviewed =
              subset→Subset (analyzed_keys analysis) (reviewed_keys state) (ground arith);
          none_stale = subset→Subset (reviewed_keys state) (analyzed_keys analysis) (ground arith);
          entries_ready = (all_entry_issues_iff (included state)).0 d;
        }

    back :
        CanPublish analysis state base_url
        → when (is_missing base_url) base_url_missing
            ++ (when (no_entries (included state)) no_operation_selected
                ++ (when
                      (not (same_keys (reviewed_keys state) (analyzed_keys analysis)))
                      review_out_of_sync
                    ++ all_entry_issues (included state)))
          ≡ []
    back p = rw (not_missing base_url p.base_url_given) (
        rw (has_entries (included state) p.some_included) (
          rw (Subset→subset (reviewed_keys state) (analyzed_keys analysis) p.none_stale) (
            rw (Subset→subset (analyzed_keys analysis) (reviewed_keys state) p.all_reviewed)
              ((all_entry_issues_iff (included state)).1 p.entries_ready))))
