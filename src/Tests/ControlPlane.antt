-- ===== src/Tests/ControlPlane.antt =====
-- The theorems on reviews, publication and deployments, at one connector with a draft.
use toollayer_ai.Base.{
  ◌≡◌, refl, ◌↔◌, ◌≢◌, inl, ◌==◌, eq_iff, arith, true, false, none, some, [], ◌∷◌, All,
}
use toollayer_ai.Json.{Json, null, str, obj, arr, nil, Fields, end, field}
use toollayer_ai.Contracts.Errors.{ok}
use toollayer_ai.ControlPlane.Review.{
  OperationReview, ReviewState, ReviewUpdate, Operation, Analysis, find_operation,
  build_initial_review, update_entry, apply_update, apply_updates, analyzed_keys, reviewed_keys,
  review_readiness,
}
use toollayer_ai.ControlPlane.Review.Invariant.{IsReviewed, apply_updates-IsReviewed}
use toollayer_ai.ControlPlane.Review.Readiness.{CanPublish, review_readiness_iff}

abbrev pub tool_fields : Fields
tool_fields = field "tool_name" (str "get_order") (
    field "description" (str "Read one order.")
      (field "input_schema" (obj end) (field "provenance" (obj end) end)))

abbrev pub analysis : Analysis
analysis =
    record { key = "GET /orders"; tool = some tool_fields }
    ∷ record { key = "GET /x"; tool = none }
    ∷ []

abbrev pub entry : OperationReview
entry = record {
  operation_key = "GET /orders";
  selection = "included";
  description = "Read one order.";
  description_origin = "source";
  effect_class = "read";
  requires_confirmation = false;
  access_mode = "public";
  allowed_roles = [];
}

abbrev pub review : ReviewState
review = entry ∷ []

abbrev pub make_destructive : ReviewUpdate
make_destructive = record {
  operation_key = "GET /orders";
  selection = none;
  description = none;
  description_origin = none;
  effect_class = some "destructive";
  requires_confirmation = some true;
  access_mode = none;
  allowed_roles = none;
}

abbrev pub destructive_entry : OperationReview
destructive_entry = record {
  operation_key = "GET /orders";
  selection = "included";
  description = "Read one order.";
  description_origin = "source";
  effect_class = "destructive";
  requires_confirmation = true;
  access_mode = "public";
  allowed_roles = [];
}

update_applies : apply_update review make_destructive ≡ ok (destructive_entry ∷ [])
unfolding apply_update find_operation update_entry toollayer_ai.ControlPlane.Review.update_selection
    toollayer_ai.ControlPlane.Review.update_description
    toollayer_ai.ControlPlane.Review.update_effect toollayer_ai.ControlPlane.Review.update_access
update_applies = refl

pub updates_apply : apply_updates review (make_destructive ∷ []) ≡ ok (destructive_entry ∷ [])
unfolding apply_updates
updates_apply = rw update_applies refl

initial_review : build_initial_review analysis ≡ review
unfolding build_initial_review toollayer_ai.Json.find toollayer_ai.Json.get
initial_review = refl

initial_updates :
    apply_updates (build_initial_review analysis) (make_destructive ∷ [])
    ≡ ok (destructive_entry ∷ [])
initial_updates = rw initial_review updates_apply

described : entry.description ≢ ""
described e = let h : "Read one order." == "" ≡ true = (eq_iff "Read one order." "").1 e in cc h

entry-IsReviewed : IsReviewed entry
entry-IsReviewed = record {
  selection = inl refl;
  description = (described, omega arith);
  effect = inl refl;
  access = inl (refl, refl);
}

apply_updates-IsReviewed_example : All IsReviewed (destructive_entry ∷ [])
apply_updates-IsReviewed_example =
    apply_updates-IsReviewed review (destructive_entry ∷ []) (make_destructive ∷ [])
      (entry-IsReviewed, tt) updates_apply

review_readiness_iff_example :
    (review_readiness analysis review (some "https://orders.example") ≡ [])
    ↔ CanPublish analysis review (some "https://orders.example")
review_readiness_iff_example = review_readiness_iff analysis review (some "https://orders.example")
