-- ===== src/ControlPlane/Requests/Lookups.antt =====
-- What stands in a table after one of its rows was stored.
use toollayer_ai.Base.{
  ◌≡◌, refl, sym, ◌⊎◌, inl, inr, String, some, List, [], ◌∷◌, ◌==◌, eq_iff, arith, Bool-cases,
}
use toollayer_ai.ControlPlane.Rows.{
  Connector, Deployment, PublishedVersion, find_connector, store_connector, find_deployment,
  store_deployment,
}
use toollayer_ai.ControlPlane.Drafts.{version_texts}
use toollayer_ai.ControlPlane.Releases.{replace_version}

pub find_connector-store_connector_cases :
    (key : String) (new c : Connector) (cs : List Connector)
    → find_connector key (store_connector new cs) ≡ some c
    → (new ≡ c) ⊎ (find_connector key cs ≡ some c)
unfolding find_connector store_connector
find_connector-store_connector_cases key new c [] h = elim (Bool-cases (new.connector_key == key)) [
  | inl here ↦ inl (ground arith)
  | inr there ↦ absurd (ground arith)
]
find_connector-store_connector_cases key new c (x ∷ xs) h =
    elim (Bool-cases (x.connector_key == new.connector_key)) [
      | inl same ↦
          let e : x.connector_key ≡ new.connector_key =
            (eq_iff x.connector_key new.connector_key).0 same in
          elim (Bool-cases (new.connector_key == key)) [
            | inl here ↦ inl (ground arith)
            | inr there ↦ inr (rw e (rw there (rw there at (rw same at h))))
          ]
      | inr other ↦ elim (Bool-cases (x.connector_key == key)) [
        | inl here ↦ inr (rw here (rw here at (rw other at h)))
        | inr there ↦
            rw there
              (find_connector-store_connector_cases key new c xs (rw there at (rw other at h)))
      ]
    ]

pub find_deployment-store_deployment_cases :
    (key : String) (new d : Deployment) (ds : List Deployment)
    → find_deployment key (store_deployment new ds) ≡ some d
    → (new ≡ d) ⊎ (find_deployment key ds ≡ some d)
unfolding find_deployment store_deployment
find_deployment-store_deployment_cases key new d [] h =
    elim (Bool-cases (new.deployment_key == key)) [
      | inl here ↦ inl (ground arith)
      | inr there ↦ absurd (ground arith)
    ]
find_deployment-store_deployment_cases key new d (x ∷ xs) h =
    elim (Bool-cases (x.deployment_key == new.deployment_key)) [
      | inl same ↦
          let e : x.deployment_key ≡ new.deployment_key =
            (eq_iff x.deployment_key new.deployment_key).0 same in
          elim (Bool-cases (new.deployment_key == key)) [
            | inl here ↦ inl (ground arith)
            | inr there ↦ inr (rw e (rw there (rw there at (rw same at h))))
          ]
      | inr other ↦ elim (Bool-cases (x.deployment_key == key)) [
        | inl here ↦ inr (rw here (rw here at (rw other at h)))
        | inr there ↦
            rw there
              (find_deployment-store_deployment_cases key new d xs (rw there at (rw other at h)))
      ]
    ]

pub version_texts-replace_version :
    (new : PublishedVersion) (rows : List PublishedVersion)
    → version_texts (replace_version new rows) ≡ version_texts rows
unfolding replace_version
version_texts-replace_version new [] = refl
version_texts-replace_version new (row ∷ rows) = elim (Bool-cases (row.version == new.version)) [
  | inl here ↦ rw here (λ i. sym ((eq_iff row.version new.version).0 here) i ∷ version_texts rows)
  | inr there ↦ rw there (λ i. row.version ∷ version_texts-replace_version new rows i)
]
