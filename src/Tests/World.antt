-- ===== src/Tests/World.antt =====
-- The concrete inputs that the tests share: a tool, a connector and a signed snapshot document, with
-- simple functions in place of the cryptography, the schemas and the readers.
use toollayer_ai.Base.{ℕ, zero, suc, String, ◌==◌, if◌then◌else◌, true, false, none, some, [], ◌∷◌}
use toollayer_ai.Json.{Json, str, arr, obj, nil, cons, Fields, end, field}
use toollayer_ai.Contracts.Signing.{Bytes, Crypto, SigningKey, TrustedKeyRing}
use toollayer_ai.Contracts.Validation.{Schemas}
use toollayer_ai.Contracts.Models.{
  read, published, ToolDefinition, ConnectorDefinition, DeploymentSnapshot,
}
use toollayer_ai.Runtime.Snapshot.{
  required, SnapshotVerification, Environment, LoadedSnapshot, BoundTool, bind_tool,
}

abbrev zeros : ℕ → Bytes
zeros zero = []
zeros (suc n) = 0 ∷ zeros n

-- The base64 text of 64 zero bytes, without and with its padding.
abbrev pub signature_text : String
signature_text =
    "AAAAAAAAAAAAAAAAAAAAAAAAAAAAAAAAAAAAAAAAAAAAAAAAAAAAAAAAAAAAAAAAAAAAAAAAAAAAAAAAAAAAAA"

abbrev padded_text : String
padded_text =
    "AAAAAAAAAAAAAAAAAAAAAAAAAAAAAAAAAAAAAAAAAAAAAAAAAAAAAAAAAAAAAAAAAAAAAAAAAAAAAAAAAAAAAA=="

abbrev pub crypto : Crypto
crypto = record {
  encode = λ raw. padded_text;
  decode = λ text. if text == padded_text then some (zeros 64) else none;
  public_key = λ private. private;
  sign = λ private message. zeros 64;
  verify = λ public signature message. true;
}

abbrev pub schemas : Schemas
schemas = record {
  snapshot_schema = λ document. true;
  connector_schema = λ document. true;
  is_schema = λ document. true;
}

abbrev pub signer : SigningKey
signer = record { key_id = "cp-1"; private = 7 ∷ [] }

abbrev pub ring : TrustedKeyRing
ring = record { keys = record { key_id = "cp-1"; public = 7 ∷ [] } ∷ [] }

abbrev pub tool : ToolDefinition
tool = record {
  tool_name = "get_order";
  description = "Read one order.";
  input_schema = end;
  operation = record {
    method = "GET";
    path_template = "/orders/{id}";
    bindings = [];
    request_body_media_type = none;
  };
  policy = record {
    effect_class = read;
    requires_confirmation = false;
    access = record { access_mode = "restricted"; allowed_roles = "agent" ∷ [] };
  };
}

abbrev pub connector : ConnectorDefinition
connector = record {
  connector_key = "orders";
  version = "1.0.0";
  lifecycle_state = published;
  base_url = "https://orders.example";
  tools = tool ∷ [];
}

abbrev pub snapshot : DeploymentSnapshot
snapshot = record {
  snapshot_id = "snap_x";
  deployment_key = "shop";
  revision = 1;
  snapshot_digest = "sha256:x";
  connectors = connector ∷ [];
}

abbrev pub connector_fields : Fields
connector_fields = field "contract_version" (str "1.1.0") (
    field "connector_key" (str "orders") (
      field "lifecycle_state" (str "published") (
        field "tools"
          (arr (
            cons (obj (field "tool_name" (str "get_order") (field "input_schema" (obj end) end)))
              nil))
          end)))

abbrev pub unsigned_fields : Fields
unsigned_fields = field "contract_version" (str "1.1.0") (
    field "connectors" (arr (cons (obj connector_fields) nil))
      (field "snapshot_digest" (str "sha256:x") end))

abbrev pub signature_block : Json
signature_block = obj (
    field "algorithm" (str "ed25519")
      (field "key_id" (str "cp-1") (field "value" (str signature_text) end)))

abbrev pub signed_fields : Fields
signed_fields = field "contract_version" (str "1.1.0") (
    field "connectors" (arr (cons (obj connector_fields) nil))
      (field "snapshot_digest" (str "sha256:x") (field "signature" signature_block end)))

abbrev pub environment : Environment
environment = record {
  sha256_hex = λ text. "x";
  crypto = crypto;
  schemas = schemas;
  read_model = λ document. some snapshot;
}

abbrev pub verification : SnapshotVerification
verification = record { mode = required; trusted_keys = ring }

abbrev pub bound : BoundTool
bound = bind_tool connector tool

abbrev pub loaded : LoadedSnapshot
loaded = record {
  snapshot = snapshot;
  etag = some "v1";
  loaded_at = 5;
  tools_by_name = ("get_order", bound) ∷ [];
  signing_key_id = some "cp-1";
}
