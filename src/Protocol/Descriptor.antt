-- ===== src/Protocol/Descriptor.antt =====
-- `Direction` and `ProtocolDescriptor` of shared/include/chathub/contracts/protocol_descriptor.hpp.
use Prim.Native.String.{String}
use chat_hub.Prelude.{ℕ, Option}
use chat_hub.Protocol.ConnectionStates.{ConnectionStates}
use chat_hub.Protocol.Types.{ProtocolType}

pub data Direction : Type 0 where
  request response push bidirectional : Direction

pub record ProtocolDescriptor : Type 0 where
  pub type : ProtocolType
  pub name : String
  pub direction : Direction
  pub allowed_states : ConnectionStates
  pub capability : String
  pub max_body : ℕ
  pub default_timeout_ms : ℕ
  pub response : Option ProtocolType

-- The aggregate initializer `{type, name, ...}`.
abbrev pub descriptor :
    ProtocolType
    → String
    → Direction
    → ConnectionStates
    → String
    → ℕ
    → ℕ
    → Option ProtocolType
    → ProtocolDescriptor
descriptor kind name way states capability max_body timeout answer = record {
  type = kind;
  name = name;
  direction = way;
  allowed_states = states;
  capability = capability;
  max_body = max_body;
  default_timeout_ms = timeout;
  response = answer;
}

-- `kMaxJsonBody`.
abbrev pub max_json_body : ℕ
max_json_body = 65536
