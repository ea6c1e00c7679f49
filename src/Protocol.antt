-- ===== src/Protocol.antt =====
-- The registry of shared/include/chathub/contracts/protocol_descriptor.hpp: `findProtocol`. The
-- types, the states, the descriptor and the table of 54 descriptors are modules below this one.
pub mod Types
pub mod ConnectionStates
pub mod Descriptor
pub mod Table
pub mod Checks
pub mod Registry
pub mod Pairing
pub mod Ownership
pub mod Policy
use chat_hub.Prelude.{List, [], ◌∷◌, Option, none, some, ◌==◌, if◌then◌else◌}
use Types.{ProtocolType}
use Descriptor.{ProtocolDescriptor}
use Table.{protocol_descriptors}

-- The loop over the table: the first descriptor of the type.
unfoldable pub find_in : ProtocolType → List ProtocolDescriptor → Option ProtocolDescriptor
find_in type [] = none
find_in type (d ∷ ds) = if d.type == type then some d else find_in type ds

unfoldable pub find_protocol : ProtocolType → Option ProtocolDescriptor
find_protocol type = find_in type protocol_descriptors
