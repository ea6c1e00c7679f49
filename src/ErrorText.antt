-- ===== src/ErrorText.antt =====
-- The text that chat-server/src/tls_context.cpp and client-qt/src/tls_client.cpp leave in `error`, in
-- the parts that `+` puts together.
use Prim.Native.String.{String}
use chat_hub.Prelude.{List, Bytes}

pub data Part : Type 0 where
  quoted : String → Part
  given : Bytes → Part

abbrev pub ErrorText : Type 0
ErrorText = List Part
