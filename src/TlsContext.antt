-- ===== src/TlsContext.antt =====
-- `TlsContext` of chat-server/include/chathub/server/transport/tls_context.hpp and `TlsContext::load` of
-- chat-server/src/tls_context.cpp. Asio's `ssl::context` and OpenSSL are a
-- parameter; a path is the text that `string()` makes of it. An exception of an allocation is left out.
pub mod Loaded
use Prim.Native.String.{String}
use chat_hub.ErrorText.{quoted, given, ErrorText}
use chat_hub.Prelude.{List, [], ◌∷◌, Bool, true, false, Bytes, Option, none, some}

-- The options that the code sets.
pub data SslOption : Type 0 where
  default_workarounds no_sslv2 no_sslv3 no_tlsv1 no_tlsv1_1 other_option : SslOption

-- What the code calls of asio and OpenSSL. A call that fails leaves a context as well.
pub record AsioSsl (World Context : Type 0) : Type 0 where
  -- `ssl::context(ssl::context::tls_server)`.
  pub new_server_context : Context
  pub set_options : Context → List SslOption → Context
  -- `SSL_CTX_set_cipher_list(...)`, true where it returns 1.
  pub set_cipher_list : Context → String → Bool × Context
  -- The two calls that read a file: `ec.message()` where `ec` is set.
  pub use_certificate_chain_file : World → Context → Bytes → Option Bytes × Context
  pub use_private_key_file : World → Context → Bytes → Option Bytes × Context
  -- `SSL_CTX_check_private_key(...) == 1`.
  pub check_private_key : Context → Bool

-- `context_` is a unique pointer.
pub record TlsContext (Context : Type 0) : Type 0 where
  pub context : Option Context

-- `native()`, which dereferences the pointer: undefined where this is `none`.
abbrev pub native : {Context : Type 0} → TlsContext Context → Option Context
native tls = tls.context

-- The moved object, and what is left of it.
abbrev pub move_context :
    {Context : Type 0} → TlsContext Context → TlsContext Context × TlsContext Context
move_context tls = (record { context = tls.context }, record { context = none })

-- The returned object, and what stands in `error`.
abbrev pub Loaded : Type 0 → Type 0
Loaded Context = Option (TlsContext Context) × ErrorText

module _ {World Context : Type 0} (asio : AsioSsl World Context) where
  unfoldable pub after_check : Bool → Context → Loaded Context
  after_check true c = (some (record { context = some c }), [])
  after_check false c = (none, quoted "private key does not match certificate" ∷ [])

  unfoldable pub after_key : Bytes → Option Bytes × Context → Loaded Context
  after_key private_key (none, c) = after_check (asio.check_private_key c) c
  after_key private_key (some message, c) =
      (none, quoted "load private key '" ∷ given private_key ∷ quoted "': " ∷ given message ∷ [])

  unfoldable pub after_chain : World → Bytes → Bytes → Option Bytes × Context → Loaded Context
  after_chain w cert_chain private_key (none, c) =
      after_key private_key (asio.use_private_key_file w c private_key)
  after_chain w cert_chain private_key (some message, c) =
      (none, quoted "load cert chain '" ∷ given cert_chain ∷ quoted "': " ∷ given message ∷ [])

  unfoldable pub after_ciphers : World → Bytes → Bytes → Bool × Context → Loaded Context
  after_ciphers w cert_chain private_key (true, c) =
      after_chain w cert_chain private_key (asio.use_certificate_chain_file w c cert_chain)
  after_ciphers w cert_chain private_key (false, c) =
      (none, quoted "configure TLS 1.2 cipher list (ECDHE+AEAD) failed" ∷ [])

  unfoldable pub load : World → Bytes → Bytes → Loaded Context
  load w cert_chain private_key =
      let c =
        asio.set_options asio.new_server_context
          (default_workarounds ∷ no_sslv2 ∷ no_sslv3 ∷ no_tlsv1 ∷ no_tlsv1_1 ∷ []) in
      after_ciphers w cert_chain private_key
        (asio.set_cipher_list c "ECDHE+ECDSA+AESGCM:ECDHE+ECDSA+CHACHA20")
