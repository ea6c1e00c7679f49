-- ===== src/TlsClient.antt =====
-- `TlsClientConfig` of client-qt/include/chathub/client/infrastructure/tls_client.hpp and
-- client-qt/src/tls_client.cpp. Qt is a parameter.
pub mod Verified
use chat_hub.ErrorText.{quoted, given, ErrorText}
use chat_hub.Prelude.{
  codes, List, [], ◌∷◌, Bool, true, false, not, if◌then◌else◌, Bytes, Option, none, some,
}

-- What the code calls of Qt.
pub record QtSsl (World Certificate Configuration Socket : Type 0) : Type 0 where
  -- `QSslSocket::supportsSsl()`, `sslLibraryVersionString()` and `QString::contains`.
  pub supports_ssl : Bool
  pub library_version : Bytes
  pub contains : Bytes → Bytes → Bool
  -- `QSslCertificate::fromPath`.
  pub from_path : World → Bytes → List Certificate
  -- `QSslConfiguration{}`, `setCaCertificates` and `setPeerVerifyMode(QSslSocket::VerifyPeer)`.
  pub new_configuration : Configuration
  pub set_ca_certificates : Configuration → List Certificate → Configuration
  pub set_verify_peer : Configuration → Configuration
  -- `QSslSocket::setSslConfiguration` and `setPeerVerifyMode(QSslSocket::VerifyPeer)`.
  pub set_ssl_configuration : Socket → Configuration → Socket
  pub set_socket_verify_peer : Socket → Socket

pub record TlsClientConfig (Configuration : Type 0) : Type 0 where
  pub config : Configuration

-- "3.5"
abbrev pub series : Bytes
series = codes "3.5"

module _ {World Certificate Configuration Socket : Type 0}
    (qt : QtSsl World Certificate Configuration Socket) where
  -- `isBackendReady`, on the text in `error`.
  unfoldable pub is_backend_ready : ErrorText → Bool × ErrorText
  is_backend_ready error =
      if not qt.supports_ssl
      then (false, quoted "no TLS backend available" ∷ [])
      else if not (qt.contains qt.library_version series)
      then (false, quoted "unexpected OpenSSL version: " ∷ given qt.library_version ∷ [])
      else (true, error)

  -- The part of `build` behind the loaded certificates.
  unfoldable pub build_with :
      Bytes → List Certificate → ErrorText → Option (TlsClientConfig Configuration) × ErrorText
  build_with ca_file_path [] error =
      (none, quoted "no CA certificate loaded from: " ∷ given ca_file_path ∷ [])
  build_with ca_file_path (c ∷ certs) error = (
    some (record {
      config = qt.set_verify_peer (qt.set_ca_certificates qt.new_configuration (c ∷ certs));
    }),
    error,
  )

  unfoldable pub after_backend :
      World → Bytes → Bool × ErrorText → Option (TlsClientConfig Configuration) × ErrorText
  after_backend w ca_file_path (true, error) =
      build_with ca_file_path (qt.from_path w ca_file_path) error
  after_backend w ca_file_path (false, error) = (none, error)

  unfoldable pub build : World → Bytes → Option (TlsClientConfig Configuration) × ErrorText
  build w ca_file_path = after_backend w ca_file_path (is_backend_ready [])

  unfoldable pub apply_to : TlsClientConfig Configuration → Socket → Socket
  apply_to config socket = qt.set_socket_verify_peer (qt.set_ssl_configuration socket config.config)

  abbrev pub configuration : TlsClientConfig Configuration → Configuration
  configuration config = config.config
