-- ===== src/Deployment.antt =====
-- From the command tools/pki/src/dev_ca_main.cpp to the two sides: `TlsContext::load` of
-- chat-server/src/tls_context.cpp and `TlsClientConfig::build` of client-qt/src/tls_client.cpp on the
-- files that the command has written. What is assumed of asio and Qt for that is here.
pub mod Sides
pub mod Handover
use chat_hub.Inspection.{Inspector}
use chat_hub.Inspection.Reading.{IsCertificateText, IsKeyText}
use chat_hub.Prelude.{◌≡◌, true, List, [], ◌∷◌, Bytes, Option, none, some}
use chat_hub.TlsClient.{QtSsl, series}
use chat_hub.TlsContext.{AsioSsl}

module _ {Bio X509 Key BitString Object Integer BigNumber Time Tm : Type 0}
    (lib : Inspector Bio X509 Key BitString Object Integer BigNumber Time Tm) where
  -- What asio and OpenSSL document of a server's context: it takes the cipher list, it takes the
  -- certificate of a file that OpenSSL can read and then the key of one that belongs to it, and it
  -- finds that such a pair belongs together. `at` is what stands in a file.
  pub record Serves {World Context : Type 0} (asio : AsioSsl World Context)
      (at : World → Bytes → Option Bytes) : Type 0 where
    pub certificate_of : Context → Option X509
    pub key_of : Context → Option Key
    pub takes_ciphers :
        (c : Context)
        → (c' : Context) × (asio.set_cipher_list c "ECDHE+ECDSA+AESGCM:ECDHE+ECDSA+CHACHA20"
            ≡ (true, c'))
    pub takes_certificate :
        (w : World) (c : Context) (path t : Bytes) (x : X509)
        → at w path ≡ some t
        → IsCertificateText lib t x
        → (c' : Context) × (asio.use_certificate_chain_file w c path ≡ (none, c'))
          × (certificate_of c' ≡ some x)
    pub takes_key :
        (w : World) (c : Context) (path t : Bytes) (x : X509) (k : Key)
        → at w path ≡ some t
        → IsKeyText lib t k
        → certificate_of c ≡ some x
        → lib.check_private_key x k ≡ true
        → (c' : Context) × (asio.use_private_key_file w c path ≡ (none, c'))
          × (certificate_of c' ≡ some x)
          × (key_of c' ≡ some k)
    pub finds_pair :
        (c : Context) (x : X509) (k : Key)
        → certificate_of c ≡ some x
        → key_of c ≡ some k
        → lib.check_private_key x k ≡ true
        → asio.check_private_key c ≡ true

  -- What Qt documents: it reads the certificate of a file that OpenSSL can read. Its back end is there
  -- and of the series that the project asks for.
  pub record Trusts {World Certificate Configuration Socket : Type 0}
      (qt : QtSsl World Certificate Configuration Socket) (at : World → Bytes → Option Bytes)
      : Type 0 where
    pub certificate : X509 → Certificate
    pub supports : qt.supports_ssl ≡ true
    pub of_series : qt.contains qt.library_version series ≡ true
    pub reads_certificate :
        (w : World) (path t : Bytes) (x : X509)
        → at w path ≡ some t
        → IsCertificateText lib t x
        → qt.from_path w path ≡ certificate x ∷ []
