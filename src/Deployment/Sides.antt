-- ===== src/Deployment/Sides.antt =====
-- Each side on readable files.
use chat_hub.Deployment.{Serves, Trusts}
use chat_hub.Inspection.{Inspector}
use chat_hub.Inspection.Reading.{IsCertificateText, IsKeyText}
use chat_hub.Prelude.{◌≡◌, refl, ◌∙◌, true, [], ◌∷◌, Bytes, Option, some}
use chat_hub.TlsClient.{QtSsl, TlsClientConfig, configuration, build}
use chat_hub.TlsClient.Verified
use chat_hub.TlsClient.Verified.{build_iff}
use chat_hub.TlsContext.{
  SslOption, AsioSsl, after_check, after_key, after_chain, after_ciphers, load,
}

module _ {Bio X509 Key BitString Object Integer BigNumber Time Tm World : Type 0}
    {lib : Inspector Bio X509 Key BitString Object Integer BigNumber Time Tm}
    {at : World → Bytes → Option Bytes} where
  -- A certificate and a key that belong together are loaded.
  pub server_loads :
      {Context : Type 0} {asio : AsioSsl World Context} (serves : Serves lib asio at) (w : World)
      (cert_chain private_key t u : Bytes) (x : X509) (k : Key)
      → at w cert_chain ≡ some t
      → at w private_key ≡ some u
      → IsCertificateText lib t x
      → IsKeyText lib u k
      → lib.check_private_key x k ≡ true
      → (c : Context) × (load asio w cert_chain private_key
          ≡ (some (record { context = some c }), []))
        × (serves.certificate_of c ≡ some x)
        × (serves.key_of c ≡ some k)
  unfolding load after_ciphers after_chain after_key after_check
  server_loads {asio = asio} serves w cert_chain private_key t u x k chain_held key_held is_cert
        is_key pair =
      let (c1, ciphered) = serves.takes_ciphers (
        asio.set_options asio.new_server_context (
          SslOption.default_workarounds ∷ SslOption.no_sslv2 ∷ SslOption.no_sslv3
          ∷ SslOption.no_tlsv1 ∷ SslOption.no_tlsv1_1 ∷ [])) in
      let (c2, chained, has_cert) =
        serves.takes_certificate w c1 cert_chain t x chain_held is_cert in
      let (c3, keyed, kept_cert, has_key) =
        serves.takes_key w c2 private_key u x k key_held is_key has_cert pair in
      let checked = serves.finds_pair c3 x k kept_cert has_key pair in
      (c3, rw (ciphered, chained, keyed, checked) refl, kept_cert, has_key)

  -- The authorities are then the one certificate of the file.
  pub client_builds :
      {Certificate Configuration Socket : Type 0}
      {qt : QtSsl World Certificate Configuration Socket} (trusts : Trusts lib qt at)
      (doc : Verified.Documented qt) (w : World) (ca_file_path t : Bytes) (x : X509)
      → at w ca_file_path ≡ some t
      → IsCertificateText lib t x
      → (config : TlsClientConfig Configuration) × (build qt w ca_file_path ≡ (some config, []))
        × (doc.authorities (configuration qt config) ≡ trusts.certificate x ∷ [])
        × (doc.verifies (configuration qt config) ≡ true)
  client_builds {qt = qt} trusts doc w ca_file_path t x held is_cert =
      let found = trusts.reads_certificate w ca_file_path t x held is_cert in
      let (verifies, kept) = doc.verify_law _ in
      (
        record {
          config =
              qt.set_verify_peer
                (qt.set_ca_certificates qt.new_configuration (qt.from_path w ca_file_path));
        },
        (build_iff qt w ca_file_path _).1
            ((trusts.supports, trusts.of_series), (λ empty. cc (found, empty)), refl),
        kept ∙ doc.authorities_law _ _ ∙ found,
        verifies,
      )
