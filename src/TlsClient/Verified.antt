-- ===== src/TlsClient/Verified.antt =====
-- What a client's socket trusts once `applyTo` has set it.
use chat_hub.ErrorText.{ErrorText}
use chat_hub.Prelude.{
  codes, ◌≡◌, ◌≢◌, ◌↔◌, refl, sym, ap, ◌∙◌, List, [], ◌∷◌, Bool, true, false, not, if◌then◌else◌,
  Bytes, some,
}
use chat_hub.TlsClient.{
  QtSsl, TlsClientConfig, configuration, is_backend_ready, build_with, after_backend, build,
  apply_to,
}

-- What Qt documents of a configuration: the authorities that it trusts, and whether it wants a valid
-- certificate of the peer. A setter changes the one part that it names.
pub record Documented {World Certificate Configuration Socket : Type 0}
    (qt : QtSsl World Certificate Configuration Socket) : Type 0 where
  pub authorities : Configuration → List Certificate
  pub verifies : Configuration → Bool
  pub configuration_of : Socket → Configuration
  pub authorities_law :
      (c : Configuration) (certs : List Certificate)
      → authorities (qt.set_ca_certificates c certs) ≡ certs
  pub verify_law :
      (c : Configuration)
      → (verifies (qt.set_verify_peer c) ≡ true)
        × (authorities (qt.set_verify_peer c) ≡ authorities c)
  pub socket_law :
      (s : Socket) (c : Configuration) → configuration_of (qt.set_ssl_configuration s c) ≡ c
  pub socket_verify_law :
      (s : Socket)
      → (verifies (configuration_of (qt.set_socket_verify_peer s)) ≡ true)
        × (authorities (configuration_of (qt.set_socket_verify_peer s))
            ≡ authorities (configuration_of s))

module _ {World Certificate Configuration Socket : Type 0}
    (qt : QtSsl World Certificate Configuration Socket) where
  -- The back end is there and of the series that the project asks for.
  abbrev pub IsReady : Type 0
  IsReady = (qt.supports_ssl ≡ true) × (qt.contains qt.library_version (codes "3.5") ≡ true)

  tested : (s v : Bool) (no_backend wrong_version error : ErrorText) → Bool × ErrorText
  tested s v no_backend wrong_version error =
      if not s then (false, no_backend) else if not v then (false, wrong_version) else (true, error)

  ready_test :
      (s v : Bool) (no_backend wrong_version error e : ErrorText)
      → tested s v no_backend wrong_version error ≡ (true, e)
      → ((s ≡ true) × (v ≡ true)) × (error ≡ e)
  unfolding tested
  ready_test true true no_backend wrong_version error e h = ((refl, refl), ap (λ r. r.1) h)
  ready_test true false no_backend wrong_version error e h = cc (ap (λ r. r.0) h)
  ready_test false v no_backend wrong_version error e h = cc (ap (λ r. r.0) h)

  backend_ready : IsReady → is_backend_ready qt [] ≡ (true, [])
  unfolding is_backend_ready
  backend_ready (s, v) = rw (s, v) refl

  after_backend_inv :
      (w : World) (path : Bytes) (r : Bool × ErrorText) (config : TlsClientConfig Configuration)
      (e : ErrorText)
      → after_backend qt w path r ≡ (some config, e)
      → (r ≡ (true, r.1)) × (build_with qt path (qt.from_path w path) r.1 ≡ (some config, e))
  unfolding after_backend
  after_backend_inv w path (true, error) config e h = (refl, h)
  after_backend_inv w path (false, error) config e h = cc (ap (λ r. r.0) h)

  -- A configuration for these authorities.
  configured : List Certificate → TlsClientConfig Configuration
  configured certs = record {
    config = qt.set_verify_peer (qt.set_ca_certificates qt.new_configuration certs);
  }

  build_with_inv :
      (path : Bytes) (certs : List Certificate) (error : ErrorText)
      (config : TlsClientConfig Configuration) (e : ErrorText)
      → build_with qt path certs error ≡ (some config, e)
      → (certs ≢ []) × (config ≡ configured certs) × (error ≡ e)
  unfolding build_with configured
  build_with_inv path [] error config e h = cc (ap (λ r. r.0) h)
  build_with_inv path (c ∷ certs) error config e h =
      (λ empty. cc empty, cc (ap (λ r. r.0) h), ap (λ r. r.1) h)

  build_with_certificates :
      (path : Bytes) (certs : List Certificate) (error : ErrorText)
      → certs ≢ []
      → build_with qt path certs error ≡ (some (configured certs), error)
  unfolding build_with configured
  build_with_certificates path [] error h = absurd (h refl)
  build_with_certificates path (c ∷ certs) error h = refl

  build_inv :
      (w : World) (path : Bytes) (config : TlsClientConfig Configuration) (e : ErrorText)
      → build qt w path ≡ (some config, e)
      → IsReady
        × (qt.from_path w path ≢ [])
        × (config ≡ configured (qt.from_path w path))
        × (e ≡ [])
  unfolding build is_backend_ready tested
  build_inv w path config e h =
      let (ready, built) = after_backend_inv w path _ config e h in
      let (backend, kept) = ready_test qt.supports_ssl _ _ _ [] _ ready in
      let (some_certs, same, told) = build_with_inv path _ _ config e built in
      (backend, some_certs, same, sym (kept ∙ told))

  -- `build` succeeds exactly if Qt supports TLS, its library version contains "3.5" and the file
  -- holds certificates; the configuration then is a new one with these certificates as its
  -- authorities and `VerifyPeer`, and no error is left.
  pub build_iff :
      (w : World) (ca_file_path : Bytes) (config : TlsClientConfig Configuration)
      → (build qt w ca_file_path ≡ (some config, [])) ↔ (
          IsReady
          × (qt.from_path w ca_file_path ≢ [])
          × (configuration qt config
              ≡ qt.set_verify_peer
                  (qt.set_ca_certificates qt.new_configuration (qt.from_path w ca_file_path))))
  unfolding configured build after_backend
  build_iff w ca_file_path config = (
    λ h.
        let (ready, certs, same, _) = build_inv w ca_file_path config [] h in
        (ready, certs, ap (configuration qt) same),
    λ (ready, certs, same).
        ap (after_backend qt w ca_file_path) (backend_ready ready)
        ∙ (build_with_certificates ca_file_path _ [] certs
            ∙ ap (λ c. (some (record { config = c }), [])) (sym same)),
  )

module _ {World Certificate Configuration Socket : Type 0}
    {qt : QtSsl World Certificate Configuration Socket} (doc : Documented qt) where
  -- A socket that a built configuration is applied to verifies its peer and trusts exactly the
  -- certificates of the file, of which there is at least one, if Qt's setters do what Qt
  -- documents; and the library's version contains "3.5".
  pub apply_to-build :
      (w : World) (ca_file_path : Bytes) (config : TlsClientConfig Configuration) (e : ErrorText)
      (socket : Socket)
      → build qt w ca_file_path ≡ (some config, e)
      → (doc.verifies (doc.configuration_of (apply_to qt config socket)) ≡ true)
        × (doc.authorities (doc.configuration_of (apply_to qt config socket))
            ≡ qt.from_path w ca_file_path)
        × (qt.from_path w ca_file_path ≢ [])
        × (qt.contains qt.library_version (codes "3.5") ≡ true)
  unfolding apply_to configured
  apply_to-build w ca_file_path config e socket h =
      let (ready, certs, same, _) = build_inv qt w ca_file_path config e h in
      let (checked, kept) = doc.socket_verify_law (qt.set_ssl_configuration socket config.config) in
      (
        checked,
        kept
            ∙ ap doc.authorities (doc.socket_law socket config.config ∙ ap (configuration qt) same)
            ∙ (doc.verify_law _).1
            ∙ doc.authorities_law _ _,
        certs,
        ready.1,
      )
