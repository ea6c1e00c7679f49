-- ===== src/Deployment/Handover.antt =====
-- The files of the command, loaded by the server and by the client.
use chat_hub.CaTool.Files
use chat_hub.Deployment.{Serves, Trusts}
use chat_hub.DevCa.{OpenSsl}
use chat_hub.DevCa.Contents.{Documented}
use chat_hub.DevCa.Profile.{ca_profile, leaf_profile}
use chat_hub.Inspection.{Inspector}
use chat_hub.Prelude.{codes, ℕ, ◌≡◌, true, [], ◌∷◌, Bytes, Option, some}
use chat_hub.TlsClient.{QtSsl, TlsClientConfig, build, apply_to}
use chat_hub.TlsClient.Verified
use chat_hub.TlsContext.{AsioSsl, load}

module _
    {World Key X509 Extension Bio BitString Object Integer BigNumber Time Tm Context Certificate
      Configuration Socket : Type 0}
    {ssl : OpenSsl World Key X509 Extension} (doc : Documented ssl)
    {lib : Inspector Bio X509 Key BitString Object Integer BigNumber Time Tm}
    {asio : AsioSsl World Context} {qt : QtSsl World Certificate Configuration Socket}
    {at : World → Bytes → Option Bytes} (path : Bytes → Bytes → Bytes) (serves : Serves lib asio at)
    (trusts : Trusts lib qt at) (client : Verified.Documented qt) where
  -- The server and the client of this address, on the files of this directory.
  pub record AreReady (ip dir : Bytes) (w : World) : Type 0 where
    pub context : Context
    pub config : TlsClientConfig Configuration
    pub root : X509
    pub server : X509
    pub ca_key : Key
    pub key : Key
    pub m : ℕ
    pub n : ℕ
    pub loaded :
        load asio w (path dir (codes "server-cert.pem")) (path dir (codes "server-key.pem"))
        ≡ (some (record { context = some context }), [])
    pub presents : serves.certificate_of context ≡ some server
    pub holds : serves.key_of context ≡ some key
    pub is_server : doc.contents server ≡ leaf_profile n key ca_key ip
    pub built : build qt w (path dir (codes "trusted-ca.pem")) ≡ (some config, [])
    pub trusts_root :
        (socket : Socket)
        → client.authorities (client.configuration_of (apply_to qt config socket))
          ≡ trusts.certificate root ∷ []
    pub is_root : doc.contents root ≡ ca_profile m ca_key
    pub signed : lib.get_pubkey root ≡ some ca_key
    pub verified : lib.verify server ca_key ≡ true
