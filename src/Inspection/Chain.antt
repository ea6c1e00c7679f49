-- ===== src/Inspection/Chain.antt =====
-- `verifySignedBy` and `certMatchesKey` on what `issueDevCa` issues.
use chat_hub.DevCa.{OpenSsl}
use chat_hub.DevCa.Contents.{Documented}
use chat_hub.DevCa.Profile.{ca_profile, leaf_profile}
use chat_hub.CertFields.{bind_option}
use chat_hub.Inspection.{
  Inspector, mem_bio, pem_to_x509, both_read, verify_with, verify_signed_by, pair_read,
  cert_matches_key,
}
use chat_hub.Prelude.{ℕ, ◌≡◌, ◌↔◌, sym, ap, ◌∙◌, true, Bytes, some}

-- What OpenSSL documents of keys and signatures. A key stands for the pair of its two parts.
pub record ChecksKeys
    {World Key X509 Extension Bio BitString Object Integer BigNumber Time Tm : Type 0}
    {ssl : OpenSsl World Key X509 Extension} (doc : Documented ssl)
    (lib : Inspector Bio X509 Key BitString Object Integer BigNumber Time Tm) : Type 0 where
  pub public_key_law : (c : X509) → lib.get_pubkey c ≡ (doc.contents c).public_key
  pub verify_law :
      (c : X509) (k : Key) → (lib.verify c k ≡ true) ↔ ((doc.contents c).signer ≡ some k)
  pub pair_law :
      (c : X509) (k : Key)
      → (lib.check_private_key c k ≡ true) ↔ ((doc.contents c).public_key ≡ some k)

module _ {World Key X509 Extension Bio BitString Object Integer BigNumber Time Tm : Type 0}
    {ssl : OpenSsl World Key X509 Extension} {doc : Documented ssl}
    {lib : Inspector Bio X509 Key BitString Object Integer BigNumber Time Tm}
    (checks : ChecksKeys doc lib) where
  pub signed_iff :
      (p q : Bytes) (c i : X509) (k : Key)
      → pem_to_x509 lib p ≡ some c
      → pem_to_x509 lib q ≡ some i
      → (doc.contents i).public_key ≡ some k
      → (verify_signed_by lib p q ≡ true) ↔ ((doc.contents c).signer ≡ some k)
  unfolding verify_signed_by both_read verify_with
  signed_iff p q c i k p_read q_read key =
      rw (p_read, q_read, checks.public_key_law i, key) (checks.verify_law c k)

  pub matches_iff :
      (p q : Bytes) (c : X509) (k : Key)
      → pem_to_x509 lib p ≡ some c
      → bind_option (mem_bio lib q) lib.read_private_key ≡ some k
      → (cert_matches_key lib p q ≡ true) ↔ ((doc.contents c).public_key ≡ some k)
  unfolding cert_matches_key pair_read
  matches_iff p q c k p_read q_read = rw (p_read, q_read) (checks.pair_law c k)

  -- On the texts of two certificates with the profiles that `issueDevCa` gives them: the server's is
  -- found to be signed by the root, and so is the root by itself, but the root is signed by the server
  -- only if they share a key; and of the keys that can be read back, exactly the server's own matches
  -- its certificate. That holds if OpenSSL checks keys and signatures as it documents.
  pub chain_checks :
      (root_pem server_pem key_pem : Bytes) (root server : X509) (m n : ℕ) (ca_key key k : Key)
      (ip : Bytes)
      → pem_to_x509 lib root_pem ≡ some root
      → pem_to_x509 lib server_pem ≡ some server
      → bind_option (mem_bio lib key_pem) lib.read_private_key ≡ some k
      → doc.contents root ≡ ca_profile m ca_key
      → doc.contents server ≡ leaf_profile n key ca_key ip
      → (verify_signed_by lib server_pem root_pem ≡ true)
        × (verify_signed_by lib root_pem root_pem ≡ true)
        × ((verify_signed_by lib root_pem server_pem ≡ true) ↔ (ca_key ≡ key))
        × ((cert_matches_key lib server_pem key_pem ≡ true) ↔ (key ≡ k))
  chain_checks root_pem server_pem key_pem root server m n ca_key key k ip root_read server_read
        key_read root_is server_is =
      let root_key = ap (λ d. d.public_key) root_is in
      let root_signer = ap (λ d. d.signer) root_is in
      let server_key = ap (λ d. d.public_key) server_is in
      let back = signed_iff root_pem server_pem root server key root_read server_read server_key in
      let matched = matches_iff server_pem key_pem server k server_read key_read in
      (
        (signed_iff server_pem root_pem server root ca_key server_read root_read root_key).1
            (ap (λ d. d.signer) server_is),
        (signed_iff root_pem root_pem root root ca_key root_read root_read root_key).1 root_signer,
        (λ h. some_same (sym root_signer ∙ back.0 h), λ e. back.1 (root_signer ∙ ap some e)),
        (λ h. some_same (sym server_key ∙ matched.0 h), λ e. matched.1 (server_key ∙ ap some e)),
      )
    where
      some_same : {a b : Key} → some a ≡ some b → a ≡ b
      some_same e = cc
