-- ===== src/Inspection/Reading.antt =====
-- What `issueDevCa` writes, read back and checked by `inspectCertPem`, `verifySignedBy` and
-- `certMatchesKey`.
use chat_hub.CertFields.{bind_option}
use chat_hub.DevCa.{OpenSsl, IssueDevCa, issue_dev_ca}
use chat_hub.DevCa.Contents.{Documented}
use chat_hub.DevCa.Issued.{issue_dev_ca-IsIssued}
use chat_hub.Inspection.{
  Inspector, CertFacts, mem_bio, pem_to_x509, inspect_cert_pem, verify_signed_by, cert_matches_key,
}
use chat_hub.Inspection.Chain.{ChecksKeys, signed_iff, matches_iff}
use chat_hub.Inspection.Facts.{Decodes, IsServerFacts, inspect_cert_pem-IsServerFacts}
use chat_hub.Inspection.Root.{DecodesRoot, IsRootFacts, inspect_cert_pem-IsRootFacts}
use chat_hub.Pki.Ipv4.{dotted}
use chat_hub.Prelude.{
  ℕ, ◌≤◌, ◌≡◌, refl, ap, ◌∙◌, List, true, false, ltb, Bytes, length, some, arith,
}

-- OpenSSL reads this certificate, or this key, from the text, which has at most 2^31-1 bytes.
module _ {Bio X509 Key BitString Object Integer BigNumber Time Tm : Type 0}
    (lib : Inspector Bio X509 Key BitString Object Integer BigNumber Time Tm) where
  abbrev pub IsCertificateText : Bytes → X509 → Type 0
  IsCertificateText t x =
      (length t ≤ 2147483647)
      × ((b : Bio) × (lib.new_mem_buf t ≡ some b) × (lib.read_x509 b ≡ some x))

  abbrev pub IsKeyText : Bytes → Key → Type 0
  IsKeyText t k =
      (length t ≤ 2147483647)
      × ((b : Bio) × (lib.new_mem_buf t ≡ some b) × (lib.read_private_key b ≡ some k))

  certificate_read : (t : Bytes) (x : X509) → IsCertificateText t x → pem_to_x509 lib t ≡ some x
  unfolding pem_to_x509 mem_bio bind_option
  certificate_read t x (small, (b, buffer, read)) =
      let short : ltb 2147483647 (length t) ≡ false = ground arith in rw (short, buffer, read) refl

  key_read :
      (t : Bytes) (k : Key)
      → IsKeyText t k
      → bind_option (mem_bio lib t) lib.read_private_key ≡ some k
  unfolding mem_bio bind_option
  key_read t k (small, (b, buffer, read)) =
      let short : ltb 2147483647 (length t) ≡ false = ground arith in rw (short, buffer, read) refl

-- What OpenSSL documents of its texts: it reads back what it has written.
pub record ReadsBack
    {World Key X509 Extension Bio BitString Object Integer BigNumber Time Tm : Type 0}
    {ssl : OpenSsl World Key X509 Extension} (doc : Documented ssl)
    (lib : Inspector Bio X509 Key BitString Object Integer BigNumber Time Tm) : Type 0 where
  pub certificate_law :
      (c : X509) (t : Bytes)
      → ssl.write_certificate c ≡ some t
      → (x : X509) × IsCertificateText lib t x × (doc.contents x ≡ doc.contents c)
  pub key_law : (k : Key) (t : Bytes) → ssl.write_key k ≡ some t → IsKeyText lib t k

module _ {World Key X509 Extension Bio BitString Object Integer BigNumber Time Tm : Type 0}
    {ssl : OpenSsl World Key X509 Extension} {doc : Documented ssl}
    {lib : Inspector Bio X509 Key BitString Object Integer BigNumber Time Tm}
    (reads : ReadsBack doc lib) where
  -- What `issueDevCa` returns for an address passes the tool's checks: `inspectCertPem` reads both
  -- certificates and finds the root to be an authority that signs certificates and revocation lists
  -- and serves no name, and the server's to be no authority, for data signatures and servers, with
  -- this one address; both have serial numbers of 128 bits; `verifySignedBy` finds both to be signed
  -- by the root, and `certMatchesKey` finds that each certificate matches the key beside it. That
  -- holds if OpenSSL sets, decodes and checks as it documents and reads back what it has written.
  pub issue_dev_ca-checks :
      (ip : List ℕ) (out : IssueDevCa) (w v : World)
      → Decodes doc lib ip
      → DecodesRoot doc lib
      → ChecksKeys doc lib
      → length ip ≡ 4
      → issue_dev_ca ssl (dotted ip) w ≡ some (out, v)
      → ((f : CertFacts) × (inspect_cert_pem lib out.ca_cert_pem ≡ some f) × IsRootFacts f)
        × ((f : CertFacts) × (inspect_cert_pem lib out.server_cert_pem ≡ some f)
            × IsServerFacts (dotted ip) f)
        × (verify_signed_by lib out.ca_cert_pem out.ca_cert_pem ≡ true)
        × (verify_signed_by lib out.server_cert_pem out.ca_cert_pem ≡ true)
        × (cert_matches_key lib out.ca_cert_pem out.ca_key_pem ≡ true)
        × (cert_matches_key lib out.server_cert_pem out.server_key_pem ≡ true)
  issue_dev_ca-checks ip out w v decodes decodes_root checks four issued =
      let (_, issuing) = issue_dev_ca-IsIssued doc (dotted ip) out w v issued in
      let (
        ca_key, key, ca, leaf, m, n, m_serial, n_serial, ca_is, leaf_is, ca_wrote, ca_key_wrote,
        leaf_wrote, key_wrote, _, _, _, _,
      ) =
        issuing in
      let (ca', ca_text, ca_same) = reads.certificate_law ca out.ca_cert_pem ca_wrote.0 in
      let (leaf', leaf_text, leaf_same) =
        reads.certificate_law leaf out.server_cert_pem leaf_wrote.0 in
      let ca_reads = certificate_read lib out.ca_cert_pem ca' ca_text in
      let leaf_reads = certificate_read lib out.server_cert_pem leaf' leaf_text in
      let ca_key_reads =
        key_read lib out.ca_key_pem ca_key (reads.key_law ca_key out.ca_key_pem ca_key_wrote.0) in
      let key_reads =
        key_read lib out.server_key_pem key (reads.key_law key out.server_key_pem key_wrote.0) in
      let root = ca_same ∙ ca_is in
      let server = leaf_same ∙ leaf_is in
      let signed =
        λ (p : Bytes) (c : X509) (h : pem_to_x509 lib p ≡ some c)
            (s : (doc.contents c).signer ≡ some ca_key).
          (signed_iff checks p out.ca_cert_pem c ca' ca_key h ca_reads
              (ap (λ d. d.public_key) root)).1
            s in
      (
        inspect_cert_pem-IsRootFacts decodes decodes_root out.ca_cert_pem ca' m ca_key ca_reads
            m_serial root,
        inspect_cert_pem-IsServerFacts decodes out.server_cert_pem leaf' n key ca_key four
            leaf_reads n_serial server,
        signed out.ca_cert_pem ca' ca_reads (ap (λ d. d.signer) root),
        signed out.server_cert_pem leaf' leaf_reads (ap (λ d. d.signer) server),
        (matches_iff checks out.ca_cert_pem out.ca_key_pem ca' ca_key ca_reads ca_key_reads).1
            (ap (λ d. d.public_key) root),
        (matches_iff checks out.server_cert_pem out.server_key_pem leaf' key leaf_reads key_reads).1
            (ap (λ d. d.public_key) server),
      )
