-- ===== src/DevCa/Issued.antt =====
-- `issueDevCa`: what the certificates that it returns contain.
use chat_hub.Attempt.{lift_inv, bind_inv}
use chat_hub.Prelude.{
  ℕ, ◌≡◌, ◌≢◌, sym, refl, ap, ◌∙◌, subst, [], ◌∷◌, ◌++◌, Bool, true, false, not, if◌then◌else◌,
  Bytes, Option, none, some, after,
}
use chat_hub.Pki.{is_ipv4_literal}
use chat_hub.Pki.Ipv4.{IsDottedQuad, is_ipv4_literal_iff}
use chat_hub.DevCa.Fingerprint.{IsHexOf, hex_of-IsHexOf}
use chat_hub.DevCa.Texts.{Wrote, unless_empty_inv, or_empty_inv, fingerprint_inv}
use chat_hub.DevCa.{
  CString, literal, built, Nid, OpenSsl, IssueDevCa, issue_ca, issue_leaf, issue_for, issue_dev_ca,
  written, x509_to_pem, pkey_to_pem, finger_print, or_empty, hex_or_none, unless_empty,
}
use chat_hub.DevCa.Contents.{Contents, blank, Documented}
use chat_hub.DevCa.Profile.{IsSerial, initial, ca_profile, leaf_profile, add_ext_lem, init_cert_lem}

behind_test :
    {A : Type 0} (b : Bool) (o : Option A) {a : A}
    → (if not b then none else o) ≡ some a
    → (b ≡ true) × (o ≡ some a)
behind_test true o h = (refl, h)
behind_test false o h = cc (h)

module _ {World Key X509 Extension : Type 0} {ssl : OpenSsl World Key X509 Extension}
    (doc : Documented ssl) where
  added : (Nid × CString) → Contents Key → Contents Key
  added e d = record d { extensions = d.extensions ++ (e ∷ []) }

  issued_by : Contents Key → Contents Key → Contents Key
  issued_by i d = record d { issuer = i.subject }

  pub issue_ca_lem :
      (c ca : X509) (key : Key) (w v : World)
      → doc.contents c ≡ blank
      → issue_ca ssl c key w ≡ some (ca, v)
      → (serial : ℕ) × IsSerial serial × (doc.contents ca ≡ ca_profile serial key)
  unfolding issue_ca added
  issue_ca_lem c ca key w v new h =
      let (c1, w1, e1, h1) = bind_inv _ _ h in
      let (c2, w2, e2, h2) = bind_inv _ _ h1 in
      let (c3, w3, e3, h3) = bind_inv _ _ h2 in
      let (c4, w4, e4, h4) = bind_inv _ _ h3 in
      let (c5, w5, e5, h5) = bind_inv _ _ h4 in
      let (n, is_serial, started) = init_cert_lem doc c c1 key _ _ w w1 new e1 in
      let (issued, _) = lift_inv _ e2 in
      (
        n,
        is_serial,
        after (λ d. record d { signer = some key }) (doc.sign_law w5 v c5 ca key h5)
            (after (added (Nid.subject_key_identifier, literal "hash"))
              (add_ext_lem doc c4 c4 c4 c5 _ _ w4 w5 e5)
              (after (added (Nid.key_usage, literal "critical,keyCertSign,cRLSign"))
                (add_ext_lem doc c3 c3 c3 c4 _ _ w3 w4 e4)
                (after (added (Nid.basic_constraints, literal "critical,CA:TRUE"))
                  (add_ext_lem doc c2 c2 c2 c3 _ _ w2 w3 e3)
                  (after (λ d. record d { issuer = d.subject }) (doc.issuer_law c1 c1 c2 issued)
                    started)))),
      )

  issue_leaf_lem :
      (c leaf ca : X509) (key ca_key : Key) (ip : Bytes) (serial : ℕ) (w v : World)
      → doc.contents c ≡ blank
      → doc.contents ca ≡ ca_profile serial ca_key
      → issue_leaf ssl c key ca ca_key ip w ≡ some (leaf, v)
      → (n : ℕ) × IsSerial n × (doc.contents leaf ≡ leaf_profile n key ca_key ip)
  unfolding issue_leaf added issued_by
  issue_leaf_lem c leaf ca key ca_key ip serial w v new root h =
      let (c1, w1, e1, h1) = bind_inv _ _ h in
      let (c2, w2, e2, h2) = bind_inv _ _ h1 in
      let (c3, w3, e3, h3) = bind_inv _ _ h2 in
      let (c4, w4, e4, h4) = bind_inv _ _ h3 in
      let (c5, w5, e5, h5) = bind_inv _ _ h4 in
      let (c6, w6, e6, h6) = bind_inv _ _ h5 in
      let (c7, w7, e7, h7) = bind_inv _ _ h6 in
      let (n, is_serial, started) = init_cert_lem doc c c1 key _ _ w w1 new e1 in
      let (issued, _) = lift_inv _ e2 in
      (
        n,
        is_serial,
        after (λ d. record d { signer = some ca_key }) (doc.sign_law w7 v c7 leaf ca_key h7)
            (after (added (Nid.authority_key_identifier, literal "keyid:always"))
              (add_ext_lem doc c6 ca c6 c7 _ _ w6 w7 e7)
              (after (added (Nid.subject_alt_name, built (b'I' ∷ b'P' ∷ b':' ∷ ip)))
                (add_ext_lem doc c5 ca c5 c6 _ _ w5 w6 e6)
                (after (added (Nid.ext_key_usage, literal "serverAuth"))
                  (add_ext_lem doc c4 ca c4 c5 _ _ w4 w5 e5)
                  (after (added (Nid.key_usage, literal "critical,digitalSignature"))
                    (add_ext_lem doc c3 ca c3 c4 _ _ w3 w4 e4)
                    (after (added (Nid.basic_constraints, literal "critical,CA:FALSE"))
                      (add_ext_lem doc c2 ca c2 c3 _ _ w2 w3 e3)
                      (doc.issuer_law c1 ca c2 issued
                        ∙ (ap (issued_by (doc.contents ca)) started
                            ∙ ap (λ d. issued_by d (initial n key (built ip) 365)) root))))))),
      )

  -- Two certificates and their keys, with the contents that the tool's policy asks for, and the five
  -- texts that OpenSSL writes for them, none of them empty.
  abbrev pub IsIssued : Bytes → IssueDevCa → Type 0
  IsIssued ip out =
      (ca_key : Key) × (leaf_key : Key) × (ca : X509) × (leaf : X509) × (m : ℕ) × (n : ℕ) × IsSerial
        m
      × IsSerial n
      × (doc.contents ca ≡ ca_profile m ca_key)
      × (doc.contents leaf ≡ leaf_profile n leaf_key ca_key ip)
      × Wrote (ssl.write_certificate ca) out.ca_cert_pem
      × Wrote (ssl.write_key ca_key) out.ca_key_pem
      × Wrote (ssl.write_certificate leaf) out.server_cert_pem
      × Wrote (ssl.write_key leaf_key) out.server_key_pem
      × (md : Bytes) × (ssl.digest ca ≡ some md)
      × IsHexOf md out.ca_fingerprint_sha256
      × (out.ca_fingerprint_sha256 ≢ [])

  texts_IsIssued :
      (ip : Bytes) (ca_key leaf_key : Key) (ca leaf : X509) (m n : ℕ) (out : IssueDevCa)
      → IsSerial m
      → IsSerial n
      → doc.contents ca ≡ ca_profile m ca_key
      → doc.contents leaf ≡ leaf_profile n leaf_key ca_key ip
      → unless_empty (written ssl ca_key leaf_key ca leaf) ≡ some out
      → IsIssued ip out
  unfolding written x509_to_pem pkey_to_pem finger_print
  texts_IsIssued ip ca_key leaf_key ca leaf m n out p q root server h =
      let (same, (a, b, c, d, e)) = unless_empty_inv _ out h in
      let (md, digested, hex) = fingerprint_inv (ssl.digest ca) e in
      let written_hex : IsHexOf md (or_empty (hex_or_none (ssl.digest ca))) =
        subst (IsHexOf md) (sym hex) (hex_of-IsHexOf md (doc.digest_law ca md digested)) in
      subst (IsIssued ip) same (
        ca_key,
        leaf_key,
        ca,
        leaf,
        m,
        n,
        p,
        q,
        root,
        server,
        or_empty_inv _ a,
        or_empty_inv _ b,
        or_empty_inv _ c,
        or_empty_inv _ d,
        md,
        digested,
        written_hex,
        e,
      )

  issue_for-IsIssued :
      (ip : Bytes) (out : IssueDevCa) (w v : World)
      → issue_for ssl ip w ≡ some (out, v)
      → IsIssued ip out
  unfolding issue_for
  issue_for-IsIssued ip out w v h =
      let (ca_key, w1, e1, h1) = bind_inv _ _ h in
      let (leaf_key, w2, e2, h2) = bind_inv _ _ h1 in
      let (c, w3, e3, h3) = bind_inv _ _ h2 in
      let (l, w4, e4, h4) = bind_inv _ _ h3 in
      let (ca, w5, e5, h5) = bind_inv _ _ h4 in
      let (leaf, w6, e6, h6) = bind_inv _ _ h5 in
      let (m, p, root) = issue_ca_lem c ca ca_key w4 w5 (doc.new_x509_law w2 w3 c e3) e5 in
      let (n, q, server) =
        issue_leaf_lem l leaf ca leaf_key ca_key ip m w5 w6 (doc.new_x509_law w3 w4 l e4) root e6 in
      texts_IsIssued ip ca_key leaf_key ca leaf m n out p q root server (lift_inv _ h6).0

  -- What `issueDevCa` returns is for a dotted quad, and its texts are those of two certificates
  -- with their keys, none empty: a root that is its own issuer and signed by its own key, for ten
  -- years, that may sign certificates and revocation lists only; and a server's certificate that
  -- this root has issued and signed, for a year, with this address as its subject and its only
  -- alternative name; each of version 3 with a serial number of 128 bits. The fingerprint is the
  -- digest of the root in hexadecimal, two characters in lower case for each byte. That holds if each call of OpenSSL that succeeds has the
  -- effect that OpenSSL documents.
  pub issue_dev_ca-IsIssued :
      (ip : Bytes) (out : IssueDevCa) (w v : World)
      → issue_dev_ca ssl ip w ≡ some (out, v)
      → IsDottedQuad ip × IsIssued ip out
  unfolding issue_dev_ca
  issue_dev_ca-IsIssued ip out w v h =
      let (literal_ip, issued) = behind_test (is_ipv4_literal ip) _ h in
      ((is_ipv4_literal_iff ip).0 literal_ip, issue_for-IsIssued ip out w v issued)
