-- ===== src/DevCa/Reliable.antt =====
-- `issueDevCa` where no call of OpenSSL fails.
use chat_hub.Attempt.{Returns, lift, lift-Returns, bind-Returns}
use chat_hub.Prelude.{ℕ, ◌≡◌, ◌↔◌, ap, List, [], ◌∷◌, Bytes, some, All}
use chat_hub.Pki.Ipv4.{IsDottedQuad, is_ipv4_literal_iff}
use chat_hub.DevCa.{
  CString, literal, built, Nid, OpenSsl, add_ext, set_serial, init_cert, issue_ca, issue_leaf,
  issue_for, issue_dev_ca, written, unless_empty, x509_to_pem, pkey_to_pem, finger_print,
}
use chat_hub.DevCa.Contents.{Documented}
use chat_hub.DevCa.Texts.{Wrote, unless_empty_complete, or_empty_text, fingerprint_text}
use chat_hub.DevCa.Issued.{issue_ca_lem, issue_dev_ca-IsIssued}

-- The extensions of the root and of the server's certificate.
abbrev pub ca_extensions : List (Nid × CString)
ca_extensions =
    (Nid.basic_constraints, literal "critical,CA:TRUE")
    ∷ (Nid.key_usage, literal "critical,keyCertSign,cRLSign")
    ∷ (Nid.subject_key_identifier, literal "hash")
    ∷ []

abbrev pub leaf_extensions : Bytes → List (Nid × CString)
leaf_extensions ip =
    (Nid.basic_constraints, literal "critical,CA:FALSE")
    ∷ (Nid.key_usage, literal "critical,digitalSignature")
    ∷ (Nid.ext_key_usage, literal "serverAuth")
    ∷ (Nid.subject_alt_name, built (b'I' ∷ b'P' ∷ b':' ∷ ip))
    ∷ (Nid.authority_key_identifier, literal "keyid:always")
    ∷ []

-- No call that the tool makes fails: OpenSSL knows each extension that it is given, where the server's
-- certificate needs an issuer with a key identifier, and takes each name.
pub record Reliable {World Key X509 Extension : Type 0} {ssl : OpenSsl World Key X509 Extension}
    (doc : Documented ssl) : Type 0 where
  pub generates : (w : World) → Returns ssl.generate_key w
  pub allocates : (w : World) → Returns ssl.new_x509 w
  pub draws : (w : World) → Returns ssl.random_serial w
  pub versions : (c : X509) → (c' : X509) × (ssl.set_version_3 c ≡ some c')
  pub numbers : (c : X509) (n : ℕ) → (c' : X509) × (ssl.set_serial_number c n ≡ some c')
  pub starts : (c : X509) (w : World) (s : ℕ) → Returns (ssl.set_not_before c s) w
  pub ends : (c : X509) (w : World) (s : ℕ) → Returns (ssl.set_not_after c s) w
  pub names :
      (ip : Bytes)
      → IsDottedQuad ip
      → All
          (λ cn. (c : X509) → (c' : X509) × (ssl.add_common_name c cn ≡ some c'))
          (literal "ChatHub Dev Root CA" ∷ built ip ∷ [])
  pub keys : (c : X509) (key : Key) → (c' : X509) × (ssl.set_public_key c key ≡ some c')
  pub issuers : (c i : X509) → (c' : X509) × (ssl.set_issuer_of c i ≡ some c')
  pub makes_ca :
      All
        (λ e. (i s : X509) → (x : Extension) × (ssl.make_extension i s e.0 e.1 ≡ some x))
        ca_extensions
  pub makes_leaf :
      (ip : Bytes)
      → IsDottedQuad ip
      → All
          (λ e.
            (i s : X509)
            → (doc.contents i).extensions ≡ ca_extensions
            → (x : Extension) × (ssl.make_extension i s e.0 e.1 ≡ some x))
          (leaf_extensions ip)
  pub appends : (c : X509) (x : Extension) → (c' : X509) × (ssl.append_extension c x ≡ some c')
  pub signs : (c : X509) (key : Key) (w : World) → Returns (ssl.sign c key) w
  pub writes_certificate : (c : X509) → (t : Bytes) × Wrote (ssl.write_certificate c) t
  pub writes_key : (key : Key) → (t : Bytes) × Wrote (ssl.write_key key) t
  pub digests : (c : X509) → (md : Bytes) × Wrote (ssl.digest c) md

module _ {World Key X509 Extension : Type 0} {ssl : OpenSsl World Key X509 Extension}
    {doc : Documented ssl} (ok : Reliable doc) where
  add_ext-Returns :
      (c i s : X509) (e : Nid × CString) (w : World)
      → ((x : Extension) × (ssl.make_extension i s e.0 e.1 ≡ some x))
      → Returns (add_ext ssl c i s e.0 e.1) w
  unfolding add_ext
  add_ext-Returns c i s e w made =
      bind-Returns _ _ (lift-Returns _ _ made) (λ x v h. lift-Returns _ _ (ok.appends c x))

  init_cert-Returns :
      (c : X509) (key : Key) (cn : CString) (days : ℕ) (w : World)
      → ((c : X509) → (c' : X509) × (ssl.add_common_name c cn ≡ some c'))
      → Returns (init_cert ssl c key cn days) w
  unfolding init_cert set_serial
  init_cert-Returns c key cn days w named =
      bind-Returns _ _ (lift-Returns _ _ (ok.versions c)) (λ c1 w1 h1.
        bind-Returns _ _
          (bind-Returns _ _ (ok.draws w1) (λ n v h. lift-Returns _ _ (ok.numbers c1 n)))
          (λ c2 w2 h2. bind-Returns _ _ (ok.starts c2 w2 0) (λ c3 w3 h3.
            bind-Returns _ _ (ok.ends c3 w3 _) (λ c4 w4 h4.
              bind-Returns _ _ (lift-Returns _ _ (named c4))
                (λ c5 w5 h5. lift-Returns _ _ (ok.keys c5 key))))))

  issue_ca-Returns :
      (c : X509) (key : Key) (ip : Bytes) (w : World)
      → IsDottedQuad ip
      → Returns (issue_ca ssl c key) w
  unfolding issue_ca
  issue_ca-Returns c key ip w quad =
      bind-Returns _ _ (init_cert-Returns c key _ _ w (ok.names ip quad).0) (λ c1 w1 h1.
        bind-Returns _ _ (lift-Returns _ _ (ok.issuers c1 c1)) (λ c2 w2 h2.
          bind-Returns _ _ (add_ext-Returns c2 c2 c2 (_, _) w2 (ok.makes_ca.0 c2 c2)) (λ c3 w3 h3.
            bind-Returns _ _ (add_ext-Returns c3 c3 c3 (_, _) w3 (ok.makes_ca.1.0 c3 c3))
              (λ c4 w4 h4.
                bind-Returns _ _ (add_ext-Returns c4 c4 c4 (_, _) w4 (ok.makes_ca.1.1.0 c4 c4))
                  (λ c5 w5 h5. ok.signs c5 key w5)))))

  issue_leaf-Returns :
      (c ca : X509) (key ca_key : Key) (ip : Bytes) (w : World)
      → IsDottedQuad ip
      → (doc.contents ca).extensions ≡ ca_extensions
      → Returns (issue_leaf ssl c key ca ca_key ip) w
  unfolding issue_leaf
  issue_leaf-Returns c ca key ca_key ip w quad root =
      let made = ok.makes_leaf ip quad in
      bind-Returns _ _ (init_cert-Returns c key _ _ w (ok.names ip quad).1.0) (λ c1 w1 h1.
        bind-Returns _ _ (lift-Returns _ _ (ok.issuers c1 ca)) (λ c2 w2 h2.
          bind-Returns _ _ (add_ext-Returns c2 ca c2 (_, _) w2 (made.0 ca c2 root)) (λ c3 w3 h3.
            bind-Returns _ _ (add_ext-Returns c3 ca c3 (_, _) w3 (made.1.0 ca c3 root)) (λ c4 w4 h4.
              bind-Returns _ _ (add_ext-Returns c4 ca c4 (_, _) w4 (made.1.1.0 ca c4 root))
                (λ c5 w5 h5.
                  bind-Returns _ _ (add_ext-Returns c5 ca c5 (_, _) w5 (made.1.1.1.0 ca c5 root))
                    (λ c6 w6 h6.
                      bind-Returns _ _
                        (add_ext-Returns c6 ca c6 (_, _) w6 (made.1.1.1.1.0 ca c6 root))
                        (λ c7 w7 h7. ok.signs c7 ca_key w7)))))))

  written-Returns :
      (ca_key leaf_key : Key) (ca leaf : X509) (w : World)
      → Returns (lift (unless_empty (written ssl ca_key leaf_key ca leaf))) w
  unfolding written x509_to_pem pkey_to_pem finger_print
  written-Returns ca_key leaf_key ca leaf w = lift-Returns _ _ (
    _,
    unless_empty_complete _ (
      or_empty_text _ (ok.writes_certificate ca),
      or_empty_text _ (ok.writes_key ca_key),
      or_empty_text _ (ok.writes_certificate leaf),
      or_empty_text _ (ok.writes_key leaf_key),
      fingerprint_text _ (ok.digests ca),
    ),
  )

  issue_for-Returns : (ip : Bytes) (w : World) → IsDottedQuad ip → Returns (issue_for ssl ip) w
  unfolding issue_for
  issue_for-Returns ip w quad = bind-Returns _ _ (ok.generates w) (λ ca_key w1 h1.
      bind-Returns _ _ (ok.generates w1) (λ leaf_key w2 h2.
        bind-Returns _ _ (ok.allocates w2) (λ c w3 h3.
          bind-Returns _ _ (ok.allocates w3) (λ l w4 h4.
            bind-Returns _ _ (issue_ca-Returns c ca_key ip w4 quad) (λ ca w5 h5.
              let (m, p, root) =
                issue_ca_lem doc c ca ca_key w4 w5 (doc.new_x509_law w2 w3 c h3) h5 in
              bind-Returns _ _
                (issue_leaf-Returns l ca leaf_key ca_key ip w5 quad (ap (λ d. d.extensions) root))
                (λ leaf w6 h6. written-Returns ca_key leaf_key ca leaf w6))))))

  -- If no call of OpenSSL fails, `issueDevCa` issues certificates exactly for a dotted quad.
  pub issue_dev_ca-Returns_iff :
      (ip : Bytes) (w : World) → Returns (issue_dev_ca ssl ip) w ↔ IsDottedQuad ip
  unfolding issue_dev_ca
  issue_dev_ca-Returns_iff ip w = (
    λ h. let (out, v, e) = h in (issue_dev_ca-IsIssued doc ip out w v e).0,
    λ quad. rw ((is_ipv4_literal_iff ip).1 quad) (issue_for-Returns ip w quad),
  )
