-- ===== src/DevCa/Profile.antt =====
-- The two certificates that `issueDevCa` issues.
use chat_hub.Attempt.{lift_inv, bind_inv}
use chat_hub.Prelude.{ℕ, ◌*◌, ◌≤◌, ◌<◌, ◌^◌, ◌≡◌, ap, ◌∙◌, [], ◌∷◌, ◌++◌, Bytes, none, some, after}
use chat_hub.DevCa.{CString, literal, built, Nid, OpenSsl, add_ext, set_serial, init_cert}
use chat_hub.DevCa.Contents.{Contents, blank, Documented}

-- A serial number of 128 bits.
abbrev pub IsSerial : ℕ → Type 0
IsSerial n = (2 ^ 127 ≤ n) × (n < 2 ^ 128)

-- A certificate as `initCert` leaves it.
abbrev pub initial : {Key : Type 0} → ℕ → Key → CString → ℕ → Contents Key
initial serial key cn days = record {
  version_3 = some 2;
  serial = serial;
  not_before = 0;
  not_after = days * 86400;
  subject = cn ∷ [];
  issuer = [];
  public_key = some key;
  extensions = [];
  signer = none;
}

-- The root certificate: its own issuer, signed by its own key, for ten years.
abbrev pub ca_profile : {Key : Type 0} → ℕ → Key → Contents Key
ca_profile serial key = record (initial serial key (literal "ChatHub Dev Root CA") 3650) {
  issuer = literal "ChatHub Dev Root CA" ∷ [];
  extensions =
      (Nid.basic_constraints, literal "critical,CA:TRUE")
      ∷ (Nid.key_usage, literal "critical,keyCertSign,cRLSign")
      ∷ (Nid.subject_key_identifier, literal "hash")
      ∷ [];
  signer = some key;
}

-- The server's certificate: issued and signed by the root, for the one address, for a year.
abbrev pub leaf_profile : {Key : Type 0} → ℕ → Key → Key → Bytes → Contents Key
leaf_profile serial key ca_key ip = record (initial serial key (built ip) 365) {
  issuer = literal "ChatHub Dev Root CA" ∷ [];
  extensions =
      (Nid.basic_constraints, literal "critical,CA:FALSE")
      ∷ (Nid.key_usage, literal "critical,digitalSignature")
      ∷ (Nid.ext_key_usage, literal "serverAuth")
      ∷ (Nid.subject_alt_name, built (b'I' ∷ b'P' ∷ b':' ∷ ip))
      ∷ (Nid.authority_key_identifier, literal "keyid:always")
      ∷ [];
  signer = some ca_key;
}

module _ {World Key X509 Extension : Type 0} {ssl : OpenSsl World Key X509 Extension}
    (doc : Documented ssl) where
  pub add_ext_lem :
      (c i s c' : X509) (nid : Nid) (value : CString) (w v : World)
      → add_ext ssl c i s nid value w ≡ some (c', v)
      → doc.contents c' ≡ record (doc.contents c) {
        extensions = (doc.contents c).extensions ++ ((nid, value) ∷ []);
      }
  unfolding add_ext
  add_ext_lem c i s c' nid value w v h =
      let (ext, u, e, h') = bind_inv _ _ h in
      let (made, _) = lift_inv _ e in
      let (appended, _) = lift_inv _ h' in
      let law = doc.append_extension_law c c' ext appended in
      law
      ∙ ap (λ x. record (doc.contents c) { extensions = (doc.contents c).extensions ++ (x ∷ []) })
          (doc.make_extension_law i s nid value ext made)

  pub init_cert_lem :
      (c c' : X509) (key : Key) (cn : CString) (days : ℕ) (w v : World)
      → doc.contents c ≡ blank
      → init_cert ssl c key cn days w ≡ some (c', v)
      → (serial : ℕ) × IsSerial serial × (doc.contents c' ≡ initial serial key cn days)
  unfolding init_cert set_serial
  init_cert_lem c c' key cn days w v new h =
      let (c1, w1, e1, h1) = bind_inv _ _ h in
      let (c2, w2, e2, h2) = bind_inv _ _ h1 in
      let (c3, w3, e3, h3) = bind_inv _ _ h2 in
      let (c4, w4, e4, h4) = bind_inv _ _ h3 in
      let (c5, w5, e5, h5) = bind_inv _ _ h4 in
      let (n, u, drawn, set) = bind_inv _ _ e2 in
      let (versioned, _) = lift_inv _ e1 in
      let (numbered, _) = lift_inv _ set in
      let (named, _) = lift_inv _ e5 in
      let (keyed, _) = lift_inv _ h5 in
      (
        n,
        doc.serial_law w1 u n drawn,
        after (λ d. record d { public_key = some key }) (doc.public_key_law c5 c' key keyed)
            (after (λ d. record d { subject = d.subject ++ (cn ∷ []) })
              (doc.common_name_law c4 c5 cn named)
              (after (λ d. record d { not_after = days * 86400 })
                (doc.not_after_law w3 w4 c3 c4 (days * 86400) e4)
                (after (λ d. record d { not_before = 0 }) (doc.not_before_law w2 w3 c2 c3 0 e3)
                  (after (λ d. record d { serial = n }) (doc.set_serial_law c1 c2 n numbered)
                    (after (λ d. record d { version_3 = some 2 }) (doc.version_law c c1 versioned)
                      new))))),
      )
