-- ===== src/Inspection/Facts.antt =====
-- What `inspectCertPem` finds in a certificate.
use chat_hub.DevCa.{OpenSsl, server_auth}
use chat_hub.DevCa.Contents.{Documented}
use chat_hub.DevCa.Profile.{IsSerial, leaf_profile}
use chat_hub.DevCa.Reliable.{leaf_extensions}
use chat_hub.CertFields.{
  ip_address, ip_text, add_name, collect_names, san_of, usage_bit_of, is_server_auth,
  any_server_auth, any_usage, bind_option,
}
use chat_hub.Inspection.{
  Inspector, CertFacts, usage_bit, has_server_auth, serial_number, serial_bits, facts_of, inspected,
  pem_to_x509, inspect_cert_pem,
}
use chat_hub.Pki.Ipv4.{dotted}
use chat_hub.Prelude.{
  ℕ, ◌+◌, ◌^◌, ◌≤◌, ◌<◌, ◌≡◌, refl, sym, ap, subst, List, [], ◌∷◌, true, false, Bytes, length, some,
  arith,
}

-- One name, an address of four bytes.
one_name :
    (ip : List ℕ)
    → length ip ≡ 4
    → san_of (some (ip_address ip ∷ []))
      ≡ record { dns_found = false; ipv6_found = false; ips = dotted ip ∷ [] }
unfolding san_of collect_names add_name ip_text
one_name (a ∷ b ∷ c ∷ d ∷ []) four = refl
one_name [] four = absurd (omega arith)
one_name (a ∷ []) four = absurd (omega arith)
one_name (a ∷ b ∷ []) four = absurd (omega arith)
one_name (a ∷ b ∷ c ∷ []) four = absurd (omega arith)
one_name (a ∷ b ∷ c ∷ d ∷ e ∷ rest) four = absurd (omega arith)

-- What OpenSSL documents of the extensions that the tool gives the server's certificate for this
-- address, and of a serial number.
pub record Decodes
    {World Key X509 Extension Bio BitString Object Integer BigNumber Time Tm : Type 0}
    {ssl : OpenSsl World Key X509 Extension} (doc : Documented ssl)
    (lib : Inspector Bio X509 Key BitString Object Integer BigNumber Time Tm) (ip : List ℕ)
    : Type 0 where
  pub no_authority :
      (c : X509) → (doc.contents c).extensions ≡ leaf_extensions (dotted ip) → lib.check_ca c ≡ 0
  pub signature_usage :
      (c : X509)
      → (doc.contents c).extensions ≡ leaf_extensions (dotted ip)
      → (ku : BitString) × (lib.key_usage c ≡ some ku)
        × (lib.get_bit ku 0 ≡ 1)
        × (lib.get_bit ku 5 ≡ 0)
        × (lib.get_bit ku 6 ≡ 0)
  pub server_usage :
      (c : X509)
      → (doc.contents c).extensions ≡ leaf_extensions (dotted ip)
      → (o : Object) × (lib.ext_key_usage c ≡ some (o ∷ [])) × (lib.obj2nid o ≡ server_auth)
  pub names :
      (c : X509)
      → (doc.contents c).extensions ≡ leaf_extensions (dotted ip)
      → lib.subject_alt_name c ≡ some (ip_address ip ∷ [])
  pub serial :
      (c : X509)
      → (i : Integer) × (b : BigNumber) × (lib.get_serial c ≡ some i)
        × (lib.to_bn i ≡ some b)
        × ((k : ℕ)
            → 2 ^ k ≤ (doc.contents c).serial
            → (doc.contents c).serial < 2 ^ (k + 1)
            → lib.num_bits b ≡ k + 1)

-- What the tool's tests ask of the server's certificate for this address.
pub record IsServerFacts (ip : Bytes) (f : CertFacts) : Type 0 where
  pub no_authority : f.is_ca ≡ false
  pub signs_data : f.digital_signature ≡ true
  pub signs_no_certificate : f.key_cert_sign ≡ false
  pub signs_no_list : f.crl_sign ≡ false
  pub serves : f.server_auth ≡ true
  pub no_dns_name : f.has_dns_san ≡ false
  pub no_ipv6_name : f.has_ipv6_san ≡ false
  pub one_address : f.san_ips ≡ ip ∷ []
  pub serial_bits : f.serial_bit_length ≡ 128

module _ {World Key X509 Extension Bio BitString Object Integer BigNumber Time Tm : Type 0}
    {ssl : OpenSsl World Key X509 Extension} {doc : Documented ssl}
    {lib : Inspector Bio X509 Key BitString Object Integer BigNumber Time Tm} {ip : List ℕ}
    (decodes : Decodes doc lib ip) where
  leaf_san :
      (c : X509)
      → length ip ≡ 4
      → (doc.contents c).extensions ≡ leaf_extensions (dotted ip)
      → san_of (lib.subject_alt_name c)
        ≡ record { dns_found = false; ipv6_found = false; ips = dotted ip ∷ [] }
  unfolding san_of
  leaf_san c four exts = rw (decodes.names c exts) (one_name ip four)

  pub serial_is_128 :
      (c : X509) → IsSerial (doc.contents c).serial → serial_bits lib (serial_number lib c) ≡ 128
  unfolding serial_bits serial_number bind_option
  serial_is_128 c (low, high) =
      let (i, b, got, number, bits) = decodes.serial c in rw (got, number) (bits 127 low high)

  -- A certificate with the profile that `issueDevCa` gives the server's certificate is found to be
  -- what the tool's tests ask for: no authority, for data signatures and servers only, with the one
  -- address and no other name, and with a serial number of 128 bits; if OpenSSL decodes the
  -- extensions as it documents.
  pub inspect_cert_pem-IsServerFacts :
      (pem : Bytes) (c : X509) (n : ℕ) (key ca_key : Key)
      → length ip ≡ 4
      → pem_to_x509 lib pem ≡ some c
      → IsSerial n
      → doc.contents c ≡ leaf_profile n key ca_key (dotted ip)
      → (f : CertFacts) × (inspect_cert_pem lib pem ≡ some f) × IsServerFacts (dotted ip) f
  unfolding inspect_cert_pem inspected facts_of usage_bit usage_bit_of has_server_auth any_usage
      any_server_auth is_server_auth
  inspect_cert_pem-IsServerFacts pem c n key ca_key four read is_serial profile =
      let exts = ap (λ d. d.extensions) profile in
      let (ku, usage, bit0, bit5, bit6) = decodes.signature_usage c exts in
      let (o, eku, nid) = decodes.server_usage c exts in
      let san = leaf_san c four exts in
      (
        facts_of lib c,
        ap (inspected lib) read,
        record {
          no_authority = rw (decodes.no_authority c exts) refl;
          signs_data = rw (usage, bit0) refl;
          signs_no_certificate = rw (usage, bit5) refl;
          signs_no_list = rw (usage, bit6) refl;
          serves = rw (eku, nid) refl;
          no_dns_name = ap (λ s. s.dns_found) san;
          no_ipv6_name = ap (λ s. s.ipv6_found) san;
          one_address = ap (λ s. s.ips) san;
          serial_bits =
              serial_is_128 c (subst IsSerial (sym (ap (λ d. d.serial) profile)) is_serial);
        },
      )
