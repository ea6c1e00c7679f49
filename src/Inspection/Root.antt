-- ===== src/Inspection/Root.antt =====
-- What `inspectCertPem` finds in the root certificate.
use chat_hub.CertFields.{usage_bit_of, any_usage, san_of}
use chat_hub.DevCa.{OpenSsl}
use chat_hub.DevCa.Contents.{Documented}
use chat_hub.DevCa.Profile.{IsSerial, ca_profile}
use chat_hub.DevCa.Reliable.{ca_extensions}
use chat_hub.Inspection.{
  Inspector, CertFacts, usage_bit, has_server_auth, facts_of, inspected, pem_to_x509,
  inspect_cert_pem,
}
use chat_hub.Inspection.Facts.{Decodes, serial_is_128}
use chat_hub.Prelude.{ℕ, ◌≡◌, refl, sym, ap, subst, List, [], true, false, Bytes, none, some}

-- What OpenSSL documents of the extensions that the tool gives the root certificate.
pub record DecodesRoot
    {World Key X509 Extension Bio BitString Object Integer BigNumber Time Tm : Type 0}
    {ssl : OpenSsl World Key X509 Extension} (doc : Documented ssl)
    (lib : Inspector Bio X509 Key BitString Object Integer BigNumber Time Tm) : Type 0 where
  pub authority : (c : X509) → (doc.contents c).extensions ≡ ca_extensions → lib.check_ca c ≡ 1
  pub signing_usage :
      (c : X509)
      → (doc.contents c).extensions ≡ ca_extensions
      → (ku : BitString) × (lib.key_usage c ≡ some ku)
        × (lib.get_bit ku 0 ≡ 0)
        × (lib.get_bit ku 5 ≡ 1)
        × (lib.get_bit ku 6 ≡ 1)
  pub no_usage :
      (c : X509) → (doc.contents c).extensions ≡ ca_extensions → lib.ext_key_usage c ≡ none
  pub no_names :
      (c : X509) → (doc.contents c).extensions ≡ ca_extensions → lib.subject_alt_name c ≡ none

-- What the tool's tests ask of the root certificate.
pub record IsRootFacts (f : CertFacts) : Type 0 where
  pub authority : f.is_ca ≡ true
  pub signs_certificates : f.key_cert_sign ≡ true
  pub signs_lists : f.crl_sign ≡ true
  pub signs_no_data : f.digital_signature ≡ false
  pub serves_nobody : f.server_auth ≡ false
  pub no_dns_name : f.has_dns_san ≡ false
  pub no_ipv6_name : f.has_ipv6_san ≡ false
  pub no_address : f.san_ips ≡ []
  pub serial_bits : f.serial_bit_length ≡ 128

module _ {World Key X509 Extension Bio BitString Object Integer BigNumber Time Tm : Type 0}
    {ssl : OpenSsl World Key X509 Extension} {doc : Documented ssl}
    {lib : Inspector Bio X509 Key BitString Object Integer BigNumber Time Tm} {ip : List ℕ}
    (decodes : Decodes doc lib ip) (root : DecodesRoot doc lib) where
  pub inspect_cert_pem-IsRootFacts :
      (pem : Bytes) (c : X509) (m : ℕ) (key : Key)
      → pem_to_x509 lib pem ≡ some c
      → IsSerial m
      → doc.contents c ≡ ca_profile m key
      → (f : CertFacts) × (inspect_cert_pem lib pem ≡ some f) × IsRootFacts f
  unfolding inspect_cert_pem inspected facts_of usage_bit usage_bit_of has_server_auth any_usage
      san_of
  inspect_cert_pem-IsRootFacts pem c m key read is_serial profile =
      let exts = ap (λ d. d.extensions) profile in
      let (ku, usage, bit0, bit5, bit6) = root.signing_usage c exts in
      let san = ap san_of (root.no_names c exts) in
      (
        facts_of lib c,
        ap (inspected lib) read,
        record {
          authority = rw (root.authority c exts) refl;
          signs_certificates = rw (usage, bit5) refl;
          signs_lists = rw (usage, bit6) refl;
          signs_no_data = rw (usage, bit0) refl;
          serves_nobody = rw (root.no_usage c exts) refl;
          no_dns_name = ap (λ s. s.dns_found) san;
          no_ipv6_name = ap (λ s. s.ipv6_found) san;
          no_address = ap (λ s. s.ips) san;
          serial_bits =
              serial_is_128 decodes c (subst IsSerial (sym (ap (λ d. d.serial) profile)) is_serial);
        },
      )
