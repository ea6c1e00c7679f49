-- ===== src/Inspection.antt =====
-- `inspectCertPem`, `verifySignedBy` and `certMatchesKey` of tools/pki/src/dev_ca.cpp. OpenSSL is a
-- parameter: a pointer that is null is `none`, and what a call frees leaves no trace.
pub mod Names
pub mod Facts
pub mod Chain
pub mod Root
pub mod Reading
use chat_hub.CertFields.{
  GeneralName, usage_bit_of, is_server_auth, any_server_auth, San, ip_text, add_name, collect_names,
  san_of, lower_hex, oid_text, text_or_empty, any_usage, bind_option, dns, ip_address, other_name,
}
use chat_hub.DevCa.{Nid, server_auth}
use chat_hub.Ids.DecimalSeq.{to_string}
use chat_hub.Prelude.{
  ℕ, ◌+◌, ◌-◌, ◌^◌, List, [], ◌∷◌, ◌++◌, map, Bool, true, false, not, ◌&&◌, ◌||◌, ◌==◌, ltb, leb,
  within, if◌then◌else◌, Bytes, length, get_or, ℤ, pos, Option, none, some,
}

-- What the code calls of OpenSSL and of the clock to inspect a certificate.
pub record Inspector (Bio X509 Key BitString Object Integer BigNumber Time Tm : Type 0)
    : Type 0 where
  -- `BIO_new_mem_buf`, `PEM_read_bio_X509` and `PEM_read_bio_PrivateKey`.
  pub new_mem_buf : Bytes → Option Bio
  pub read_x509 : Bio → Option X509
  pub read_private_key : Bio → Option Key
  -- `X509_check_ca` and `ASN1_BIT_STRING_get_bit`, and three extensions by `X509_get_ext_d2i`.
  pub check_ca : X509 → ℕ
  pub key_usage : X509 → Option BitString
  pub get_bit : BitString → ℕ → ℕ
  pub ext_key_usage : X509 → Option (List Object)
  pub subject_alt_name : X509 → Option (List GeneralName)
  pub obj2nid : Object → Nid
  -- `X509_get_pubkey`, `EVP_PKEY_base_id(...) == EVP_PKEY_EC`, `EVP_PKEY_bits` and the name that
  -- `EVP_PKEY_get_group_name` writes where it returns 1.
  pub get_pubkey : X509 → Option Key
  pub is_ec_key : Key → Bool
  pub key_bits : Key → ℕ
  pub group_name_of : Key → Option Bytes
  -- The object of `X509_get0_signature` and `X509_ALGOR_get0`, and what `OBJ_obj2txt` returns for a
  -- buffer of this size and leaves in it.
  pub signature_object : X509 → Option Object
  pub obj2txt : ℕ → Object → ℤ × Bytes
  -- The serial number, its bits and its hexadecimal digits.
  pub get_serial : X509 → Option Integer
  pub to_bn : Integer → Option BigNumber
  pub num_bits : BigNumber → ℕ
  pub bn2hex : BigNumber → Option Bytes
  -- The times, `ASN1_TIME_to_tm` and `timegm`.
  pub get_not_before : X509 → Option Time
  pub get_not_after : X509 → Option Time
  pub to_tm : Time → Option Tm
  pub timegm : Tm → ℤ
  -- `X509_verify(...) == 1` and `X509_check_private_key(...) == 1`.
  pub verify : X509 → Key → Bool
  pub check_private_key : X509 → Key → Bool

pub record CertFacts : Type 0 where
  pub is_ca : Bool
  pub key_cert_sign : Bool
  pub crl_sign : Bool
  pub digital_signature : Bool
  pub server_auth : Bool
  pub has_dns_san : Bool
  pub has_ipv6_san : Bool
  pub is_ec : Bool
  pub ec_bits : ℕ
  pub serial_bit_length : ℕ
  pub group_name : Bytes
  pub serial_hex : Bytes
  pub signature_oid : Bytes
  pub san_ips : List Bytes
  pub not_before : ℤ
  pub not_after : ℤ

module _ {Bio X509 Key BitString Object Integer BigNumber Time Tm : Type 0}
    (lib : Inspector Bio X509 Key BitString Object Integer BigNumber Time Tm) where
  -- `memBio`: no more bytes than an `int` counts.
  unfoldable pub mem_bio : Bytes → Option Bio
  mem_bio data_bytes =
      if ltb 2147483647 (length data_bytes) then none else lib.new_mem_buf data_bytes

  unfoldable pub pem_to_x509 : Bytes → Option X509
  unfolding bind_option
  pem_to_x509 pem = bind_option (mem_bio pem) lib.read_x509

  -- `asn1ToTime`: 0 on failure.
  time_or_zero : Option Tm → ℤ
  time_or_zero none = pos 0
  time_or_zero (some t) = lib.timegm t

  unfoldable pub asn1_to_time : Option Time → ℤ
  unfolding bind_option time_or_zero
  asn1_to_time when = time_or_zero (bind_option when lib.to_tm)

  unfoldable pub usage_bit : X509 → ℕ → Bool
  unfolding usage_bit_of
  usage_bit cert i = usage_bit_of lib.get_bit (lib.key_usage cert) i

  unfoldable pub has_server_auth : X509 → Bool
  unfolding any_usage
  has_server_auth cert = any_usage lib.obj2nid (lib.ext_key_usage cert)

  is_ec_of : Option Key → Bool
  is_ec_of none = false
  is_ec_of (some key) = lib.is_ec_key key

  bits_of : Option Key → ℕ
  bits_of none = 0
  bits_of (some key) = lib.key_bits key

  group_of : Option Key → Bytes
  unfolding text_or_empty
  group_of none = []
  group_of (some key) = if lib.is_ec_key key then text_or_empty (lib.group_name_of key) else []

  oid_of : Option Object → Bytes
  oid_of none = []
  oid_of (some obj) = oid_text (lib.obj2txt 128 obj)

  -- The serial number as a `BIGNUM`, if there is one.
  unfoldable pub serial_number : X509 → Option BigNumber
  unfolding bind_option
  serial_number cert = bind_option (lib.get_serial cert) lib.to_bn

  unfoldable pub serial_bits : Option BigNumber → ℕ
  serial_bits none = 0
  serial_bits (some bn) = lib.num_bits bn

  unfoldable pub serial_text : Option BigNumber → Bytes
  unfolding text_or_empty lower_hex
  serial_text none = []
  serial_text (some bn) = lower_hex (text_or_empty (lib.bn2hex bn))

  unfoldable pub facts_of : X509 → CertFacts
  unfolding is_ec_of bits_of group_of oid_of
  facts_of cert =
      let pub_key = lib.get_pubkey cert in
      let san = san_of (lib.subject_alt_name cert) in
      let bn = serial_number cert in
      record {
        is_ca = lib.check_ca cert == 1;
        key_cert_sign = usage_bit cert 5;
        crl_sign = usage_bit cert 6;
        digital_signature = usage_bit cert 0;
        server_auth = has_server_auth cert;
        has_dns_san = san.dns_found;
        has_ipv6_san = san.ipv6_found;
        is_ec = is_ec_of pub_key;
        ec_bits = bits_of pub_key;
        serial_bit_length = serial_bits bn;
        group_name = group_of pub_key;
        serial_hex = serial_text bn;
        signature_oid = oid_of (lib.signature_object cert);
        san_ips = san.ips;
        not_before = asn1_to_time (lib.get_not_before cert);
        not_after = asn1_to_time (lib.get_not_after cert);
      }

  unfoldable pub inspected : Option X509 → Option CertFacts
  inspected none = none
  inspected (some cert) = some (facts_of cert)

  unfoldable pub inspect_cert_pem : Bytes → Option CertFacts
  unfolding inspected
  inspect_cert_pem pem = inspected (pem_to_x509 pem)

  unfoldable pub verify_with : X509 → Option Key → Bool
  verify_with cert none = false
  verify_with cert (some key) = lib.verify cert key

  unfoldable pub both_read : Option X509 → Option X509 → Bool
  unfolding verify_with
  both_read (some cert) (some issuer) = verify_with cert (lib.get_pubkey issuer)
  both_read none issuer = false
  both_read (some cert) none = false

  unfoldable pub verify_signed_by : Bytes → Bytes → Bool
  unfolding both_read
  verify_signed_by cert_pem issuer_pem = both_read (pem_to_x509 cert_pem) (pem_to_x509 issuer_pem)

  unfoldable pub pair_read : Option X509 → Option Key → Bool
  pair_read (some cert) (some key) = lib.check_private_key cert key
  pair_read none key = false
  pair_read (some cert) none = false

  unfoldable pub cert_matches_key : Bytes → Bytes → Bool
  unfolding bind_option pair_read
  cert_matches_key cert_pem key_pem =
      pair_read (pem_to_x509 cert_pem) (bind_option (mem_bio key_pem) lib.read_private_key)
