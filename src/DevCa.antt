-- ===== src/DevCa.antt =====
-- `issueDevCa` of tools/pki/src/dev_ca.cpp, with the helpers that it calls. OpenSSL is a parameter: a
-- call of it returns `none` where the code sees a failure. The unique pointers that free its objects
-- leave no trace here.
pub mod Fingerprint
pub mod Contents
pub mod Profile
pub mod Texts
pub mod Issued
pub mod Reliable
use Prim.Native.String.{String}
use chat_hub.Attempt.{Attempt, pure, lift, ◌>>=◌}
use chat_hub.Prelude.{
  codes, ℕ, ◌*◌, ◌/◌, ◌++◌, List, [], ◌∷◌, Bool, true, false, not, ◌||◌, ◌==◌, if◌then◌else◌, Bytes,
  length, bit_and, get_or, Option, none, some,
}
use chat_hub.Pki.{is_ipv4_literal}

-- A `const char*`: a literal, or bytes put together.
pub data CString : Type 0 where
  literal : String → CString
  built : Bytes → CString

-- The `NID_` constants that the code uses.
pub data Nid : Type 0 where
  basic_constraints key_usage subject_key_identifier ext_key_usage subject_alt_name : Nid
  authority_key_identifier server_auth other_nid : Nid

-- What the code calls of OpenSSL to issue certificates.
pub record OpenSsl (World Key X509 Extension : Type 0) : Type 0 where
  -- `EVP_EC_gen("P-256")`, `X509_new()`.
  pub generate_key : Attempt World Key
  pub new_x509 : Attempt World X509
  -- `BN_rand(bn, 128, BN_RAND_TOP_ONE, BN_RAND_BOTTOM_ANY)` and `BN_to_ASN1_INTEGER`.
  pub random_serial : Attempt World ℕ
  -- `X509_set_version(cert, X509_VERSION_3)` and the other setters.
  pub set_version_3 : X509 → Option X509
  pub set_serial_number : X509 → ℕ → Option X509
  pub set_not_before : X509 → ℕ → Attempt World X509
  pub set_not_after : X509 → ℕ → Attempt World X509
  pub add_common_name : X509 → CString → Option X509
  pub set_public_key : X509 → Key → Option X509
  pub set_issuer_of : X509 → X509 → Option X509
  -- `X509V3_EXT_conf_nid` with issuer and subject, and `X509_add_ext`.
  pub make_extension : X509 → X509 → Nid → CString → Option Extension
  pub append_extension : X509 → Extension → Option X509
  -- `X509_sign(cert, key, EVP_sha256())`.
  pub sign : X509 → Key → Attempt World X509
  -- What `PEM_write_bio_X509` and `PEM_write_bio_PrivateKey` leave in a memory BIO, and
  -- `X509_digest(cert, EVP_sha256())`.
  pub write_certificate : X509 → Option Bytes
  pub write_key : Key → Option Bytes
  pub digest : X509 → Option Bytes

pub record IssueDevCa : Type 0 where
  pub ca_cert_pem : Bytes
  pub ca_key_pem : Bytes
  pub server_cert_pem : Bytes
  pub server_key_pem : Bytes
  pub ca_fingerprint_sha256 : Bytes

abbrev pub ca_validity_days : ℕ
ca_validity_days = 3650

abbrev pub server_validity_days : ℕ
server_validity_days = 365

-- `hex[i]`.
unfoldable pub hex_digit : ℕ → ℕ
hex_digit i = get_or (codes "0123456789abcdef") i 0

-- The loop of `fingerPrint`: the upper and the lower four bits of each byte.
unfoldable pub hex_of : Bytes → Bytes
unfolding hex_digit
hex_of [] = []
hex_of (b ∷ md) = hex_digit (b / 16) ∷ hex_digit (bit_and b 0x0f) ∷ hex_of md

-- `std::string{}` on failure.
unfoldable pub or_empty : Option Bytes → Bytes
or_empty none = []
or_empty (some text) = text

unfoldable pub hex_or_none : Option Bytes → Option Bytes
hex_or_none none = none
hex_or_none (some md) = some (hex_of md)

-- The test on the five texts.
unfoldable pub unless_empty : IssueDevCa → Option IssueDevCa
unless_empty out =
    if length out.ca_cert_pem == 0
      || length out.ca_key_pem == 0
      || length out.server_cert_pem == 0
      || length out.server_key_pem == 0
      || length out.ca_fingerprint_sha256 == 0
    then none
    else some out

module _ {World Key X509 Extension : Type 0} (ssl : OpenSsl World Key X509 Extension) where
  -- `addExt`.
  unfoldable pub add_ext : X509 → X509 → X509 → Nid → CString → Attempt World X509
  add_ext cert issuer subject nid value = do
    ext ← lift (ssl.make_extension issuer subject nid value)
    lift (ssl.append_extension cert ext)

  -- `setSerial`.
  unfoldable pub set_serial : X509 → Attempt World X509
  set_serial cert = do serial ← ssl.random_serial; lift (ssl.set_serial_number cert serial)

  -- `initCert`.
  unfoldable pub init_cert : X509 → Key → CString → ℕ → Attempt World X509
  init_cert cert key cn days = do
    cert ← lift (ssl.set_version_3 cert)
    cert ← set_serial cert
    cert ← ssl.set_not_before cert 0
    cert ← ssl.set_not_after cert (days * 86400)
    cert ← lift (ssl.add_common_name cert cn)
    lift (ssl.set_public_key cert key)

  -- `x509ToPem`, `pkeyToPem` and `fingerPrint`: an empty text on failure.
  unfoldable pub x509_to_pem : X509 → Bytes
  x509_to_pem cert = or_empty (ssl.write_certificate cert)

  unfoldable pub pkey_to_pem : Key → Bytes
  pkey_to_pem key = or_empty (ssl.write_key key)

  unfoldable pub finger_print : X509 → Bytes
  unfolding hex_or_none
  finger_print cert = or_empty (hex_or_none (ssl.digest cert))

  -- The root certificate.
  unfoldable pub issue_ca : X509 → Key → Attempt World X509
  issue_ca ca ca_key = do
    ca ← init_cert ca ca_key (literal "ChatHub Dev Root CA") ca_validity_days
    ca ← lift (ssl.set_issuer_of ca ca)
    ca ← add_ext ca ca ca basic_constraints (literal "critical,CA:TRUE")
    ca ← add_ext ca ca ca key_usage (literal "critical,keyCertSign,cRLSign")
    ca ← add_ext ca ca ca subject_key_identifier (literal "hash")
    ssl.sign ca ca_key

  -- The server's certificate.
  unfoldable pub issue_leaf : X509 → Key → X509 → Key → Bytes → Attempt World X509
  issue_leaf leaf leaf_key ca ca_key ip = do
    leaf ← init_cert leaf leaf_key (built ip) server_validity_days
    leaf ← lift (ssl.set_issuer_of leaf ca)
    leaf ← add_ext leaf ca leaf basic_constraints (literal "critical,CA:FALSE")
    leaf ← add_ext leaf ca leaf key_usage (literal "critical,digitalSignature")
    leaf ← add_ext leaf ca leaf ext_key_usage (literal "serverAuth")
    leaf ← add_ext leaf ca leaf subject_alt_name (built (b'I' ∷ b'P' ∷ b':' ∷ ip))
    leaf ← add_ext leaf ca leaf authority_key_identifier (literal "keyid:always")
    ssl.sign leaf ca_key

  -- The five texts.
  unfoldable pub written : Key → Key → X509 → X509 → IssueDevCa
  written ca_key leaf_key ca leaf = record {
    ca_cert_pem = x509_to_pem ca;
    ca_key_pem = pkey_to_pem ca_key;
    server_cert_pem = x509_to_pem leaf;
    server_key_pem = pkey_to_pem leaf_key;
    ca_fingerprint_sha256 = finger_print ca;
  }

  -- `issueDevCa` behind the test of the address.
  unfoldable pub issue_for : Bytes → Attempt World IssueDevCa
  issue_for ip = do
    ca_key ← ssl.generate_key
    leaf_key ← ssl.generate_key
    ca ← ssl.new_x509
    leaf ← ssl.new_x509
    ca ← issue_ca ca ca_key
    leaf ← issue_leaf leaf leaf_key ca ca_key ip
    lift (unless_empty (written ca_key leaf_key ca leaf))

  unfoldable pub issue_dev_ca : Bytes → Attempt World IssueDevCa
  issue_dev_ca ip w = if not (is_ipv4_literal ip) then none else issue_for ip w
