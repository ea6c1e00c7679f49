-- ===== src/Tests/Reading.antt =====
-- `issueDevCa`, and the tool's checks on what it returns, over an OpenSSL that writes and reads the two
-- certificates for 10.0.0.5.
use Prim.Native.String.{String}
use native.Mathlib.Decide.{ℕ_discrete}
use text.Mathlib.Text.{◌==◌ as str_eq}
use text.Mathlib.TextEquality.{eq_iff}
use chat_hub.Attempt.{Attempt, lift, ◌>>=◌}
use chat_hub.CertFields.{ip_address}
use chat_hub.DevCa.{
  CString, Nid, server_auth, OpenSsl, IssueDevCa, issue_dev_ca, issue_for, issue_ca, issue_leaf,
  init_cert, set_serial, add_ext, unless_empty, written, x509_to_pem, pkey_to_pem, finger_print,
  or_empty, hex_of, hex_digit, hex_or_none,
}
use chat_hub.DevCa.Contents.{Contents, Documented}
use chat_hub.DevCa.Profile.{ca_profile, leaf_profile}
use chat_hub.Ids.DecimalSeq.{to_string, print}
use chat_hub.Inspection.{Inspector, CertFacts, inspect_cert_pem, verify_signed_by, cert_matches_key}
use chat_hub.Inspection.Chain.{ChecksKeys}
use chat_hub.Inspection.Facts.{Decodes, IsServerFacts}
use chat_hub.Inspection.Reading.{ReadsBack, issue_dev_ca-checks}
use chat_hub.Inspection.Root.{DecodesRoot, IsRootFacts}
use chat_hub.Pki.{is_ipv4_literal, ipv4_loop, is_octet, split_dot, octet_value}
use chat_hub.Pki.Ipv4.{dotted}
use chat_hub.Prelude.{
  ℕ, ◌+◌, ◌^◌, ◌≤◌, ◌≡◌, ◌↔◌, refl, sym, ap, subst, [], ◌∷◌, Bool, true, false, ◌==◌, if◌then◌else◌,
  Bytes, codes, length, get_or, pos, Option, none, some, arith,
}
use chat_hub.Tests.Chains.{is_key, is_key_iff}
use chat_hub.Tests.Inspecting.{numbers, bit_length, bits_lem}
use chat_hub.Tests.Issuing.{Certificate, openssl_with, documented_with, value_of}

abbrev pub root_certificate : Certificate
root_certificate = ca_profile (2 ^ 127 + 5) 0

abbrev pub server_certificate : Certificate
server_certificate = leaf_profile (2 ^ 127 + 5) 1 0 (dotted numbers)

-- A test decides what it tests.
unfoldable pub decide : {P : Type 0} (b : Bool) → ((b ≡ true) ↔ P) → Dec P
decide true test = yes (test.0 refl)
decide false test = no (λ p. cc (test.1 p))

unfoldable pub String-discrete : Discrete String
unfolding decide
String-discrete s t = decide (str_eq s t) (eq_iff s t)

unfoldable pub Contents-discrete : Discrete (Contents ℕ)
Contents-discrete = hlevel (ℕ_discrete, String-discrete)

-- It writes these two certificates, each with its own text.
unfoldable pub text_of : {P Q : Type 0} → Dec P → Dec Q → Option Bytes
text_of (yes root) server = some (codes "r")
text_of (no other) (yes server) = some (codes "s")
text_of (no other) (no unknown) = none

unfoldable pub write_certificate : Certificate → Option Bytes
unfolding Contents-discrete String-discrete ℕ_discrete text_of
write_certificate c =
    text_of (Contents-discrete c root_certificate) (Contents-discrete c server_certificate)

unfoldable pub write_key : ℕ → Option Bytes
write_key key = some (key ∷ [])

-- The keys are 0, 1 and so on.
abbrev next_key : ℕ → Option (ℕ × ℕ)
next_key w = some (w, w + 1)

-- The keys come from `generate`.
abbrev pub openssl_of :
    {World : Type 0} → Attempt World ℕ → OpenSsl World ℕ Certificate (Nid × CString)
openssl_of generate = openssl_with generate write_certificate write_key

unfoldable pub documented_of :
    {World : Type 0} (generate : Attempt World ℕ) → Documented (openssl_of generate)
unfolding documented_with
documented_of generate = documented_with generate write_certificate write_key

-- The tool's root has three extensions.
abbrev pub is_root : Certificate → Bool
is_root c = length c.extensions == 3

abbrev pub inspector : Inspector Bytes Certificate ℕ Bool Nid ℕ ℕ ℕ ℕ
inspector = record {
  new_mem_buf = λ t. some t;
  read_x509 = λ b. some (if get_or b 0 0 == b'r' then root_certificate else server_certificate);
  read_private_key = λ b. some (get_or b 0 0);
  check_ca = λ c. if is_root c then 1 else 0;
  key_usage = λ c. some (is_root c);
  get_bit = λ root i. if root then (if i == 0 then 0 else 1) else (if i == 0 then 1 else 0);
  ext_key_usage = λ c. if is_root c then none else some (server_auth ∷ []);
  subject_alt_name = λ c. if is_root c then none else some (ip_address numbers ∷ []);
  obj2nid = λ o. o;
  get_pubkey = λ c. c.public_key;
  is_ec_key = λ key. true;
  key_bits = λ key. 256;
  group_name_of = λ key. none;
  signature_object = λ c. none;
  obj2txt = λ size o. (pos 0, []);
  get_serial = λ c. some c.serial;
  to_bn = λ i. some i;
  num_bits = bit_length;
  bn2hex = λ b. none;
  get_not_before = λ c. none;
  get_not_after = λ c. none;
  to_tm = λ t. none;
  timegm = λ t. pos t;
  verify = λ c k. is_key c.signer k;
  check_private_key = λ c k. is_key c.public_key k;
}

-- What is written for a certificate is short, and read as this certificate.
abbrev IsText : Certificate → Bytes → Type 0
IsText c t = (length t ≤ 1) × (inspector.read_x509 t ≡ some c)

text_of_inv :
    (c : Certificate) (t : Bytes) (root : Dec (c ≡ root_certificate))
    (server : Dec (c ≡ server_certificate))
    → text_of root server ≡ some t
    → IsText c t
unfolding text_of
text_of_inv c t (yes same) server h =
    subst (IsText c) (value_of (sym h)) (omega arith, ap some (sym same))
text_of_inv c t (no other) (yes same) h =
    subst (IsText c) (value_of (sym h)) (omega arith, ap some (sym same))
text_of_inv c t (no other) (no unknown) h = cc

write_certificate_inv : (c : Certificate) (t : Bytes) → write_certificate c ≡ some t → IsText c t
unfolding write_certificate
write_certificate_inv c t h = text_of_inv c t _ _ h

module _ {World : Type 0} (generate : Attempt World ℕ) where
  decodes : Decodes (documented_of generate) inspector numbers
  unfolding documented_of documented_with
  decodes = record {
    no_authority = λ c exts. rw exts refl;
    signature_usage = λ c exts. (false, rw exts refl, refl, refl, refl);
    server_usage = λ c exts. (server_auth, rw exts refl, refl);
    names = λ c exts. rw exts refl;
    serial = λ c. (c.serial, c.serial, refl, refl, λ k. bits_lem k c.serial);
  }

  decodes_root : DecodesRoot (documented_of generate) inspector
  unfolding documented_of documented_with
  decodes_root = record {
    authority = λ c exts. rw exts refl;
    signing_usage = λ c exts. (true, rw exts refl, refl, refl, refl);
    no_usage = λ c exts. rw exts refl;
    no_names = λ c exts. rw exts refl;
  }

  pub checks : ChecksKeys (documented_of generate) inspector
  unfolding documented_of documented_with
  checks = record {
    public_key_law = λ c. refl;
    verify_law = λ c k. is_key_iff c.signer k;
    pair_law = λ c k. is_key_iff c.public_key k;
  }

  pub reads_back : ReadsBack (documented_of generate) inspector
  unfolding documented_of documented_with write_key
  reads_back = record {
    certificate_law = λ c t wrote.
        let (short, read) = write_certificate_inv c t wrote in
        (c, (omega (arith, short), (t, refl, read)), refl);
    key_law = λ k t wrote.
        let same : t ≡ k ∷ [] = value_of wrote in
        (omega (arith, ap length same), (t, refl, ap (λ u. some (get_or u 0 0)) same));
  }

abbrev pub issued : IssueDevCa
issued = record {
  ca_cert_pem = codes "r";
  ca_key_pem = 0 ∷ [];
  server_cert_pem = codes "s";
  server_key_pem = 1 ∷ [];
  ca_fingerprint_sha256 = codes "a50f";
}

issues : issue_dev_ca (openssl_of next_key) (dotted numbers) 0 ≡ some (issued, 2)
unfolding issue_dev_ca issue_for issue_ca issue_leaf init_cert set_serial add_ext unless_empty
    written x509_to_pem pkey_to_pem finger_print or_empty hex_of hex_digit hex_or_none
    is_ipv4_literal ipv4_loop is_octet split_dot octet_value lift ◌>>=◌ to_string print
    write_certificate write_key
issues = refl

issue_dev_ca-checks_example :
    ((f : CertFacts) × (inspect_cert_pem inspector issued.ca_cert_pem ≡ some f) × IsRootFacts f)
    × ((f : CertFacts) × (inspect_cert_pem inspector issued.server_cert_pem ≡ some f)
        × IsServerFacts (dotted numbers) f)
    × (verify_signed_by inspector issued.ca_cert_pem issued.ca_cert_pem ≡ true)
    × (verify_signed_by inspector issued.server_cert_pem issued.ca_cert_pem ≡ true)
    × (cert_matches_key inspector issued.ca_cert_pem issued.ca_key_pem ≡ true)
    × (cert_matches_key inspector issued.server_cert_pem issued.server_key_pem ≡ true)
issue_dev_ca-checks_example =
    issue_dev_ca-checks (reads_back next_key) numbers issued 0 2 (decodes next_key)
      (decodes_root next_key) (checks next_key) refl issues
