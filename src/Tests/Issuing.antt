-- ===== src/Tests/Issuing.antt =====
-- The development CA over an OpenSSL whose certificates are their contents.
use chat_hub.Attempt.{Attempt, lift, ◌>>=◌, Returns}
use chat_hub.Prelude.{
  codes, ℕ, ◌+◌, ◌^◌, ◌≡◌, ◌≢◌, ◌↔◌, refl, [], ◌∷◌, ◌++◌, Bytes, Option, none, some, arith, All,
  IsByte, subst, sym,
}
use chat_hub.Pki.{is_ipv4_literal, ipv4_loop, is_octet, split_dot, octet_value}
use chat_hub.Pki.Ipv4.{IsDottedQuad}
use chat_hub.DevCa.{
  CString, Nid, OpenSsl, IssueDevCa, issue_dev_ca, issue_for, issue_ca, issue_leaf, init_cert,
  set_serial, add_ext, unless_empty, written, x509_to_pem, pkey_to_pem, finger_print, or_empty,
  hex_of, hex_digit, hex_or_none,
}
use chat_hub.DevCa.Contents.{Contents, blank}
use chat_hub.DevCa.Contents
use chat_hub.DevCa.Issued.{IsIssued, issue_dev_ca-IsIssued}
use chat_hub.DevCa.Reliable.{Reliable, issue_dev_ca-Returns_iff}

-- The files by path.
abbrev pub Disk : Type 0
Disk = Bytes → Option Bytes

abbrev pub Certificate : Type 0
Certificate = Contents ℕ

abbrev pub returned : {World A : Type 0} → A → Attempt World A
returned a w = some (a, w)

-- The keys are made by `generate`, and the texts written by the other two.
abbrev pub openssl_with :
    {World : Type 0}
    → Attempt World ℕ
    → (Certificate → Option Bytes)
    → (ℕ → Option Bytes)
    → OpenSsl World ℕ Certificate (Nid × CString)
openssl_with generate write_certificate write_key = record {
  generate_key = generate;
  new_x509 = returned blank;
  random_serial = returned (2 ^ 127 + 5);
  set_version_3 = λ c. some (record c { version_3 = some 2 });
  set_serial_number = λ c n. some (record c { serial = n });
  set_not_before = λ c s. returned (record c { not_before = s });
  set_not_after = λ c s. returned (record c { not_after = s });
  add_common_name = λ c cn. some (record c { subject = c.subject ++ (cn ∷ []) });
  set_public_key = λ c key. some (record c { public_key = some key });
  set_issuer_of = λ c i. some (record c { issuer = i.subject });
  make_extension = λ i s nid value. some (nid, value);
  append_extension = λ c e. some (record c { extensions = c.extensions ++ (e ∷ []) });
  sign = λ c key. returned (record c { signer = some key });
  write_certificate = write_certificate;
  write_key = write_key;
  digest = λ c. some (0xa5 ∷ 0x0f ∷ []);
}

abbrev pub openssl : OpenSsl Disk ℕ Certificate (Nid × CString)
openssl = openssl_with (returned 7) (λ c. some (b'c' ∷ [])) (λ key. some (b'k' ∷ []))

pub first_of : {World A : Type 0} {a b : A} {w v : World} → returned a w ≡ some (b, v) → b ≡ a
first_of h = cc

pub value_of : {A : Type 0} {a b : A} → some a ≡ some b → b ≡ a
value_of h = cc

unfoldable pub documented_with :
    {World : Type 0} (generate : Attempt World ℕ) (write_certificate : Certificate → Option Bytes)
    (write_key : ℕ → Option Bytes)
    → Contents.Documented (openssl_with generate write_certificate write_key)
documented_with generate write_certificate write_key = record {
  contents = λ c. c;
  of_extension = λ e. e;
  new_x509_law = λ w v c h. first_of h;
  serial_law = λ w v n h. let same = first_of h in (omega (arith, same), omega (arith, same));
  version_law = λ c c' h. value_of h;
  set_serial_law = λ c c' n h. value_of h;
  not_before_law = λ w v c c' s h. first_of h;
  not_after_law = λ w v c c' s h. first_of h;
  common_name_law = λ c c' cn h. value_of h;
  public_key_law = λ c c' key h. value_of h;
  issuer_law = λ c i c' h. value_of h;
  make_extension_law = λ i s nid value ext h. value_of h;
  append_extension_law = λ c c' ext h. value_of h;
  digest_law = λ c md h. subst (All IsByte) (sym (value_of h)) (omega arith, (omega arith, tt));
  sign_law = λ w v c c' key h. first_of h;
}

unfoldable pub documented : Contents.Documented openssl
unfolding documented_with
documented = documented_with (returned 7) (λ c. some (b'c' ∷ [])) (λ key. some (b'k' ∷ []))

cons_nonempty : (c : ℕ) (s : Bytes) → (c ∷ s) ≢ []
cons_nonempty c s h = cc h

pub reliable : Reliable documented
reliable = record {
  generates = λ w. (_, w, refl);
  allocates = λ w. (_, w, refl);
  draws = λ w. (_, w, refl);
  versions = λ c. (_, refl);
  numbers = λ c n. (_, refl);
  starts = λ c w s. (_, w, refl);
  ends = λ c w s. (_, w, refl);
  names = λ ip quad. (λ c. (_, refl), (λ c. (_, refl), _));
  keys = λ c key. (_, refl);
  issuers = λ c i. (_, refl);
  makes_ca = (λ i s. (_, refl), (λ i s. (_, refl), (λ i s. (_, refl), _)));
  makes_leaf = λ ip quad. (
    λ i s h. (_, refl),
    (λ i s h. (_, refl), (λ i s h. (_, refl), (λ i s h. (_, refl), (λ i s h. (_, refl), _)))),
  );
  appends = λ c x. (_, refl);
  signs = λ c key w. (_, w, refl);
  writes_certificate = λ c. (_, (refl, cons_nonempty _ _));
  writes_key = λ key. (_, (refl, cons_nonempty _ _));
  digests = λ c. (_, (refl, cons_nonempty _ _));
}

abbrev pub empty_disk : Disk
empty_disk path = none

abbrev pub address : Bytes
address = codes "10.0.0.5"

abbrev pub issued : IssueDevCa
issued = record {
  ca_cert_pem = b'c' ∷ [];
  ca_key_pem = b'k' ∷ [];
  server_cert_pem = b'c' ∷ [];
  server_key_pem = b'k' ∷ [];
  ca_fingerprint_sha256 = codes "a50f";
}

pub issues : issue_dev_ca openssl address empty_disk ≡ some (issued, empty_disk)
unfolding issue_dev_ca issue_for issue_ca issue_leaf init_cert set_serial add_ext unless_empty
    written x509_to_pem pkey_to_pem finger_print or_empty hex_of hex_digit hex_or_none
    is_ipv4_literal ipv4_loop is_octet split_dot octet_value lift ◌>>=◌
issues = refl

issue_dev_ca-IsIssued_example : IsDottedQuad address × IsIssued documented address issued
issue_dev_ca-IsIssued_example =
    issue_dev_ca-IsIssued documented address issued empty_disk empty_disk issues

answers_address : Returns (issue_dev_ca openssl address) empty_disk ↔ IsDottedQuad address
answers_address = issue_dev_ca-Returns_iff reliable address empty_disk
