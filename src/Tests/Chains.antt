-- ===== src/Tests/Chains.antt =====
-- `verifySignedBy` and `certMatchesKey` on a root with the key 7 and a server with the key 9.
use chat_hub.DevCa.{Nid}
use chat_hub.DevCa.Profile.{ca_profile, leaf_profile}
use chat_hub.CertFields.{bind_option}
use chat_hub.Inspection.{Inspector, mem_bio, pem_to_x509, verify_signed_by, cert_matches_key}
use chat_hub.Inspection.Chain.{ChecksKeys, chain_checks}
use chat_hub.Prelude.{
  codes, ℕ, ◌≡◌, ◌↔◌, refl, ap, [], ◌∷◌, Bool, true, false, ◌==◌, ==_iff, if◌then◌else◌, Bytes,
  get_or, pos, Option, none, some,
}
use chat_hub.Tests.Issuing.{Certificate, documented}

abbrev root_certificate : Certificate
root_certificate = ca_profile 5 7

abbrev localhost : Bytes
localhost = codes "127.0.0.1"

abbrev server_certificate : Certificate
server_certificate = leaf_profile 6 9 7 localhost

abbrev root_key : ℕ
root_key = 7

abbrev server_key : ℕ
server_key = 9

abbrev pub is_key : Option ℕ → ℕ → Bool
is_key none k = false
is_key (some j) k = j == k

abbrev inspector : Inspector Bytes Certificate ℕ ℕ Nid ℕ ℕ ℕ ℕ
inspector = record {
  new_mem_buf = λ t. some t;
  read_x509 = λ b. some (if get_or b 0 0 == b'r' then root_certificate else server_certificate);
  read_private_key = λ b. some 9;
  check_ca = λ c. 0;
  key_usage = λ c. none;
  get_bit = λ ku i. 0;
  ext_key_usage = λ c. none;
  subject_alt_name = λ c. none;
  obj2nid = λ o. o;
  get_pubkey = λ c. c.public_key;
  is_ec_key = λ key. true;
  key_bits = λ key. 256;
  group_name_of = λ key. none;
  signature_object = λ c. none;
  obj2txt = λ size o. (pos 0, []);
  get_serial = λ c. none;
  to_bn = λ i. none;
  num_bits = λ b. 0;
  bn2hex = λ b. none;
  get_not_before = λ c. none;
  get_not_after = λ c. none;
  to_tm = λ t. none;
  timegm = λ t. pos t;
  verify = λ c k. is_key c.signer k;
  check_private_key = λ c k. is_key c.public_key k;
}

pub is_key_iff : (o : Option ℕ) (k : ℕ) → (is_key o k ≡ true) ↔ (o ≡ some k)
is_key_iff none k = (λ h. cc h, λ h. cc h)
is_key_iff (some j) k = (λ h. ap some ((==_iff j k).0 h), λ h. (==_iff j k).1 (some_same h))
  where
    some_same : {a b : ℕ} → some a ≡ some b → a ≡ b
    some_same e = cc

checks : ChecksKeys documented inspector
unfolding documented
checks = record {
  public_key_law = λ c. refl;
  verify_law = λ c k. is_key_iff c.signer k;
  pair_law = λ c k. is_key_iff c.public_key k;
}

abbrev root_pem : Bytes
root_pem = b'r' ∷ []

abbrev server_pem : Bytes
server_pem = b's' ∷ []

root_read : pem_to_x509 inspector root_pem ≡ some root_certificate
unfolding pem_to_x509 mem_bio
root_read = refl

server_read : pem_to_x509 inspector server_pem ≡ some server_certificate
unfolding pem_to_x509 mem_bio
server_read = refl

key_read : bind_option (mem_bio inspector []) inspector.read_private_key ≡ some 9
unfolding mem_bio bind_option
key_read = refl

chain_checks_example :
    (verify_signed_by inspector server_pem root_pem ≡ true)
    × (verify_signed_by inspector root_pem root_pem ≡ true)
    × ((verify_signed_by inspector root_pem server_pem ≡ true) ↔ (root_key ≡ server_key))
    × ((cert_matches_key inspector server_pem [] ≡ true) ↔ (server_key ≡ server_key))
unfolding documented
chain_checks_example =
    chain_checks checks root_pem server_pem [] root_certificate server_certificate 5 6 7 9 9
      localhost root_read server_read key_read refl refl
