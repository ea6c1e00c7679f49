-- ===== src/Tests/Inspecting.antt =====
-- `inspectCertPem` over an OpenSSL whose certificates are their contents, on the certificate of a server
-- at 10.0.0.5.
use native.Mathlib.Nat.{pow-suc}
use chat_hub.DevCa.{Nid, server_auth}
use chat_hub.DevCa.Profile.{leaf_profile}
use chat_hub.CertFields.{
  GeneralName, dns, other_name, ip_address, san_of, collect_names, add_name, ip_text,
}
use chat_hub.Inspection.{Inspector, CertFacts, mem_bio, pem_to_x509, inspect_cert_pem}
use chat_hub.Inspection.Facts.{Decodes, IsServerFacts, inspect_cert_pem-IsServerFacts}
use chat_hub.Inspection.Names.{AreNamesOf}
use chat_hub.Inspection.Names.Found.{inspect_cert_pem-AreNamesOf}
use chat_hub.Ids.DecimalSeq.{to_string, print}
use chat_hub.Pki.Ipv4.{dotted}
use chat_hub.Prelude.{
  codes, ℕ, zero, suc, ◌+◌, ◌/◌, ◌^◌, ◌≤◌, ◌<◌, ◌≡◌, refl, ap, List, [], ◌∷◌, true, ◌==◌,
  if◌then◌else◌, Bytes, pos, some, arith,
}
use chat_hub.Tests.Issuing.{Certificate, documented}

abbrev pub numbers : List ℕ
numbers = 10 ∷ 0 ∷ 0 ∷ 5 ∷ []

abbrev server_certificate : Certificate
server_certificate = leaf_profile (2 ^ 127 + 5) 7 7 (dotted numbers)

-- The bits of a number.
pub bits_within : ℕ → ℕ → ℕ
bits_within zero n = 0
bits_within (suc fuel) n = let rest = bits_within fuel (n / 2) in if n == 0 then 0 else suc rest

abbrev pub bit_length : ℕ → ℕ
bit_length n = bits_within (suc n) n

pow_above : (k : ℕ) → k < 2 ^ k
pow_above zero = omega arith
pow_above (suc k) = omega (arith, pow-suc 2 k, pow_above k)

bits_within_lem :
    (k fuel n : ℕ) → k < fuel → 2 ^ k ≤ n → n < 2 ^ (k + 1) → bits_within fuel n ≡ k + 1
unfolding bits_within
bits_within_lem k zero n enough low high = absurd (omega arith)
bits_within_lem zero (suc zero) n enough low high = ground arith
bits_within_lem zero (suc (suc fuel)) n enough low high =
    let one : n ≡ 1 = omega arith in rw one refl
bits_within_lem (suc k) (suc fuel) n enough low high =
    let next : suc k + 1 ≡ suc (k + 1) = omega arith in
    let half =
      bits_within_lem k fuel (n / 2) (omega arith) (omega (arith, pow-suc 2 k))
        (omega (arith, ap (λ e. 2 ^ e) next, pow-suc 2 (k + 1))) in
    let positive : 0 < n = omega (arith, pow-suc 2 k, pow_above k) in ground (arith, half)

abbrev inspector : Inspector Bytes Certificate ℕ ℕ Nid ℕ ℕ ℕ ℕ
inspector = record {
  new_mem_buf = λ t. some t;
  read_x509 = λ b. some server_certificate;
  read_private_key = λ b. some 7;
  check_ca = λ c. 0;
  key_usage = λ c. some 1;
  get_bit = λ ku i. if i == 0 then 1 else 0;
  ext_key_usage = λ c. some (server_auth ∷ []);
  subject_alt_name = λ c. some (ip_address numbers ∷ []);
  obj2nid = λ o. o;
  get_pubkey = λ c. c.public_key;
  is_ec_key = λ key. true;
  key_bits = λ key. 256;
  group_name_of = λ key. some (b'P' ∷ []);
  signature_object = λ c. some server_auth;
  obj2txt = λ size o. (pos 1, b'1' ∷ []);
  get_serial = λ c. some c.serial;
  to_bn = λ i. some i;
  num_bits = bit_length;
  bn2hex = λ b. some (b'A' ∷ []);
  get_not_before = λ c. some c.not_before;
  get_not_after = λ c. some c.not_after;
  to_tm = λ t. some t;
  timegm = λ t. pos t;
  verify = λ c key. true;
  check_private_key = λ c key. true;
}

pub bits_lem : (k n : ℕ) → 2 ^ k ≤ n → n < 2 ^ (k + 1) → bit_length n ≡ k + 1
bits_lem k n low high = bits_within_lem k (suc n) n (omega (arith, pow_above k)) low high

decodes : Decodes documented inspector numbers
unfolding documented
decodes = record {
  no_authority = λ c exts. refl;
  signature_usage = λ c exts. (1, refl, refl, refl, refl);
  server_usage = λ c exts. (server_auth, refl, refl);
  names = λ c exts. refl;
  serial = λ c. (c.serial, c.serial, refl, refl, λ k. bits_lem k c.serial);
}

abbrev pem : Bytes
pem = b'c' ∷ []

reads : pem_to_x509 inspector pem ≡ some server_certificate
unfolding pem_to_x509 mem_bio
reads = refl

inspects_server :
    (f : CertFacts) × (inspect_cert_pem inspector pem ≡ some f) × IsServerFacts (dotted numbers) f
unfolding documented
inspects_server =
    inspect_cert_pem-IsServerFacts decodes pem server_certificate (2 ^ 127 + 5) 7 7 refl reads
      (omega arith, omega arith) refl

inspect_cert_pem-AreNamesOf_example :
    (f : CertFacts) × (inspect_cert_pem inspector pem ≡ some f)
    × AreNamesOf (ip_address numbers ∷ []) f
inspect_cert_pem-AreNamesOf_example =
    inspect_cert_pem-AreNamesOf inspector pem server_certificate reads

-- Names of each kind.
abbrev mixed : List GeneralName
mixed =
    dns
    ∷ ip_address numbers
    ∷ other_name
    ∷ ip_address (codes "0123456789abcdef")
    ∷ ip_address (1 ∷ 2 ∷ [])
    ∷ ip_address (127 ∷ 0 ∷ 0 ∷ 1 ∷ [])
    ∷ []

mixed_found : san_of (some mixed) ≡ record {
  dns_found = true;
  ipv6_found = true;
  ips = codes "10.0.0.5" ∷ codes "127.0.0.1" ∷ [];
}
unfolding san_of collect_names add_name ip_text to_string print
mixed_found = refl
