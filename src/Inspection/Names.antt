-- ===== src/Inspection/Names.antt =====
-- The names of a certificate that `inspectCertPem` tells apart: DNS names, addresses of four bytes and
-- addresses of sixteen.
pub mod Found
use chat_hub.CertFields.{
  GeneralName, dns, ip_address, other_name, San, ip_text, add_name, collect_names, san_of,
}
use chat_hub.Inspection.{Inspector, CertFacts, facts_of, inspected, pem_to_x509, inspect_cert_pem}
use chat_hub.Pki.Ipv4.{dotted}
use chat_hub.Prelude.{
  ℕ, ◌≡◌, ◌≢◌, ◌⊎◌, ◌↔◌, inl, inr, refl, sym, subst, ap, ◌∙◌, List, [], ◌∷◌, ◌++◌, append-nil,
  append_assoc, Bool, true, false, ◌==◌, Bytes, length, Option, none, some, arith, Bool-cases,
  ==_iff,
}

-- The texts of the names: a dotted quad for each address of four bytes, in the order of the names, and
-- none for another name.
pub data Quads : List GeneralName → List Bytes → Type 0 where
  none_left : Quads [] []
  quad :
      {a b c d : ℕ} {names : List GeneralName} {texts : List Bytes}
      → Quads names texts
      → Quads (ip_address (a ∷ b ∷ c ∷ d ∷ []) ∷ names) (dotted (a ∷ b ∷ c ∷ d ∷ []) ∷ texts)
  passed :
      {g : GeneralName} {names : List GeneralName} {texts : List Bytes}
      → ((ip : Bytes) → g ≡ ip_address ip → length ip ≢ 4)
      → Quads names texts
      → Quads (g ∷ names) texts

-- One of the names is such a name.
abbrev pub AnyName : (GeneralName → Type 0) → List GeneralName → Type 0
AnyName P [] = ⊥
AnyName P (g ∷ names) = P g ⊎ AnyName P names

abbrev pub IsDns : GeneralName → Type 0
IsDns g = g ≡ dns

-- An address of sixteen bytes.
abbrev pub IsIpv6 : GeneralName → Type 0
IsIpv6 g = (ip : Bytes) × (g ≡ ip_address ip) × (length ip ≡ 16)

-- The names of the extension, none if it is missing.
abbrev pub names_in : Option (List GeneralName) → List GeneralName
names_in none = []
names_in (some names) = names

-- What is found of the names of a certificate.
pub record AreNamesOf (names : List GeneralName) (f : CertFacts) : Type 0 where
  pub quads : Quads names f.san_ips
  pub dns_iff : (f.has_dns_san ≡ true) ↔ AnyName IsDns names
  pub ipv6_iff : (f.has_ipv6_san ≡ true) ↔ AnyName IsIpv6 names
