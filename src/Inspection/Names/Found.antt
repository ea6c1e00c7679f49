-- ===== src/Inspection/Names/Found.antt =====
-- The loop over the names finds what they are.
use chat_hub.CertFields.{
  GeneralName, dns, ip_address, other_name, San, ip_text, add_name, collect_names, san_of,
}
use chat_hub.Inspection.{Inspector, CertFacts, facts_of, inspected, pem_to_x509, inspect_cert_pem}
use chat_hub.Pki.Ipv4.{dotted}
use chat_hub.Prelude.{
  ℕ, ◌≡◌, ◌≢◌, ◌⊎◌, ◌↔◌, inl, inr, refl, sym, subst, ap, ◌∙◌, List, [], ◌∷◌, ◌++◌, append-nil,
  append_assoc, true, false, ◌==◌, Bytes, length, Option, none, some, arith, Bool-cases, ==_iff,
}
use chat_hub.Inspection.Names.{Quads, AnyName, IsDns, IsIpv6, names_in, AreNamesOf}

-- What is found of these names, on top of what was found before.
abbrev AreFound : San → List GeneralName → San → Type 0
AreFound s names t =
    (texts : List Bytes) × (t.ips ≡ s.ips ++ texts)
    × Quads names texts
    × ((t.dns_found ≡ true) ↔ ((s.dns_found ≡ true) ⊎ AnyName IsDns names))
    × ((t.ipv6_found ≡ true) ↔ ((s.ipv6_found ≡ true) ⊎ AnyName IsIpv6 names))

-- A flag at a name that it is not for, and at one that it is for.
passed_by : {X A B C : Type 0} → (X ↔ (A ⊎ C)) → ¬ B → X ↔ (A ⊎ (B ⊎ C))
passed_by {X} {A} {B} {C} h other = (λ x. into (h.0 x), λ y. h.1 (back y))
  where
    into : A ⊎ C → A ⊎ (B ⊎ C)
    into (inl a) = inl a
    into (inr c) = inr (inr c)

    back : A ⊎ (B ⊎ C) → A ⊎ C
    back (inl a) = inl a
    back (inr (inl b)) = absurd (other b)
    back (inr (inr c)) = inr c

raised_by : {X A B C : Type 0} → (X ↔ ((true ≡ true) ⊎ C)) → B → X ↔ (A ⊎ (B ⊎ C))
raised_by h b = (λ x. inr (inl b), λ y. h.1 (inl refl))

not-IsIpv6 : (ip : Bytes) → length ip ≢ 16 → ¬ IsIpv6 (ip_address ip)
not-IsIpv6 ip other (ip', same, sixteen) = other (ap length (address_same same) ∙ sixteen)
  where
    address_same : {x y : Bytes} → ip_address x ≡ ip_address y → x ≡ y
    address_same h = cc

not_four : {ip ip' : Bytes} → length ip ≢ 4 → ip_address ip ≡ ip_address ip' → length ip' ≢ 4
not_four {ip} {ip'} other same four = other (ap length (address_same same) ∙ four)
  where
    address_same : {x y : Bytes} → ip_address x ≡ ip_address y → x ≡ y
    address_same h = cc

add_quad :
    (s : San) (a b c d : ℕ)
    → add_name s (ip_address (a ∷ b ∷ c ∷ d ∷ []))
      ≡ record s { ips = s.ips ++ (dotted (a ∷ b ∷ c ∷ d ∷ []) ∷ []) }
unfolding add_name ip_text
add_quad s a b c d = refl

found_quad :
    (s t : San) (a b c d : ℕ) (names : List GeneralName)
    → AreFound (record s { ips = s.ips ++ (dotted (a ∷ b ∷ c ∷ d ∷ []) ∷ []) }) names t
    → AreFound s (ip_address (a ∷ b ∷ c ∷ d ∷ []) ∷ names) t
found_quad s t a b c d names (texts, ips, quads, dns_iff, ipv6_iff) = (
  dotted (a ∷ b ∷ c ∷ d ∷ []) ∷ texts,
  ips ∙ append_assoc s.ips _ _,
  Quads.quad quads,
  passed_by dns_iff (λ e. cc e),
  passed_by ipv6_iff (not-IsIpv6 _ (λ e. absurd (omega (arith, e)))),
)

add_ipv6 :
    (s : San) (ip : Bytes)
    → length ip ≡ 16
    → add_name s (ip_address ip) ≡ record s { ipv6_found = true }
unfolding add_name
add_ipv6 s ip sixteen = rw sixteen refl

add_other : (s : San) (ip : Bytes) → length ip ≢ 4 → length ip ≢ 16 → add_name s (ip_address ip) ≡ s
unfolding add_name
add_other s ip four sixteen = ground (arith, four, sixteen)

found_ipv6 :
    (s t : San) (ip : Bytes) (names : List GeneralName)
    → length ip ≡ 16
    → AreFound (record s { ipv6_found = true }) names t
    → AreFound s (ip_address ip ∷ names) t
found_ipv6 s t ip names sixteen (texts, ips, quads, dns_iff, ipv6_iff) = (
  texts,
  ips,
  Quads.passed (λ ip' same. not_four (λ four. omega (arith, four)) same) quads,
  passed_by dns_iff (λ e. cc e),
  raised_by ipv6_iff (ip, refl, sixteen),
)

found_other :
    (s t : San) (ip : Bytes) (names : List GeneralName)
    → length ip ≢ 4
    → length ip ≢ 16
    → AreFound s names t
    → AreFound s (ip_address ip ∷ names) t
found_other s t ip names four sixteen (texts, ips, quads, dns_iff, ipv6_iff) = (
  texts,
  ips,
  Quads.passed (λ ip' same. not_four four same) quads,
  passed_by dns_iff (λ e. cc e),
  passed_by ipv6_iff (not-IsIpv6 ip sixteen),
)

-- Four bytes, or another number of them.
four_or_other :
    (ip : Bytes)
    → ((a : ℕ) × (b : ℕ) × (c : ℕ) × (d : ℕ) × (ip ≡ a ∷ b ∷ c ∷ d ∷ [])) ⊎ (length ip ≢ 4)
four_or_other (a ∷ b ∷ c ∷ d ∷ []) = inl (a, b, c, d, refl)
four_or_other [] = inr (λ e. absurd (omega (arith, e)))
four_or_other (a ∷ []) = inr (λ e. absurd (omega (arith, e)))
four_or_other (a ∷ b ∷ []) = inr (λ e. absurd (omega (arith, e)))
four_or_other (a ∷ b ∷ c ∷ []) = inr (λ e. absurd (omega (arith, e)))
four_or_other (a ∷ b ∷ c ∷ d ∷ x ∷ ip) = inr (λ e. absurd (omega (arith, e)))

found_address :
    (s : San) (ip : Bytes) (names : List GeneralName)
    → ((s : San) → AreFound s names (collect_names s names))
    → AreFound s (ip_address ip ∷ names) (collect_names (add_name s (ip_address ip)) names)
found_address s ip names rest = elim (four_or_other ip) [
  | inl (a, b, c, d, same) ↦
      subst
        (λ x. AreFound s (ip_address x ∷ names) (collect_names (add_name s (ip_address x)) names))
        (sym same) (behind (add_quad s a b c d) (found_quad s _ a b c d names (rest _)))
  | inr four ↦ elim (Bool-cases (length ip == 16)) [
    | inl test ↦
        let sixteen = (==_iff (length ip) 16).0 test in
        behind (add_ipv6 s ip sixteen) (found_ipv6 s _ ip names sixteen (rest _))
    | inr test ↦
        let other : length ip ≢ 16 = λ e. cc (test, (==_iff (length ip) 16).1 e) in
        behind (add_other s ip four other) (found_other s _ ip names four other (rest s))
  ]
]
  where
    behind :
        {u v : San} {all : List GeneralName}
        → u ≡ v
        → AreFound s all (collect_names v names)
        → AreFound s all (collect_names u names)
    behind {all = all} e = subst (λ t. AreFound s all (collect_names t names)) (sym e)

collect_names-AreFound :
    (s : San) (names : List GeneralName) → AreFound s names (collect_names s names)
unfolding collect_names add_name
collect_names-AreFound s [] =
    ([], sym (append-nil s.ips), Quads.none_left, nothing_new, nothing_new)
  where
    nothing_new : {X : Type 0} → X ↔ (X ⊎ ⊥)
    nothing_new = (λ x. inl x, λ y. kept y)
      where
        kept : {X : Type 0} → X ⊎ ⊥ → X
        kept (inl x) = x
        kept (inr e) = absurd e
collect_names-AreFound s (dns ∷ names) =
    let (texts, ips, quads, dns_iff, ipv6_iff) = collect_names-AreFound (add_name s dns) names in
    (
      texts,
      ips,
      Quads.passed (λ ip e. cc e) quads,
      raised_by dns_iff refl,
      passed_by ipv6_iff (λ (ip, e, _). cc e),
    )
collect_names-AreFound s (other_name ∷ names) =
    let (texts, ips, quads, dns_iff, ipv6_iff) = collect_names-AreFound s names in
    (
      texts,
      ips,
      Quads.passed (λ ip e. cc e) quads,
      passed_by dns_iff (λ e. cc e),
      passed_by ipv6_iff (λ (ip, e, _). cc e),
    )
collect_names-AreFound s (ip_address ip ∷ names) =
    found_address s ip names (λ u. collect_names-AreFound u names)

abbrev nothing_found : San
nothing_found = record { dns_found = false; ipv6_found = false; ips = [] }

san_of-AreFound : (o : Option (List GeneralName)) → AreFound nothing_found (names_in o) (san_of o)
unfolding san_of collect_names
san_of-AreFound none = collect_names-AreFound nothing_found []
san_of-AreFound (some names) = collect_names-AreFound nothing_found names

none_before : {X B : Type 0} → (X ↔ ((false ≡ true) ⊎ B)) → X ↔ B
none_before {X} {B} h = (λ x. later (h.0 x), λ b. h.1 (inr b))
  where
    later : (false ≡ true) ⊎ B → B
    later (inl e) = cc e
    later (inr b) = b

module _ {Bio X509 Key BitString Object Integer BigNumber Time Tm : Type 0}
    (lib : Inspector Bio X509 Key BitString Object Integer BigNumber Time Tm) where
  -- Of a certificate that OpenSSL reads, `inspectCertPem` lists the addresses of four bytes, each as
  -- its dotted quad, in the order of the names and nothing else, says that there is a DNS name exactly
  -- if one of the names is, and that there is an address of IPv6 exactly if one of the names is an
  -- address of sixteen bytes.
  pub inspect_cert_pem-AreNamesOf :
      (pem : Bytes) (c : X509)
      → pem_to_x509 lib pem ≡ some c
      → (f : CertFacts) × (inspect_cert_pem lib pem ≡ some f)
        × AreNamesOf (names_in (lib.subject_alt_name c)) f
  unfolding inspect_cert_pem inspected facts_of
  inspect_cert_pem-AreNamesOf pem c read =
      let (texts, ips, quads, dns_iff, ipv6_iff) = san_of-AreFound (lib.subject_alt_name c) in
      (
        facts_of lib c,
        ap (inspected lib) read,
        record {
          quads = subst (Quads _) (sym ips) quads;
          dns_iff = none_before dns_iff;
          ipv6_iff = none_before ipv6_iff;
        },
      )
