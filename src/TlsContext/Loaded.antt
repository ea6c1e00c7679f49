-- ===== src/TlsContext/Loaded.antt =====
-- What `TlsContext::load` returns.
use Prim.Native.String.{String}
use chat_hub.ErrorText.{Part, ErrorText}
use chat_hub.Prelude.{
  All, ◌≡◌, ◌≢◌, ◌↔◌, refl, sym, ap, ◌∙◌, List, [], ◌∷◌, Bool, true, false, Bytes, Option, none,
  some,
}
use chat_hub.TlsContext.{
  SslOption, AsioSsl, TlsContext, native, Loaded, after_check, after_key, after_chain,
  after_ciphers, load,
}

-- What a context presents, and with which ciphers.
pub record Settings (Chain Key : Type 0) : Type 0 where
  pub ciphers : Option String
  pub chain : Option Chain
  pub key : Option Key

-- What the libraries document: `set_options` adds options to those in force; another
-- call sets what it names and keeps the options and what was set before it, but a certificate can
-- displace a key that does not belong to it. `Has c o` says that an option is in force; `chain_in` and `key_in` are
-- what a PEM file holds, where it can be read, and `IsPair` relates a key with the certificates that
-- it belongs to.
pub record Documented {World Context : Type 0} (asio : AsioSsl World Context) (Chain Key : Type 0)
    : Type 1 where
  pub Has : Context → SslOption → Type 0
  pub settings : Context → Settings Chain Key
  pub chain_in : World → Bytes → Option Chain
  pub key_in : World → Bytes → Option Key
  pub IsPair : Chain → Key → Type 0
  pub options_law : (c : Context) (os : List SslOption) → All (Has (asio.set_options c os)) os
  pub ciphers_law :
      (c c' : Context) (s : String)
      → asio.set_cipher_list c s ≡ (true, c')
      → (settings c' ≡ record (settings c) { ciphers = some s })
        × ((o : SslOption) → Has c o → Has c' o)
  pub chain_law :
      (w : World) (c c' : Context) (path : Bytes)
      → asio.use_certificate_chain_file w c path ≡ (none, c')
      → (chain : Chain) × (chain_in w path ≡ some chain)
        × ((settings c').chain ≡ some chain)
        × ((settings c').ciphers ≡ (settings c).ciphers)
        × ((o : SslOption) → Has c o → Has c' o)
  pub key_law :
      (w : World) (c c' : Context) (path : Bytes)
      → asio.use_private_key_file w c path ≡ (none, c')
      → (key : Key) × (key_in w path ≡ some key)
        × (settings c' ≡ record (settings c) { key = some key })
        × ((o : SslOption) → Has c o → Has c' o)
  pub pair_law :
      (c : Context) (chain : Chain) (key : Key)
      → (settings c).chain ≡ some chain
      → (settings c).key ≡ some key
      → asio.check_private_key c ≡ true
      → IsPair chain key

-- The options that `load` sets.
abbrev server_options : List SslOption
server_options =
    SslOption.default_workarounds ∷ SslOption.no_sslv2 ∷ SslOption.no_sslv3 ∷ SslOption.no_tlsv1
    ∷ SslOption.no_tlsv1_1 ∷ []

-- The settings that a server runs with.
abbrev pub server_settings : {Chain Key : Type 0} → Chain → Key → Settings Chain Key
server_settings chain key = record {
  ciphers = some "ECDHE+ECDSA+AESGCM:ECDHE+ECDSA+CHACHA20";
  chain = some chain;
  key = some key;
}

module _ {World Context : Type 0} (asio : AsioSsl World Context) where
  -- An error's text stands exactly beside a context that is missing.
  IsTold : Loaded Context → Type 0
  IsTold r = (r.0 ≡ none) ↔ (r.1 ≢ [])

  failed_IsTold : (p : Part) (ps : ErrorText) → IsTold (none, p ∷ ps)
  unfolding IsTold
  failed_IsTold p ps = (λ h e. cc e, λ h. refl)

  check_IsTold : (pair : Bool) (c : Context) → IsTold (after_check asio pair c)
  unfolding after_check IsTold
  check_IsTold true c = (λ h. cc h, λ h. absurd (h refl))
  check_IsTold false c = failed_IsTold _ _

  key_IsTold : (path : Bytes) (r : Option Bytes × Context) → IsTold (after_key asio path r)
  unfolding after_key
  key_IsTold path (none, c) = check_IsTold _ c
  key_IsTold path (some message, c) = failed_IsTold _ _

  chain_IsTold :
      (w : World) (cert key : Bytes) (r : Option Bytes × Context)
      → IsTold (after_chain asio w cert key r)
  unfolding after_chain
  chain_IsTold w cert key (none, c) = key_IsTold key _
  chain_IsTold w cert key (some message, c) = failed_IsTold _ _

  ciphers_IsTold :
      (w : World) (cert key : Bytes) (r : Bool × Context) → IsTold (after_ciphers asio w cert key r)
  unfolding after_ciphers
  ciphers_IsTold w cert key (true, c) = chain_IsTold w cert key _
  ciphers_IsTold w cert key (false, c) = failed_IsTold _ _

  -- `load` returns no context exactly if it leaves a text in `error`.
  pub load_tells_iff :
      (w : World) (cert_chain private_key : Bytes)
      → ((load asio w cert_chain private_key).0 ≡ none)
        ↔ ((load asio w cert_chain private_key).1 ≢ [])
  unfolding load IsTold
  load_tells_iff w cert_chain private_key = ciphers_IsTold w cert_chain private_key _

module _ {World Context Chain Key : Type 0} {asio : AsioSsl World Context}
    (doc : Documented asio Chain Key) where
  check_inv :
      (pair : Bool) (c : Context) (tls : TlsContext Context) (e : ErrorText)
      → after_check asio pair c ≡ (some tls, e)
      → (pair ≡ true) × (native tls ≡ some c) × (e ≡ [])
  unfolding after_check
  check_inv true c tls e h =
      (refl, ap native (same_object (ap (λ r. r.0) h)), sym (ap (λ r. r.1) h))
    where
      same_object : {a b : TlsContext Context} → some a ≡ some b → b ≡ a
      same_object k = cc
  check_inv false c tls e h = cc (ap (λ r. r.0) h)

  key_inv :
      (path : Bytes) (r : Option Bytes × Context) (tls : TlsContext Context) (e : ErrorText)
      → after_key asio path r ≡ (some tls, e)
      → (r ≡ (none, r.1)) × (asio.check_private_key r.1 ≡ true) × (native tls ≡ some r.1) × (e ≡ [])
  unfolding after_key
  key_inv path (none, c) tls e h =
      let (pair, same, told) = check_inv _ c tls e h in (refl, pair, same, told)
  key_inv path (some message, c) tls e h = cc (ap (λ r. r.0) h)

  chain_inv :
      (w : World) (cert key : Bytes) (r : Option Bytes × Context) (d : TlsContext Context)
      (e : ErrorText)
      → after_chain asio w cert key r ≡ (some d, e)
      → (r ≡ (none, r.1)) × (after_key asio key (asio.use_private_key_file w r.1 key) ≡ (some d, e))
  unfolding after_chain
  chain_inv w cert key (none, c) d e h = (refl, h)
  chain_inv w cert key (some message, c) d e h = cc (ap (λ r. r.0) h)

  ciphers_inv :
      (w : World) (cert key : Bytes) (r : Bool × Context) (d : TlsContext Context) (e : ErrorText)
      → after_ciphers asio w cert key r ≡ (some d, e)
      → (r ≡ (true, r.1))
        × (after_chain asio w cert key (asio.use_certificate_chain_file w r.1 cert) ≡ (some d, e))
  unfolding after_ciphers
  ciphers_inv w cert key (true, c) d e h = (refl, h)
  ciphers_inv w cert key (false, c) d e h = cc (ap (λ r. r.0) h)

  -- The object that `load` returns holds a context; this has the chain and the key that the two
  -- files hold, which belong together, and the cipher list of ECDHE with AEAD; the options that
  -- refuse SSL 2 and 3, TLS 1.0 and 1.1 and the one for default workarounds are in force; and no
  -- error is left. That holds if each call that succeeds has the effect that asio and OpenSSL
  -- document.
  pub load_settings :
      (w : World) (cert_chain private_key : Bytes) (tls : TlsContext Context) (e : ErrorText)
      → load asio w cert_chain private_key ≡ (some tls, e)
      → (c : Context) × (native tls ≡ some c)
        × (chain : Chain) × (key : Key) × (doc.chain_in w cert_chain ≡ some chain)
        × (doc.key_in w private_key ≡ some key)
        × doc.IsPair chain key
        × (doc.settings c ≡ server_settings chain key)
        × doc.Has c SslOption.no_sslv2
        × doc.Has c SslOption.no_sslv3
        × doc.Has c SslOption.no_tlsv1
        × doc.Has c SslOption.no_tlsv1_1
        × doc.Has c SslOption.default_workarounds
        × (e ≡ [])
  unfolding load
  load_settings w cert_chain private_key tls e h =
      let (ciphered, h1) = ciphers_inv w cert_chain private_key _ tls e h in
      let (chained, h2) = chain_inv w cert_chain private_key _ tls e h1 in
      let (keyed, pair, holds, told) = key_inv private_key _ tls e h2 in
      let (ciphers_set, kept1) = doc.ciphers_law _ _ _ ciphered in
      let (chain, chain_read, chain_set, ciphers_kept, kept2) =
        doc.chain_law w _ _ cert_chain chained in
      let (key, key_read, key_set, kept3) = doc.key_law w _ _ private_key keyed in
      let all : doc.settings _ ≡ server_settings chain key = key_set ∙ λ i. record {
        ciphers = (ciphers_kept ∙ ap (λ s. s.ciphers) ciphers_set) i;
        chain = chain_set i;
        key = some key;
      } in
      let (workarounds, (sslv2, (sslv3, (tlsv1, (tlsv1_1, _))))) =
        doc.options_law asio.new_server_context server_options in
      (
        _,
        holds,
        chain,
        key,
        chain_read,
        key_read,
        doc.pair_law _ chain key (ap (λ s. s.chain) all) (ap (λ s. s.key) all) pair,
        all,
        kept3 _ (kept2 _ (kept1 _ sslv2)),
        kept3 _ (kept2 _ (kept1 _ sslv3)),
        kept3 _ (kept2 _ (kept1 _ tlsv1)),
        kept3 _ (kept2 _ (kept1 _ tlsv1_1)),
        kept3 _ (kept2 _ (kept1 _ workarounds)),
        told,
      )
