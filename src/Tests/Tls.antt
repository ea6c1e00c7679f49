-- ===== src/Tests/Tls.antt =====
-- The TLS settings of both sides over libraries whose contexts are their options and settings.
use chat_hub.ErrorText.{ErrorText}
use chat_hub.Prelude.{
  ℕ, ◌⊎◌, inl, inr, subst, ◌++◌, All, ◌≡◌, ◌≢◌, refl, sym, ap, List, [], ◌∷◌, Bool, true, false,
  Bytes, Option, none, some,
}
use Prim.Native.String.{String}
use chat_hub.TlsContext.{
  SslOption, AsioSsl, TlsContext, native, move_context, load, after_ciphers, after_chain, after_key,
  after_check,
}
use chat_hub.TlsContext.Loaded.{Settings, Documented, server_settings, load_settings}
use chat_hub.TlsClient.{
  QtSsl, TlsClientConfig, series, is_backend_ready, build_with, after_backend, build, apply_to,
}
use chat_hub.TlsClient.Verified
use chat_hub.TlsClient.Verified.{IsReady, build_iff, apply_to-build}

-- A file holds its own path, and each key belongs to each chain.
record Context : Type 0 where
  options : List SslOption
  settings : Settings Bytes Bytes

-- A new context has an option of its own.
abbrev unset : Context
unset = record {
  options = SslOption.other_option ∷ [];
  settings = record { ciphers = none; chain = none; key = none };
}

abbrev with_ciphers : Context → String → Context
with_ciphers c s = record c { settings = record (c.settings) { ciphers = some s } }

abbrev with_chain : Context → Bytes → Context
with_chain c path = record c { settings = record (c.settings) { chain = some path } }

abbrev with_key : Context → Bytes → Context
with_key c path = record c { settings = record (c.settings) { key = some path } }

abbrev accepted : Context → Bool × Context
accepted c = (true, c)

abbrev read_well : Context → Option Bytes × Context
read_well c = (none, c)

abbrev asio : AsioSsl ℕ Context
asio = record {
  new_server_context = unset;
  set_options = λ c os. record c { options = os ++ c.options };
  set_cipher_list = λ c s. accepted (with_ciphers c s);
  use_certificate_chain_file = λ w c path. read_well (with_chain c path);
  use_private_key_file = λ w c path. read_well (with_key c path);
  check_private_key = λ c. true;
}

accepted_of : {c d : Context} → accepted c ≡ (true, d) → d ≡ c
accepted_of h = sym (ap (λ r. r.1) h)

read_of : {c d : Context} → read_well c ≡ (none, d) → d ≡ c
read_of h = sym (ap (λ r. r.1) h)

-- An option that is in a list.
IsIn : SslOption → List SslOption → Type 0
IsIn o [] = ⊥
IsIn o (p ∷ os) = (o ≡ p) ⊎ IsIn o os

IsIn-behind :
    (p : SslOption) (os xs : List SslOption)
    → All (λ o. IsIn o xs) os
    → All (λ o. IsIn o (p ∷ xs)) os
unfolding IsIn
IsIn-behind p [] xs h = tt
IsIn-behind p (o ∷ os) xs (one, others) = (inr one, IsIn-behind p os xs others)

each_IsIn : (os more : List SslOption) → All (λ o. IsIn o (os ++ more)) os
unfolding IsIn
each_IsIn [] more = tt
each_IsIn (p ∷ os) more = (inl refl, IsIn-behind p os (os ++ more) (each_IsIn os more))

has_same : {c d : Context} → d ≡ c → (o : SslOption) → IsIn o c.options → IsIn o d.options
has_same e o h = subst (λ x. IsIn o x.options) (sym e) h

documented : Documented asio Bytes Bytes
documented = record {
  Has = λ c o. IsIn o c.options;
  settings = λ c. c.settings;
  chain_in = λ w path. some path;
  key_in = λ w path. some path;
  IsPair = λ chain key. chain ≡ chain;
  options_law = λ c os. each_IsIn os c.options;
  ciphers_law = λ c c' s h. (ap (λ d. d.settings) (accepted_of h), has_same (accepted_of h));
  chain_law = λ w c c' path h. (
    path,
    refl,
    ap (λ d. d.settings.chain) (read_of h),
    ap (λ d. d.settings.ciphers) (read_of h),
    has_same (read_of h),
  );
  key_law = λ w c c' path h. (path, refl, ap (λ d. d.settings) (read_of h), has_same (read_of h));
  pair_law = λ c chain key has_chain has_key h. refl;
}

abbrev no_error : ErrorText
no_error = []

abbrev cert_path : Bytes
cert_path = b'c' ∷ []

abbrev key_path : Bytes
key_path = b'k' ∷ []

abbrev server_context : TlsContext Context
server_context = record {
  context = some (record {
    options =
        SslOption.default_workarounds ∷ SslOption.no_sslv2 ∷ SslOption.no_sslv3 ∷ SslOption.no_tlsv1
        ∷ SslOption.no_tlsv1_1 ∷ SslOption.other_option ∷ [];
    settings = server_settings cert_path key_path;
  });
}

loads : load asio 0 cert_path key_path ≡ (some server_context, [])
unfolding load after_ciphers after_chain after_key after_check
loads = refl

-- A moved object takes the context along.
moves :
    (native (move_context server_context).0 ≡ native server_context)
    × (native (move_context server_context).1 ≡ none)
moves = (refl, refl)

load_settings_example :
    (c : Context) × (native server_context ≡ some c)
    × (chain : Bytes) × (key : Bytes) × (some cert_path ≡ some chain)
    × (some key_path ≡ some key)
    × (chain ≡ chain)
    × (c.settings ≡ server_settings chain key)
    × IsIn SslOption.no_sslv2 c.options
    × IsIn SslOption.no_sslv3 c.options
    × IsIn SslOption.no_tlsv1 c.options
    × IsIn SslOption.no_tlsv1_1 c.options
    × IsIn SslOption.default_workarounds c.options
    × (no_error ≡ no_error)
unfolding documented
load_settings_example = load_settings documented 0 cert_path key_path server_context [] loads

-- The authorities, and whether the peer is verified.
record Configuration : Type 0 where
  trusted : List ℕ
  verified : Bool

abbrev authorities : List ℕ
authorities = 5 ∷ []

abbrev qt : QtSsl ℕ ℕ Configuration Configuration
qt = record {
  supports_ssl = true;
  library_version = series;
  contains = λ text part. true;
  from_path = λ w path. authorities;
  new_configuration = record { trusted = []; verified = false };
  set_ca_certificates = λ c certs. record c { trusted = certs };
  set_verify_peer = λ c. record c { verified = true };
  set_ssl_configuration = λ s c. c;
  set_socket_verify_peer = λ s. record s { verified = true };
}

qt_documented : Verified.Documented qt
qt_documented = record {
  authorities = λ c. c.trusted;
  verifies = λ c. c.verified;
  configuration_of = λ s. s;
  authorities_law = λ c certs. refl;
  verify_law = λ c. (refl, refl);
  socket_law = λ s c. refl;
  socket_verify_law = λ s. (refl, refl);
}

abbrev config : TlsClientConfig Configuration
config = record { config = record { trusted = 5 ∷ []; verified = true } }

abbrev ca_path : Bytes
ca_path = b'a' ∷ []

builds : build qt 0 ca_path ≡ (some config, [])
unfolding build is_backend_ready after_backend build_with
builds = refl

apply_to-build_example :
    ((apply_to qt config qt.new_configuration).verified ≡ true)
    × ((apply_to qt config qt.new_configuration).trusted ≡ authorities)
    × (authorities ≢ [])
    × (true ≡ true)
unfolding apply_to qt_documented
apply_to-build_example =
    apply_to-build qt_documented 0 ca_path config [] qt.new_configuration builds
