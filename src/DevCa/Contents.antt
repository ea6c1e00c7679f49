-- ===== src/DevCa/Contents.antt =====
-- What a certificate contains, and what OpenSSL documents of its setters: each changes the one part
-- that it names.
use chat_hub.Prelude.{
  ℕ, ◌≤◌, ◌<◌, ◌^◌, ◌≡◌, List, [], ◌∷◌, ◌++◌, Option, none, some, Bytes, IsByte, All,
}
use chat_hub.DevCa.{CString, Nid, OpenSsl}

-- The times are in seconds from the calls that set them.
pub record Contents (Key : Type 0) : Type 0 where
  pub version_3 : Option ℕ
  pub serial : ℕ
  pub not_before : ℕ
  pub not_after : ℕ
  pub subject : List CString
  pub issuer : List CString
  pub public_key : Option Key
  pub extensions : List (Nid × CString)
  pub signer : Option Key

-- A certificate as `X509_new` returns it.
abbrev pub blank : {Key : Type 0} → Contents Key
blank = record {
  version_3 = none;
  serial = 0;
  not_before = 0;
  not_after = 0;
  subject = [];
  issuer = [];
  public_key = none;
  extensions = [];
  signer = none;
}

-- The effect of each call that succeeds. A digest is bytes.
pub record Documented {World Key X509 Extension : Type 0} (ssl : OpenSsl World Key X509 Extension)
    : Type 0 where
  pub contents : X509 → Contents Key
  pub of_extension : Extension → Nid × CString
  pub new_x509_law : (w v : World) (c : X509) → ssl.new_x509 w ≡ some (c, v) → contents c ≡ blank
  pub serial_law :
      (w v : World) (n : ℕ) → ssl.random_serial w ≡ some (n, v) → (2 ^ 127 ≤ n) × (n < 2 ^ 128)
  pub version_law :
      (c c' : X509)
      → ssl.set_version_3 c ≡ some c'
      → contents c' ≡ record (contents c) { version_3 = some 2 }
  pub set_serial_law :
      (c c' : X509) (n : ℕ)
      → ssl.set_serial_number c n ≡ some c'
      → contents c' ≡ record (contents c) { serial = n }
  pub not_before_law :
      (w v : World) (c c' : X509) (s : ℕ)
      → ssl.set_not_before c s w ≡ some (c', v)
      → contents c' ≡ record (contents c) { not_before = s }
  pub not_after_law :
      (w v : World) (c c' : X509) (s : ℕ)
      → ssl.set_not_after c s w ≡ some (c', v)
      → contents c' ≡ record (contents c) { not_after = s }
  pub common_name_law :
      (c c' : X509) (cn : CString)
      → ssl.add_common_name c cn ≡ some c'
      → contents c' ≡ record (contents c) { subject = (contents c).subject ++ (cn ∷ []) }
  pub public_key_law :
      (c c' : X509) (key : Key)
      → ssl.set_public_key c key ≡ some c'
      → contents c' ≡ record (contents c) { public_key = some key }
  pub issuer_law :
      (c i c' : X509)
      → ssl.set_issuer_of c i ≡ some c'
      → contents c' ≡ record (contents c) { issuer = (contents i).subject }
  pub make_extension_law :
      (issuer subject : X509) (nid : Nid) (value : CString) (ext : Extension)
      → ssl.make_extension issuer subject nid value ≡ some ext
      → of_extension ext ≡ (nid, value)
  pub append_extension_law :
      (c c' : X509) (ext : Extension)
      → ssl.append_extension c ext ≡ some c'
      → contents c'
        ≡ record (contents c) { extensions = (contents c).extensions ++ (of_extension ext ∷ []) }
  pub digest_law : (c : X509) (md : Bytes) → ssl.digest c ≡ some md → All IsByte md
  pub sign_law :
      (w v : World) (c c' : X509) (key : Key)
      → ssl.sign c key w ≡ some (c', v)
      → contents c' ≡ record (contents c) { signer = some key }
