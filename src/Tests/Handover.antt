-- ===== src/Tests/Handover.antt =====
-- The command, and the two sides on its files, over the OpenSSL of Tests/Reading.antt and the files of
-- Tests/Commands.antt.
use chat_hub.CaTool.{default_out, write_dev_ca_files}
use chat_hub.Prelude.{ℕ, ◌≡◌, List, [], ◌∷◌, Bool, true, false, Bytes, codes, Option, none, some}
use chat_hub.Tests.Commands.{path, files}
use chat_hub.Tests.Issuing.{Certificate, Disk, empty_disk}
use chat_hub.Tests.Reading.{inspector, issued}
use chat_hub.TlsClient.{QtSsl, series}
use chat_hub.TlsClient.Verified
use chat_hub.TlsContext.{AsioSsl}

-- The first key is 0, the next ones are 1: the disk notes that there is one.
abbrev marked : Disk → Disk
marked w [] = some []
marked w (c ∷ path) = w (c ∷ path)

abbrev key_of_mark : Option Bytes → ℕ
key_of_mark none = 0
key_of_mark (some note) = 1

abbrev disk_key : Disk → Option (ℕ × Disk)
disk_key w = some (key_of_mark (w []), marked w)

abbrev final_disk : Disk
final_disk = (write_dev_ca_files files issued default_out (marked (marked empty_disk))).1

abbrev at : Disk → Bytes → Option Bytes
at w path = w path

record Context : Type 0 where
  presented : Option Certificate
  held : Option ℕ

abbrev with_certificate : Context → Option Bytes → Option Bytes × Context
with_certificate c none = (some (codes "missing"), c)
with_certificate c (some t) = (none, record c { presented = inspector.read_x509 t })

abbrev with_key : Context → Option Bytes → Option Bytes × Context
with_key c none = (some (codes "missing"), c)
with_key c (some t) = (none, record c { held = inspector.read_private_key t })

abbrev is_pair : Option Certificate → Option ℕ → Bool
is_pair none k = false
is_pair (some x) none = false
is_pair (some x) (some k) = inspector.check_private_key x k

abbrev asio : AsioSsl Disk Context
asio = record {
  new_server_context = record { presented = none; held = none };
  set_options = λ c os. c;
  set_cipher_list = λ c s. (true, c);
  use_certificate_chain_file = λ w c path. with_certificate c (at w path);
  use_private_key_file = λ w c path. with_key c (at w path);
  check_private_key = λ c. is_pair c.presented c.held;
}

same_text : {a b : Bytes} → some a ≡ some b → a ≡ b
same_text e = cc

record Configuration : Type 0 where
  trusted : List Certificate
  verified : Bool

abbrev one_of : Option Certificate → List Certificate
one_of none = []
one_of (some x) = x ∷ []

abbrev certificates_in : Option Bytes → List Certificate
certificates_in none = []
certificates_in (some t) = one_of (inspector.read_x509 t)

abbrev qt : QtSsl Disk Certificate Configuration Configuration
qt = record {
  supports_ssl = true;
  library_version = series;
  contains = λ text part. true;
  from_path = λ w path. certificates_in (at w path);
  new_configuration = record { trusted = []; verified = false };
  set_ca_certificates = λ c certs. record c { trusted = certs };
  set_verify_peer = λ c. record c { verified = true };
  set_ssl_configuration = λ s c. c;
  set_socket_verify_peer = λ s. record s { verified = true };
}
