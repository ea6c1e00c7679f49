-- ===== src/CaTool.antt =====
-- The command tools/pki/src/dev_ca_main.cpp, and `writeDevCaFiles` of tools/pki/src/dev_ca.cpp. The
-- file system and OpenSSL are parameters; what is printed is left out.
pub mod Arguments
pub mod Files
pub mod Run
pub mod Reliable
use chat_hub.Prelude.{
  codes, ℕ, List, [], ◌∷◌, Bool, true, false, ◌&&◌, ◌==◌, if◌then◌else◌, Bytes, Option, none, some,
}
use chat_hub.DevCa.{OpenSsl, IssueDevCa, issue_dev_ca}

-- What the code calls of `std::filesystem` and `std::ofstream`.
pub record FileSystem (World Stream : Type 0) : Type 0 where
  -- `create_directories(path, ec)`: true where `ec` is clear.
  pub create_directories : Bytes → World → Bool × World
  -- `std::ofstream out(dir / name, binary | trunc)`: no stream where `!out`.
  pub open_truncated : Bytes → Bytes → World → Option Stream × World
  -- `out.write(text.data(), text.size())`.
  pub write : Stream → Bytes → World → Stream × World
  -- `out.close()`, and then the stream's own test.
  pub close : Stream → World → Bool × World

-- The names of the four files.
abbrev pub trusted_ca_pem : Bytes
trusted_ca_pem = codes "trusted-ca.pem"

abbrev pub ca_key_pem : Bytes
ca_key_pem = codes "ca-key.pem"

abbrev pub server_cert_pem : Bytes
server_cert_pem = codes "server-cert.pem"

abbrev pub server_key_pem : Bytes
server_key_pem = codes "server-key.pem"

abbrev pub default_server_ipv4 : Bytes
default_server_ipv4 = codes "127.0.0.1"

abbrev pub default_out : Bytes
default_out = codes "run-data/pki"

abbrev pub ip_option : Bytes
ip_option = codes "--ip"

abbrev pub out_option : Bytes
out_option = codes "--out"

-- `arg == "..."`.
unfoldable pub same_arg : Bytes → Bytes → Bool
same_arg [] [] = true
same_arg [] (d ∷ t) = false
same_arg (c ∷ s) [] = false
same_arg (c ∷ s) (d ∷ t) = c == d && same_arg s t

-- The two variables that the loop sets.
pub record Settings : Type 0 where
  pub ip : Bytes
  pub out : Bytes

-- The loop over `argv[1..]`: `none` where it prints the usage. Each round that goes on takes the
-- option and its value.
unfoldable pub read_args : Settings → List Bytes → Option Settings
read_args s [] = some s
read_args s (arg ∷ []) = none
read_args s (arg ∷ value ∷ rest) =
    let with_ip = read_args record s { ip = value } rest in
    let with_out = read_args record s { out = value } rest in
    if same_arg arg ip_option then with_ip else if same_arg arg out_option then with_out else none

module _ {World Stream : Type 0} (fs : FileSystem World Stream) where
  unfoldable pub close_written : Stream × World → Bool × World
  close_written r = fs.close r.0 r.1

  unfoldable pub write_opened : Bytes → Option Stream × World → Bool × World
  unfolding close_written
  write_opened text (none, w) = (false, w)
  write_opened text (some s, w) = close_written (fs.write s text w)

  -- `write_file`.
  unfoldable pub write_file : Bytes → Bytes → Bytes → World → Bool × World
  unfolding write_opened
  write_file dir name text w = write_opened text (fs.open_truncated dir name w)

  -- `a && b`: the second step is taken after a first one that succeeds.
  unfoldable pub and_then : Bool × World → (World → Bool × World) → Bool × World
  and_then r next = if r.0 then next r.1 else (false, r.1)

  unfoldable pub write_dev_ca_files : IssueDevCa → Bytes → World → Bool × World
  write_dev_ca_files issued dir w = and_then (fs.create_directories dir w) (λ w.
      and_then (write_file dir trusted_ca_pem issued.ca_cert_pem w) (λ w.
        and_then (write_file dir ca_key_pem issued.ca_key_pem w) (λ w.
          and_then (write_file dir server_cert_pem issued.server_cert_pem w)
            (write_file dir server_key_pem issued.server_key_pem))))

-- How the command ends: with the usage, without certificates, without files or with both. The world
-- that a failed call of OpenSSL leaves is not told.
pub data Exit (World : Type 0) : Type 0 where
  usage : Exit World
  not_issued : Exit World
  not_written : World → Exit World
  done : IssueDevCa → World → Exit World

unfoldable pub exit_code : {World : Type 0} → Exit World → ℕ
exit_code usage = 2
exit_code not_issued = 1
exit_code (not_written w) = 1
exit_code (done out w) = 0

module _ {World Key X509 Extension Stream : Type 0} (ssl : OpenSsl World Key X509 Extension)
    (fs : FileSystem World Stream) where
  unfoldable pub written_exit : IssueDevCa → Bool × World → Exit World
  written_exit issued (ok, w) = if ok then done issued w else not_written w

  unfoldable pub write_issued : Bytes → Option (IssueDevCa × World) → Exit World
  unfolding written_exit
  write_issued dir none = not_issued
  write_issued dir (some (issued, w)) = written_exit issued (write_dev_ca_files fs issued dir w)

  unfoldable pub run_with : Option Settings → World → Exit World
  unfolding write_issued
  run_with none w = usage
  run_with (some s) w = write_issued s.out (issue_dev_ca ssl s.ip w)

  -- `main`, on the arguments behind the program's name.
  unfoldable pub dev_ca_main : List Bytes → World → Exit World
  unfolding run_with
  dev_ca_main args w =
      run_with (read_args (record { ip = default_server_ipv4; out = default_out }) args) w
