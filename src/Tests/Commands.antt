-- ===== src/Tests/Commands.antt =====
-- The command over an OpenSSL whose certificates are their contents, and over files that are a
-- function of their paths.
use chat_hub.Prelude.{
  codes, ℕ, ◌≢◌, sym, ◌≡◌, ◌↔◌, inl, inr, refl, ap, List, [], ◌∷◌, ◌++◌, true, if◌then◌else◌, Bytes,
  Option, some, Bool-cases,
}
use chat_hub.Pki.Ipv4.{IsDottedQuad}
use chat_hub.DevCa.Issued.{IsIssued}
use chat_hub.CaTool.{
  FileSystem, default_out, and_then, write_file, write_opened, close_written, run_with,
  write_issued, written_exit, read_args, done, exit_code, same_arg, dev_ca_main, write_dev_ca_files,
  ip_option,
}
use chat_hub.CaTool.Arguments.{Setting, as_args, apply_all, same_arg_sound, same_arg_refl}
use chat_hub.CaTool.Files
use chat_hub.CaTool.Files.{HoldsTexts, IsFileOf, write_dev_ca_files_others}
use chat_hub.CaTool.Reliable.{Works, dev_ca_main_ok_iff}
use chat_hub.CaTool.Run.{defaults, dev_ca_main_done, dev_ca_main_usage_iff}
use chat_hub.Tests.Issuing.{
  Disk, openssl, documented, reliable, empty_disk, address, issued, issues, value_of,
}

-- `dir / name`.
abbrev pub path : Bytes → Bytes → Bytes
path dir name = dir ++ (b'/' ∷ name)

tail_same : {c d : ℕ} {a b : Bytes} → c ∷ a ≡ d ∷ b → a ≡ b
tail_same h = cc

pub path-injective : (dir a b : Bytes) → path dir a ≡ path dir b → a ≡ b
path-injective [] a b h = tail_same h
path-injective (c ∷ dir) a b h = path-injective dir a b (tail_same h)

-- A stream: its path, and what it holds.
abbrev pub Stream : Type 0
Stream = Bytes × Bytes

abbrev pub store : Stream → Disk → Disk
store s w f = if same_arg s.0 f then some s.1 else w f

abbrev pub opened : Stream → Disk → Option Stream × Disk
opened s w = (some s, w)

abbrev pub files : FileSystem Disk Stream
files = record {
  create_directories = λ dir w. (true, w);
  open_truncated = λ dir name. opened (path dir name, []);
  write = λ s text w. ((s.0, s.1 ++ text), w);
  close = λ s w. (true, store s w);
}

pub opened_of : {a b : Stream} {w v : Disk} → opened a w ≡ opened b v → b ≡ a
opened_of h = value_of (ap (λ r. r.0) h)

pub stored : (s : Stream) (w : Disk) → store s w s.0 ≡ some s.1
stored s w = rw (same_arg_refl s.0) refl

pub not_stored : (s : Stream) (f : Bytes) (w : Disk) → f ≢ s.0 → store s w f ≡ w f
not_stored s f w other = elim (Bool-cases (same_arg s.0 f)) [
  | inl same ↦ absurd (other (sym (same_arg_sound s.0 f same)))
  | inr apart ↦ rw apart refl
]

unfoldable pub kept_files : Files.Documented files
kept_files = record {
  File = Bytes;
  file = path;
  read = λ w. w;
  target = λ s. s.0;
  held = λ s. s.1;
  names_apart = λ dir a b of_a of_b other e. other (path-injective dir a b e);
  directories_law = λ dir f w. refl;
  open_law = λ dir name w v s h. (ap (λ x. x.0) (opened_of h), ap (λ x. x.1) (opened_of h));
  open_others = λ dir name f w other. refl;
  write_law = λ s text w. (refl, refl);
  write_others = λ s text f w other. refl;
  close_law = λ s w h. stored s w;
  close_others = λ s f w other. not_stored s f w other;
}

abbrev out_dir : Bytes
out_dir = codes "pki"

abbrev full_disk : Disk
full_disk = (write_dev_ca_files files issued out_dir empty_disk).1

writes : write_dev_ca_files files issued out_dir empty_disk ≡ (true, full_disk)
unfolding write_dev_ca_files and_then write_file write_opened close_written
writes = refl

-- A file that is not one of the four.
abbrev notes : kept_files.File
notes = kept_files.file out_dir (codes "notes")

is_other : ¬ IsFileOf kept_files out_dir notes
unfolding kept_files
is_other (inl e) = cc e
is_other (inr (inl e)) = cc e
is_other (inr (inr (inl e))) = cc e
is_other (inr (inr (inr e))) = cc e

write_dev_ca_files_others_example :
    kept_files.read full_disk notes ≡ kept_files.read empty_disk notes
write_dev_ca_files_others_example =
    write_dev_ca_files_others kept_files issued out_dir notes empty_disk full_disk true writes
      is_other

-- The command line `--ip 10.0.0.5`.
abbrev pub arguments : List Bytes
arguments = ip_option ∷ address ∷ []

abbrev final_disk : Disk
final_disk = (write_dev_ca_files files issued default_out empty_disk).1

commanded : dev_ca_main openssl files arguments empty_disk ≡ done issued final_disk
unfolding dev_ca_main run_with write_issued written_exit read_args same_arg write_dev_ca_files
    and_then write_file write_opened close_written
commanded = rw issues refl

dev_ca_main_done_example :
    (settings : List Setting) × (arguments ≡ as_args settings)
    × IsDottedQuad (apply_all defaults settings).ip
    × IsIssued documented (apply_all defaults settings).ip issued
    × HoldsTexts kept_files final_disk (apply_all defaults settings).out issued
dev_ca_main_done_example =
    dev_ca_main_done openssl files documented kept_files arguments empty_disk final_disk issued
      commanded

dev_ca_main_usage_iff_example :
    (exit_code (dev_ca_main openssl files (address ∷ []) empty_disk) ≡ 2)
    ↔ ¬ ((settings : List Setting) × (address ∷ [] ≡ as_args settings))
dev_ca_main_usage_iff_example = dev_ca_main_usage_iff openssl files (address ∷ []) empty_disk

works : Works files
works = record {
  creates = λ dir w. refl;
  opens = λ dir name w. ((path dir name, []), refl);
  closes = λ s w. refl;
}

dev_ca_main_ok_iff_example : (exit_code (dev_ca_main openssl files arguments empty_disk) ≡ 0) ↔ (
    (settings : List Setting) × (arguments ≡ as_args settings)
    × IsDottedQuad (apply_all defaults settings).ip)
dev_ca_main_ok_iff_example = dev_ca_main_ok_iff reliable works arguments empty_disk
