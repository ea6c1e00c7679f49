-- ===== src/CaTool/Reliable.antt =====
-- The command where no call of OpenSSL or of the file system fails.
use chat_hub.Prelude.{
  ◌≡◌, ◌↔◌, refl, sym, subst, List, Bool, true, false, Bytes, Option, none, some,
}
use chat_hub.Pki.Ipv4.{IsDottedQuad}
use chat_hub.DevCa.{OpenSsl, IssueDevCa, issue_dev_ca}
use chat_hub.DevCa.Contents.{Documented}
use chat_hub.DevCa.Reliable.{Reliable, issue_dev_ca-Returns_iff}
use chat_hub.CaTool.{
  FileSystem, Settings, read_args, write_file, write_opened, close_written, and_then,
  write_dev_ca_files, exit_code, written_exit, write_issued, run_with, dev_ca_main,
}
use chat_hub.CaTool.Arguments.{Setting, as_args, apply_all, read_args_iff}
use chat_hub.CaTool.Run.{defaults}

-- No call of the file system fails.
pub record Works {World Stream : Type 0} (fs : FileSystem World Stream) : Type 0 where
  pub creates : (dir : Bytes) (w : World) → (fs.create_directories dir w).0 ≡ true
  pub opens :
      (dir name : Bytes) (w : World) → (s : Stream) × ((fs.open_truncated dir name w).0 ≡ some s)
  pub closes : (s : Stream) (w : World) → (fs.close s w).0 ≡ true

module _ {World Stream : Type 0} {fs : FileSystem World Stream} (works : Works fs) where
  opened_works :
      (text : Bytes) (o : Option Stream × World)
      → ((s : Stream) × (o.0 ≡ some s))
      → (write_opened fs text o).0 ≡ true
  unfolding write_opened close_written
  opened_works text (none, w) (s, h) = cc
  opened_works text (some s, w) h = works.closes _ _

  write_works : (dir name text : Bytes) (w : World) → (write_file fs dir name text w).0 ≡ true
  unfolding write_file
  write_works dir name text w = opened_works text _ (works.opens dir name w)

  both_work :
      (r : Bool × World) (next : World → Bool × World)
      → r.0 ≡ true
      → ((w : World) → (next w).0 ≡ true)
      → (and_then fs r next).0 ≡ true
  unfolding and_then
  both_work (true, w) next h later = later w
  both_work (false, w) next h later = h

  files_work :
      (issued : IssueDevCa) (dir : Bytes) (w : World)
      → (write_dev_ca_files fs issued dir w).0 ≡ true
  unfolding write_dev_ca_files
  files_work issued dir w = both_work _ _ (works.creates dir w) (λ w1.
      both_work _ _ (write_works dir _ _ w1) (λ w2.
        both_work _ _ (write_works dir _ _ w2)
          (λ w3. both_work _ _ (write_works dir _ _ w3) (λ w4. write_works dir _ _ w4))))

written_code_zero :
    {World Key X509 Extension Stream : Type 0} (ssl : OpenSsl World Key X509 Extension)
    (fs : FileSystem World Stream) (issued : IssueDevCa) (r : Bool × World)
    → r.0 ≡ true
    → exit_code (written_exit ssl fs issued r) ≡ 0
unfolding written_exit exit_code
written_code_zero ssl fs issued (true, v) h = refl
written_code_zero ssl fs issued (false, v) h = cc h

module _ {World Key X509 Extension Stream : Type 0} {ssl : OpenSsl World Key X509 Extension}
    {doc : Documented ssl} {fs : FileSystem World Stream} (ok : Reliable doc)
    (works : Works fs) where
  issued_code_zero :
      (dir : Bytes) (o : Option (IssueDevCa × World))
      → (exit_code (write_issued ssl fs dir o) ≡ 0)
        ↔ ((out : IssueDevCa) × (v : World) × (o ≡ some (out, v)))
  unfolding write_issued exit_code
  issued_code_zero dir none = (λ h. cc h, λ (out, v, h). cc h)
  issued_code_zero dir (some (issued, w)) = (
    λ h. (issued, w, refl),
    λ given. written_code_zero ssl fs issued _ (files_work works issued dir w),
  )

  settings_code_zero :
      (s : Settings) (w : World) → (exit_code (run_with ssl fs (some s) w) ≡ 0) ↔ IsDottedQuad s.ip
  unfolding run_with
  settings_code_zero s w =
      let written = issued_code_zero s.out (issue_dev_ca ssl s.ip w) in
      let issued = issue_dev_ca-Returns_iff ok s.ip w in
      (λ h. issued.0 (written.0 h), λ quad. written.1 (issued.1 quad))

  refused_code : (w : World) → exit_code (run_with ssl fs none w) ≡ 2
  unfolding run_with exit_code
  refused_code w = refl

  -- If no call of OpenSSL or of the file system fails, the command ends with code 0 exactly if its
  -- arguments are a list of options with their values that give a dotted quad as the address, or
  -- leave the default.
  pub dev_ca_main_ok_iff :
      (args : List Bytes) (w : World)
      → (exit_code (dev_ca_main ssl fs args w) ≡ 0) ↔ (
          (settings : List Setting) × (args ≡ as_args settings)
          × IsDottedQuad (apply_all defaults settings).ip)
  unfolding dev_ca_main
  dev_ca_main_ok_iff args w = (
    λ h. given _ h refl,
    λ (settings, same, quad).
        subst (λ o. exit_code (run_with ssl fs o w) ≡ 0)
          (sym
            ((read_args_iff defaults (apply_all defaults settings) args).1 (settings, same, refl)))
          ((settings_code_zero (apply_all defaults settings) w).1 quad),
  )
    where
      given :
          (o : Option Settings)
          → exit_code (run_with ssl fs o w) ≡ 0
          → read_args defaults args ≡ o
          → (settings : List Setting) × (args ≡ as_args settings)
            × IsDottedQuad (apply_all defaults settings).ip
      given none h e = cc (h, refused_code w)
      given (some s) h e =
          let (settings, same, final) = (read_args_iff defaults s args).0 e in
          (settings, same, subst (λ x. IsDottedQuad x.ip) final ((settings_code_zero s w).0 h))
