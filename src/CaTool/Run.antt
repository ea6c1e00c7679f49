-- ===== src/CaTool/Run.antt =====
-- `main` of the development CA, from the arguments to the files.
use chat_hub.Prelude.{
  codes, ◌≡◌, ◌≢◌, ◌↔◌, inl, inr, refl, ap, subst, List, Bool, true, false, Bytes, Option, none,
  some, Option-cases,
}
use chat_hub.Pki.Ipv4.{IsDottedQuad}
use chat_hub.DevCa.{OpenSsl, IssueDevCa, issue_dev_ca}
use chat_hub.DevCa.Contents
use chat_hub.DevCa.Issued.{IsIssued, issue_dev_ca-IsIssued}
use chat_hub.CaTool.{
  FileSystem, Settings, read_args, write_dev_ca_files, done, exit_code, written_exit, write_issued,
  run_with, dev_ca_main,
}
use chat_hub.CaTool.Arguments.{Setting, as_args, apply_all, read_args_iff}
use chat_hub.CaTool.Files
use chat_hub.CaTool.Files.{HoldsTexts, write_dev_ca_files-HoldsTexts}

abbrev pub defaults : Settings
defaults = record { ip = codes "127.0.0.1"; out = codes "run-data/pki" }

module _ {World Key X509 Extension Stream : Type 0} (ssl : OpenSsl World Key X509 Extension)
    (fs : FileSystem World Stream) where
  written_exit_inv :
      (issued out : IssueDevCa) (r : Bool × World) (v : World)
      → written_exit ssl fs issued r ≡ done out v
      → (issued ≡ out) × (r ≡ (true, v))
  unfolding written_exit
  written_exit_inv issued out (true, w) v h = (cc, (ap (λ u. (true, u)) cc))
  written_exit_inv issued out (false, w) v h = cc

  write_issued_inv :
      (dir : Bytes) (o : Option (IssueDevCa × World)) (out : IssueDevCa) (v : World)
      → write_issued ssl fs dir o ≡ done out v
      → (w : World) × (o ≡ some (out, w)) × (write_dev_ca_files fs out dir w ≡ (true, v))
  unfolding write_issued
  write_issued_inv dir none out v h = cc
  write_issued_inv dir (some (issued, w)) out v h =
      let (same, files) = written_exit_inv issued out _ v h in
      (
        w,
        ap (λ x. some (x, w)) same,
        subst (λ x. write_dev_ca_files fs x dir w ≡ (true, v)) same files,
      )

  run_with_inv :
      (o : Option Settings) (w v : World) (out : IssueDevCa)
      → run_with ssl fs o w ≡ done out v
      → (s : Settings) × (o ≡ some s)
        × (write_issued ssl fs s.out (issue_dev_ca ssl s.ip w) ≡ done out v)
  unfolding run_with
  run_with_inv none w v out h = cc
  run_with_inv (some s) w v out h = (s, refl, h)

  -- Where the command ends with code 0, its arguments were a list of options with their values,
  -- the address that they give, or the default, is a dotted quad, and the directory that they give
  -- holds the four files with the texts of certificates that the tool's policy asks for. That
  -- holds if OpenSSL and the file system do what they document.
  pub dev_ca_main_done :
      (doc : Contents.Documented ssl) (files : Files.Documented fs) (args : List Bytes)
      (w v : World) (out : IssueDevCa)
      → dev_ca_main ssl fs args w ≡ done out v
      → (settings : List Setting) × (args ≡ as_args settings)
        × IsDottedQuad (apply_all defaults settings).ip
        × IsIssued doc (apply_all defaults settings).ip out
        × HoldsTexts files v (apply_all defaults settings).out out
  unfolding dev_ca_main
  dev_ca_main_done doc files args w v out h =
      let (s, read, ran) = run_with_inv _ w v out h in
      let (u, issued, wrote) = write_issued_inv s.out _ out v ran in
      let (settings, same, final) = (read_args_iff defaults s args).0 read in
      let (quad, policy) = issue_dev_ca-IsIssued doc s.ip out w u issued in
      let texts = write_dev_ca_files-HoldsTexts files out s.out u v wrote in
      (
        settings,
        same,
        subst (λ x. IsDottedQuad x.ip) final quad,
        subst (λ x. IsIssued doc x.ip out) final policy,
        subst (λ x. HoldsTexts files v x.out out) final texts,
      )

  written_code :
      (issued : IssueDevCa) (r : Bool × World) → exit_code (written_exit ssl fs issued r) ≢ 2
  unfolding written_exit exit_code
  written_code issued (true, v) h = cc h
  written_code issued (false, v) h = cc h

  issued_code :
      (dir : Bytes) (o : Option (IssueDevCa × World)) → exit_code (write_issued ssl fs dir o) ≢ 2
  unfolding write_issued exit_code
  issued_code dir none h = cc h
  issued_code dir (some (issued, w)) h = written_code issued _ h

  run_code : (o : Option Settings) (w : World) → (exit_code (run_with ssl fs o w) ≡ 2) ↔ (o ≡ none)
  unfolding run_with exit_code
  run_code none w = (λ h. refl, λ h. refl)
  run_code (some s) w = (λ h. absurd (issued_code s.out _ h), λ h. cc h)

  -- The command ends with code 2 exactly if its arguments are no list of `--ip` and `--out`, each
  -- with a value.
  pub dev_ca_main_usage_iff :
      (args : List Bytes) (w : World)
      → (exit_code (dev_ca_main ssl fs args w) ≡ 2)
        ↔ ¬ ((settings : List Setting) × (args ≡ as_args settings))
  unfolding dev_ca_main
  dev_ca_main_usage_iff args w = (
    λ h given. cc (
      (run_code _ w).0 h,
      (read_args_iff defaults (apply_all defaults given.0) args).1 (given.0, given.1, refl),
    ),
    λ refused. (run_code _ w).1 (elim (Option-cases (read_args defaults args)) [
      | inl none_read ↦ none_read
      | inr read ↦
          let (settings, same, _) = (read_args_iff defaults read.0 args).0 read.1 in
          absurd (refused (settings, same))
    ]),
  )
