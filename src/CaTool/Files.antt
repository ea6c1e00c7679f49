-- ===== src/CaTool/Files.antt =====
-- `writeDevCaFiles`: what stands in the files behind it.
use chat_hub.Prelude.{
  codes, ◌≡◌, ◌≢◌, ◌⊎◌, inl, inr, refl, sym, ap, subst, ◌∙◌, [], ◌++◌, Bool, true, false, Bytes,
  Option, none, some,
}
use chat_hub.DevCa.{IssueDevCa}
use chat_hub.CaTool.Arguments.{same_arg_apart}
use chat_hub.CaTool.{
  same_arg, FileSystem, write_file, write_opened, close_written, and_then, write_dev_ca_files,
}

-- One of the four names.
abbrev pub IsPemName : Bytes → Type 0
IsPemName name =
    (name ≡ codes "trusted-ca.pem")
    ⊎ ((name ≡ codes "ca-key.pem")
        ⊎ ((name ≡ codes "server-cert.pem") ⊎ (name ≡ codes "server-key.pem")))

-- What the standard library documents of files: `file dir name` is the file that this name has in
-- this directory, where different texts can name one file; `read w f` is what stands in a file; and
-- `target s` and `held s` are the file behind a stream and what has been written to it since it was
-- opened. A call changes at most the file that its stream is for. The four names of a directory are
-- those of four files: no link makes two of them one.
pub record Documented {World Stream : Type 0} (fs : FileSystem World Stream) : Type 1 where
  pub File : Type 0
  pub file : Bytes → Bytes → File
  pub read : World → File → Option Bytes
  pub target : Stream → File
  pub held : Stream → Bytes
  pub names_apart : (dir a b : Bytes) → IsPemName a → IsPemName b → a ≢ b → file dir a ≢ file dir b
  pub directories_law :
      (dir : Bytes) (f : File) (w : World) → read ((fs.create_directories dir w).1) f ≡ read w f
  pub open_law :
      (dir name : Bytes) (w v : World) (s : Stream)
      → fs.open_truncated dir name w ≡ (some s, v)
      → (target s ≡ file dir name) × (held s ≡ [])
  pub open_others :
      (dir name : Bytes) (f : File) (w : World)
      → f ≢ file dir name
      → read ((fs.open_truncated dir name w).1) f ≡ read w f
  pub write_law :
      (s : Stream) (text : Bytes) (w : World)
      → (target ((fs.write s text w).0) ≡ target s)
        × (held ((fs.write s text w).0) ≡ held s ++ text)
  pub write_others :
      (s : Stream) (text : Bytes) (f : File) (w : World)
      → f ≢ target s
      → read ((fs.write s text w).1) f ≡ read w f
  pub close_law :
      (s : Stream) (w : World)
      → (fs.close s w).0 ≡ true
      → read ((fs.close s w).1) (target s) ≡ some (held s)
  pub close_others :
      (s : Stream) (f : File) (w : World) → f ≢ target s → read ((fs.close s w).1) f ≡ read w f

module _ {World Stream : Type 0} {fs : FileSystem World Stream} (doc : Documented fs) where
  opened_lem :
      (dir name text : Bytes) (o : Option Stream × World) (v : World)
      → ((s : Stream) → o.0 ≡ some s → (doc.target s ≡ doc.file dir name) × (doc.held s ≡ []))
      → write_opened fs text o ≡ (true, v)
      → doc.read v (doc.file dir name) ≡ some text
  unfolding write_opened close_written
  opened_lem dir name text (none, w) v opens h = cc (ap (λ r. r.0) h)
  opened_lem dir name text (some s, w) v opens h =
      let (file, none_held) = opens s refl in
      let (same, held) = doc.write_law s text w in
      let s' = (fs.write s text w).0 in
      let w' = (fs.write s text w).1 in
      let closed = doc.close_law s' w' (ap (λ r. r.0) h) in
      let at : doc.target s' ≡ doc.file dir name = same ∙ file in
      let all : doc.held s' ≡ text = held ∙ ap (λ x. x ++ text) none_held in
      subst (λ u. doc.read u (doc.file dir name) ≡ some text) (ap (λ r. r.1) h)
        (subst (λ f. doc.read ((fs.close s' w').1) f ≡ some text) at (closed ∙ ap some all))

  pub write_file_lem :
      (dir name text : Bytes) (w v : World)
      → write_file fs dir name text w ≡ (true, v)
      → doc.read v (doc.file dir name) ≡ some text
  unfolding write_file
  write_file_lem dir name text w v h =
      opened_lem dir name text _ v
        (λ s e. doc.open_law dir name w _ s (λ i. (e i, (fs.open_truncated dir name w).1))) h

  opened_others :
      (dir name text : Bytes) (f : doc.File) (o : Option Stream × World)
      → ((s : Stream) → o.0 ≡ some s → doc.target s ≡ doc.file dir name)
      → f ≢ doc.file dir name
      → doc.read ((write_opened fs text o).1) f ≡ doc.read o.1 f
  unfolding write_opened close_written
  opened_others dir name text f (none, w) opens other = refl
  opened_others dir name text f (some s, w) opens other =
      let file = opens s refl in
      let same = (doc.write_law s text w).0 in
      doc.close_others _ f _ (λ e. other (e ∙ same ∙ file))
      ∙ doc.write_others s text f w (λ e. other (e ∙ file))

  pub write_file_others :
      (dir name text : Bytes) (f : doc.File) (w : World)
      → f ≢ doc.file dir name
      → doc.read ((write_file fs dir name text w).1) f ≡ doc.read w f
  unfolding write_file
  write_file_others dir name text f w other =
      opened_others dir name text f _
        (λ s e. (doc.open_law dir name w _ s (λ i. (e i, (fs.open_truncated dir name w).1))).0)
        other
      ∙ doc.open_others dir name f w other

module _ {World Stream : Type 0} {fs : FileSystem World Stream} (doc : Documented fs) where
  -- One of the four files of a directory.
  abbrev pub IsFileOf : Bytes → doc.File → Type 0
  IsFileOf dir f =
      (f ≡ doc.file dir (codes "trusted-ca.pem"))
      ⊎ ((f ≡ doc.file dir (codes "ca-key.pem"))
          ⊎ ((f ≡ doc.file dir (codes "server-cert.pem"))
              ⊎ (f ≡ doc.file dir (codes "server-key.pem"))))

  and_then_inv :
      (r : Bool × World) (next : World → Bool × World) (v : World)
      → and_then fs r next ≡ (true, v)
      → (r ≡ (true, r.1)) × (next r.1 ≡ (true, v))
  unfolding and_then
  and_then_inv (true, w) next v h = (refl, h)
  and_then_inv (false, w) next v h = cc (ap (λ r. r.0) h)

  -- A file that neither step changes.
  and_then_others :
      (r : Bool × World) (next : World → Bool × World) (f : doc.File) (found : Option Bytes)
      → doc.read r.1 f ≡ found
      → ((w : World) → doc.read ((next w).1) f ≡ doc.read w f)
      → doc.read ((and_then fs r next).1) f ≡ found
  unfolding and_then
  and_then_others (true, w) next f found same keeps = keeps w ∙ same
  and_then_others (false, w) next f found same keeps = same

  -- A file that the next one leaves as it is.
  kept :
      (dir name text n : Bytes) (w v : World) (found : Option Bytes)
      → write_file fs dir name text w ≡ (true, v)
      → IsPemName n
      → IsPemName name
      → same_arg n name ≡ false
      → doc.read w (doc.file dir n) ≡ found
      → doc.read v (doc.file dir n) ≡ found
  kept dir name text n w v found h of_n of_name other held =
      ap (λ r. doc.read r.1 (doc.file dir n)) (sym h)
      ∙ write_file_others doc dir name text (doc.file dir n) w
          (doc.names_apart dir n name of_n of_name (same_arg_apart n name other))
      ∙ held

  abbrev pub HoldsTexts : World → Bytes → IssueDevCa → Type 0
  HoldsTexts v dir issued =
      (doc.read v (doc.file dir (codes "trusted-ca.pem")) ≡ some issued.ca_cert_pem)
      × (doc.read v (doc.file dir (codes "ca-key.pem")) ≡ some issued.ca_key_pem)
      × (doc.read v (doc.file dir (codes "server-cert.pem")) ≡ some issued.server_cert_pem)
      × (doc.read v (doc.file dir (codes "server-key.pem")) ≡ some issued.server_key_pem)

  pub write_dev_ca_files-HoldsTexts :
      (issued : IssueDevCa) (dir : Bytes) (w v : World)
      → write_dev_ca_files fs issued dir w ≡ (true, v)
      → HoldsTexts v dir issued
  unfolding write_dev_ca_files same_arg
  write_dev_ca_files-HoldsTexts issued dir w v h =
      let (e0, h0) = and_then_inv _ _ v h in
      let (e1, h1) = and_then_inv _ _ v h0 in
      let (e2, h2) = and_then_inv _ _ v h1 in
      let (e3, h3) = and_then_inv _ _ v h2 in
      let root = write_file_lem doc dir _ _ _ _ e1 in
      let root_key = write_file_lem doc dir _ _ _ _ e2 in
      let server = write_file_lem doc dir _ _ _ _ e3 in
      let first : IsPemName (codes "trusted-ca.pem") = inl refl in
      let second : IsPemName (codes "ca-key.pem") = inr (inl refl) in
      let third : IsPemName (codes "server-cert.pem") = inr (inr (inl refl)) in
      let fourth : IsPemName (codes "server-key.pem") = inr (inr (inr refl)) in
      (
        kept dir _ _ _ _ v _ h3 first fourth refl (
            kept dir _ _ _ _ _ _ e3 first third refl
              (kept dir _ _ _ _ _ _ e2 first second refl root)),
        kept dir _ _ _ _ v _ h3 second fourth refl
            (kept dir _ _ _ _ _ _ e3 second third refl root_key),
        kept dir _ _ _ _ v _ h3 third fourth refl server,
        write_file_lem doc dir _ _ _ v h3,
      )

  others_kept :
      (issued : IssueDevCa) (dir : Bytes) (f : doc.File) (w : World)
      → ¬ IsFileOf dir f
      → doc.read ((write_dev_ca_files fs issued dir w).1) f ≡ doc.read w f
  unfolding write_dev_ca_files
  others_kept issued dir f w other = and_then_others _ _ f _ (doc.directories_law dir f w) (λ w.
      and_then_others _ _ f _ (write_file_others doc dir _ _ f w (λ e. other (inl e))) (λ w.
        and_then_others _ _ f _ (write_file_others doc dir _ _ f w (λ e. other (inr (inl e)))) (λ w.
          and_then_others _ _ f _
            (write_file_others doc dir _ _ f w (λ e. other (inr (inr (inl e)))))
            (λ w. write_file_others doc dir _ _ f w (λ e. other (inr (inr (inr e))))))))

  -- Whatever `writeDevCaFiles` returns, every file but the four that its names have in its directory
  -- is as it was, under whatever name. That holds if a call changes the file of its stream only.
  pub write_dev_ca_files_others :
      (issued : IssueDevCa) (dir : Bytes) (f : doc.File) (w v : World) (ok : Bool)
      → write_dev_ca_files fs issued dir w ≡ (ok, v)
      → ¬ IsFileOf dir f
      → doc.read v f ≡ doc.read w f
  write_dev_ca_files_others issued dir f w v ok h other =
      ap (λ r. doc.read r.1 f) (sym h) ∙ others_kept issued dir f w other
