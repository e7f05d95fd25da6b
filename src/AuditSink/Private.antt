-- ===== src/AuditSink/Private.antt =====
-- What src/audit_sink.rs has seen of the file system when it returns an audit file.
use agent_veil.AuditSink.{
  AuditSinkError, Metadata, Os, ErrorKind, failing, refuse, is_private, is_real_directory,
  validate_private_directory, create_private_directory, looked_up, open_private, open_sink,
  ensure_private_directory, required, or_current, check_existing, created,
}
use agent_veil.Prelude.{
  ◌%◌, ◌≡◌, refl, Bool, true, false, ok, err, Run, arith, subst, sym, ◌∙◌, Yields, Yields-bind,
  Yields-ok, Yields-err, Yields-imp, Yields-itself,
}

pub failing-Yields :
    {S A : Type 0} (e : AuditSinkError) (r : Run ErrorKind S A)
    → Yields (λ a s. r ≡ (ok a, s)) (failing e r)
unfolding failing
failing-Yields e (ok b, t) = Yields-ok b t refl
failing-Yields e (err k, t) = Yields-err e t

pub refuse-Yields :
    {S : Type 0} (t : Bool) (e : AuditSinkError) (s : S)
    → Yields (λ u s'. (t ≡ false) × (s ≡ s')) (refuse t e s)
unfolding refuse
refuse-Yields true e s = Yields-err e s
refuse-Yields false e s = Yields-ok tt s (refl, refl)

module _ {P F S : Type 0} (os : Os P F S) where
  -- The directory was seen to be no link, and to be open to its owner only, right before its
  -- canonical path was taken.
  pub record IsPrivateDirectory (directory : P) : Type 0 where
    pub path : P
    pub before : S
    pub between : S
    pub after : S
    pub metadata : Metadata
    pub looked : os.symlink_metadata path before ≡ (ok metadata, between)
    pub canonical : os.canonicalize path between ≡ (ok directory, after)
    pub no_link : metadata.is_symlink ≡ false
    pub directory_kind : metadata.is_dir ≡ true
    pub mode_private : metadata.mode % 64 ≡ 0

  -- The file was opened in such a directory and then seen to be a plain file with one name, open
  -- to its owner only; nothing was done to the file system since.
  pub record IsPrivateFile (file : F) (last : S) : Type 0 where
    pub directory : P
    pub name : P
    pub before : S
    pub opened : S
    pub metadata : Metadata
    pub parent : IsPrivateDirectory directory
    pub open_call : os.open_append (os.join directory name) before ≡ (ok file, opened)
    pub looked : os.file_metadata file opened ≡ (ok metadata, last)
    pub file_kind : metadata.is_file ≡ true
    pub one_name : metadata.nlink ≡ 1
    pub mode_private : metadata.mode % 64 ≡ 0

  abbrev YieldsDirectory : Run AuditSinkError S P → Type 0
  YieldsDirectory r = Yields (λ directory s. IsPrivateDirectory directory) r

  validate-IsPrivateDirectory :
      (path : P) (s : S) → YieldsDirectory (validate_private_directory os path s)
  unfolding validate_private_directory is_private is_real_directory
  validate-IsPrivateDirectory path s =
      Yields-bind _ _ (failing-Yields _ (os.symlink_metadata path s)) λ m s₁ looked.
        Yields-bind _ _ (refuse-Yields _ _ s₁) λ u s₂ real.
          Yields-bind _ _ (refuse-Yields _ _ s₂) λ v s₃ closed.
            Yields-imp _ (failing-Yields _ (os.canonicalize path s₃)) λ directory last canonical.
              record {
                path = path;
                before = s;
                between = s₁;
                after = last;
                metadata = m;
                looked = looked;
                canonical =
                    subst (λ x. os.canonicalize path x ≡ (ok directory, last))
                      (sym (real.1 ∙ closed.1)) canonical;
                no_link = ground (arith, real.0);
                directory_kind = ground (arith, real.0);
                mode_private = ground (arith, closed.0);
              }

  create-IsPrivateDirectory :
      (path : P) (s : S) → YieldsDirectory (create_private_directory os path s)
  unfolding create_private_directory
  create-IsPrivateDirectory path s =
      Yields-bind _ _ (Yields-itself (required _ (os.parent path) s)) λ base s₁ _.
        Yields-bind _ _ (failing-Yields _ (os.canonicalize (or_current os base) s₁))
          λ canonical s₂ _.
            Yields-bind _ _ (Yields-itself (required _ (os.file_name path) s₂)) λ leaf s₃ _.
              Yields-bind _ _
                (Yields-itself (created os (os.create_directory (os.join canonical leaf) s₃)))
                λ u s₄ _. validate-IsPrivateDirectory (os.join canonical leaf) s₄

  looked_up-IsPrivateDirectory :
      (path : P) (r : Run ErrorKind S Metadata) → YieldsDirectory (looked_up os path r)
  unfolding looked_up
  looked_up-IsPrivateDirectory path (ok m, s) =
      Yields-bind _ _ (refuse-Yields _ _ s) λ u s₁ _. validate-IsPrivateDirectory path s₁
  looked_up-IsPrivateDirectory path (err ErrorKind.not_found, s) = create-IsPrivateDirectory path s
  looked_up-IsPrivateDirectory path (err ErrorKind.already_exists, s) = Yields-err _ s
  looked_up-IsPrivateDirectory path (err ErrorKind.other, s) = Yields-err _ s

  open_private-IsPrivateFile :
      (directory name : P) (s : S)
      → IsPrivateDirectory directory
      → Yields IsPrivateFile (open_private os (os.join directory name) s)
  unfolding open_private is_private
  open_private-IsPrivateFile directory name s secure =
      Yields-bind _ _ (failing-Yields _ (os.open_append (os.join directory name) s))
        λ file s₁ opened.
          Yields-bind _ _ (failing-Yields _ (os.file_metadata file s₁)) λ m s₂ looked.
            Yields-bind _ _ (refuse-Yields _ _ s₂) λ u s₃ plain. Yields-ok file s₃ (record {
              directory = directory;
              name = name;
              before = s;
              opened = s₁;
              metadata = m;
              parent = secure;
              open_call = opened;
              looked = subst (λ x. os.file_metadata file s₁ ≡ (ok m, x)) plain.1 looked;
              file_kind = ground (arith, plain.0);
              one_name = ground (arith, plain.0);
              mode_private = ground (arith, plain.0);
            })

  -- If the sink is opened, its file was opened in a directory that was seen to be no link and open
  -- to its owner only, and it was then seen to be a plain file with one name, open to its owner
  -- only, whatever other programs do between the calls.
  pub open_sink-IsPrivateFile :
      (path : P) (s : S) (file : F) (last : S)
      → open_sink os path s ≡ (ok file, last)
      → IsPrivateFile file last
  unfolding open_sink ensure_private_directory
  open_sink-IsPrivateFile path s file last h =
      let opened : Yields IsPrivateFile (open_sink os path s) =
        Yields-bind _ _ (Yields-itself (required _ (os.parent path) s)) λ parent s₁ _.
          Yields-bind _ _ (looked_up-IsPrivateDirectory _ _) λ directory s₂ secure.
            Yields-bind _ _ (Yields-itself (required _ (os.file_name path) s₂)) λ name s₃ _.
              Yields-bind _ _ (Yields-itself (check_existing os _))
                λ u s₄ _. open_private-IsPrivateFile directory name s₄ secure in
      opened.at file last h
