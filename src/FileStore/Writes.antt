-- ===== src/FileStore/Writes.antt =====
-- What is on the disk after a write, and what is read back.
use openbrowser.Prelude.Bytes.{Bytes}
use openbrowser.Prelude.{
  String, ◌≡◌, refl, sym, ◌∙◌, ap, Bool, true, false, ◌&&◌, Option, none, some, arith, ◌==◌,
  string_eq, is_empty, if◌then◌else◌, Bool-cases, inl, inr,
}
use openbrowser.FileStore.{
  FileSystem, Written, not_open, bad, written, AtomicWriteResult, primary, tmp_path, bak_path,
  failed, succeeded, read_file_to_string, make_parent, make_backup, replace_by_copy, replace,
  after_write, atomic_write_file, accepted, read_from, read_file_with_backup_recovery,
}
use openbrowser.FileStore.Laws.{IsPosix, tmp-target, bak-target, target-bak, bak-tmp, tmp-bak}

module _ {S : Type 0} (fs : FileSystem S) (posix : IsPosix fs) (target : String)
    (keep_backup : Bool) where
  abbrev at : S → String → Option Bytes
  at = read_file_to_string fs

  abbrev tmp : String
  tmp = tmp_path target

  abbrev bak : String
  bak = bak_path target

  parent-at : (s : S) (p : String) → at (make_parent fs s target).0 p ≡ at s p
  parent-at s p = elim (Bool-cases (is_empty (fs.parent_path target))) [
    | inl e ↦ rw e refl
    | inr e ↦ rw e (posix.create_directories s (fs.parent_path target) p)
  ]

  -- A backup leaves the other paths alone, and is what the target was.
  backup-at :
      (s : S) (p : String)
      → (p == bak) ≡ false
      → at (make_backup fs s target keep_backup).0 p ≡ at s p
  backup-at s p n = elim (Bool-cases (fs.exists s target && keep_backup)) [
    | inl e ↦ rw e (posix.copy_others s target bak p n)
    | inr e ↦ rw e refl
  ]

  backup-made :
      (s : S)
      → (make_backup fs s target keep_backup).1 ≡ true
      → at (make_backup fs s target keep_backup).0 bak ≡ at s target
  backup-made s made = elim (Bool-cases (fs.exists s target && keep_backup)) [
    | inl e ↦ rw e (posix.copy_file s target bak (ground arith))
    | inr e ↦ absurd (ground arith)
  ]

  -- What an outcome says of the backup, whether or not the target could be replaced.
  abbrev Backed : S → S × AtomicWriteResult → Type 0
  Backed s (s', r) = r.backup_created ≡ true → at s' bak ≡ at s target

  replace_by_copy-bak : (s : S) (b : Bool) → at (replace_by_copy fs s target b).0 bak ≡ at s bak
  unfolding replace_by_copy
  replace_by_copy-bak s b =
      posix.remove_others _ tmp bak (bak-tmp target)
      ∙ posix.copy_others s tmp target bak (target-bak target)

  replace_by_copy-flag : (s : S) (b : Bool) → (replace_by_copy fs s target b).1.backup_created ≡ b
  unfolding replace_by_copy
  replace_by_copy-flag s b = ground arith

  replace_by_copy-success :
      (s : S) (b : Bool)
      → (fs.remove (fs.copy_file s tmp target).0 tmp).1 ≡ true
      → (replace_by_copy fs s target b).1.success ≡ true
  unfolding replace_by_copy
  replace_by_copy-success s b e = rw (replace_by_copy, e) refl

  replace-renamed :
      (s : S) (b : Bool)
      → (fs.rename s tmp target).1 ≡ true
      → replace fs (s, b) target ≡ ((fs.rename s tmp target).0, succeeded b)
  unfolding replace
  replace-renamed s b e = rw (replace, e) refl

  replace-copied :
      (s : S) (b : Bool)
      → (fs.rename s tmp target).1 ≡ false
      → replace fs (s, b) target ≡ replace_by_copy fs (fs.rename s tmp target).0 target b
  unfolding replace
  replace-copied s b e = rw (replace, e) refl

  replace-bak :
      (s : S) (b : Bool)
      → (at (replace fs (s, b) target).0 bak ≡ at s bak)
        × ((replace fs (s, b) target).1.backup_created ≡ b)
  replace-bak s b = elim (Bool-cases (fs.rename s tmp target).1) [
    | inl e ↦
        rw (replace-renamed s b e)
          (posix.rename_others s tmp target bak (bak-tmp target) (target-bak target), refl)
    | inr e ↦
        let s' = (fs.rename s tmp target).0 in
        rw (replace-copied s b e) (
          replace_by_copy-bak s' b ∙ posix.rename_failed s tmp target bak e,
          replace_by_copy-flag s' b,
        )
  ]

  bad-bak : (s : S) → at (fs.remove s tmp).0 bak ≡ at s bak
  bad-bak s = posix.remove_others s tmp bak (bak-tmp target)

  after_write-Backed : (s : S) (w : Written) → Backed s (after_write fs (s, w) target keep_backup)
  unfolding after_write
  after_write-Backed s not_open created = absurd (ground arith)
  after_write-Backed s bad created = absurd (ground arith)
  after_write-Backed s written created =
      let (s', made) = make_backup fs s target keep_backup in
      let (kept, flag) = replace-bak s' made in kept ∙ backup-made s (sym flag ∙ created)

  written-others :
      (s : S) (content : Bytes) (p : String)
      → (p == tmp) ≡ false
      → at (fs.write (make_parent fs s target).0 tmp content).0 p ≡ at s p
  written-others s content p n =
      posix.write_others (make_parent fs s target).0 tmp content p n ∙ parent-at s p

  made-write :
      (s : S) (content : Bytes)
      → is_empty target ≡ false
      → (make_parent fs s target).1 ≡ true
      → atomic_write_file fs s target content keep_backup
        ≡ after_write fs (fs.write (make_parent fs s target).0 tmp content) target keep_backup
  unfolding atomic_write_file
  made-write s content e m = rw (atomic_write_file, e, m) refl

  not_made :
      (s : S) (content : Bytes)
      → is_empty target ≡ false
      → (make_parent fs s target).1 ≡ false
      → atomic_write_file fs s target content keep_backup
        ≡ ((make_parent fs s target).0, failed false)
  unfolding atomic_write_file
  not_made s content e m = rw (atomic_write_file, e, m) refl

  -- Where a write reports that it made a backup, the backup is what was in the target before, whatever
  -- fails after it, and whether or not the write succeeds.
  pub atomic_write_file-backup :
      (s : S) (content : Bytes)
      → is_empty target ≡ false
      → Backed s (atomic_write_file fs s target content keep_backup)
  atomic_write_file-backup s content e = elim (Bool-cases (make_parent fs s target).1) [
    | inl m ↦
        let (s', w) = fs.write (make_parent fs s target).0 tmp content in
        rw (made-write s content e m) λ created.
          after_write-Backed s' w created ∙ written-others s content target (tmp-target target)
    | inr m ↦ rw (not_made s content e m) λ created. absurd (ground arith)
  ]

  -- What an outcome says of the target: the new content, or what was there.
  abbrev AllOrNothing : S → Bytes → S × AtomicWriteResult → Type 0
  AllOrNothing s content (s', r) = at s' target ≡ (if r.success then some content else at s target)

  module _
      (renames : (s : S) (p q : String) (c : Bytes)
        → at s p ≡ some c
        → (fs.rename s p q).1 ≡ true) where
    replace-content :
        (s : S) (content : Bytes) (b : Bool)
        → at s tmp ≡ some content
        → AllOrNothing s content (replace fs (s, b) target)
    replace-content s content b e =
        rw (replace-renamed s b (renames s tmp target content e))
          (posix.rename s tmp target (renames s tmp target content e) ∙ e)

    after_write-AllOrNothing :
        (s : S) (w : Written) (content : Bytes)
        → (w ≡ written → at s tmp ≡ some content)
        → AllOrNothing s content (after_write fs (s, w) target keep_backup)
    unfolding after_write
    after_write-AllOrNothing s not_open content e = refl
    after_write-AllOrNothing s bad content e = posix.remove_others s tmp target (tmp-target target)
    after_write-AllOrNothing s written content e =
        let (s', made) = make_backup fs s target keep_backup in
        replace-content s' content made (backup-at s tmp (tmp-bak target) ∙ e refl)
        ∙ ap (λ o. if (replace fs (s', made) target).1.success then some content else o)
            (backup-at s target (bak-target target))

    -- Where renames of files that can be read do not fail, a write is all or nothing, whatever else fails: the target holds the
    -- new content if the write succeeds, and else what it held before.
    pub atomic_write_file-content :
        (s : S) (content : Bytes)
        → is_empty target ≡ false
        → AllOrNothing s content (atomic_write_file fs s target content keep_backup)
    atomic_write_file-content s content e = elim (Bool-cases (make_parent fs s target).1) [
      | inl m ↦
          let start = (make_parent fs s target).0 in
          let (s', w) = fs.write start tmp content in
          rw (made-write s content e m) (
            after_write-AllOrNothing s' w content (posix.write start tmp content)
            ∙ ap
                (λ o.
                  if (after_write fs (s', w) target keep_backup).1.success then some content else o)
                (written-others s content target (tmp-target target)))
      | inr m ↦ rw (not_made s content e m) (parent-at s target)
    ]

  read_primary :
      (s : S) (validator : Bytes → Bool) (content : Bytes)
      → is_empty target ≡ false
      → at s target ≡ some content
      → validator content ≡ true
      → read_file_with_backup_recovery fs s target validator ≡ read_from primary content
  unfolding read_file_with_backup_recovery
  read_primary s validator content e h v = rw (read_file_with_backup_recovery, e, h, v) refl

  read_backup :
      (s : S) (validator : Bytes → Bool) (content : Bytes)
      → is_empty target ≡ false
      → accepted validator (at s target) ≡ none
      → at s bak ≡ some content
      → validator content ≡ true
      → (read_file_with_backup_recovery fs s target validator).content ≡ content
  unfolding read_file_with_backup_recovery
  read_backup s validator content e gone h v =
      rw (read_file_with_backup_recovery, e, gone, h, v) refl

  -- A content that is written with success to a path that is not empty, where no rename of a file
  -- that can be read fails, is read back as the primary file, if the validator accepts it.
  pub read-atomic_write_file :
      (s : S) (content : Bytes) (validator : Bytes → Bool)
      → ((s' : S) (p q : String) (c : Bytes) → at s' p ≡ some c → (fs.rename s' p q).1 ≡ true)
      → is_empty target ≡ false
      → (atomic_write_file fs s target content keep_backup).1.success ≡ true
      → validator content ≡ true
      → read_file_with_backup_recovery fs
          (atomic_write_file fs s target content keep_backup).0
          target
          validator
        ≡ read_from primary content
  read-atomic_write_file s content validator renames e done v =
      read_primary _ validator content e
        (atomic_write_file-content renames s content e
          ∙ ap (λ b. if b then some content else at s target) done)
        v

  -- A file that was valid is not lost, once a backup of it is made: if after the write, whether with
  -- success or not, the validator accepts nothing that is in the target, the old content is read from
  -- the backup.
  pub recover-atomic_write_file :
      (s : S) (content old : Bytes) (validator : Bytes → Bool)
      → is_empty target ≡ false
      → at s target ≡ some old
      → validator old ≡ true
      → (atomic_write_file fs s target content keep_backup).1.backup_created ≡ true
      → accepted validator (at (atomic_write_file fs s target content keep_backup).0 target) ≡ none
      → (read_file_with_backup_recovery fs
          (atomic_write_file fs s target content keep_backup).0
          target
          validator).content
        ≡ old
  recover-atomic_write_file s content old validator e was v created gone =
      read_backup _ validator old e gone (atomic_write_file-backup s content e created ∙ was) v

  -- Where renames and copies fail, and leave the target alone, but the removal of the temporary file
  -- succeeds, the write of a file reports success, and the target is as it was.
  pub atomic_write_file-unwritten :
      (s : S) (content : Bytes)
      → is_empty target ≡ false
      → ((s' : S) (p q : String) → (fs.rename s' p q).1 ≡ false)
      → ((s' : S) (p q : String) → at (fs.copy_file s' p q).0 target ≡ at s' target)
      → ((s' : S) (p : String) → (fs.remove s' p).1 ≡ true)
      → (make_parent fs s target).1 ≡ true
      → (fs.write (make_parent fs s target).0 tmp content).1 ≡ written
      → let (s', r) = atomic_write_file fs s target content keep_backup in
        (r.success ≡ true) × (at s' target ≡ at s target)
  unfolding after_write
  atomic_write_file-unwritten s content e renames copies removes m w =
      let (s', w') = fs.write (make_parent fs s target).0 tmp content in
      let (b, made) = make_backup fs s' target keep_backup in
      let stays = written-others s content target (tmp-target target) in
      let kept =
        posix.rename_failed b tmp target target (renames b tmp target)
        ∙ backup-at s' target (bak-target target)
        ∙ stays in
      let by_copy = (fs.rename b tmp target).0 in
      rw (made-write s content e m, w, replace-copied b made (renames b tmp target))
        (
          replace_by_copy-success by_copy made (removes _ tmp),
          (unfold replace_by_copy in
                posix.remove_others _ tmp target (tmp-target target) ∙ copies by_copy tmp target)
              ∙ kept,
        )
