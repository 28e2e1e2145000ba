-- ===== src/FileStore/Memory.antt =====
-- A file system in memory, in which renames and copies of files succeed or always fail.
use openbrowser.Prelude.Bytes.{Bytes}
use openbrowser.Prelude.Dict
use openbrowser.Prelude.{
  String, ◌≡◌, refl, sym, ◌∙◌, ap, Bool, true, false, Option, none, some, List, arith, ◌==◌,
  string_eq,
}
use openbrowser.FileStore.{FileSystem, written, read_file_to_string}
use openbrowser.FileStore.Laws.{IsPosix}

abbrev pub Files : Type 0
Files = List (String × Bytes)

abbrev is_there : Option Bytes → Bool
is_there none = false
is_there (some c) = true

-- The file at `q` becomes a copy of what was read.
abbrev put : Files → String → Option Bytes → Files × Bool
put files q none = (files, false)
put files q (some c) = (Dict.insert q c files, true)

abbrev move : Files → String → String → Option Bytes → Files × Bool
move files p q none = (files, false)
move files p q (some c) = (Dict.insert q c (Dict.remove p files), true)

abbrev put_if : Bool → Files → String → Option Bytes → Files × Bool
put_if true files q o = put files q o
put_if false files q o = (files, false)

abbrev move_if : Bool → Files → String → String → Option Bytes → Files × Bool
move_if true files p q o = move files p q o
move_if false files p q o = (files, false)

abbrev pub memory : Bool → Bool → FileSystem Files
memory renames copies = record {
  parent_path = λ p. "";
  create_directories = λ files p. (files, true);
  exists = λ files p. is_there (Dict.lookup p files);
  is_regular_file = λ files p. is_there (Dict.lookup p files);
  read = λ files p. Dict.lookup p files;
  write = λ files p c. (Dict.insert p c files, written);
  remove = λ files p. (Dict.remove p files, true);
  copy_file = λ files p q. put_if copies files q (Dict.lookup p files);
  rename = λ files p q. move_if renames files p q (Dict.lookup p files);
}

module _ (renames copies : Bool) where
  at-lookup :
      (files : Files) (p : String)
      → read_file_to_string (memory renames copies) files p ≡ Dict.lookup p files
  unfolding read_file_to_string
  at-lookup files p = ground arith

  module _ (files : Files) (p q r : String) where
    put-others :
        (b : Bool) (o : Option Bytes)
        → (r == q) ≡ false
        → Dict.lookup r (put_if b files q o).0 ≡ Dict.lookup r files
    put-others false o n = refl
    put-others true none n = refl
    put-others true (some c) n = ground (arith, Dict.lookup-insert q r c files)

    put-made :
        (b : Bool) (o : Option Bytes)
        → (put_if b files q o).1 ≡ true
        → Dict.lookup q (put_if b files q o).0 ≡ o
    put-made false o n = ground arith
    put-made true none n = ground arith
    put-made true (some c) n = ground (arith, Dict.lookup-insert q q c files)

    move-others :
        (b : Bool) (o : Option Bytes)
        → (r == p) ≡ false
        → (r == q) ≡ false
        → Dict.lookup r (move_if b files p q o).0 ≡ Dict.lookup r files
    move-others false o n m = refl
    move-others true none n m = refl
    move-others true (some c) n m =
        ground (arith, Dict.lookup-insert q r c (Dict.remove p files), Dict.lookup-remove p r files)

    move-made :
        (b : Bool) (o : Option Bytes)
        → (move_if b files p q o).1 ≡ true
        → Dict.lookup q (move_if b files p q o).0 ≡ o
    move-made false o n = ground arith
    move-made true none n = ground arith
    move-made true (some c) n = ground (arith, Dict.lookup-insert q q c (Dict.remove p files))

    move-failed :
        (b : Bool) (o : Option Bytes)
        → (move_if b files p q o).1 ≡ false
        → (move_if b files p q o).0 ≡ files
    move-failed false o n = refl
    move-failed true none n = refl
    move-failed true (some c) n = ground arith

  -- The laws, in terms of the look-up.
  pub memory-IsPosix : IsPosix (memory renames copies)
  memory-IsPosix = record {
    create_directories = λ files d p. refl;
    write = λ files p c e.
        at-lookup (Dict.insert p c files) p ∙ ground (arith, Dict.lookup-insert p p c files);
    write_others = λ files p c q n.
        at-lookup (Dict.insert p c files) q
        ∙ ground (arith, Dict.lookup-insert p q c files, at-lookup files q);
    remove_others = λ files p q n.
        at-lookup (Dict.remove p files) q
        ∙ ground (arith, Dict.lookup-remove p q files, at-lookup files q);
    copy_file = λ files p q e.
        at-lookup _ q
        ∙ put-made files q q q copies (Dict.lookup p files) e
        ∙ sym (at-lookup files p);
    copy_others = λ files p q r n.
        at-lookup _ r
        ∙ put-others files q q r copies (Dict.lookup p files) n
        ∙ sym (at-lookup files r);
    rename = λ files p q e.
        at-lookup _ q
        ∙ move-made files p q q renames (Dict.lookup p files) e
        ∙ sym (at-lookup files p);
    rename_others = λ files p q r n m.
        at-lookup _ r
        ∙ move-others files p q r renames (Dict.lookup p files) n m
        ∙ sym (at-lookup files r);
    rename_failed = λ files p q r e.
        ap (λ f. read_file_to_string (memory renames copies) f r)
          (move-failed files p q r renames (Dict.lookup p files) e);
  }

renamed :
    (files : Files) (p q : String) (c : Bytes) (o : Option Bytes)
    → o ≡ some c
    → (move files p q o).1 ≡ true
renamed files p q c o e = ground arith

pub memory-renames :
    (copies : Bool) (files : Files) (p q : String) (c : Bytes)
    → read_file_to_string (memory true copies) files p ≡ some c
    → ((memory true copies).rename files p q).1 ≡ true
memory-renames copies files p q c e =
    renamed files p q c (Dict.lookup p files) (sym (at-lookup true copies files p) ∙ e)
