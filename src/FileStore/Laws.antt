-- ===== src/FileStore/Laws.antt =====
-- What the store relies on of a file system, and that its three paths differ.
use openbrowser.Prelude.Bytes.{Bytes, bytes}
use openbrowser.Prelude.Text.Decimal.{bytes-append, cancel}
use openbrowser.Prelude.{
  ℕ, ◌+◌, String, ◌≡◌, refl, sym, ◌∙◌, ap, true, false, some, ◌∷◌, ◌==◌, string_eq, string_discrete,
  arith, ◌<>◌, length, length-append,
}
use openbrowser.FileStore.{FileSystem, written, read_file_to_string, tmp_path, bak_path}

-- The documented effects of the operations on what is read at a path: an operation that succeeds has
-- its effect, and whether or not it does, it leaves the paths alone that it is not given. A `rename`
-- that fails leaves every path alone; a copy or a write that fails may leave anything at its target.
pub record IsPosix {S : Type 0} (fs : FileSystem S) : Type 0 where
  pub create_directories :
      (s : S) (d p : String)
      → read_file_to_string fs (fs.create_directories s d).0 p ≡ read_file_to_string fs s p
  pub write :
      (s : S) (p : String) (c : Bytes)
      → (fs.write s p c).1 ≡ written
      → read_file_to_string fs (fs.write s p c).0 p ≡ some c
  pub write_others :
      (s : S) (p : String) (c : Bytes) (q : String)
      → (q == p) ≡ false
      → read_file_to_string fs (fs.write s p c).0 q ≡ read_file_to_string fs s q
  pub remove_others :
      (s : S) (p q : String)
      → (q == p) ≡ false
      → read_file_to_string fs (fs.remove s p).0 q ≡ read_file_to_string fs s q
  pub copy_file :
      (s : S) (p q : String)
      → (fs.copy_file s p q).1 ≡ true
      → read_file_to_string fs (fs.copy_file s p q).0 q ≡ read_file_to_string fs s p
  pub copy_others :
      (s : S) (p q r : String)
      → (r == q) ≡ false
      → read_file_to_string fs (fs.copy_file s p q).0 r ≡ read_file_to_string fs s r
  pub rename :
      (s : S) (p q : String)
      → (fs.rename s p q).1 ≡ true
      → read_file_to_string fs (fs.rename s p q).0 q ≡ read_file_to_string fs s p
  pub rename_others :
      (s : S) (p q r : String)
      → (r == p) ≡ false
      → (r == q) ≡ false
      → read_file_to_string fs (fs.rename s p q).0 r ≡ read_file_to_string fs s r
  pub rename_failed :
      (s : S) (p q r : String)
      → (fs.rename s p q).1 ≡ false
      → read_file_to_string fs (fs.rename s p q).0 r ≡ read_file_to_string fs s r

differ : (s t : String) → ¬ (s ≡ t) → (s == t) ≡ false
differ s t n = elim (string_discrete s t) [ yes e ↦ absurd (n e) | no m ↦ ground arith ]

longer : (s t : String) (n : ℕ) → length (bytes t) ≡ n + 1 → ¬ (s ≡ s <> t)
longer s t n h e = omega (
  arith,
  h,
  ap (λ u. length (bytes u)) e,
  ap length (bytes-append s t),
  length-append (bytes s) (bytes t),
)

pub tmp-target : (t : String) → (t == tmp_path t) ≡ false
tmp-target t = differ t (tmp_path t) (longer t ".tmp" 3 refl)

pub bak-target : (t : String) → (t == bak_path t) ≡ false
bak-target t = differ t (bak_path t) (longer t ".bak" 3 refl)

pub target-bak : (t : String) → (bak_path t == t) ≡ false
target-bak t = differ (bak_path t) t (λ e. longer t ".bak" 3 refl (sym e))

second : Bytes → ℕ
second (a ∷ b ∷ s) = b
second s = 0

ends_differ : (t : String) → ¬ (bak_path t ≡ tmp_path t)
unfolding second
ends_differ t e =
    let letters : b'b' ≡ b't' = ap second (
      cancel (bytes t) (bytes ".bak") (bytes ".tmp")
        (sym (bytes-append t ".bak") ∙ ap bytes e ∙ bytes-append t ".tmp")) in
    omega (arith, letters)

pub bak-tmp : (t : String) → (bak_path t == tmp_path t) ≡ false
bak-tmp t = differ (bak_path t) (tmp_path t) (ends_differ t)

pub tmp-bak : (t : String) → (tmp_path t == bak_path t) ≡ false
tmp-bak t = differ (tmp_path t) (bak_path t) (λ e. ends_differ t (sym e))
