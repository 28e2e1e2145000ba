-- ===== src/Workspaces/Order.antt =====
-- The order of the workspaces in workspace_manager.cpp: that of the map by the ids, and that of the
-- sorted list.
use openbrowser.Prelude.Bytes.{Bytes, bytes}
use openbrowser.Prelude.Keyed.{find, erase}
use openbrowser.Prelude.{
  String, ◌≡◌, refl, sym, ◌∙◌, ap, Bool, true, false, List, [], ◌∷◌, arith, ◌==◌, ℕ_eq, string_eq,
  if◌then◌else◌, Bool-cases, inl, inr,
}
use openbrowser.Prelude.Characters.{text, text-bytes}
use openbrowser.Workspaces.{
  Workspace, workspace_id, text_less, is_before, emplace, insert_sorted, stable_sort, is_there,
}

pub text_less_trans :
    (s t u : Bytes) → text_less s t ≡ true → text_less t u ≡ true → text_less s u ≡ true
unfolding text_less
text_less_trans [] [] u p q = cc
text_less_trans [] (d ∷ t) [] p q = cc
text_less_trans [] (d ∷ t) (e ∷ u) p q = refl
text_less_trans (c ∷ s) [] u p q = cc
text_less_trans (c ∷ s) (d ∷ t) [] p q = cc
text_less_trans (c ∷ s) (d ∷ t) (e ∷ u) p q = ground (arith, text_less_trans s t u)

pub text_less_total : (s t : Bytes) → text_less s t ≡ false → text_less t s ≡ false → s ≡ t
unfolding text_less
text_less_total [] [] p q = refl
text_less_total [] (d ∷ t) p q = cc
text_less_total (c ∷ s) [] p q = cc
text_less_total (c ∷ s) (d ∷ t) p q = ground (arith, text_less_total s t)

-- Each id is less than those behind it, as in a map.
abbrev pub IsBelow : Workspace → List Workspace → Type 0
IsBelow w [] = Unit
IsBelow w (v ∷ vs) = (is_before w v ≡ true) × IsBelow w vs

abbrev pub IsOrdered : List Workspace → Type 0
IsOrdered [] = Unit
IsOrdered (w ∷ ws) = IsBelow w ws × IsOrdered ws

IsBelow-trans :
    (v w : Workspace) (ws : List Workspace) → is_before v w ≡ true → IsBelow w ws → IsBelow v ws
IsBelow-trans v w [] p h = tt
IsBelow-trans v w (x ∷ xs) p h =
    (text_less_trans (bytes v.id) (bytes w.id) (bytes x.id) p h.0, IsBelow-trans v w xs p h.1)

before_other :
    (v w : Workspace) → (v.id == w.id) ≡ false → is_before w v ≡ false → is_before v w ≡ true
before_other v w other not_before = elim (Bool-cases (is_before v w)) [
  | inl before ↦ before
  | inr after ↦
      let same_bytes = text_less_total (bytes v.id) (bytes w.id) after not_before in
      let same : v.id ≡ w.id = sym (text-bytes v.id) ∙ ap text same_bytes ∙ text-bytes w.id in
      absurd (ground (arith, same, other))
]

emplace-IsBelow :
    (x w : Workspace) (ws : List Workspace)
    → is_before x w ≡ true
    → IsBelow x ws
    → IsBelow x (emplace w ws)
unfolding emplace
emplace-IsBelow x w [] p h = (p, tt)
emplace-IsBelow x w (v ∷ vs) p h = elim (Bool-cases (v.id == w.id)) [
  | inl same ↦ rw same h
  | inr other ↦ elim (Bool-cases (is_before w v)) [
    | inl before ↦ rw (other, before) (p, h)
    | inr after ↦ rw (other, after) (h.0, emplace-IsBelow x w vs p h.1)
  ]
]

pub emplace-IsOrdered :
    (w : Workspace) (ws : List Workspace) → IsOrdered ws → IsOrdered (emplace w ws)
unfolding emplace
emplace-IsOrdered w [] h = (tt, tt)
emplace-IsOrdered w (v ∷ vs) h = elim (Bool-cases (v.id == w.id)) [
  | inl same ↦ rw same h
  | inr other ↦ elim (Bool-cases (is_before w v)) [
    | inl before ↦ rw (other, before) ((before, IsBelow-trans w v vs before h.0), h)
    | inr after ↦
        rw (other, after)
          (emplace-IsBelow v w vs (before_other v w other after) h.0, emplace-IsOrdered w vs h.1)
  ]
]

erase-IsBelow :
    (id : String) (x : Workspace) (ws : List Workspace)
    → IsBelow x ws
    → IsBelow x (erase workspace_id id ws)
unfolding erase
erase-IsBelow id x [] h = tt
erase-IsBelow id x (w ∷ ws) h = elim (Bool-cases (w.id == id)) [
  | inl same ↦ rw same h.1
  | inr other ↦ rw other (h.0, erase-IsBelow id x ws h.1)
]

pub erase-IsOrdered :
    (id : String) (ws : List Workspace) → IsOrdered ws → IsOrdered (erase workspace_id id ws)
unfolding erase
erase-IsOrdered id [] h = tt
erase-IsOrdered id (w ∷ ws) h = elim (Bool-cases (w.id == id)) [
  | inl same ↦ rw same h.1
  | inr other ↦ rw other (erase-IsBelow id w ws h.0, erase-IsOrdered id ws h.1)
]

-- Whether there is a workspace with an id.
abbrev pub has : String → List Workspace → Bool
has id ws = is_there (find workspace_id id ws)

pub has-emplace_other :
    (id : String) (w : Workspace) (ws : List Workspace)
    → has id ws ≡ true
    → has id (emplace w ws) ≡ true
unfolding emplace find
has-emplace_other id w [] h = ground arith
has-emplace_other id w (v ∷ vs) h = ground (arith, has-emplace_other id w vs)

pub has-emplace_self : (w : Workspace) (ws : List Workspace) → has w.id (emplace w ws) ≡ true
unfolding emplace find
has-emplace_self w [] = ground arith
has-emplace_self w (v ∷ vs) = ground (arith, has-emplace_self w vs)

pub has-erase :
    (id other : String) (ws : List Workspace)
    → (id == other) ≡ false
    → has other ws ≡ true
    → has other (erase workspace_id id ws) ≡ true
unfolding erase find
has-erase id other [] n h = ground arith
has-erase id other (w ∷ ws) n h = ground (arith, has-erase id other ws n)

has-insert_sorted :
    (id : String) (w : Workspace) (ws : List Workspace)
    → has id (insert_sorted w ws) ≡ (if w.id == id then true else has id ws)
unfolding insert_sorted find
has-insert_sorted id w [] = ground arith
has-insert_sorted id w (v ∷ vs) = ground (arith, has-insert_sorted id w vs)

pub has-stable_sort : (id : String) (ws : List Workspace) → has id (stable_sort ws) ≡ has id ws
unfolding stable_sort find
has-stable_sort id [] = refl
has-stable_sort id (w ∷ ws) =
    ground (arith, has-insert_sorted id w (stable_sort ws), has-stable_sort id ws)
