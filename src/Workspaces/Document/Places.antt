-- ===== src/Workspaces/Document/Places.antt =====
-- The places of the workspaces in the order of the map, where a list of them is read back.
use openbrowser.Prelude.Bytes.{Bytes, bytes}
use openbrowser.Prelude.Keyed.{find as find_by_id}
use openbrowser.Prelude.{
  String, ◌≡◌, refl, ap, subst, true, false, List, [], ◌∷◌, ◌++◌, arith, ◌==◌, ℕ_eq, string_eq,
  is_empty, Bool-cases, inl, inr,
}
use openbrowser.Workspaces.{Workspace, emplace, lasting, is_no_text, is_before, text_less}
use openbrowser.Workspaces.Order.{IsOrdered, IsBelow, has, text_less_trans}

-- No workspace is without an id or an icon.
abbrev pub AreNamed : List Workspace → Type 0
AreNamed [] = Unit
AreNamed (w ∷ ws) = (is_empty w.id ≡ false) × (is_no_text w.icon ≡ false) × AreNamed ws

abbrev pub AreLasting : List Workspace → Type 0
AreLasting [] = Unit
AreLasting (w ∷ ws) = (w.is_ephemeral ≡ false) × AreLasting ws

pub lasting-AreLasting : (ws : List Workspace) → AreLasting (lasting ws)
lasting-AreLasting [] = tt
lasting-AreLasting (w ∷ ws) = elim (Bool-cases w.is_ephemeral) [
  | inl gone ↦ rw gone (lasting-AreLasting ws)
  | inr kept ↦ rw kept (refl, lasting-AreLasting ws)
]

pub lasting-AreNamed : (ws : List Workspace) → AreNamed ws → AreNamed (lasting ws)
lasting-AreNamed [] h = tt
lasting-AreNamed (w ∷ ws) h = elim (Bool-cases w.is_ephemeral) [
  | inl gone ↦ rw gone (lasting-AreNamed ws h.2)
  | inr kept ↦ rw kept (h.0, h.1, lasting-AreNamed ws h.2)
]

pub lasting-IsBelow : (x : Workspace) (ws : List Workspace) → IsBelow x ws → IsBelow x (lasting ws)
lasting-IsBelow x [] h = tt
lasting-IsBelow x (w ∷ ws) h = elim (Bool-cases w.is_ephemeral) [
  | inl gone ↦ rw gone (lasting-IsBelow x ws h.1)
  | inr kept ↦ rw kept (h.0, lasting-IsBelow x ws h.1)
]

pub lasting-IsOrdered : (ws : List Workspace) → IsOrdered ws → IsOrdered (lasting ws)
lasting-IsOrdered [] h = tt
lasting-IsOrdered (w ∷ ws) h = elim (Bool-cases w.is_ephemeral) [
  | inl gone ↦ rw gone (lasting-IsOrdered ws h.1)
  | inr kept ↦ rw kept (lasting-IsBelow w ws h.0, lasting-IsOrdered ws h.1)
]

pub less_irrefl : (s : Bytes) → text_less s s ≡ false
unfolding text_less
less_irrefl [] = refl
less_irrefl (c ∷ s) = ground (arith, less_irrefl s)

pub not_less_back : (s t : Bytes) → text_less s t ≡ true → text_less t s ≡ false
not_less_back s t h = elim (Bool-cases (text_less t s)) [
  | inr no_more ↦ no_more
  | inl back ↦
      let loop = text_less_trans s t s h back in
      let stays = less_irrefl s in absurd (ground (arith, loop, stays))
]

pub before_is_other : (v w : Workspace) → is_before v w ≡ true → (v.id == w.id) ≡ false
before_is_other v w h = elim (Bool-cases (v.id == w.id)) [
  | inr other ↦ other
  | inl equal ↦
      let same : v.id ≡ w.id = ground (arith, equal) in
      let stays = less_irrefl (bytes w.id) in
      let loop = subst (λ x. text_less (bytes x) (bytes w.id) ≡ true) same h in
      absurd (ground (arith, loop, stays))
]

pub IsBelow-at :
    (v w : Workspace) (loaded ws : List Workspace)
    → IsBelow v (loaded ++ w ∷ ws)
    → is_before v w ≡ true
IsBelow-at v w [] ws h = h.0
IsBelow-at v w (x ∷ loaded) ws h = IsBelow-at v w loaded ws h.1

pub emplace-last :
    (w : Workspace) (loaded ws : List Workspace)
    → IsOrdered (loaded ++ w ∷ ws)
    → emplace w loaded ≡ loaded ++ w ∷ []
unfolding emplace
emplace-last w [] ws h = refl
emplace-last w (v ∷ loaded) ws h =
    let before = IsBelow-at v w loaded ws h.0 in
    rw (before_is_other v w before, not_less_back (bytes v.id) (bytes w.id) before)
      (ap (λ r. v ∷ r) (emplace-last w loaded ws h.1))

pub below_found :
    (v : Workspace) (id : String) (ws : List Workspace)
    → IsBelow v ws
    → has id ws ≡ true
    → text_less (bytes v.id) (bytes id) ≡ true
unfolding find_by_id
below_found v id [] b h = cc
below_found v id (w ∷ ws) b h = elim (Bool-cases (w.id == id)) [
  | inl here ↦
      let same : w.id ≡ id = ground (arith, here) in
      subst (λ x. text_less (bytes v.id) (bytes x) ≡ true) same b.0
  | inr behind ↦ below_found v id ws b.1 (rw behind at h)
]

pub emplace-found :
    (w : Workspace) (ws : List Workspace) → IsOrdered ws → has w.id ws ≡ true → emplace w ws ≡ ws
unfolding emplace find_by_id
emplace-found w [] o h = cc
emplace-found w (v ∷ vs) o h = elim (Bool-cases (v.id == w.id)) [
  | inl here ↦ rw here refl
  | inr behind ↦
      let rest : has w.id vs ≡ true = rw behind at h in
      let not_before = not_less_back (bytes v.id) (bytes w.id) (below_found v w.id vs o.0 rest) in
      rw (behind, not_before) (ap (λ r. v ∷ r) (emplace-found w vs o.1 rest))
]
