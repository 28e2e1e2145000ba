-- ===== src/FocusSession/FreeIds.antt =====
-- The id that a new tab of the focus queue is given.
use openbrowser.Prelude.{
  ℕ, zero, suc, ◌+◌, ◌≤◌, String, ◌≡◌, refl, sym, ◌∙◌, ap, false, none, some, List, [], ◌∷◌, arith,
  ◌==◌, string_eq, string_discrete, if◌then◌else◌, Option-cases, inl, inr, length,
}
use openbrowser.Prelude.Keyed
use openbrowser.Prelude.Text.Decimal.{behind-injective}
use openbrowser.Tabs.{Tab}
use openbrowser.Session.{BrowserSession}
use openbrowser.Session.TabList.{tab_id, find_tab, erase, Distinct}
use openbrowser.FocusSession.{suffixed, free_suffix, free_tab_id}

suffixed-distinct :
    (base : String) (m n : ℕ) → suc n ≤ m → (suffixed base n == suffixed base m) ≡ false
suffixed-distinct base m n h = elim (string_discrete (suffixed base n) (suffixed base m)) [
  | yes e ↦ absurd (omega (arith, behind-injective base "-" n m e))
  | no n' ↦ ground arith
]

-- The ids from a suffix on are looked up alike in the two lists.
abbrev Alike : String → ℕ → List Tab → List Tab → Type 0
Alike base n ts us = (m : ℕ) → n ≤ m → find_tab (suffixed base m) ts ≡ find_tab (suffixed base m) us

-- `us` are the tabs that may still have one of the ids.
suffix_taken :
    (fuel : ℕ) (s : BrowserSession) (base : String) (n : ℕ) (t : Tab)
    → find_tab (suffixed base n) s.tabs ≡ some t
    → free_suffix (suc fuel) s base n ≡ free_suffix fuel s base (n + 1)
unfolding free_suffix
suffix_taken fuel s base n t e = rw (free_suffix, e) refl

suffix_free :
    (fuel : ℕ) (s : BrowserSession) (base : String) (n : ℕ)
    → find_tab (suffixed base n) s.tabs ≡ none
    → free_suffix (suc fuel) s base n ≡ suffixed base n
unfolding free_suffix
suffix_free fuel s base n e = rw (free_suffix, e) refl

free_suffix-free :
    (fuel : ℕ) (s : BrowserSession) (base : String) (n : ℕ) (us : List Tab)
    → Distinct us
    → length us ≤ fuel
    → Alike base n s.tabs us
    → find_tab (free_suffix fuel s base n) s.tabs ≡ none
free_suffix-free zero s base n [] d le same = unfold free_suffix Keyed.find in same n (omega arith)
free_suffix-free zero s base n (u ∷ us) d le same = absurd (omega arith)
free_suffix-free (suc fuel) s base n us d le same =
    let id = suffixed base n in
    elim (Option-cases (find_tab id s.tabs)) [
      | inl free ↦ ap (λ i. find_tab i s.tabs) (suffix_free fuel s base n free) ∙ free
      | inr (t, taken) ↦
          let others =
            free_suffix-free fuel s base (n + 1) (erase id us) (Keyed.erase-Distinct tab_id id us d)
              (omega
                (arith, Keyed.length-erase tab_id id us t (sym (same n (omega arith)) ∙ taken)))
              (λ m h.
                same m (omega arith)
                ∙ sym (
                    Keyed.find-erase tab_id id (suffixed base m) us d
                    ∙ ap (λ b. if b then none else find_tab (suffixed base m) us)
                        (suffixed-distinct base m n (omega arith)))) in
          ap (λ i. find_tab i s.tabs) (suffix_taken fuel s base n t taken) ∙ others
    ]

base_free :
    (s : BrowserSession) (base : String) → find_tab base s.tabs ≡ none → free_tab_id s base ≡ base
unfolding free_tab_id
base_free s base e = rw (free_tab_id, e) refl

base_taken :
    (s : BrowserSession) (base : String) (t : Tab)
    → find_tab base s.tabs ≡ some t
    → free_tab_id s base ≡ free_suffix (length s.tabs) s base 1
unfolding free_tab_id
base_taken s base t e = rw (free_tab_id, e) refl

-- The search for an id ends with one that no tab has: among one more ids than there are tabs, one is
-- free, since different suffixes make different ids.
pub free_tab_id-free :
    (s : BrowserSession) (base : String)
    → Distinct s.tabs
    → find_tab (free_tab_id s base) s.tabs ≡ none
free_tab_id-free s base d = elim (Option-cases (find_tab base s.tabs)) [
  | inl free ↦ ap (λ i. find_tab i s.tabs) (base_free s base free) ∙ free
  | inr (t, taken) ↦
      ap (λ i. find_tab i s.tabs) (base_taken s base t taken)
      ∙ free_suffix-free (length s.tabs) s base 1 s.tabs d (omega arith) (λ m h. refl)
]
