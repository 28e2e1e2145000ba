-- ===== src/NetworkFilterQuery/Words.antt =====
-- The words of a text in network_filter_query.cpp.
use openbrowser.Prelude.Bytes.{Bytes}
use openbrowser.Prelude.{
  ℕ, ◌≡◌, refl, sym, ◌∙◌, ap, true, false, List, [], ◌∷◌, ◌++◌, arith, Bool-cases, inl, inr,
  ℕ_discrete,
}
use openbrowser.AddressInput.{is_space}
use openbrowser.NetworkTrace.Urls.{longer_first}
use openbrowser.NetworkTrace.Urls.Parts.{IsFree}
use openbrowser.NetworkFilterQuery.{split_whitespace, starts_word}

-- The words of a text that starts with one.
first_word :
    (s : Bytes)
    → starts_word s ≡ true
    → (w : Bytes) × (ws : List Bytes) × (split_whitespace s ≡ w ∷ ws)
unfolding split_whitespace
first_word [] h = cc
first_word (c ∷ s) h =
    let no_space : is_space c ≡ false = ground (arith, h) in
    elim (Bool-cases (starts_word s)) [
      | inr last ↦ (c ∷ [], split_whitespace s, rw (no_space, last) refl)
      | inl more ↦
          let (w, ws, e) = first_word s more in
          (c ∷ w, ws, rw (no_space, more) (ap (longer_first c) e))
    ]

starts_word-append : (s t : Bytes) → starts_word (s ++ b' ' ∷ t) ≡ starts_word s
unfolding ℕ_discrete
starts_word-append [] t = refl
starts_word-append (c ∷ s) t = refl

-- A blank between two texts separates their words.
pub split_whitespace-append :
    (s t : Bytes) → split_whitespace (s ++ b' ' ∷ t) ≡ split_whitespace s ++ split_whitespace t
unfolding split_whitespace ℕ_discrete
split_whitespace-append [] t = refl
split_whitespace-append (c ∷ s) t =
    let ih = split_whitespace-append s t in
    elim (Bool-cases (is_space c)) [
      | inl space ↦ rw space ih
      | inr no_space ↦ elim (Bool-cases (starts_word s)) [
        | inr last ↦ rw (no_space, starts_word-append s t, last) (ap (λ r. (c ∷ []) ∷ r) ih)
        | inl more ↦
            let (w, ws, e) = first_word s more in
            rw (no_space, starts_word-append s t, more)
              (ap (longer_first c) (ih ∙ ap (λ r. r ++ split_whitespace t) e)
                ∙ ap (λ r. longer_first c r ++ split_whitespace t) (sym e))
      ]
    ]

longer_word :
    (c d : ℕ) (s : Bytes)
    → is_space c ≡ false
    → is_space d ≡ false
    → split_whitespace (c ∷ d ∷ s) ≡ longer_first c (split_whitespace (d ∷ s))
unfolding split_whitespace
longer_word c d s h k = rw (h, k) refl

-- A text without white space is one word.
pub split_whitespace-word :
    (c : ℕ) (s : Bytes) → IsFree is_space (c ∷ s) → split_whitespace (c ∷ s) ≡ (c ∷ s) ∷ []
unfolding split_whitespace
split_whitespace-word c [] h = rw h.0 refl
split_whitespace-word c (d ∷ s) h =
    longer_word c d s h.0 h.1.0 ∙ ap (longer_first c) (split_whitespace-word d s h.1)
