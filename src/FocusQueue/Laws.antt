-- ===== src/FocusQueue/Laws.antt =====
-- What each operation of the focus queue does to the order, the states and the ids.
use openbrowser.Prelude.Keyed
use openbrowser.Prelude.Keyed.{insert_at, get_elem?-insert_at}
use openbrowser.Prelude.{
  ℕ, ◌<◌, String, ◌≡◌, refl, sym, subst, keep_if, ap, ◌∙◌, true, false, Option, none, some, List,
  [], ◌∷◌, map, arith, leb, ◌==◌, ℕ_eq, string_eq, length, get_elem?, inl, inr, Option-cases,
  Bool-cases,
}
use openbrowser.FocusQueue.{
  FocusState, now, FocusQueueItem, FocusQueue, item_id, find_item, enqueue, remove, move,
  with_state, set_state, set_tab_id, is_now, step_back, promote_to_now,
}

abbrev pub IsDistinct : FocusQueue → Type 0
IsDistinct q = Keyed.Distinct item_id q.items

get_elem?-index_of :
    (id : String) (is : List FocusQueueItem) (i : FocusQueueItem)
    → find_item id is ≡ some i
    → get_elem? is (Keyed.index_of item_id id is) ≡ some i
unfolding Keyed.find Keyed.index_of
get_elem?-index_of id [] i h = ground arith
get_elem?-index_of id (x ∷ is) i h = ground (arith, get_elem?-index_of id is i)

-- In a queue of distinct ids, moving an item that the queue has to an index within it puts the
-- item there, leaves the others in their order, and keeps the ids distinct.
pub move_lem :
    (q : FocusQueue) (id : String) (n : ℕ) (i : FocusQueueItem)
    → IsDistinct q
    → find_item id q.items ≡ some i
    → n < length q.items
    → let (q', done) = move q id n in
      (done ≡ true)
      × (get_elem? q'.items n ≡ some i)
      × (Keyed.erase item_id id q'.items ≡ Keyed.erase item_id id q.items)
      × IsDistinct q'
unfolding move
move_lem q id n i d found lt =
    let others = Keyed.erase item_id id q.items in
    let own : item_id i ≡ id = Keyed.find-id item_id id q.items i found in
    let gone : find_item id others ≡ none =
      ground (arith, Keyed.find-erase item_id id id q.items d) in
    let gone' : find_item i.id others ≡ none =
      subst (λ k. find_item k others ≡ none) (sym own) gone in
    let inside : leb (length q.items) n ≡ false = ground arith in
    elim (Bool-cases (Keyed.index_of item_id id q.items == n)) [
      | inl same ↦
          rw (inside, found, same, move)
            (
              refl,
              subst (λ k. get_elem? q.items k ≡ some i) (ground arith)
                  (get_elem?-index_of id q.items i found),
              refl,
              d,
            )
      | inr other ↦
          rw (inside, found, other, move)
            (
              refl,
              get_elem?-insert_at n i others
                  (omega (arith, Keyed.length-erase item_id id q.items i found)),
              subst (λ k. Keyed.erase item_id k (insert_at n i others) ≡ others) own
                  (Keyed.erase-insert_at item_id n i others gone'),
              Keyed.insert_at-Distinct item_id n i others gone'
                  (Keyed.erase-Distinct item_id id q.items d),
            )
    ]

-- At the front: the queue is the item and then the others.
move-front :
    (q : FocusQueue) (id : String) (i : FocusQueueItem)
    → find_item id q.items ≡ some i
    → move q id 0 ≡ (record { items = i ∷ Keyed.erase item_id id q.items }, true)
unfolding move Keyed.find Keyed.erase Keyed.index_of insert_at
move-front q id i found = front q.items found
  where
    front :
        (is : List FocusQueueItem)
        → find_item id is ≡ some i
        → move (record { items = is }) id 0
          ≡ (record { items = i ∷ Keyed.erase item_id id is }, true)
    front [] h = ground arith
    front (x ∷ is) h = ground arith

step_back_id : (i : FocusQueueItem) → (step_back i).id ≡ i.id
unfolding step_back
step_back_id i = ground arith

now-step_back : (i : FocusQueueItem) → with_state now (step_back i) ≡ with_state now i
unfolding step_back
now-step_back i = ground arith

not-now-step_back : (i : FocusQueueItem) → is_now (step_back i).state ≡ false
unfolding step_back
not-now-step_back i = ground arith

-- Promoting an item that the queue has puts it first, in the state Now; the others keep their
-- order, and each that was Now is Next.
pub promote_to_now_lem :
    (q : FocusQueue) (id : String) (i : FocusQueueItem)
    → find_item id q.items ≡ some i
    → promote_to_now q id
      ≡ (record { items = with_state now i ∷ map step_back (Keyed.erase item_id id q.items) }, true)
unfolding promote_to_now
promote_to_now_lem q id i found =
    let stepped = map step_back q.items in
    let seen : find_item id stepped ≡ some (step_back i) =
      ground (arith, Keyed.find-map item_id step_back step_back_id id q.items) in
    let set = Keyed.modify item_id id (with_state now) stepped in
    let here : find_item id set ≡ some (with_state now i) = ground (
      arith,
      Keyed.find-modify item_id id (with_state now) (λ _. refl) id stepped,
      now-step_back i,
    ) in
    let rest : Keyed.erase item_id id set ≡ map step_back (Keyed.erase item_id id q.items) =
      Keyed.erase-modify item_id id (with_state now) (λ _. refl) stepped
      ∙ Keyed.erase-map item_id step_back step_back_id id q.items in
    rw (found, promote_to_now)
      (move-front (record { items = set }) id (with_state now i) here
        ∙ (λ k. (record { items = with_state now i ∷ rest k }, true)))

not-now-rest : (is : List FocusQueueItem) → keep_if (λ i. is_now i.state) (map step_back is) ≡ []
not-now-rest [] = refl
not-now-rest (i ∷ is) = rw (not-now-step_back i) (not-now-rest is)

-- After an item that the queue has is promoted, it is the one item in the state Now.
pub promote_only_now :
    (q : FocusQueue) (id : String) (i : FocusQueueItem)
    → find_item id q.items ≡ some i
    → keep_if (λ j. is_now j.state) (promote_to_now q id).0.items ≡ with_state now i ∷ []
promote_only_now q id i found =
    rw (promote_to_now_lem q id i found)
      (ap (◌∷◌ (with_state now i)) (not-now-rest (Keyed.erase item_id id q.items)))

-- The operations that change the queue.
pub data Change : Type 0 where
  enqueues : FocusQueueItem → Change
  removes promotes : String → Change
  moves : String → ℕ → Change
  sets_state : String → FocusState → Change
  sets_tab_id : String → Option String → Change

unfoldable pub change : Change → FocusQueue → FocusQueue
change (enqueues i) q = (enqueue q i).0
change (removes id) q = (remove q id).0
change (promotes id) q = (promote_to_now q id).0
change (moves id n) q = (move q id n).0
change (sets_state id st) q = (set_state q id st).0
change (sets_tab_id id tab) q = (set_tab_id q id tab).0

move-IsDistinct : (q : FocusQueue) (id : String) (n : ℕ) → IsDistinct q → IsDistinct (move q id n).0
move-IsDistinct q id n d = elim (Bool-cases (leb (length q.items) n)) [
  | inl out ↦ unfold move in rw out d
  | inr inside ↦ elim (Option-cases (find_item id q.items)) [
    | inl e ↦ unfold move in rw (inside, e, move) d
    | inr (i, e) ↦ (move_lem q id n i d e (ground arith)).3
  ]
]

map-IsDistinct :
    (is : List FocusQueueItem)
    → Keyed.Distinct item_id is
    → Keyed.Distinct item_id (map step_back is)
map-IsDistinct [] d = tt
map-IsDistinct (i ∷ is) d = (
  subst (λ k. find_item k (map step_back is) ≡ none) (sym (step_back_id i))
      (ground (arith, Keyed.find-map item_id step_back step_back_id i.id is, d.0)),
  map-IsDistinct is d.1,
)

promote-IsDistinct :
    (q : FocusQueue) (id : String) → IsDistinct q → IsDistinct (promote_to_now q id).0
unfolding promote_to_now
promote-IsDistinct q id d = elim (Option-cases (find_item id q.items)) [
  | inl e ↦ rw (e, promote_to_now) d
  | inr (i, e) ↦
      let set = Keyed.modify item_id id (with_state now) (map step_back q.items) in
      rw (e, promote_to_now)
        (move-IsDistinct (record { items = set }) id 0
          (Keyed.modify-Distinct item_id id (with_state now) (λ _. refl) (map step_back q.items)
            (map-IsDistinct q.items d)))
]

-- Every operation keeps the ids of a queue distinct where they were, whether it succeeds or not.
pub change-IsDistinct : (c : Change) (q : FocusQueue) → IsDistinct q → IsDistinct (change c q)
unfolding change enqueue remove set_state set_tab_id
change-IsDistinct (enqueues i) q d = ground (arith, Keyed.append-Distinct item_id q.items i d)
change-IsDistinct (removes id) q d = ground (arith, Keyed.erase-Distinct item_id id q.items d)
change-IsDistinct (promotes id) q d = promote-IsDistinct q id d
change-IsDistinct (moves id n) q d = move-IsDistinct q id n d
change-IsDistinct (sets_state id st) q d =
    ground (arith, Keyed.modify-Distinct item_id id (with_state st) (λ _. refl) q.items d)
change-IsDistinct (sets_tab_id id tab) q d =
    ground (
      arith,
      Keyed.modify-Distinct item_id id (λ i. record i { tab_id = tab }) (λ _. refl) q.items d,
    )
