-- ===== src/Session/TabList.antt =====
-- `std::vector<Tab>` as `BrowserSession` uses it: search by id, a write through the iterator that
-- the search gave, the removal of that element, and its distance from `begin()`.
use openbrowser.Prelude.{ℕ, String, ◌≡◌, sym, subst, Option, some, List}
use openbrowser.Prelude.Keyed
use openbrowser.Prelude.Keyed.{map_option}
use openbrowser.Tabs.{Tab, TabLifecycle}

abbrev pub tab_id : Tab → String
tab_id t = t.id

abbrev pub find_tab : String → List Tab → Option Tab
find_tab = Keyed.find tab_id

abbrev pub modify : String → (Tab → Tab) → List Tab → List Tab
modify = Keyed.modify tab_id

abbrev pub erase : String → List Tab → List Tab
erase = Keyed.erase tab_id

abbrev pub index_of : String → List Tab → ℕ
index_of = Keyed.index_of tab_id

-- No two tabs of the list have the same id.
abbrev pub Distinct : List Tab → Type 0
Distinct = Keyed.Distinct tab_id

abbrev pub lifecycle_of : String → List Tab → Option TabLifecycle
lifecycle_of id ts = map_option (λ t. t.lifecycle) (find_tab id ts)

pub find_tab-own_id :
    (i : String) (ts : List Tab) (t : Tab) → find_tab i ts ≡ some t → find_tab t.id ts ≡ some t
find_tab-own_id i ts t h =
    subst (λ k. find_tab k ts ≡ some t) (sym (Keyed.find-id tab_id i ts t h)) h
