-- ===== src/Store/State.antt =====
-- crates/workflow_engine/src/store.rs: `InMemoryStateStore`, two maps keyed by a case or a session
-- and a step, and the laws of a state store, which it meets.
use tianshu_rs.Base.{
  ℕ, String, not, Option, none, some, List, Result, ok, ◌≡◌, refl, ap, arith, ◌==◌, string_eq,
  pair_eq, if◌then◌else◌, filter, Bool, ◌&&◌,
}
use tianshu_rs.Base.HashMap
use tianshu_rs.Base.HashMap.{HashMap, get-insert, get-retain_keys}
use tianshu_rs.Store.{StateEntry, SessionStateEntry, StateStore, IsStateStore}

pub record InMemoryStateStore : Type 0 where
  pub entries : HashMap (String × String) StateEntry
  pub session_entries : HashMap (String × String) SessionStateEntry

unfoldable pub save :
    (now : ℕ) (case_key step contents : String)
    → InMemoryStateStore
    → Result (Unit {0}) × InMemoryStateStore
save now k s d m = (
  ok tt,
  record m {
    entries =
        HashMap.insert m.entries (k, s)
          (record { case_key = k; step = s; contents = d; updated_at = now });
  },
)

unfoldable pub get : (case_key step : String) → InMemoryStateStore → Result (Option StateEntry)
get k s m = ok (HashMap.get m.entries (k, s))

unfoldable pub get_all : String → InMemoryStateStore → Result (List StateEntry)
get_all k m = ok (filter (λ e. e.case_key == k) (HashMap.values m.entries))

abbrev other_case : String → String × String → Bool
other_case k e = not (e.0 == k)

unfoldable pub delete_by_case : String → InMemoryStateStore → Result (Unit {0}) × InMemoryStateStore
delete_by_case k m = (ok tt, record m { entries = HashMap.retain_keys (other_case k) m.entries })

unfoldable pub save_session :
    (now : ℕ) (session_id step contents : String)
    → InMemoryStateStore
    → Result (Unit {0}) × InMemoryStateStore
save_session now k s d m = (
  ok tt,
  record m {
    session_entries =
        HashMap.insert m.session_entries (k, s)
          (record { session_id = k; step = s; contents = d; updated_at = now });
  },
)

unfoldable pub get_session :
    (session_id step : String) → InMemoryStateStore → Result (Option SessionStateEntry)
get_session k s m = ok (HashMap.get m.session_entries (k, s))

unfoldable pub get_all_session : String → InMemoryStateStore → Result (List SessionStateEntry)
get_all_session k m = ok (filter (λ e. e.session_id == k) (HashMap.values m.session_entries))

unfoldable pub delete_by_session :
    String → InMemoryStateStore → Result (Unit {0}) × InMemoryStateStore
delete_by_session k m =
    (ok tt, record m { session_entries = HashMap.retain_keys (other_case k) m.session_entries })

abbrev pub in_memory_state_store : StateStore InMemoryStateStore
in_memory_state_store = record {
  save = save;
  get = get;
  get_all = get_all;
  delete_by_case = delete_by_case;
  save_session = save_session;
  get_session = get_session;
  get_all_session = get_all_session;
  delete_by_session = delete_by_session;
}

get_of-save :
    (now : ℕ) (k s d k' s' : String) (m : InMemoryStateStore)
    → get k' s' (save now k s d m).1 ≡ (
        if k == k' && s == s'
        then ok (some (record { case_key = k; step = s; contents = d; updated_at = now }))
        else get k' s' m)
unfolding get save
get_of-save now k s d k' s' m = ground (
  arith,
  get-insert m.entries (k, s) (k', s')
      (record { case_key = k; step = s; contents = d; updated_at = now }),
)

get_of-delete :
    (k k' s' : String) (m : InMemoryStateStore)
    → get k' s' (delete_by_case k m).1 ≡ (if k == k' then ok none else get k' s' m)
unfolding get delete_by_case
get_of-delete k k' s' m = ground (
  arith,
  get-retain_keys (other_case k) m.entries (k', s'),
  string_eq.same_iff k k',
  string_eq.same_iff k' k,
)

get_of-save_session :
    (now : ℕ) (k s d k' s' : String) (m : InMemoryStateStore)
    → get_session k' s' (save_session now k s d m).1 ≡ (
        if k == k' && s == s'
        then ok (some (record { session_id = k; step = s; contents = d; updated_at = now }))
        else get_session k' s' m)
unfolding get_session save_session
get_of-save_session now k s d k' s' m = ground (
  arith,
  get-insert m.session_entries (k, s) (k', s')
      (record { session_id = k; step = s; contents = d; updated_at = now }),
)

-- Deleting the state of a session removes every variable of that session, and leaves the
-- variables of other sessions and the entries of every case as they were.
pub get_session-delete_by_session :
    (k k' s' c : String) (m : InMemoryStateStore)
    → (get_session k' s' (delete_by_session k m).1
        ≡ (if k == k' then ok none else get_session k' s' m))
      × (get c s' (delete_by_session k m).1 ≡ get c s' m)
unfolding get_session delete_by_session get
get_session-delete_by_session k k' s' c m = (
  ground (
    arith,
    get-retain_keys (other_case k) m.session_entries (k', s'),
    string_eq.same_iff k k',
    string_eq.same_iff k' k,
  ),
  refl,
)

-- The in-memory store meets the laws of a state store: a write sets the entry of its two keys and
-- no other, and `delete_by_case` removes every entry of its case and none of another; and so for the
-- entries of sessions.
pub in_memory-IsStateStore : IsStateStore in_memory_state_store
unfolding save delete_by_case save_session delete_by_session
in_memory-IsStateStore = record {
  get-save = λ now k s d σ σ' e k' s'.
      rw (← ap (λ (r : Result Unit × InMemoryStateStore). r.1) e) (get_of-save now k s d k' s' σ);
  get-delete_by_case = λ k σ σ' e k' s'.
      rw (← ap (λ (r : Result Unit × InMemoryStateStore). r.1) e) (get_of-delete k k' s' σ);
  get_session-save_session = λ now k s d σ σ' e k' s'.
      rw (← ap (λ (r : Result Unit × InMemoryStateStore). r.1) e)
        (get_of-save_session now k s d k' s' σ);
  get_session-delete_by_session = λ k σ σ' e k' s'.
      rw (← ap (λ (r : Result Unit × InMemoryStateStore). r.1) e)
        (get_session-delete_by_session k k' s' k σ).0;
}
