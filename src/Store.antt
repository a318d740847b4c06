-- ===== src/Store.antt =====
-- crates/workflow_engine/src/store.rs: the storage interfaces. The contents of a store are of a
-- type of its own (`C`, `S`); a write returns the new contents. The in-memory stores are in
-- `Store.Memory`, `Store.Sessions` and `Store.State`.
pub mod Memory
pub mod Sessions
pub mod State
pub mod Queries
pub mod Replaced
pub mod Defaults
mod Tests
use tianshu_rs.Base.{
  ℕ, String, Option, Bool, true, false, List, Result, ok, ◌≡◌, ◌==◌, string_eq, ◌&&◌, none,
  if◌then◌else◌, some,
}
use tianshu_rs.Case.{Case, ExecutionState}

pub record CaseFilter : Type 0 where
  pub execution_state : Option ExecutionState
  pub created_after : Option ℕ
  pub created_before : Option ℕ
  pub updated_after : Option ℕ
  pub limit : Option ℕ
  pub offset : Option ℕ

pub record CaseStore (Json C : Type 0) : Type 0 where
  pub upsert : Case Json → C → Result (Unit {0}) × C
  pub get_by_key : String → C → Result (Option (Case Json))
  pub get_by_session : String → C → Result (List (Case Json))
  pub list : CaseFilter → C → Result (List (Case Json))
  pub count : CaseFilter → C → Result ℕ

pub record StateEntry : Type 0 where
  pub case_key : String
  pub step : String
  pub contents : String
  pub updated_at : ℕ

pub record SessionStateEntry : Type 0 where
  pub session_id : String
  pub step : String
  pub contents : String
  pub updated_at : ℕ

-- A write is given the clock reading that it stores.
pub record StateStore (S : Type 0) : Type 0 where
  pub save : (now : ℕ) (case_key step contents : String) → S → Result (Unit {0}) × S
  pub get : (case_key step : String) → S → Result (Option StateEntry)
  pub get_all : String → S → Result (List StateEntry)
  pub delete_by_case : String → S → Result (Unit {0}) × S
  pub save_session : (now : ℕ) (session_id step contents : String) → S → Result (Unit {0}) × S
  pub get_session : (session_id step : String) → S → Result (Option SessionStateEntry)
  pub get_all_session : String → S → Result (List SessionStateEntry)
  pub delete_by_session : String → S → Result (Unit {0}) × S

-- What the trait's documentation promises of a state store: a write that succeeds sets the entry
-- of its pair of keys and leaves the others, and a deletion removes the entries of its case; and the
-- same of the entries of sessions.
pub record IsStateStore {S : Type 0} (store : StateStore S) : Type 0 where
  pub get-save :
      (now : ℕ) (k s d : String) (σ σ' : S)
      → store.save now k s d σ ≡ (ok tt, σ')
      → (k' s' : String)
      → store.get k' s' σ' ≡ (
          if k == k' && s == s'
          then ok (some (record { case_key = k; step = s; contents = d; updated_at = now }))
          else store.get k' s' σ)
  pub get-delete_by_case :
      (k : String) (σ σ' : S)
      → store.delete_by_case k σ ≡ (ok tt, σ')
      → (k' s' : String) → store.get k' s' σ' ≡ (if k == k' then ok none else store.get k' s' σ)
  pub get_session-save_session :
      (now : ℕ) (k s d : String) (σ σ' : S)
      → store.save_session now k s d σ ≡ (ok tt, σ')
      → (k' s' : String)
      → store.get_session k' s' σ' ≡ (
          if k == k' && s == s'
          then ok (some (record { session_id = k; step = s; contents = d; updated_at = now }))
          else store.get_session k' s' σ)
  pub get_session-delete_by_session :
      (k : String) (σ σ' : S)
      → store.delete_by_session k σ ≡ (ok tt, σ')
      → (k' s' : String)
      → store.get_session k' s' σ' ≡ (if k == k' then ok none else store.get_session k' s' σ)

-- an old record, where there is one, was created when the case was
abbrev pub KeepsCreation : {Json : Type 0} → Option (Case Json) → Case Json → Type 0
KeepsCreation none c = Unit
KeepsCreation (some old) c = old.created_at ≡ c.created_at

-- What a successful upsert of a case leaves to be found. A store may keep the moment of creation of the
-- record that it replaces.
pub record IsCaseStore {Json C : Type 0} (store : CaseStore Json C) : Type 0 where
  pub get-upsert :
      (c : Case Json) (old : Option (Case Json)) (σ σ' : C)
      → store.get_by_key c.case_key σ ≡ ok old
      → KeepsCreation old c
      → store.upsert c σ ≡ (ok tt, σ')
      → (k : String)
      → store.get_by_key k σ' ≡ (if c.case_key == k then ok (some c) else store.get_by_key k σ)
