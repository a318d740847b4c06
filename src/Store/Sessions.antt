-- ===== src/Store/Sessions.antt =====
-- crates/workflow_engine/src/store.rs: `InMemorySessionStore`, a map from the id to the session.
use tianshu_rs.Base.{
  String, Option, none, some, Result, ok, ◌≡◌, ◌==◌, string_eq, if◌then◌else◌, arith,
}
use tianshu_rs.Base.HashMap
use tianshu_rs.Base.HashMap.{HashMap, get-insert, get-remove}
use tianshu_rs.Session.{Session}

abbrev pub InMemorySessionStore : Type 0 → Type 0
InMemorySessionStore Json = HashMap String (Session Json)

module _ {Json : Type 0} where
  unfoldable pub upsert :
      Session Json → InMemorySessionStore Json → Result (Unit {0}) × InMemorySessionStore Json
  upsert s m = (ok tt, HashMap.insert m s.session_id s)

  unfoldable pub get : String → InMemorySessionStore Json → Result (Option (Session Json))
  get id m = ok (HashMap.get m id)

  unfoldable pub delete :
      String → InMemorySessionStore Json → Result (Unit {0}) × InMemorySessionStore Json
  delete id m = (ok tt, HashMap.remove m id)

  -- A session is found under its id from its upsert to its deletion, and no other session is
  -- affected by either.
  pub get_after_upsert_and_delete :
      (s : Session Json) (id j : String) (m : InMemorySessionStore Json)
      → (get j (upsert s m).1 ≡ (if s.session_id == j then ok (some s) else get j m))
        × (get j (delete id m).1 ≡ (if j == id then ok none else get j m))
  unfolding get upsert delete
  get_after_upsert_and_delete s id j m =
      (ground (arith, get-insert m s.session_id j s), ground (arith, get-remove m id j))
