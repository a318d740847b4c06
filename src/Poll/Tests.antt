-- ===== src/Poll/Tests.antt =====
-- The intent router where the name of one intent begins that of another.
use tianshu_rs.Base.{some, [], ◌∷◌, ◌≡◌, refl}
use tianshu_rs.Poll.Intent.{first_named}

-- the answer names the second intent, and the first is taken
first_named_runs :
    first_named "[approve_all]" (("approve", "one") ∷ ("approve_all", "all") ∷ []) ≡ some "approve"
unfolding first_named
first_named_runs = refl
