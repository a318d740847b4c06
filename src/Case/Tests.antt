-- ===== src/Case/Tests.antt =====
-- Cases at concrete inputs.
use tianshu_rs.Base.{ℕ, false, ◌≡◌, refl}
use tianshu_rs.Case.{Case, new, mc_finish, is_active}

abbrev greeting : Case ℕ
greeting = new 5 "k" "s" "greeting"

finished_inactive : is_active (mc_finish 9 "ok" "done" greeting) ≡ false
unfolding is_active mc_finish new
finished_inactive = refl
