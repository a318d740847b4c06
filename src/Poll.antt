-- ===== src/Poll.antt =====
-- crates/workflow_engine/src/poll.rs: `PollEvaluator`. The fetcher is a function: for one
-- evaluation, what it answers for each resource.
pub mod Intent
mod Tests
use tianshu_rs.Base.{
  String, Option, none, some, List, [], ◌∷◌, ◌++◌, Result, ok, err, ◌≡◌, refl, sym, ap, ◌∙◌,
}
use mathlib.Core.Path.{ap₂}
use mathlib.Core.List.{append-nil, append_assoc}
use tianshu_rs.Workflow.{PollPredicate}

pub record PollMatch (Json : Type 0) : Type 0 where
  pub step_name : String
  pub payload : Json

abbrev pub ResourceFetcher : Type 0 → Type 0
ResourceFetcher Json = (resource_type resource_id : String) → Result (Option Json)

module _ {Json : Type 0} where
  abbrev matched : PollPredicate → Result (Option Json) → List (PollMatch Json)
  matched poll (ok (some payload)) = record { step_name = poll.step_name; payload = payload } ∷ []
  matched poll (ok none) = []
  matched poll (err e) = []

  -- the loop, with the matches so far
  unfoldable pub evaluate_from :
      ResourceFetcher Json → List (PollMatch Json) → List PollPredicate → List (PollMatch Json)
  evaluate_from fetch matches [] = matches
  evaluate_from fetch matches (poll ∷ polls) =
      evaluate_from fetch (matches ++ matched poll (fetch poll.resource_type poll.resource_id))
        polls

  unfoldable pub evaluate : ResourceFetcher Json → List PollPredicate → List (PollMatch Json)
  unfolding evaluate_from
  evaluate fetch polls = evaluate_from fetch [] polls

  -- the matches of each poll by itself
  abbrev pub all_matched : ResourceFetcher Json → List PollPredicate → List (PollMatch Json)
  all_matched fetch [] = []
  all_matched fetch (poll ∷ polls) =
      matched poll (fetch poll.resource_type poll.resource_id) ++ all_matched fetch polls

  evaluate_from-all_matched :
      (fetch : ResourceFetcher Json) (before : List (PollMatch Json)) (polls : List PollPredicate)
      → evaluate_from fetch before polls ≡ before ++ all_matched fetch polls
  unfolding evaluate_from
  evaluate_from-all_matched fetch before [] = sym (append-nil before)
  evaluate_from-all_matched fetch before (poll ∷ polls) =
      evaluate_from-all_matched fetch
        (before ++ matched poll (fetch poll.resource_type poll.resource_id)) polls
      ∙ append_assoc before _ (all_matched fetch polls)

  all_matched-append :
      (fetch : ResourceFetcher Json) (ps qs : List PollPredicate)
      → all_matched fetch (ps ++ qs) ≡ all_matched fetch ps ++ all_matched fetch qs
  all_matched-append fetch [] qs = refl
  all_matched-append fetch (p ∷ ps) qs =
      ap (◌++◌ _) (all_matched-append fetch ps qs)
      ∙ sym (append_assoc _ (all_matched fetch ps) (all_matched fetch qs))

  -- Evaluating the polls of two lists together gives the matches of the first and then those of
  -- the second: a poll that fails or is not ready affects no other.
  pub evaluate-append :
      (fetch : ResourceFetcher Json) (ps qs : List PollPredicate)
      → evaluate fetch (ps ++ qs) ≡ evaluate fetch ps ++ evaluate fetch qs
  unfolding evaluate
  evaluate-append fetch ps qs =
      evaluate_from-all_matched fetch [] (ps ++ qs)
      ∙ all_matched-append fetch ps qs
      ∙ sym
          (ap₂ ◌++◌ (evaluate_from-all_matched fetch [] ps) (evaluate_from-all_matched fetch [] qs))
