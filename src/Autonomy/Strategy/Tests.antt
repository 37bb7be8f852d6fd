-- ===== src/Autonomy/Strategy/Tests.antt =====
-- A replan after feedback.
use syncore.Common.{◌≡◌, refl, codes, [], ◌∷◌}
use syncore.Models.{text}
use syncore.Store.{Store, ok}
use syncore.Store.Events.{list_project_events}
use syncore.Store.Order.{order_desc}
use syncore.Store.Returns.{Returns}
use syncore.Autonomy.Values.{text_or_empty, latest_event}
use syncore.Autonomy.Strategy.{
  select_replan_strategy, best_strategy_from_feedback, score, points, raise_verification,
}
use syncore.Autonomy.Strategy.Best.{Best, feedback_of, select_replan_strategy-Best}
use syncore.Samples.{event, empty_store}

-- A detailed plan has failed, a verified one has not.
abbrev after_feedback : Store
after_feedback = record empty_store {
  events =
      event 1 7 "autonomy.feedback"
        (("strategy", text (codes "increase_detail")) ∷ ("outcome", text (codes "failed")) ∷ [])
      ∷ event 2 7 "autonomy.feedback" (
          ("strategy", text (codes "raise_verification"))
          ∷ ("outcome", text (codes "success"))
          ∷ [])
      ∷ [];
}

verified_again :
    select_replan_strategy [] (codes "execute") 2 (codes "coder") after_feedback
    ≡ (ok raise_verification, after_feedback)
unfolding select_replan_strategy best_strategy_from_feedback list_project_events score points
    text_or_empty latest_event order_desc
verified_again = refl

select_replan_strategy-Best_example :
    Returns
      (λ name t. Best (feedback_of after_feedback) name × (t ≡ after_feedback))
      (select_replan_strategy [] (codes "execute") 2 (codes "coder") after_feedback)
select_replan_strategy-Best_example =
    select_replan_strategy-Best [] (codes "execute") 2 (codes "coder") after_feedback refl
