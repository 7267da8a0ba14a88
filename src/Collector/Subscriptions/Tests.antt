-- ===== src/Collector/Subscriptions/Tests.antt =====
-- A plan at four symbols.
use trading_worker.Base.{◌≡◌, refl, List, [], ◌∷◌}
use trading_worker.Base.Text.{Text, codes}
use trading_worker.Collector.Subscriptions.{plan}

abbrev current : List Text
current = codes "A" ∷ codes "B" ∷ []

abbrev target : List Text
target = codes "B" ∷ codes "C" ∷ codes "C" ∷ []

adds_c : (plan current target).add ≡ codes "C" ∷ []
unfolding plan
adds_c = refl
