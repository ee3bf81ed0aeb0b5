-- ===== src/EventLog/Order.antt =====
-- The order of the texts that the event log compares.
use go_blueprint.Prelude.{◌≡◌, refl, true, false, [], ◌∷◌, arith, Text}
use go_blueprint.EventLog.{less}

pub less_trans : (s t u : Text) → less s t ≡ true → less t u ≡ true → less s u ≡ true
unfolding less
less_trans [] [] u h k = ground arith
less_trans [] (d ∷ t) [] h k = cc k
less_trans [] (d ∷ t) (x ∷ u) h k = refl
less_trans (c ∷ s) [] u h k = ground arith
less_trans (c ∷ s) (d ∷ t) [] h k = cc k
less_trans (c ∷ s) (d ∷ t) (x ∷ u) h k = ground (arith, less_trans s t u)

-- What is not greater than a text is less than all that is greater than it.
pub less_after : (s t u : Text) → less t u ≡ true → less t s ≡ false → less s u ≡ true
unfolding less
less_after [] [] u h k = h
less_after [] (d ∷ t) [] h k = cc h
less_after [] (d ∷ t) (x ∷ u) h k = refl
less_after (c ∷ s) [] u h k = cc k
less_after (c ∷ s) (d ∷ t) [] h k = cc h
less_after (c ∷ s) (d ∷ t) (x ∷ u) h k = ground (arith, less_after s t u)

pub less_irrefl : (s : Text) → less s s ≡ false
unfolding less
less_irrefl [] = refl
less_irrefl (c ∷ s) = ground (arith, less_irrefl s)
