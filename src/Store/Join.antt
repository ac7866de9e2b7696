-- ===== src/Store/Join.antt =====
-- `tokio::try_join!`, which is not part of the repository, on two futures that work on stores of
-- their own. It returns both values, or the first error; the future that is still running then is
-- dropped, and its request may or may not have taken effect. A `Race` says which.
use ruts.Prelude.{Bool, if◌then◌else◌}
use ruts.Outcome.{Result, ok, err, panic, Action}

pub record Race : Type 0 where
  -- where both fail, the first one does so first
  pub first_fails_first : Bool
  -- the dropped future's request has taken effect
  pub dropped_takes_effect : Bool

abbrev pub dropped {ℓ} : {S : Type ℓ} → Race → S → S → S
dropped race before after = if race.dropped_takes_effect then after else before

module _ {E A B S U : Type 0} (race : Race) where
  -- the second future, behind the failure `r` of the first
  abbrev pub first_failed : Result E (A × B) → Result E B → S → S → U → U → Result E (A × B) × S × U
  first_failed r (ok b) s s' u u' = (r, s', dropped race u u')
  first_failed r (err e) s s' u u' =
      if race.first_fails_first then (r, s', dropped race u u') else (err e, dropped race s s', u')
  first_failed r panic s s' u u' =
      if race.first_fails_first then (r, s', dropped race u u') else (panic, dropped race s s', u')

  abbrev pub joined : Result E A → Result E B → S → S → U → U → Result E (A × B) × S × U
  joined (ok a) (ok b) s s' u u' = (ok (a, b), s', u')
  joined (ok a) (err e) s s' u u' = (err e, dropped race s s', u')
  joined (ok a) panic s s' u u' = (panic, dropped race s s', u')
  joined (err e) r s s' u u' = first_failed (err e) r s s' u u'
  joined panic r s s' u u' = first_failed panic r s s' u u'

  unfoldable pub try_join : Action S E A → Action U E B → S → U → Result E (A × B) × S × U
  try_join m n s u = let (r, s') = m s in let (q, u') = n u in joined r q s s' u u'
