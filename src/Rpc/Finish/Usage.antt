-- ===== src/Rpc/Finish/Usage.antt =====
-- The records of traffic that clients leave in redis.
use gaia_net.Base.{ℕ, ◌≡◌, ap, List, ◌∷◌, ◌++◌, drop}
use gaia_net.Base.Decimal.{to_string, to_string-injective, to_string-AllDigits}
use gaia_net.Keys.Distinct.{split_last}
use gaia_net.Rpc.Finish.{usage_key}

-- The keys of two records are equal only for the same task and the same parties in the same order, whatever
-- bytes the task's name has.
pub usage_key-injective :
    (taskid taskid' : List ℕ) (partyid to_partyid partyid' to_partyid' : ℕ)
    → usage_key taskid partyid to_partyid ≡ usage_key taskid' partyid' to_partyid'
    → (taskid ≡ taskid') × (partyid ≡ partyid') × (to_partyid ≡ to_partyid')
unfolding usage_key
usage_key-injective taskid taskid' p q p' q' e =
    let (front, last) =
      split_last (taskid ++ b'_' ∷ to_string p) (taskid' ++ b'_' ∷ to_string p') (to_string q)
        (to_string q') (to_string-AllDigits q) (to_string-AllDigits q') (ap (drop 10) e) in
    let (name, first) =
      split_last taskid taskid' (to_string p) (to_string p') (to_string-AllDigits p)
        (to_string-AllDigits p') front in
    (name, to_string-injective p p' first, to_string-injective q q' last)
