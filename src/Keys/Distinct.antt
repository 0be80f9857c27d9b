-- ===== src/Keys/Distinct.antt =====
-- Which of the names tell the channels apart.
use gaia_net.Base.{
  ℕ, ◌+◌, ◌*◌, ◌<◌, ◌≡◌, refl, ap, ap₂, sym, subst, List, [], ◌∷◌, ◌++◌, append_assoc, arith, drop,
  get_or,
}
use gaia_net.Base.Decimal.{
  to_string, to_string-injective, AllDigits, to_string-AllDigits, to_string-snoc, to_string_small,
}
use gaia_net.Keys.{get_shm_key, recv_key, object_key}

no_underscore : (xs ds : List ℕ) → ¬ AllDigits (xs ++ b'_' ∷ ds)
no_underscore [] ds h = ground arith
no_underscore (x ∷ xs) ds h = no_underscore xs ds h.1

-- What stands before and behind the last underscore, when digits alone follow it.
pub split_last :
    (xs ys ds es : List ℕ)
    → AllDigits ds
    → AllDigits es
    → xs ++ b'_' ∷ ds ≡ ys ++ b'_' ∷ es
    → (xs ≡ ys) × (ds ≡ es)
split_last [] [] ds es hd he e = (refl, ap (drop 1) e)
split_last [] (y ∷ ys) ds es hd he e =
    absurd (no_underscore ys es (subst AllDigits (ap (drop 1) e) hd))
split_last (x ∷ xs) [] ds es hd he e =
    absurd (no_underscore xs ds (subst AllDigits (sym (ap (drop 1) e)) he))
split_last (x ∷ xs) (y ∷ ys) ds es hd he e =
    let (p, q) = split_last xs ys ds es hd he (ap (drop 1) e) in
    (ap₂ ◌∷◌ (ap (λ l. get_or l 0 0) e) p, q)

-- Two shared-memory names are equal only for the same parties in the same order and the same task,
-- whatever bytes the task's name has.
pub get_shm_key-injective :
    (from to from' to' : ℕ) (taskid taskid' : List ℕ)
    → get_shm_key from to taskid ≡ get_shm_key from' to' taskid'
    → (from ≡ from') × (to ≡ to') × (taskid ≡ taskid')
unfolding get_shm_key
get_shm_key-injective from to from' to' taskid taskid' e =
    let (front, last) =
      split_last (taskid ++ b'_' ∷ to_string from) (taskid' ++ b'_' ∷ to_string from')
        (to_string to) (to_string to') (to_string-AllDigits to) (to_string-AllDigits to')
        (ap (drop 2) e) in
    let (name, first) =
      split_last taskid taskid' (to_string from) (to_string from') (to_string-AllDigits from)
        (to_string-AllDigits from') front in
    (to_string-injective from from' first, to_string-injective to to' last, name)

-- The names of redis lists do not, nor do the route keys: whatever the task, the parties
-- (10 a + d, e) and (a, 10 d + e) share their list and their route key, for every positive a, every
-- digit d from 1 on and every digit e.
pub recv_key_collides :
    (a d e : ℕ) (taskid : List ℕ)
    → 0 < a
    → 0 < d
    → d < 10
    → e < 10
    → (recv_key (a * 10 + d) e taskid ≡ recv_key a (d * 10 + e) taskid)
      × (object_key (a * 10 + d) e ≡ object_key a (d * 10 + e))
unfolding recv_key object_key
recv_key_collides a d e taskid ha hd kd ke =
    rw
      (
        to_string-snoc a d ha kd,
        to_string_small e ke,
        to_string-snoc d e hd ke,
        to_string_small d kd,
      )
      (ap (λ l. l ++ taskid) same, same)
  where
    same :
        (to_string a ++ (48 + d) ∷ []) ++ (48 + e) ∷ []
        ≡ to_string a ++ ((48 + d) ∷ [] ++ (48 + e) ∷ [])
    same = append_assoc (to_string a) ((48 + d) ∷ []) ((48 + e) ∷ [])
