-- ===== src/Rpc/Client/Negotiate.antt =====
-- Which version of the service a client comes to use.
use gaia_net.Base.{
  ℕ, zero, suc, ◌<◌, ◌≡◌, ◌≢◌, ◌⊎◌, inl, inr, refl, sym, subst, List, [], ◌∷◌, tabulate, Option,
  none, some, arith, if◌then◌else◌,
}
use gaia_net.Base.Int.{ℤ, eqb_ℤ, min_ℤ, ◌≤ℤ◌}
use gaia_net.Rpc.Client.{
  VersionReply, answered, unimplemented, broken, version_loop, init_rpc_version, not_inited, v1, v2,
}

-- What the first answer that is no failure leads to: the smaller version, the first one if the peer
-- has no such call, and no version if the peer answers with the number of an unknown one.
abbrev pub settle : VersionReply → Option ℤ
settle (answered v) = if eqb_ℤ v not_inited then none else some (min_ℤ v v2)
settle unimplemented = some v1
settle broken = none

-- After failures only, up to and without the call `n`.
abbrev pub Failing : (ℕ → VersionReply) → ℕ → Type 0
Failing replies n = (i : ℕ) → i < n → replies i ≡ broken

-- Of `k` calls, the first answer that is not a failure, or there is none.
abbrev pub Decides : ℕ → (ℕ → VersionReply) → Option ℤ → Type 0
Decides k replies o =
    ((n : ℕ) × (n < k) × Failing replies n × (replies n ≢ broken) × (o ≡ settle (replies n)))
    ⊎ (Failing replies k × (o ≡ none))

Failing-suc :
    (replies : ℕ → VersionReply) (n : ℕ)
    → replies 0 ≡ broken
    → Failing (λ i. replies (suc i)) n
    → Failing replies (suc n)
Failing-suc replies n h all zero lt = h
Failing-suc replies n h all (suc i) lt = all i (omega (arith, lt))

-- One failure more in front.
Decides-broken :
    (k : ℕ) (replies : ℕ → VersionReply) (o : Option ℤ)
    → replies 0 ≡ broken
    → Decides k (λ i. replies (suc i)) o
    → Decides (suc k) replies o
Decides-broken k replies o h (inl (n, lt, all, r, e)) =
    inl (suc n, omega (arith, lt), Failing-suc replies n h all, r, e)
Decides-broken k replies o h (inr (all, e)) = inr (Failing-suc replies k h all, e)

VersionReply-cases : (r : VersionReply) → (r ≡ broken) ⊎ (r ≢ broken)
VersionReply-cases (answered v) = inr (λ e. cc)
VersionReply-cases unimplemented = inr (λ e. cc)
VersionReply-cases broken = inl refl

version_loop-decided :
    (r : VersionReply) (rest : List VersionReply) → r ≢ broken → version_loop (r ∷ rest) ≡ settle r
unfolding version_loop
version_loop-decided (answered v) rest h = ground arith
version_loop-decided unimplemented rest h = refl
version_loop-decided broken rest h = absurd (h refl)

version_loop-Decides :
    (k : ℕ) (replies : ℕ → VersionReply) → Decides k replies (version_loop (tabulate k replies))
unfolding version_loop
version_loop-Decides zero replies = inr ((λ i lt. absurd (omega (arith, lt))), refl)
version_loop-Decides (suc k) replies = elim (VersionReply-cases (replies 0)) [
  | inl h ↦
      subst (λ r. Decides (suc k) replies (version_loop (r ∷ tabulate k (λ i. replies (suc i)))))
        (sym h) (Decides-broken k replies _ h (version_loop-Decides k (λ i. replies (suc i))))
  | inr h ↦ inl (
    0,
    omega arith,
    (λ i lt. absurd (omega (arith, lt))),
    h,
    version_loop-decided (replies 0) (tabulate k (λ i. replies (suc i))) h,
  )
]

version_loop-bound :
    (replies : List VersionReply) (v : ℤ)
    → version_loop replies ≡ some v
    → (v ≤ℤ v2) × (v ≢ not_inited)
unfolding version_loop
version_loop-bound [] v e = absurd (ground arith)
version_loop-bound (answered w ∷ rest) v e = (ground arith, ground arith)
version_loop-bound (unimplemented ∷ rest) v e = (ground arith, ground arith)
version_loop-bound (broken ∷ rest) v e = version_loop-bound rest v e

-- `init_rpc_version` makes at most 20 calls. The first answer among them that is not a failure decides, whatever
-- the later ones would be; when all 20 fail it throws; and a version that is used is at most
-- the client's own and never the number for "not initialised".
pub init_rpc_version_lem :
    (replies : ℕ → VersionReply)
    → Decides 20 replies (init_rpc_version replies)
      × ((v : ℤ) → init_rpc_version replies ≡ some v → (v ≤ℤ v2) × (v ≢ not_inited))
unfolding init_rpc_version
init_rpc_version_lem replies =
    (version_loop-Decides 20 replies, version_loop-bound (tabulate 20 replies))
