-- ===== src/Rpc/Metadata/Entries.antt =====
-- Which entries a server is sent.
use gaia_net.Base.{
  ℕ, ◌≡◌, ◌≢◌, refl, subst, sym, ap, ◌∙◌, ◌↔◌, ◌⊎◌, inl, inr, true, List, [], ◌∷◌, Bool-cases,
}
use gaia_net.Base.Bytes.{same_bytes, same_bytes_self, same_bytes→eq}
use gaia_net.Keys.{object_key}
use gaia_net.Rpc.Metadata.{
  Entry, usage_name, object_name, service_name, host_name, service, host, to_lower, add_to_stream,
  sender_metadata, add_to_call, version_metadata,
}

abbrev pub In : Entry → List Entry → Type 0
In a [] = ⊥
In a (x ∷ xs) = (a ≡ x) ⊎ In a xs

module _ (tolower : ℕ → ℕ) where
  add_to_call-add_to_stream :
      (meta : List Entry) → add_to_call tolower meta ≡ add_to_stream tolower meta
  unfolding add_to_call add_to_stream
  add_to_call-add_to_stream [] = refl
  add_to_call-add_to_stream ((k, v) ∷ rest) = rw (add_to_call-add_to_stream rest) refl

  -- An entry that comes from one of the channel's.
  abbrev pub Forwarded : Entry → List Entry → Type 0
  Forwarded e meta =
      (k : List ℕ) × (v : List ℕ) × In (k, v) meta
      × (k ≢ usage_name)
      × (e ≡ (to_lower tolower k, v))

  sent_from : (e : Entry) (meta : List Entry) → In e (add_to_stream tolower meta) → Forwarded e meta
  unfolding add_to_stream
  sent_from e [] h = absurd h
  sent_from e ((k, v) ∷ rest) h = elim (Bool-cases (same_bytes k usage_name)) [
    | inl same ↦ let (k', v', i, n, eq) = sent_from e rest (rw same at h) in (k', v', inr i, n, eq)
    | inr other ↦ elim (rw other at h) as (λ x. Forwarded e ((k, v) ∷ rest)) [
      | inl eq ↦ (
        k,
        v,
        inl refl,
        λ is.
            (let y : same_bytes k usage_name ≡ true =
                ap (λ x. same_bytes x usage_name) is ∙ same_bytes_self usage_name in
              cc),
        eq,
      )
      | inr i ↦ let (k', v', j, n, eq) = sent_from e rest i in (k', v', inr j, n, eq)
    ]
  ]

  sent_to :
      (k v : List ℕ) (meta : List Entry)
      → In (k, v) meta
      → k ≢ usage_name
      → In (to_lower tolower k, v) (add_to_stream tolower meta)
  unfolding add_to_stream
  sent_to k v [] h n = absurd h
  sent_to k v ((k', v') ∷ rest) (inl e) n = elim (Bool-cases (same_bytes k' usage_name)) [
    | inl same ↦ absurd (n (ap (λ x. x.0) e ∙ same_bytes→eq k' usage_name same))
    | inr other ↦ rw other (inl (ap (λ x. (to_lower tolower x.0, x.1)) e))
  ]
  sent_to k v ((k', v') ∷ rest) (inr i) n = elim (Bool-cases (same_bytes k' usage_name)) [
    | inl same ↦ rw same (sent_to k v rest i n)
    | inr other ↦ rw other (inr (sent_to k v rest i n))
  ]

  -- The stream and the version calls carry the same entries: the route key of the two parties, the
  -- service and the host, and the channel's own entries with their keys in lower case, all but the
  -- one whose key is net_usage_redis_key.
  pub sender_metadata-version_metadata :
      (to_partyid partyid : ℕ) (meta : List Entry)
      → (version_metadata tolower to_partyid partyid meta
          ≡ sender_metadata tolower to_partyid partyid meta)
        × ((e : Entry)
            → In e (sender_metadata tolower to_partyid partyid meta) ↔ (
                In e (
                  (object_name, object_key to_partyid partyid)
                  ∷ (service_name, service)
                  ∷ (host_name, host)
                  ∷ [])
                ⊎ Forwarded e meta))
  unfolding version_metadata sender_metadata
  sender_metadata-version_metadata to_partyid partyid meta =
      (rw (add_to_call-add_to_stream meta) refl, λ e. (split e, join e))
    where
      split :
          (e : Entry)
          → In e (sender_metadata tolower to_partyid partyid meta)
          → In e (
              (object_name, object_key to_partyid partyid)
              ∷ (service_name, service)
              ∷ (host_name, host)
              ∷ [])
            ⊎ Forwarded e meta
      split e (inl h) = inl (inl h)
      split e (inr (inl h)) = inl (inr (inl h))
      split e (inr (inr (inl h))) = inl (inr (inr (inl h)))
      split e (inr (inr (inr h))) = inr (sent_from e meta h)

      join :
          (e : Entry)
          → In e (
              (object_name, object_key to_partyid partyid)
              ∷ (service_name, service)
              ∷ (host_name, host)
              ∷ [])
            ⊎ Forwarded e meta
          → In e (sender_metadata tolower to_partyid partyid meta)
      join e (inl (inl h)) = inl h
      join e (inl (inr (inl h))) = inr (inl h)
      join e (inl (inr (inr (inl h)))) = inr (inr (inl h))
      join e (inl (inr (inr (inr h)))) = absurd h
      join e (inr (k, v, i, n, eq)) = inr (
          inr
            (inr (subst (λ x. In x (add_to_stream tolower meta)) (sym eq) (sent_to k v meta i n))))
