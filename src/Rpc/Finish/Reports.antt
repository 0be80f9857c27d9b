-- ===== src/Rpc/Finish/Reports.antt =====
-- What `finish` does and when it crashes.
use gaia_net.Base.{
  if◌then◌else◌, zero, take, length, ℕ, suc, ◌≡◌, refl, sym, ap, ap₂, ◌∙◌, ◌↔◌, ◌⊎◌, inl, inr, Bool,
  true, false, List, [], ◌∷◌, ◌++◌, Option, none, some, Bool-cases,
}
use gaia_net.Base.Int.{ℤ, eqb_ℤ, eqb_ℤ→eq}
use gaia_net.IChannel.{IChannel}
use gaia_net.Redis.{
  RedisClient, Handle, Command, hsets, expires, lpushes, Called, calls, new, Made, null_used, threw,
  made, Env, ping,
}
use gaia_net.Redis.Serves.{Served, new-Served}
use gaia_net.Rpc.Client.{Client, not_inited, v1, v2}
use gaia_net.Rpc.Metadata.{Entry, usage_name}
use gaia_net.Rpc.Finish.{
  Connection, opened, on_made, open_redis, close_redis, deletes, crash, done, finish, find,
  urn_name, usage_key, usage_fields, week, report, issued, close_stream, Closed, unset_stream,
  closed, with_stream, started, report_calls, notify_calls, mesh_calls, on_closed,
}

-- The commands that the record of a channel and the notification take.
abbrev pub mesh_commands : Option (List ℕ) → List ℕ → List Command
mesh_commands none key = []
mesh_commands (some urn) key = hsets key ((urn_name, urn) ∷ []) ∷ []

abbrev pub notify_commands : Option (List ℕ) → List ℕ → List Entry → List Command
notify_commands none key meta = []
notify_commands (some notify_key) key meta =
    mesh_commands (find urn_name meta) key ++ lpushes notify_key key ∷ expires notify_key week ∷ []

abbrev pub commands : Client → IChannel → List Entry → List Command
commands c net meta =
    let key = usage_key net.channel_id c.partyid c.to_partyid in
    hsets key (usage_fields net)
    ∷ expires key week
    ∷ notify_commands (find usage_name meta) key meta

-- Each command, sent to one object.
abbrev pub all_to : Handle → List Command → List Called
all_to h [] = []
all_to h (x ∷ xs) = calls h x ∷ all_to h xs

all_to-append :
    (h : Handle) (xs ys : List Command) → all_to h (xs ++ ys) ≡ all_to h xs ++ all_to h ys
all_to-append h [] ys = refl
all_to-append h (x ∷ xs) ys = ap (◌∷◌ (calls h x)) (all_to-append h xs ys)

module _ (r : RedisClient) (h : Handle) (s : Served r h) where
  mesh_lem :
      (o : Option (List ℕ)) (key : List ℕ) → mesh_calls o r key ≡ all_to h (mesh_commands o key)
  mesh_lem none key = refl
  mesh_lem (some urn) key = rw (s.by_item key (urn_name, urn)) refl

  notify_lem :
      (o : Option (List ℕ)) (key : List ℕ) (meta : List Entry)
      → notify_calls o r key meta ≡ all_to h (notify_commands o key meta)
  notify_lem none key meta = refl
  notify_lem (some notify_key) key meta =
      rw (mesh_lem (find urn_name meta) key, s.by_lpush notify_key key, s.by_expire notify_key week)
        (sym (all_to-append h (mesh_commands (find urn_name meta) key) _))

  report_lem :
      (c : Client) (net : IChannel) (meta : List Entry)
      → report r c net meta ≡ all_to h (commands c net meta)
  unfolding report
  report_lem c net meta =
      rw
        (
          s.by_range _ (usage_fields net),
          s.by_expire _ week,
          notify_lem (find usage_name meta) _ meta,
        )
        refl

-- How many of the first `n` calls go well before one fails.
abbrev pub well_before : (ℕ → Bool) → ℕ → ℕ
well_before answer zero = 0
well_before answer (suc n) =
    let rest = well_before (λ i. answer (suc i)) n in if answer 0 then suc rest else 0

-- The calls up to and with the first that fails.
issued-take :
    (answer : ℕ → Bool) (xs : List Called)
    → issued answer xs ≡ take (suc (well_before answer (length xs))) xs
unfolding issued
issued-take answer [] = refl
issued-take answer (x ∷ xs) = elim (Bool-cases (answer 0)) [
  | inl e ↦ rw e (ap (◌∷◌ x) (issued-take (λ n. answer (suc n)) xs))
  | inr e ↦ rw e refl
]

-- The stream of the version in use is not open.
abbrev pub Streamless : Client → Type 0
Streamless c = ((c.rpc_version ≡ v1) ⊎ (c.rpc_version ≡ v2)) × (c.stream_open ≡ false)

with_stream-unset : (live joins : Bool) → (with_stream live joins ≡ unset_stream) ↔ (live ≡ false)
with_stream-unset true joins = (λ h. absurd (let g = h in cc), λ h. absurd (let g = h in cc))
with_stream-unset false joins = (λ h. refl, λ h. refl)

close_stream-Streamless : (c : Client) → (close_stream c ≡ unset_stream) ↔ Streamless c
unfolding close_stream
close_stream-Streamless c = (there, back)
  where
    there : close_stream c ≡ unset_stream → Streamless c
    there h = elim (Bool-cases (eqb_ℤ c.rpc_version not_inited)) [
      | inl e ↦ absurd (let g : closed false ≡ unset_stream = rw e at h in cc)
      | inr e ↦ elim (Bool-cases (eqb_ℤ c.rpc_version v1)) [
        | inl one ↦ (
          inl (eqb_ℤ→eq c.rpc_version v1 one),
          (with_stream-unset c.stream_open false).0 (rw (e, one) at h),
        )
        | inr other ↦ elim (Bool-cases (eqb_ℤ c.rpc_version v2)) [
          | inl two ↦ (
            inr (eqb_ℤ→eq c.rpc_version v2 two),
            (with_stream-unset c.stream_open (started c.recv_thread_status)).0
                (rw (e, other, two) at h),
          )
          | inr none_of ↦
              absurd (let g : closed false ≡ unset_stream = rw (e, other, none_of) at h in cc)
        ]
      ]
    ]

    back : Streamless c → close_stream c ≡ unset_stream
    back (inl one, shut) = rw one ((with_stream-unset c.stream_open false).1 shut)
    back (inr two, shut) =
        rw two ((with_stream-unset c.stream_open (started c.recv_thread_status)).1 shut)

-- A closed stream, or none.
Closed-cases : (x : Closed) → (x ≡ unset_stream) ⊎ ((joined : Bool) × (x ≡ closed joined))
Closed-cases unset_stream = inl refl
Closed-cases (closed joined) = inr (joined, refl)

-- `finish` crashes exactly when the client uses the first or the second version and its stream was never
-- opened, whatever redis answers.
pub finish-Streamless :
    (c : Client) (connection : Connection) (answer : ℕ → Bool) (net : IChannel) (meta : List Entry)
    → (finish c connection answer net meta ≡ crash) ↔ Streamless c
unfolding finish
finish-Streamless c connection answer net meta = elim (Closed-cases (close_stream c)) [
  | inl e ↦ (λ h. (close_stream-Streamless c).0 e, λ h. rw e refl)
  | inr (joined, e) ↦ (
    λ h. absurd (
        let g : done joined (report_calls c.use_redis connection.redis_client answer c net meta)
            ≡ crash =
          rw e at h in
        cc),
    λ h. absurd (let g : close_stream c ≡ unset_stream = (close_stream-Streamless c).1 h in cc),
  )
]

-- What the constructor has made.
on_made_opened :
    (timeout : ℤ) (m : Made) (connection : Connection)
    → on_made timeout m ≡ opened connection
    → (r : RedisClient) × (m ≡ made r) × (connection.redis_client ≡ some r)
on_made_opened timeout null_used connection h = absurd (let g = h in cc)
on_made_opened timeout threw connection h = absurd (let g = h in cc)
on_made_opened timeout (made r) connection h =
    let same : record { redis_timeout = timeout; redis_client = some r; pinged = some (ping r) }
        ≡ connection =
      cc in
    (r, refl, ap (λ x. x.redis_client) (sym same))

-- `finish` returns, with those of the calls `all` that are made until one fails.
abbrev pub Reported :
    Client → Connection → (ℕ → Bool) → IChannel → List Entry → List Called → Type 0
Reported c connection answer net meta all =
    (joined : Bool) × (finish c connection answer net meta
      ≡ done joined (take (suc (well_before answer (length all))) all))

reports_all :
    (r : RedisClient) (h : Handle)
    → Served r h
    → (c : Client) (connection : Connection) (answer : ℕ → Bool) (net : IChannel)
      (meta : List Entry)
    → c.use_redis ≡ true
    → connection.redis_client ≡ some r
    → ¬ Streamless c
    → Reported c connection answer net meta (all_to h (commands c net meta))
unfolding finish
reports_all r h s c connection answer net meta uses has open_stream =
    let all = all_to h (commands c net meta) in
    let calls_of : report_calls c.use_redis connection.redis_client answer c net meta
        ≡ issued answer all =
      ap₂ (λ b o. report_calls b o answer c net meta) uses has
      ∙ ap (issued answer) (report_lem r h s c net meta) in
    elim (Closed-cases (close_stream c)) [
      | inl e ↦ absurd (open_stream ((close_stream-Streamless c).0 e))
      | inr (joined, e) ↦ (joined, ap₂ on_closed e (calls_of ∙ issued-take answer all))
    ]

-- The end of a client over redis, whose constructor has made its redis client from any environment,
-- and which has opened its stream if it knows the version: all redis calls of `finish` go to the
-- one object that the constructor made and the destructor deletes. They are, in order: the four
-- counters under the key of task and parties, their expiry in a week and, if the channel was given
-- a list for notifications, the mesh's name if there is one, the key on that list, and the list's
-- expiry. `finish` returns also when redis fails, and then the calls end with the first that failed.
pub finish-Reported :
    (atoi : List ℕ → ℤ) (parse_nodes : List ℕ → Option (List (List ℕ × ℤ)))
    (timeout_text : Option (List ℕ)) (env : Env) (redis_address : List ℕ) (c : Client)
    (connection : Connection) (answer : ℕ → Bool) (net : IChannel) (meta : List Entry)
    → open_redis atoi parse_nodes timeout_text env redis_address true ≡ opened connection
    → c.use_redis ≡ true
    → ¬ Streamless c
    → (h : Handle) × (close_redis true connection ≡ some h)
      × Reported c connection answer net meta (all_to h (commands c net meta))
unfolding open_redis close_redis
finish-Reported atoi parse_nodes timeout_text env redis_address c connection answer net meta built
      uses open_stream =
    let (r, made_r, has) =
      on_made_opened _ (new atoi parse_nodes env redis_address) connection built in
    let (h, served) = new-Served atoi parse_nodes env redis_address r made_r in
    (
      h,
      ap deletes has ∙ served.by_delete,
      reports_all r h served c connection answer net meta uses has open_stream,
    )
