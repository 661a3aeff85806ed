-- ===== src/Peer/Tracker.antt =====
-- pkg/command/tracker.go: which client waits for which command. A channel is its number; `sent` is
-- what was sent on the channels, in order, and `closed` the channels that were closed.
use go_consensus.Base.{
  ℕ, ◌≡◌, refl, List, [], ◌∷◌, ◌++◌, Bool, true, false, ◌&&◌, Option, none, some, arith, subst,
  ◌==◌, if◌then◌else◌, is_some,
}
use go_consensus.Command.{Command, CommandResult}

pub record TrackerId : Type 0 where
  pub target : ℕ
  pub id : ℕ

abbrev pub same_id : TrackerId → TrackerId → Bool
same_id a b = a.target == b.target && a.id == b.id

module _ {ℓ} {V : Type ℓ} where
  unfoldable pub find : TrackerId → List (TrackerId × V) → Option V
  find k [] = none
  find k ((key, x) ∷ entries) = if same_id key k then some x else find k entries

  unfoldable pub put : TrackerId → V → List (TrackerId × V) → List (TrackerId × V)
  put k new [] = (k, new) ∷ []
  put k new ((key, x) ∷ entries) =
      if same_id key k then (k, new) ∷ entries else (key, x) ∷ put k new entries

  unfoldable pub remove : TrackerId → List (TrackerId × V) → List (TrackerId × V)
  remove k [] = []
  remove k ((key, x) ∷ entries) =
      let rest = remove k entries in if same_id key k then rest else (key, x) ∷ rest

  find-put :
      (k j : TrackerId) (new : V) (entries : List (TrackerId × V))
      → find j (put k new entries) ≡ (if same_id k j then some new else find j entries)
  unfolding find put
  find-put k j new [] = refl
  find-put k j new ((key, x) ∷ entries) = ground (arith, find-put k j new entries)

  find-remove :
      (k j : TrackerId) (entries : List (TrackerId × V))
      → find j (remove k entries) ≡ (if same_id k j then none else find j entries)
  unfolding find remove
  find-remove k j [] = ground arith
  find-remove k j ((key, x) ∷ entries) = ground (arith, find-remove k j entries)

pub record Tracker : Type 0 where
  pub requests : List (TrackerId × ℕ)
  pub responses : List (TrackerId × CommandResult)
  pub sent : List (ℕ × CommandResult)
  pub closed : List ℕ

unfoldable pub make_tracker : Tracker
make_tracker = record { requests = []; responses = []; sent = []; closed = [] }

abbrev pub id_of_command : Command → TrackerId
id_of_command cmd = record { target = cmd.target; id = cmd.timestamp }

abbrev pub id_of_result : CommandResult → TrackerId
id_of_result res = record { target = res.target; id = res.timestamp }

-- `Register`: a result that is there is sent at once.
unfoldable pub register : Command → ℕ → Tracker → Tracker × Bool
unfolding find put
register cmd c t =
    let tid = id_of_command cmd in
    elim (find tid t.responses) [
      | some res ↦ (record t { sent = t.sent ++ (c, res) ∷ [] }, false)
      | none ↦ elim (find tid t.requests) [
        | none ↦ (record t { requests = put tid c t.requests }, true)
        | some old ↦ (t, false)
      ]
    ]

-- `Finish`: a result that nobody waits for is kept.
unfoldable pub finish : CommandResult → Tracker → Tracker
unfolding find put remove
finish res t =
    let tid = id_of_result res in
    elim (find tid t.requests) [
      | some c ↦ record t { requests = remove tid t.requests; sent = t.sent ++ (c, res) ∷ [] }
      | none ↦ record t { responses = put tid res t.responses }
    ]

-- The channels of a map of requests.
unfoldable pub channels : List (TrackerId × ℕ) → List ℕ
channels [] = []
channels ((k, c) ∷ entries) = c ∷ channels entries

-- `FinishAll`.
unfoldable pub finish_all : Tracker → Tracker
unfolding channels
finish_all t = record t { closed = t.closed ++ channels t.requests; requests = [] }

-- No command both waits and has a result.
abbrev pub IsTracker : Tracker → Type 0
IsTracker t = (k : TrackerId) → is_some (find k t.responses) ≡ true → find k t.requests ≡ none

-- `Register` and `Finish` keep that no command both waits for a result and has one.
pub tracker-IsTracker :
    (t : Tracker) (cmd : Command) (c : ℕ) (res : CommandResult)
    → IsTracker t
    → IsTracker (register cmd c t).0 × IsTracker (finish res t)
unfolding register finish
tracker-IsTracker t cmd c res w = (
  (λ k h. ground (arith, w k, find-put (id_of_command cmd) k c t.requests)),
  (λ k h. ground (
    arith,
    w k,
    find-put (id_of_result res) k res t.responses,
    find-remove (id_of_result res) k t.requests,
  )),
)

-- For a command that is neither waited for nor finished, the client gets its result in either order
-- of `Register` and `Finish`, once, and nothing else is sent.
pub register-finish :
    (t : Tracker) (cmd : Command) (c : ℕ) (res : CommandResult)
    → find (id_of_command cmd) t.requests ≡ none
    → find (id_of_command cmd) t.responses ≡ none
    → res.target ≡ cmd.target
    → res.timestamp ≡ cmd.timestamp
    → ((finish res (register cmd c t).0).sent ≡ t.sent ++ (c, res) ∷ [])
      × ((register cmd c (finish res t)).0.sent ≡ t.sent ++ (c, res) ∷ [])
unfolding register finish
register-finish t cmd c res n m e i =
    let k : id_of_command cmd ≡ id_of_result res = cc in
    (
      (let waiting : find (id_of_result res) (put (id_of_command cmd) c t.requests) ≡ some c =
            ground (arith, find-put (id_of_command cmd) (id_of_result res) c t.requests) in
          rw (m, n, waiting, register, finish) (rw (m, n, register) refl)),
      (let free : find (id_of_result res) t.requests ≡ none =
            subst (λ j. find j t.requests ≡ none) k n in
          let there : find (id_of_command cmd) (put (id_of_result res) res t.responses) ≡ some res =
            ground (arith, find-put (id_of_result res) (id_of_command cmd) res t.responses) in
          rw (free, there, register, finish) (rw (free, finish) refl)),
    )
