-- ===== src/Worker/Reclaim/Accounting.antt =====
-- reclaim of internal/worker/janitor.go: what an entry with a job is dropped for.
use Prim.Native.String.{String}
use lybrix.Base.{
  ℕ, suc, ◌+◌, ◌≤◌, ◌≡◌, refl, inl, inr, Bool, true, false, Option, none, some, List, [], ◌∷◌, ◌++◌,
  leb, if◌then◌else◌, arith, Bool-cases, Option-cases, length, length-append, count_if,
}
use lybrix.Queue.Sends.{Message, SendError}
use lybrix.Worker.Reclaim.{
  Entry, Server, Streams, Decision, kept, readded, quarantined, quarantine_event_of, drop_entry,
  over_cap, decide_job, reclaim_decide, Reclaimed, note_decision, go_on, reclaim_entries,
}

abbrev pub is_husk : Entry → Bool
is_husk entry = elim entry.job [ none ↦ true | some job ↦ false ]

-- What may become of an entry with a job: it stays where it is, it is copied to the stream's end, or
-- it is buried in a quarantine event with as many deliveries as the cap.
pub data Fate (server : Server) (stream : String) (limit : ℕ) (id : ℕ) (job : Message)
    (st : Streams) : Option Decision → Streams → Type 0 where
  stays : Fate server stream limit id job st none st
  copied :
      Fate server stream limit id job st
        (some readded)
        (record { sent = st.sent ++ job ∷ []; dropped = st.dropped ++ id ∷ [] })
  buried :
      (n : ℕ)
      → server.deliveries id ≡ some n
      → limit ≤ n
      → Fate server stream limit id job st
          (some (quarantined (quarantine_event_of stream job n)))
          (record { sent = st.sent; dropped = st.dropped ++ id ∷ [] })

copied_or_stays :
    (server : Server) (stream : String) (limit id : ℕ) (job : Message) (st : Streams)
    → over_cap limit (server.deliveries id) ≡ false
    → let (decided, st') = decide_job server stream limit id job st in
      Fate server stream limit id job st decided st'
copied_or_stays server stream limit id job st low = elim (Bool-cases (server.refused job)) [
  | inl bad ↦ rw (low, bad) stays
  | inr good ↦ rw (low, good) copied
]

decide_job-Fate :
    (server : Server) (stream : String) (limit id : ℕ) (job : Message) (st : Streams) (o : Option ℕ)
    → server.deliveries id ≡ o
    → let (decided, st') = decide_job server stream limit id job st in
      Fate server stream limit id job st decided st'
decide_job-Fate server stream limit id job st none e =
    copied_or_stays server stream limit id job st (rw e refl)
decide_job-Fate server stream limit id job st (some n) e = elim (Bool-cases (leb limit n)) [
  | inl high ↦ rw (e, high) (buried n e (ground (arith, high)))
  | inr low ↦ copied_or_stays server stream limit id job st (rw e low)
]

-- An entry with a job is given up only for a fresh copy on its stream, or for a quarantine event
-- where its deliveries have reached the cap; otherwise nothing changes.
pub reclaim_decide-Fate :
    (server : Server) (stream : String) (limit : ℕ) (entry : Entry) (job : Message) (st : Streams)
    → entry.job ≡ some job
    → let (decided, st') = reclaim_decide server stream limit entry st in
      Fate server stream limit entry.id job st decided st'
unfolding reclaim_decide
reclaim_decide-Fate server stream limit entry job st has_job =
    rw (has_job, reclaim_decide) (decide_job-Fate server stream limit entry.id job st _ refl)

abbrev pub ledger : Reclaimed → ℕ
ledger acc = length acc.streams.sent + length acc.events

-- A run from `acc` drops no more entries than it makes copies and events, but for `husks`.
abbrev pub Accounted : Reclaimed → ℕ → Reclaimed × Option SendError → Type 0
Accounted acc husks out =
    length out.0.streams.dropped + ledger acc ≤ length acc.streams.dropped + ledger out.0 + husks

Fate-Accounted :
    {server : Server} {stream : String} {limit id : ℕ} {job : Message} {decided : Option Decision}
    {st : Streams} (rest : Reclaimed → Reclaimed × Option SendError) (husks : ℕ) (acc : Reclaimed)
    → Fate server stream limit id job acc.streams decided st
    → ((a : Reclaimed) → Accounted a husks (rest a))
    → Accounted acc husks (go_on rest acc decided st)
Fate-Accounted rest husks acc stays h = omega arith
Fate-Accounted {id = id} {job = job} rest husks acc copied h = omega (
  arith,
  length-append acc.streams.sent (job ∷ []),
  length-append acc.streams.dropped (id ∷ []),
  h (
      note_decision readded
        (record { sent = acc.streams.sent ++ job ∷ []; dropped = acc.streams.dropped ++ id ∷ [] })
        acc),
)
Fate-Accounted {stream = stream} {id = id} {job = job} rest husks acc (buried n e high) h = omega (
  arith,
  length-append acc.events (quarantine_event_of stream job n ∷ []),
  length-append acc.streams.dropped (id ∷ []),
  h (
      note_decision (quarantined (quarantine_event_of stream job n))
        (record { sent = acc.streams.sent; dropped = acc.streams.dropped ++ id ∷ [] }) acc),
)

reclaim_entry-Accounted :
    (server : Server) (stream : String) (limit : ℕ) (entry : Entry) (acc : Reclaimed)
    (rest : Reclaimed → Reclaimed × Option SendError) (husks : ℕ)
    → ((a : Reclaimed) → Accounted a husks (rest a))
    → let (decided, st) = reclaim_decide server stream limit entry acc.streams in
      Accounted acc (if is_husk entry then suc husks else husks) (go_on rest acc decided st)
unfolding reclaim_decide
reclaim_entry-Accounted server stream limit entry acc rest husks h = elim (Option-cases entry.job) [
  | inl empty ↦
      rw (empty, reclaim_decide)
        (omega (
          arith,
          length-append acc.streams.dropped (entry.id ∷ []),
          h (note_decision kept (drop_entry entry.id acc.streams) acc),
        ))
  | inr (job, has_job) ↦
      rw (has_job, reclaim_decide)
        (omega (
          arith,
          Fate-Accounted rest husks acc
              (decide_job-Fate server stream limit entry.id job acc.streams _ refl) h,
        ))
]

-- Over a stream's entries, with or without an error at the end: no more entries are dropped than
-- fresh copies and quarantine events are made, but for those that have no job.
pub reclaim_entries-Accounted :
    (server : Server) (stream : String) (limit : ℕ) (entries : List Entry) (acc : Reclaimed)
    → Accounted acc (count_if is_husk entries) (reclaim_entries server stream limit entries acc)
unfolding reclaim_entries
reclaim_entries-Accounted server stream limit [] acc = omega arith
reclaim_entries-Accounted server stream limit (entry ∷ entries) acc =
    reclaim_entry-Accounted server stream limit entry acc
      (reclaim_entries server stream limit entries) (count_if is_husk entries)
      (reclaim_entries-Accounted server stream limit entries)
