-- ===== src/Queue/Sends.antt =====
-- XAddJob of internal/queue/streams.go, and the loops of the handlers that call it. The Redis server
-- is a parameter: `refused` tells for which messages XADD reports an error. The stream names are the
-- constructors of Message.
use lybrix.Base.{
  ◌≡◌, sym, ap, ◌∙◌, inl, inr, Bool, false, Option, none, some, List, [], ◌∷◌, ◌++◌, if◌then◌else◌,
  append_assoc, append-nil, any_of, Bool-cases, arith,
}
use lybrix.Queue.Jobs.{SplitJob, ParseJob, EmbedJob}

pub data Message : Type 0 where
  on_split : SplitJob → Message
  on_parse : ParseJob → Message
  on_embed : EmbedJob → Message

-- What is on the streams: every message added, in the order of the calls.
abbrev pub Sent : Type 0
Sent = List Message

pub data SendError : Type 0 where
  xadd_failed : SendError

-- `for _, job := range jobs { if _, err := XAddJob(…); err != nil { return err } }`: what has been
-- sent before an error stays sent.
unfoldable pub send_all : (Message → Bool) → List Message → Sent → Sent × Option SendError
send_all refused [] sent = (sent, none)
send_all refused (m ∷ ms) sent =
    let rest = send_all refused ms (sent ++ m ∷ []) in
    if refused m then (sent, some xadd_failed) else rest

pub send_all-accepted :
    (refused : Message → Bool) (ms : List Message) (sent : Sent)
    → any_of refused ms ≡ false
    → send_all refused ms sent ≡ (sent ++ ms, none)
unfolding send_all
send_all-accepted refused [] sent h = ap (λ l. (l, none)) (sym (append-nil sent))
send_all-accepted refused (m ∷ ms) sent h = elim (Bool-cases (refused m)) [
  | inl bad ↦ absurd (ground (arith, h, bad))
  | inr good ↦ rw good (
      send_all-accepted refused ms (sent ++ m ∷ []) (rw good at h)
      ∙ ap (λ l. (l, none)) (append_assoc sent (m ∷ []) ms))
]
