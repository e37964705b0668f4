-- ===== src/Sender/Tests.antt =====
-- The theorems on the sender, at concrete frames.
use agent_client_protocol_py.Base.{
  ◌≡◌, ◌≢◌, refl, suc, String, true, Option, none, some, [], ◌∷◌, ◌++◌, ok,
}
use agent_client_protocol_py.Base.Lists.{length, All, get_elem?}
use agent_client_protocol_py.Exceptions.{type_error}
use agent_client_protocol_py.Store.{unresolved}
use agent_client_protocol_py.Sender.{
  PendingSend, MessageSender, new_sender, send, take, await_task, failed, Reach, here, next, sent,
  took,
}
use agent_client_protocol_py.Sender.Order.{IsOrdered, Reach-IsOrdered}
use agent_client_protocol_py.Sender.Flush.{rounds, frames_of, rounds_flush}
use agent_client_protocol_py.Sender.Over.{IsStuck, Reach-IsStuck}

abbrev dumps : String → Option String
dumps text = some text

abbrev ping : PendingSend
ping = record { payload = "ping\n"; future = 0 }

abbrev asked : MessageSender
asked = record new_sender { futures = unresolved ∷ []; queue = some ping ∷ [] }

sends : send dumps "ping" new_sender ≡ ok (0, asked)
unfolding send
sends = refl

asked_reached : Reach dumps new_sender ("ping\n" ∷ []) asked
asked_reached = next here (sent "ping" 0 refl sends)

Reach-IsOrdered_example : IsOrdered ("ping\n" ∷ []) (take none asked)
Reach-IsOrdered_example = Reach-IsOrdered dumps ("ping\n" ∷ []) (next asked_reached (took none))

abbrev closing_down : MessageSender
closing_down = record asked { closed = true; queue = some ping ∷ none ∷ [] }

rounds_flush_example :
    (await_task (rounds (suc (length (ping ∷ []))) closing_down) ≡ some (ok tt))
    × ((rounds (suc (length (ping ∷ []))) closing_down).written
        ≡ closing_down.written ++ frames_of (ping ∷ []))
    × ((rounds (suc (length (ping ∷ []))) closing_down).queue ≡ [])
    × All
        (λ item.
          get_elem? (rounds (suc (length (ping ∷ []))) closing_down).futures item.future
          ≢ some unresolved)
        (ping ∷ [])
rounds_flush_example = rounds_flush (ping ∷ []) [] closing_down refl refl

abbrev broken : MessageSender
broken = record new_sender { loop = failed type_error }

abbrev asked_broken : MessageSender
asked_broken = record broken { futures = unresolved ∷ []; queue = some ping ∷ [] }

sends_broken : send dumps "ping" broken ≡ ok (0, asked_broken)
unfolding send
sends_broken = refl

Reach-IsStuck_example : IsStuck broken asked_broken
Reach-IsStuck_example =
    Reach-IsStuck dumps ("ping\n" ∷ []) (next here (sent "ping" 0 refl sends_broken)) refl
