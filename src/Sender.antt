-- ===== src/Sender.antt =====
-- src/acp/task/sender.py: the queue of frames and the loop that writes them. What the writer does
-- is the outcome of a step: `none`, or the exception that `write` or `drain` raises.
pub mod Order
pub mod Flush
pub mod Over
mod Tests
use agent_client_protocol_py.Base.{
  ℕ, String, ◌<>◌, Bool, true, false, Option, none, some, List, [], ◌∷◌, ◌++◌, ◌≡◌, Json, null,
  Result, ok, err, if◌then◌else◌,
}
use agent_client_protocol_py.Base.Lists.{length}
use agent_client_protocol_py.Exceptions.{Exn, type_error}
use agent_client_protocol_py.Store.{Future, unresolved, resolved, rejected, abandoned, settle}

pub record PendingSend : Type 0 where
  pub payload : String
  pub future : ℕ

-- Where `_loop` stands: at `get`, at `drain` with an item, or at its end.
pub data Loop : Type 0 where
  taking : Loop
  draining : PendingSend → Loop
  returned : Loop
  failed : Exn → Loop

-- `written` is what the writer got, in order; the `None` that `close` puts is the end mark. The
-- futures of the event loop that `send` makes are known by number.
pub record MessageSender : Type 0 where
  pub queue : List (Option PendingSend)
  pub closed : Bool
  pub futures : List Future
  pub written : List String
  pub loop : Loop

-- `__init__`
abbrev pub new_sender : MessageSender
new_sender = record { queue = []; closed = false; futures = []; written = []; loop = taking }

-- `send` up to `await future`, with the future's number. `json.dumps` is a parameter.
unfoldable pub send :
    {P : Type 0} → (P → Option String) → P → MessageSender → Result Exn (ℕ × MessageSender)
send dumps payload self = elim (dumps payload) [
  | none ↦ err type_error
  | some text ↦
      let future = length self.futures in
      ok (
        future,
        record self {
          futures = self.futures ++ (unresolved ∷ []);
          queue = self.queue ++ (some (record { payload = text <> "\n"; future = future }) ∷ []);
        },
      )
]

-- `close` up to the wait for the task of the loop.
unfoldable pub close : MessageSender → MessageSender
close self =
    if self.closed then self else record self { closed = true; queue = self.queue ++ (none ∷ []) }

-- What `await self._task` comes to, once the task is done: `none` while it runs.
unfoldable pub await_task : MessageSender → Option (Result Exn (Unit {0}))
await_task self = elim self.loop [
  | taking ↦ none
  | draining item ↦ none
  | returned ↦ some (ok tt)
  | failed e ↦ some (err e)
]

-- `except Exception as exc`: the item's sender learns of it, and the loop ends by it.
abbrev pub fail : PendingSend → Exn → MessageSender → MessageSender
fail item exc self = record self {
  futures = settle item.future (rejected exc) self.futures;
  loop = failed exc;
}

-- The loop gets an item, if there is one, and writes it.
unfoldable pub take : Option Exn → MessageSender → MessageSender
unfolding settle
take outcome self = elim self.loop [
  | taking ↦ elim self.queue [
    | [] ↦ self
    | none ∷ rest ↦ record self { queue = rest; loop = returned }
    | some item ∷ rest ↦ elim outcome [
      | none ↦ record self {
        queue = rest;
        written = self.written ++ (item.payload ∷ []);
        loop = draining item;
      }
      | some exc ↦ fail item exc (record self { queue = rest })
    ]
  ]
  | other ↦ self
]

-- The writer has drained, or raises.
unfoldable pub drained : Option Exn → MessageSender → MessageSender
unfolding settle
drained outcome self = elim self.loop [
  | draining item ↦ elim outcome [
    | none ↦ record self {
      futures = settle item.future (resolved null) self.futures;
      loop = taking;
    }
    | some exc ↦ fail item exc self
  ]
  | other ↦ self
]

-- The task of the loop is cancelled.
unfoldable pub cancel_loop : MessageSender → MessageSender
cancel_loop self = elim self.loop [
  | taking ↦ record self { loop = returned }
  | draining item ↦ record self { loop = returned }
  | other ↦ self
]

-- The caller that waits for a frame is cancelled.
unfoldable pub abandon_send : ℕ → MessageSender → MessageSender
unfolding settle
abandon_send f self = record self { futures = settle f abandoned self.futures }

-- A step of the sender, with the frames that it takes.
pub data Step {P : Type 0} (dumps : P → Option String) (s : MessageSender)
    : List String → MessageSender → Type 0 where
  sent :
      {t : MessageSender} {text : String} (payload : P) (f : ℕ)
      → dumps payload ≡ some text
      → send dumps payload s ≡ ok (f, t)
      → Step dumps s ((text <> "\n") ∷ []) t
  closing : Step dumps s [] (close s)
  took : (outcome : Option Exn) → Step dumps s [] (take outcome s)
  has_drained : (outcome : Option Exn) → Step dumps s [] (drained outcome s)
  loop_cancelled : Step dumps s [] (cancel_loop s)
  caller_cancelled : (f : ℕ) → Step dumps s [] (abandon_send f s)

pub data Reach {P : Type 0} (dumps : P → Option String) (s : MessageSender)
    : List String → MessageSender → Type 0 where
  here : Reach dumps s [] s
  next :
      {frames more : List String} {t u : MessageSender}
      → Reach dumps s frames t
      → Step dumps t more u
      → Reach dumps s (frames ++ more) u
