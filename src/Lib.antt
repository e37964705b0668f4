-- ===== src/Lib.antt =====
-- A verification library for the Python SDK of the Agent Client Protocol (src/acp).
--
-- The program. A peer talks JSON-RPC over lines of JSON. `Connection` sends requests under ids it
-- counts and waits for a future of each; its receive loop gives the peer's requests and
-- notifications to a queue, from which a dispatcher starts one runner each, and its responses to
-- the state store, which settles the futures. On top of it stand two helpers for a session: the
-- `SessionAccumulator` merges the `session/update` notifications of an agent into a snapshot, and
-- an agent's `ToolCallTracker` makes the notifications about its tool calls, for which a
-- `PermissionBroker` asks for approval. A router gives each request and notification that a
-- connection runs to the handler of its method. `ClientSideConnection` and `AgentSideConnection`
-- wrap a connection into the other side's interface; below it, a sender's loop writes the frames,
-- a supervisor keeps the tasks, and a subprocess may stand behind the streams.
--
-- Which file models what:
--   Base: results, JSON values, dicts and lists as Python has them; model_copy is the identity,
--     since no value is mutated here.
--   Schema: the records of src/acp/schema.py that these parts use, field by field; a class that
--     adds a tag alone is a constructor of the union that it is in.
--   Helpers: src/acp/helpers.py.
--   Session: src/acp/contrib/session_state.py. Calls has `_MutableToolCallState`, Accumulator the
--     class and its operations, where a callback is a number and its effect a parameter.
--   Tracker: src/acp/contrib/tool_calls.py. Call has `_TrackedToolCall`, Calls `ToolCallTracker`;
--     the id factory is a parameter.
--   Broker: src/acp/contrib/permissions.py; the requester is a parameter.
--   Exceptions: src/acp/exceptions.py.
--   Store: src/acp/task/state.py, with the futures as numbered values.
--   Queue: src/acp/task/queue.py.
--   Router: src/acp/router.py, with the method names of src/acp/meta.py; Agent and Client have
--     src/acp/agent/router.py and src/acp/client/router.py. The handlers that `_make_func` builds
--     by reflection are the entries under an object's attributes, and act on a world.
--   Connection: src/acp/connection.py and src/acp/task/dispatcher.py. State has the state and what
--     it sends, Incoming the receive loop, Run the runners, the dispatcher and `close`; Reach has
--     the steps between two waits of the event loop, which may come in any order.
--     Close is the rest of `close`, with the sender and the supervisor; Serve follows a request
--     through the queue, the dispatcher and a runner.
--   Sender: src/acp/task/sender.py; the loop's steps lie between its waits, and the outcome of the
--     writer is a step's argument.
--   Supervisor: src/acp/task/supervisor.py; tasks and error handlers are numbers.
--   Utils: src/acp/utils.py; what a caller waits for is a future with the way it is read. Names has
--     `to_camel_case` and `BaseModel.__getattr__`, Compat the wrappers for the old style of calls,
--     OldStyle what a class made compatible does, Reflect `_make_func` of the router, with
--     `getattr` and the signature as parameters.
--   Peers: ClientSide has src/acp/client/connection.py, AgentSide src/acp/agent/connection.py.
--     Delivery, AgentAsks and Notices follow their messages to the other side's router, Responses
--     has what a response says of its handler, Answered follows it back to the caller.
--   Transports: src/acp/transports.py; the calls of the operating system are parameters over a
--     world.
--   Conversation: two connections and the wires between them; a wire holds the frames that one side
--     has sent and the other has not read. State has the steps, in any order; Side counts what a
--     side serves and waits for, Whole keeps these counts, Serve has the steps that serve what has
--     been sent, Load bounds their number, Drain goes on until nothing is left. A side that has
--     begun to close, or whose loop has failed, is outside these steps, as are a line over the
--     reader's limit and a request that gets no response since JSON cannot write what its handler
--     returns, or the data of the error that it raises.
--   Stdio: src/acp/stdio.py. Pipe has the flow control, Spawned a connection to a subprocess.
--   Examples: src/examples. Gemini and Run have src/examples/gemini.py, Lines its `_slice_text`,
--     Agent src/examples/agent.py; Paging, RoundTrip, Permission, Ended and Echo are about these.
--   Scripts: Refs has src/scripts/gen_all.py up to the generators, Comments a loop of
--     src/scripts/gen_schema.py, which runs on fuel: a round for each line, which Inserted shows to
--     be enough.
--
-- A method that changes its object takes and returns the state. An exception is a value. No other
-- definition runs on fuel: the loops follow lists of lines, tasks, callbacks or messages, except
-- `drain` and `rounds`, whose rounds are counted by the entries of the queue and the end mark.
-- Integers are Python's, without a bound.
--
-- Parameters. `json.loads`, `json.dumps` of a frame where Conversation goes on to the end,
-- `isdigit` and `int` of a text, the calls of a file system, `str` of an exception and of a
-- message that is no text, what `readline` returns or raises, the handler's outcome, callbacks, the
-- requester, the id factory, `strip`, the fetch of the schema, how the tasks end that a shutdown
-- cancels and which of them their callbacks have discarded by then,
-- `model_dump`, `model_validate` and the calls of a subprocess.
--
-- What Python code returns, and the data of an error, is a value that JSON writes or `opaque`,
-- which stands for any other.
--
-- The frames that a Connection lists as sent are those that it hands to an open sender.
--
-- Not modelled: the making of the standard streams, the construction of the two sides over asyncio
-- streams, telemetry, logging, the validation of pydantic but for the bounds of the numbers in
-- requests, the rest of the generators under scripts and of the examples, and floats and repeated
-- keys in JSON.
pub mod Base
pub mod Schema
pub mod Session
pub mod Helpers
pub mod Exceptions
pub mod Store
pub mod Queue
pub mod Connection
pub mod Tracker
pub mod Broker
pub mod Router
pub mod Sender
pub mod Supervisor
pub mod Utils
pub mod Peers
pub mod Transports
pub mod Stdio
pub mod Conversation
pub mod Examples
pub mod Scripts
