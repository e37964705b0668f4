-- ===== src/Examples/Tests.antt =====
-- The theorems on the examples, at concrete texts, options and prompts.
use agent_client_protocol_py.Base.{
  ◌≡◌, refl, inl, inr, ℤ, pos, if◌then◌else◌, ℕ, ◌≤◌, arith, nat_eq, String, string_eq, contains,
  Bool, true, false, none, some, List, [], ◌∷◌, ◌++◌, map, Result, ok, ◌==◌, Option,
}
use agent_client_protocol_py.Base.Lists.{length}
use agent_client_protocol_py.Exceptions.{Exn, other_error}
use agent_client_protocol_py.Schema.{PermissionOption, allow_once, reject_once}
use agent_client_protocol_py.Helpers.{text_block}
use agent_client_protocol_py.Session.{SessionAccumulator, new_accumulator}
use agent_client_protocol_py.Session.Receive.{Callbacks, IsQuiet, receive, started}
use agent_client_protocol_py.Examples.Lines.{
  is_break, skips_feed, splitlines, slice_lines, slice_text,
}
use agent_client_protocol_py.Examples.Paging.{read_pages, read_pages_whole}
use agent_client_protocol_py.Examples.RoundTrip.{ends_blank, splitlines-slice_text}
use agent_client_protocol_py.Examples.Gemini.{GeminiClient, selected, request_permission, select}
use agent_client_protocol_py.Examples.Permission.{Answers, request_permission-Answers}
use agent_client_protocol_py.Examples.Run.{
  Args, Act, wait, Spawned, with_pipes, Waited, exited, run, connected, converse, interactive_loop,
  shutdown, resolve_gemini_cli, terminate_and_wait,
}
use agent_client_protocol_py.Examples.Ended.{run-Exits}
use agent_client_protocol_py.Examples.Agent.{prompt, new_agent}
use agent_client_protocol_py.Examples.Echo.{listing, chunk_of, prompt-receive}

abbrev lines : List String
lines = "one" ∷ "two" ∷ "three" ∷ []

read_pages_whole_example :
    (read_pages 2 2 lines ≡ lines) × (length (slice_lines (some 2) (some 2) lines) ≤ 2)
read_pages_whole_example = read_pages_whole 2 2 2 lines (omega arith) (omega arith)

abbrev content : String
content = "one\r\ntwo\nthree"

not_blank : ends_blank (slice_lines (some 2) (some 1) (splitlines content)) ≡ false
unfolding slice_lines splitlines is_break skips_feed nat_eq
not_blank = refl

splitlines-slice_text_example :
    splitlines (slice_text content (some 2) (some 1))
    ≡ slice_lines (some 2) (some 1) (splitlines content)
splitlines-slice_text_example = splitlines-slice_text content (some 2) (some 1) not_blank

abbrev options : List PermissionOption
options =
    record { field_meta = none; kind = allow_once; name = "Allow"; option_id = "allow" }
    ∷ record { field_meta = none; kind = reject_once; name = "Reject"; option_id = "reject" }
    ∷ []

abbrev reject : PermissionOption
reject = record { field_meta = none; kind = reject_once; name = "Reject"; option_id = "reject" }

abbrev isdigit : String → Bool
isdigit choice = choice == "2"

abbrev int : String → Result Exn ℕ
int choice = ok 2

abbrev eof : Exn
eof = other_error "EOF when reading a line"

abbrev manual : GeminiClient
manual = record { auto_approve = false }

answers_two :
    request_permission isdigit int eof options ("" ∷ "yes" ∷ "2" ∷ []) manual ≡ ok (selected reject)
unfolding request_permission select string_eq
answers_two = refl

request_permission-Answers_example : Answers options (selected reject)
request_permission-Answers_example =
    request_permission-Answers isdigit int eof options ("" ∷ "yes" ∷ "2" ∷ []) manual
      (selected reject) answers_two

abbrev call : Callbacks (Unit {0})
call callback snap n st = (ok tt, st)

call-IsQuiet : IsQuiet call
call-IsQuiet = record { at = λ callback snap n st. refl }

abbrev empty : SessionAccumulator
empty = new_accumulator false

prompt-receive_example :
    ((prompt listing (text_block "hello" ∷ []) "s" new_agent []).0 ≡ ok "end_turn")
    × (contains (prompt listing (text_block "hello" ∷ []) "s" new_agent []).1.sessions "s" ≡ true)
    × ((receive call call-IsQuiet
          (prompt listing (text_block "hello" ∷ []) "s" new_agent []).2
          (empty, tt)).0.agent_messages
        ≡ (started "s" empty).agent_messages
          ++ map chunk_of (text_block "Client sent:" ∷ text_block "hello" ∷ []))
    × ((receive call call-IsQuiet
          (prompt listing (text_block "hello" ∷ []) "s" new_agent []).2
          (empty, tt)).0.user_messages
        ≡ (started "s" empty).user_messages)
    × ((receive call call-IsQuiet
          (prompt listing (text_block "hello" ∷ []) "s" new_agent []).2
          (empty, tt)).0.agent_thoughts
        ≡ (started "s" empty).agent_thoughts)
prompt-receive_example =
    prompt-receive call "s" (text_block "hello" ∷ []) new_agent empty tt call-IsQuiet
      (inr (inl refl))

-- A program that is found, runs with pipes and ends when it is told to.
abbrev act : Act → Bool → Option Exn × Bool
act wait alive = (none, false)
act _ alive = (none, alive)

abbrev wait_for : Bool → Waited × Bool
wait_for alive = (exited, false)

abbrev returncode : Bool → Option ℤ
returncode alive = if alive then none else some (pos 0)

abbrev spawn : List String → Bool → Spawned × Bool
spawn argv alive = (with_pipes, true)

abbrev args : Args
args = record { gemini = some "gemini"; model = none; sandbox = false; debug = false; yolo = false }

abbrev is_lookup_error : Exn → Bool
is_lookup_error e = false

returned : (alive : Bool) (code : ℤ) → returncode alive ≡ some code → alive ≡ false
returned alive code h = ground (arith, h)

exits_zero : (run act wait_for returncode spawn is_lookup_error args none none [] false).0 ≡ ok 0
unfolding run connected converse interactive_loop shutdown resolve_gemini_cli terminate_and_wait
    string_eq
exits_zero = refl

run-Exits_example :
    (run act wait_for returncode spawn is_lookup_error args none none [] false).1 ≡ false
run-Exits_example =
    run-Exits act wait_for returncode spawn is_lookup_error (λ alive. alive) (λ w h. refl)
      (λ w h. refl) (λ w e h i. cc) returned (λ argv w h. cc) args none none [] false 0 refl
      exits_zero
