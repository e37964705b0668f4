-- ===== src/Conversation/Drain.antt =====
-- A conversation that is served to its end.
use agent_client_protocol_py.Base.{
  ◌≡◌, refl, ◌⊎◌, inl, inr, ℕ, zero, suc, ◌+◌, ◌<◌, ◌≤◌, String, Option, none, some, List, [], ◌∷◌,
  Json, Fields, arith,
}
use agent_client_protocol_py.Exceptions.{Exn}
use agent_client_protocol_py.Store.{Future}
use agent_client_protocol_py.Queue.{RpcTask}
use agent_client_protocol_py.Connection.{Connection, Runner, HandlerOutcome}
use agent_client_protocol_py.Peers.Responses.{arrives}
use agent_client_protocol_py.Conversation.State.{Conversation, new_conversation, Reach}
use agent_client_protocol_py.Conversation.Side.{IsServing}
use agent_client_protocol_py.Conversation.Serving.{no_mark}
use agent_client_protocol_py.Conversation.Moving.{Move-Sends}
use agent_client_protocol_py.Conversation.Whole.{IsWhole}
use agent_client_protocol_py.Conversation.Serve.{
  Serve, Serves, Runs, takes, answers_one, left_serves, right_serves, left_takes, right_takes,
  stays, goes, Serve-Move,
}
use agent_client_protocol_py.Conversation.Load.{load, Runs-load}
use agent_client_protocol_py.Conversation.Answered.{
  IsQuiet, IsPending, reached-IsWhole, IsWhole-settled,
}

module _ (loads : String → Option Json) (exn_text : Exn → String) (to_str : Json → String) where
  -- However a reached conversation is served, reading and serving what has been sent comes to
  -- an end: a run has at most `load` steps.
  pub Runs-bounded :
      (on_left on_right : List ℕ) (s t : Conversation) (n : ℕ)
      → Reach loads exn_text to_str (new_conversation on_left on_right) s
      → Runs loads exn_text to_str s n t
      → n ≤ load s
  Runs-bounded on_left on_right s t n reached r =
      let (_, bounded) =
        Runs-load loads exn_text to_str r
          (reached-IsWhole loads exn_text to_str on_left on_right s reached) in
      omega (arith, bounded)

  -- `write` is `json.dumps`, `handle` what the handlers do with a request.
  module _ (write : Json → String) (handle : Fields → HandlerOutcome)
      (future : Fields → Future) where
    abbrev Progress : Conversation → Type 0
    Progress s = IsQuiet s ⊎ ((t : Conversation) × Serves loads exn_text to_str s t)

    abbrev SideProgress : Connection → Type 0
    SideProgress c =
        ((c.queue.items ≡ []) × (c.requests ≡ []))
        ⊎ ((t : Connection) × Serve loads exn_text to_str c t)

    side_progress :
        (c : Connection)
        → ((message : Fields)
            → arrives loads exn_text to_str (handle message) ≡ some (future message))
        → IsServing c
        → SideProgress c
    side_progress c says h = at_queue c.queue.items refl
      where
        at_runners : c.queue.items ≡ [] → (rs : List Runner) → c.requests ≡ rs → SideProgress c
        at_runners empty [] e = inl (empty, e)
        at_runners empty (runner ∷ rs) e = inr (
          _,
          answers_one 0 runner (handle runner.message) (future runner.message) (rw e refl)
              (says runner.message),
        )

        at_queue : (items : List (Option RpcTask)) → c.queue.items ≡ items → SideProgress c
        at_queue [] e = at_runners e c.requests refl
        at_queue (none ∷ rest) e = absurd (no_mark (rw e at h.tasks).0)
        at_queue (some task ∷ rest) e = inr (_, takes task rest e)

    progress :
        (s : Conversation)
        → ((frame : Json) → loads (write frame) ≡ some frame)
        → ((message : Fields)
            → arrives loads exn_text to_str (handle message) ≡ some (future message))
        → IsWhole loads exn_text to_str s
        → Progress s
    progress s reads says h = at_left s.to_left refl
      where
        on_right :
            s.to_left ≡ []
            → s.to_right ≡ []
            → s.left.queue.items ≡ []
            → s.left.requests ≡ []
            → SideProgress s.right
            → Progress s
        on_right l r q rs (inl (q', rs')) = inl (record {
          to_left = l;
          to_right = r;
          left_queue = q;
          right_queue = q';
          left_requests = rs;
          right_requests = rs';
        })
        on_right l r q rs (inr (t, m)) =
            let (frames, adds, _) =
              Move-Sends loads exn_text to_str (Serve-Move loads exn_text to_str m)
                h.right_serves in
            inr (_, right_serves frames m adds)

        on_left : s.to_left ≡ [] → s.to_right ≡ [] → SideProgress s.left → Progress s
        on_left l r (inl (q, rs)) = on_right l r q rs (side_progress s.right says h.right_serves)
        on_left l r (inr (t, m)) =
            let (frames, adds, _) =
              Move-Sends loads exn_text to_str (Serve-Move loads exn_text to_str m) h.left_serves in
            inr (_, left_serves frames m adds)

        at_right : s.to_left ≡ [] → (wire : List Json) → s.to_right ≡ wire → Progress s
        at_right l [] e = on_left l e (side_progress s.left says h.left_serves)
        at_right l (frame ∷ rest) e = inr (_, right_takes (write frame) frame rest e (reads frame))

        at_left : (wire : List Json) → s.to_left ≡ wire → Progress s
        at_left [] e = at_right e s.to_right refl
        at_left (frame ∷ rest) e = inr (_, left_takes (write frame) frame rest e (reads frame))

    drain :
        (fuel n : ℕ) (s t : Conversation)
        → ((frame : Json) → loads (write frame) ≡ some frame)
        → ((message : Fields)
            → arrives loads exn_text to_str (handle message) ≡ some (future message))
        → IsWhole loads exn_text to_str s
        → Runs loads exn_text to_str s n t
        → load s < n + fuel
        → (u : Conversation) × (k : ℕ) × Runs loads exn_text to_str s k u × IsQuiet u
    drain zero n s t reads says h r enough =
        let (_, bounded) = Runs-load loads exn_text to_str r h in absurd (omega (arith, bounded))
    drain (suc fuel) n s t reads says h r enough =
        let (whole, _) = Runs-load loads exn_text to_str r h in
        elim (progress t reads says whole) [
          | inl quiet ↦ (t, n, r, quiet)
          | inr (u, st) ↦ drain fuel (suc n) s u reads says h (goes r st) (omega (arith, enough))
        ]

    -- If `json.loads` reads what `json.dumps` writes, and no handler returns a value or raises an
    -- error with data that JSON cannot write, then a conversation that has been reached with such
    -- handlers, and with lines within the reader's limit, can be served, in at most `load` steps,
    -- until no frame, task or runner of a request is left; and then no future of either side is
    -- pending: each request that was under way has its answer.
    pub served :
        (on_left on_right : List ℕ) (s : Conversation)
        → ((frame : Json) → loads (write frame) ≡ some frame)
        → ((message : Fields)
            → arrives loads exn_text to_str (handle message) ≡ some (future message))
        → Reach loads exn_text to_str (new_conversation on_left on_right) s
        → (t : Conversation) × (n : ℕ) × Runs loads exn_text to_str s n t
          × (n ≤ load s)
          × IsQuiet t
          × ((f : ℕ) → (¬ IsPending t.left f) × (¬ IsPending t.right f))
    served on_left on_right s reads says reached =
        let whole = reached-IsWhole loads exn_text to_str on_left on_right s reached in
        let (t, n, r, quiet) = drain (suc (load s)) 0 s s reads says whole stays (omega arith) in
        let (after, bounded) = Runs-load loads exn_text to_str r whole in
        (
          t,
          n,
          r,
          omega (arith, bounded),
          quiet,
          λ f. IsWhole-settled loads exn_text to_str t f after quiet,
        )

    -- If `json.loads` reads what `json.dumps` writes, and no handler returns a value or raises an
    -- error with data that JSON cannot write, then however a conversation that has been reached with
    -- such handlers, and with lines within the reader's limit, is served, it can be served further
    -- as long as a future of either side is pending.
    pub pending-Serves :
        (on_left on_right : List ℕ) (s t : Conversation) (n f : ℕ)
        → ((frame : Json) → loads (write frame) ≡ some frame)
        → ((message : Fields)
            → arrives loads exn_text to_str (handle message) ≡ some (future message))
        → Reach loads exn_text to_str (new_conversation on_left on_right) s
        → Runs loads exn_text to_str s n t
        → IsPending t.left f ⊎ IsPending t.right f
        → (u : Conversation) × Serves loads exn_text to_str t u
    pending-Serves on_left on_right s t n f reads says reached r pending =
        let whole = reached-IsWhole loads exn_text to_str on_left on_right s reached in
        let (after, _) = Runs-load loads exn_text to_str r whole in
        elim (progress t reads says after) [
          | inr (u, st) ↦ (u, st)
          | inl quiet ↦
              let (left, right) = IsWhole-settled loads exn_text to_str t f after quiet in
              elim pending [ inl p ↦ absurd (left p) | inr p ↦ absurd (right p) ]
        ]
