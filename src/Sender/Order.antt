-- ===== src/Sender/Order.antt =====
-- The writer gets the frames in the order in which they were sent.
use agent_client_protocol_py.Base.Lists.{length}
use mathlib.Core.List.{append_assoc, append-nil}
use agent_client_protocol_py.Base.{
  ◌≡◌, refl, sym, ◌∙◌, ap, ℕ, String, ◌<>◌, Bool, true, false, Option, none, some, List, [], ◌∷◌,
  ◌++◌, ok, arith, Bool-cases, inl, inr,
}
use agent_client_protocol_py.Exceptions.{Exn}
use agent_client_protocol_py.Sender.{
  PendingSend, Loop, taking, draining, returned, failed, MessageSender, new_sender, send, close,
  take, drained, cancel_loop, abandon_send, Step, sent, closing, took, has_drained, loop_cancelled,
  caller_cancelled, Reach, here, next,
}

-- The frames of the items of a queue.
abbrev pub queued : List (Option PendingSend) → List String
queued [] = []
queued (none ∷ q) = queued q
queued (some item ∷ q) = item.payload ∷ queued q

abbrev pub is_failed : Loop → Bool
is_failed (failed e) = true
is_failed _ = false

abbrev pub at_most_one : Option String → List String
at_most_one none = []
at_most_one (some frame) = frame ∷ []

-- The frames taken so far are those written, one that was lost by a failure, and those queued.
pub record IsOrdered (frames : List String) (s : MessageSender) : Type 0 where
  pub lost : Option String
  pub in_order : frames ≡ s.written ++ (at_most_one lost ++ queued s.queue)
  pub none_lost : is_failed s.loop ≡ false → lost ≡ none

queued-append : (p q : List (Option PendingSend)) → queued (p ++ q) ≡ queued p ++ queued q
queued-append [] q = refl
queued-append (none ∷ p) q = queued-append p q
queued-append (some item ∷ p) q = ap (λ fs. item.payload ∷ fs) (queued-append p q)

-- More frames at the end of the queue.
enqueue-IsOrdered :
    (frames more : List String) (s : MessageSender) (q : List (Option PendingSend))
    → queued q ≡ more
    → (h : IsOrdered frames s)
    → frames ++ more ≡ s.written ++ (at_most_one h.lost ++ queued (s.queue ++ q))
enqueue-IsOrdered frames more s q e h =
    rw (queued-append s.queue q, e, h.in_order)
      (append_assoc s.written (at_most_one h.lost ++ queued s.queue) more
        ∙ ap (λ fs. s.written ++ fs) (append_assoc (at_most_one h.lost) (queued s.queue) more))

take-IsOrdered :
    (frames : List String) (outcome : Option Exn) (s : MessageSender)
    → IsOrdered frames s
    → IsOrdered frames (take outcome s)
unfolding take
take-IsOrdered frames outcome s h = go s.loop s.queue outcome refl refl
  where
    -- Nothing is lost while the loop waits.
    all : s.loop ≡ taking → frames ≡ s.written ++ queued s.queue
    all e =
        let kept : h.lost ≡ none = h.none_lost (rw e refl) in
        h.in_order ∙ ap (λ l. s.written ++ (at_most_one l ++ queued s.queue)) kept

    go :
        (l : Loop) (q : List (Option PendingSend)) (o : Option Exn)
        → s.loop ≡ l
        → s.queue ≡ q
        → IsOrdered frames (take o s)
    go taking [] o e k = rw (take, e, k) h
    go taking (none ∷ q) o e k =
        rw (take, e, k)
          (record {
            lost = none;
            in_order = all e ∙ ap (λ r. s.written ++ queued r) k;
            none_lost = λ _. refl;
          })
    go taking (some item ∷ q) none e k =
        rw (take, e, k)
          (record {
            lost = none;
            in_order =
                all e
                ∙ ap (λ r. s.written ++ queued r) k
                ∙ sym (append_assoc s.written (item.payload ∷ []) (queued q));
            none_lost = λ _. refl;
          })
    go taking (some item ∷ q) (some exc) e k =
        rw (take, e, k)
          (record {
            lost = some item.payload;
            in_order = all e ∙ ap (λ r. s.written ++ queued r) k;
            none_lost = λ f. cc f;
          })
    go (draining item) q o e k = rw (take, e) h
    go returned q o e k = rw (take, e) h
    go (failed exc) q o e k = rw (take, e) h

-- Of `drained` and `cancel_loop`: the queue and the frames written stay, and a loop that has not
-- failed afterwards had not failed before.
same-IsOrdered :
    (frames : List String) (s t : MessageSender)
    → t.queue ≡ s.queue
    → t.written ≡ s.written
    → (is_failed t.loop ≡ false → is_failed s.loop ≡ false)
    → IsOrdered frames s
    → IsOrdered frames t
same-IsOrdered frames s t q w l h = record {
  lost = h.lost;
  in_order = rw (q, w) h.in_order;
  none_lost = λ e. h.none_lost (l e);
}

drained-IsOrdered :
    (frames : List String) (outcome : Option Exn) (s : MessageSender)
    → IsOrdered frames s
    → IsOrdered frames (drained outcome s)
unfolding drained
drained-IsOrdered frames outcome s h = go s.loop outcome refl
  where
    go : (l : Loop) (o : Option Exn) → s.loop ≡ l → IsOrdered frames (drained o s)
    go taking o e = rw (drained, e) h
    go (draining item) none e =
        rw (drained, e) (same-IsOrdered frames s _ refl refl (λ _. rw e refl) h)
    go (draining item) (some exc) e =
        rw (drained, e) (same-IsOrdered frames s _ refl refl (λ _. rw e refl) h)
    go returned o e = rw (drained, e) h
    go (failed exc) o e = rw (drained, e) h

cancel_loop-IsOrdered :
    (frames : List String) (s : MessageSender)
    → IsOrdered frames s
    → IsOrdered frames (cancel_loop s)
unfolding cancel_loop
cancel_loop-IsOrdered frames s h = go s.loop refl
  where
    go : (l : Loop) → s.loop ≡ l → IsOrdered frames (cancel_loop s)
    go taking e = rw (cancel_loop, e) (same-IsOrdered frames s _ refl refl (λ _. rw e refl) h)
    go (draining item) e =
        rw (cancel_loop, e) (same-IsOrdered frames s _ refl refl (λ _. rw e refl) h)
    go returned e = rw (cancel_loop, e) h
    go (failed exc) e = rw (cancel_loop, e) h

close-IsOrdered :
    (frames : List String) (s : MessageSender) → IsOrdered frames s → IsOrdered frames (close s)
unfolding close
close-IsOrdered frames s h = elim (Bool-cases s.closed) [
  | inl before ↦ simp (close, before) h
  | inr now ↦
      rw (close, now)
        (record {
          lost = h.lost;
          in_order = sym (append-nil frames) ∙ enqueue-IsOrdered frames [] s (none ∷ []) refl h;
          none_lost = h.none_lost;
        })
]

send-IsOrdered :
    {P : Type 0} (dumps : P → Option String) (payload : P) (text : String) (f : ℕ)
    (frames : List String) (s t : MessageSender)
    → dumps payload ≡ some text
    → send dumps payload s ≡ ok (f, t)
    → IsOrdered frames s
    → IsOrdered (frames ++ ((text <> "\n") ∷ [])) t
send-IsOrdered dumps payload text f frames s t d e h =
    let (q, w, l) = send_ok in
    record {
      lost = h.lost;
      in_order = rw (q, w) (enqueue-IsOrdered frames _ s _ refl h);
      none_lost = λ k. h.none_lost (rw l at k);
    }
  where
    send_ok :
        (t.queue
          ≡ s.queue ++ (some (record { payload = text <> "\n"; future = length s.futures }) ∷ []))
        × (t.written ≡ s.written)
        × (t.loop ≡ s.loop)
    send_ok = unfold send in ground (arith, e, d)

Step-IsOrdered :
    {P : Type 0} (dumps : P → Option String) (frames more : List String) {s t : MessageSender}
    → Step dumps s more t
    → IsOrdered frames s
    → IsOrdered (frames ++ more) t
Step-IsOrdered dumps frames more {s} (sent {t = t} {text = text} payload f d e) h =
    send-IsOrdered dumps payload text f frames s t d e h
Step-IsOrdered dumps frames more {s} closing h = rw append-nil (close-IsOrdered frames s h)
Step-IsOrdered dumps frames more {s} (took o) h = rw append-nil (take-IsOrdered frames o s h)
Step-IsOrdered dumps frames more {s} (has_drained o) h =
    rw append-nil (drained-IsOrdered frames o s h)
Step-IsOrdered dumps frames more {s} loop_cancelled h =
    rw append-nil (cancel_loop-IsOrdered frames s h)
Step-IsOrdered dumps frames more {s} (caller_cancelled f) h =
    rw append-nil (unfold abandon_send in same-IsOrdered frames s _ refl refl (λ k. k) h)

-- Over any steps of a new sender, in any order, the frames taken so far are those that the writer
-- got, in the order in which they were sent, then at most one that was lost, then those queued; and
-- none is lost unless the loop has failed.
pub Reach-IsOrdered :
    {P : Type 0} (dumps : P → Option String) (frames : List String) {t : MessageSender}
    → Reach dumps new_sender frames t
    → IsOrdered frames t
Reach-IsOrdered dumps frames here = record { lost = none; in_order = refl; none_lost = λ _. refl }
Reach-IsOrdered dumps frames (next {frames = before} {more = more} r st) =
    Step-IsOrdered dumps before more st (Reach-IsOrdered dumps before r)
