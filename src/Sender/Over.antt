-- ===== src/Sender/Over.antt =====
-- Once its loop has ended, the sender completes nothing.
use agent_client_protocol_py.Base.{
  ◌≡◌, refl, sym, subst, ◌∙◌, ◌⊎◌, inl, inr, ℕ, nat_eq, String, Bool, true, false, Option, none,
  some, List, [], ◌∷◌, ◌++◌, ok, arith, Bool-cases,
}
use agent_client_protocol_py.Base.Lists.{
  length, get_elem?, get_elem?-append_inv, get_elem?-append_last, get_elem?-set_self,
  get_elem?-set_ne,
}
use agent_client_protocol_py.Exceptions.{Exn}
use agent_client_protocol_py.Store.{Future, unresolved, abandoned, settle}
use agent_client_protocol_py.Sender.{
  Loop, taking, draining, returned, failed, MessageSender, send, close, take, drained, cancel_loop,
  abandon_send, Step, sent, closing, took, has_drained, loop_cancelled, caller_cancelled, Reach,
  here, next,
}

abbrev pub is_over : Loop → Bool
is_over returned = true
is_over (failed e) = true
is_over _ = false

-- What `t` keeps of `s`; a future that it does not keep is pending or was given up by its caller.
pub record IsStuck (s t : MessageSender) : Type 0 where
  pub loop : t.loop ≡ s.loop
  pub written : t.written ≡ s.written
  pub futures :
      (f : ℕ) (v : Future)
      → get_elem? t.futures f ≡ some v
      → (get_elem? s.futures f ≡ some v) ⊎ ((v ≡ unresolved) ⊎ (v ≡ abandoned))

IsStuck-refl : (s : MessageSender) → IsStuck s s
IsStuck-refl s = record { loop = refl; written = refl; futures = λ f v e. inl e }

IsStuck-trans : (s t u : MessageSender) → IsStuck s t → IsStuck t u → IsStuck s u
IsStuck-trans s t u h k = record {
  loop = k.loop ∙ h.loop;
  written = k.written ∙ h.written;
  futures = λ f v e. elim (k.futures f v e) [ inl old ↦ h.futures f v old | inr new ↦ inr new ];
}

same-IsStuck :
    (s t : MessageSender)
    → t.loop ≡ s.loop
    → t.written ≡ s.written
    → t.futures ≡ s.futures
    → IsStuck s t
same-IsStuck s t l w fs = record {
  loop = l;
  written = w;
  futures = λ f v e. inl (subst (λ gs. get_elem? gs f ≡ some v) fs e);
}

settle_abandoned :
    (g : ℕ) (fs : List Future) (f : ℕ) (v : Future)
    → get_elem? (settle g abandoned fs) f ≡ some v
    → (get_elem? fs f ≡ some v) ⊎ ((v ≡ unresolved) ⊎ (v ≡ abandoned))
unfolding settle
settle_abandoned g fs f v e = ground (
  arith,
  get_elem?-set_ne fs g f abandoned,
  get_elem?-set_self fs g {v = abandoned} {w = unresolved},
)

append_unresolved :
    (fs : List Future) (f : ℕ) (v : Future)
    → get_elem? (fs ++ (unresolved ∷ [])) f ≡ some v
    → (get_elem? fs f ≡ some v) ⊎ ((v ≡ unresolved) ⊎ (v ≡ abandoned))
append_unresolved fs f v e = elim (get_elem?-append_inv fs unresolved f e) [
  | inl old ↦ inl old
  | inr last ↦
      let same : get_elem? (fs ++ (unresolved ∷ [])) (length fs) ≡ some v =
        subst (λ i. get_elem? (fs ++ (unresolved ∷ [])) i ≡ some v) last e in
      inr (inl (cc (same, get_elem?-append_last fs unresolved)))
]

send-IsStuck :
    {P : Type 0} (dumps : P → Option String) (payload : P) (text : String) (f : ℕ)
    (s t : MessageSender)
    → dumps payload ≡ some text
    → send dumps payload s ≡ ok (f, t)
    → IsStuck s t
send-IsStuck dumps payload text f s t d e =
    let (fs, w, l) = send_ok in
    record {
      loop = l;
      written = w;
      futures =
          λ g v k. append_unresolved s.futures g v (subst (λ gs. get_elem? gs g ≡ some v) fs k);
    }
  where
    send_ok :
        (t.futures ≡ s.futures ++ (unresolved ∷ [])) × (t.written ≡ s.written) × (t.loop ≡ s.loop)
    send_ok = unfold send in ground (arith, e, d)

over_steps :
    (s : MessageSender) (o : Option Exn)
    → is_over s.loop ≡ true
    → (take o s ≡ s) × (drained o s ≡ s) × (cancel_loop s ≡ s)
over_steps s o h = go s.loop refl h
  where
    go :
        (l : Loop)
        → s.loop ≡ l
        → is_over l ≡ true
        → (take o s ≡ s) × (drained o s ≡ s) × (cancel_loop s ≡ s)
    go taking e h = cc h
    go (draining item) e h = cc h
    go returned e h = unfold take drained cancel_loop in ground (arith, e)
    go (failed exc) e h = unfold take drained cancel_loop in ground (arith, e)

close-IsStuck : (s : MessageSender) → IsStuck s (close s)
unfolding close
close-IsStuck s = elim (Bool-cases s.closed) [
  | inl before ↦ simp (close, before) (IsStuck-refl s)
  | inr now ↦ simp (close, now) (same-IsStuck s _ refl refl refl)
]

Step-IsStuck :
    {P : Type 0} (dumps : P → Option String) (frames : List String) {s t : MessageSender}
    → Step dumps s frames t
    → is_over s.loop ≡ true
    → IsStuck s t
unfolding abandon_send
Step-IsStuck dumps frames {s} (sent {t = t} {text = text} payload f d e) h =
    send-IsStuck dumps payload text f s t d e
Step-IsStuck dumps frames {s} closing h = close-IsStuck s
Step-IsStuck dumps frames {s} (took o) h =
    subst (IsStuck s) (sym (over_steps s o h).0) (IsStuck-refl s)
Step-IsStuck dumps frames {s} (has_drained o) h =
    subst (IsStuck s) (sym (over_steps s o h).1) (IsStuck-refl s)
Step-IsStuck dumps frames {s} loop_cancelled h =
    subst (IsStuck s) (sym (over_steps s none h).2) (IsStuck-refl s)
Step-IsStuck dumps frames {s} (caller_cancelled g) h = record {
  loop = refl;
  written = refl;
  futures = λ f v e. settle_abandoned g s.futures f v e;
}

-- Once the loop of a sender has returned or failed, then over any later steps it stays so, the
-- writer gets no more, and no frame is ever completed: a future that is neither as before nor
-- pending has been given up by its own caller. So a frame that is sent after `close`, or after the
-- writer has raised once, keeps its sender waiting for good.
pub Reach-IsStuck :
    {P : Type 0} (dumps : P → Option String) {s : MessageSender} (frames : List String)
    {t : MessageSender}
    → Reach dumps s frames t
    → is_over s.loop ≡ true
    → IsStuck s t
Reach-IsStuck dumps {s} frames here h = IsStuck-refl s
Reach-IsStuck dumps {s} frames (next {frames = before} {more = more} {t = m} {u = t} r st) h =
    let k = Reach-IsStuck dumps before r h in
    IsStuck-trans s m t k (Step-IsStuck dumps more st (rw k.loop h))
