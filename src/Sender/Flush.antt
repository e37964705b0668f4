-- ===== src/Sender/Flush.antt =====
-- A sender that is closed writes what it has taken, and then its loop ends.
use mathlib.Core.List.{append_assoc, append-nil}
use agent_client_protocol_py.Base.{
  ◌≡◌, ◌≢◌, refl, sym, subst, ◌∙◌, ℕ, zero, suc, String, Option, none, some, List, [], ◌∷◌, ◌++◌,
  map, null, ok,
}
use agent_client_protocol_py.Base.Lists.{length, All, get_elem?}
use agent_client_protocol_py.Store.{Future, unresolved, resolved, settle}
use agent_client_protocol_py.Store.Pending.{settle_unresolved}
use agent_client_protocol_py.Sender.{
  PendingSend, taking, returned, MessageSender, take, drained, await_task,
}

-- Rounds of the loop with a writer that never raises.
abbrev pub rounds : ℕ → MessageSender → MessageSender
rounds zero s = s
rounds (suc n) s = rounds n (drained none (take none s))

abbrev pub frames_of : List PendingSend → List String
frames_of = map (λ item. item.payload)

abbrev after : PendingSend → List (Option PendingSend) → MessageSender → MessageSender
after item q s = record s {
  queue = q;
  written = s.written ++ (item.payload ∷ []);
  futures = settle item.future (resolved null) s.futures;
  loop = taking;
}

round_item :
    (item : PendingSend) (q : List (Option PendingSend)) (s : MessageSender)
    → s.loop ≡ taking
    → s.queue ≡ some item ∷ q
    → drained none (take none s) ≡ after item q s
unfolding take drained
round_item item q s e k = simp (take, e, k) refl

round_end :
    (q : List (Option PendingSend)) (s : MessageSender)
    → s.loop ≡ taking
    → s.queue ≡ none ∷ q
    → drained none (take none s) ≡ record s { queue = q; loop = returned }
unfolding take drained
round_end q s e k = simp (take, e, k) refl

rounds_unresolved :
    (items : List PendingSend) (q : List (Option PendingSend)) (s : MessageSender) (g : ℕ)
    → s.loop ≡ taking
    → s.queue ≡ map some items ++ (none ∷ q)
    → get_elem? (rounds (suc (length items)) s).futures g ≡ some unresolved
    → (get_elem? s.futures g ≡ some unresolved) × All (λ item. item.future ≢ g) items
rounds_unresolved [] q s g e k h =
    (subst (λ t. get_elem? t.futures g ≡ some unresolved) (round_end q s e k) h, tt)
rounds_unresolved (item ∷ items) q s g e k h =
    let t = after item (map some items ++ (none ∷ q)) s in
    let h' : get_elem? (rounds (suc (length items)) t).futures g ≡ some unresolved =
      subst (λ t. get_elem? (rounds (suc (length items)) t).futures g ≡ some unresolved)
        (round_item item (map some items ++ (none ∷ q)) s e k) h in
    let (pending, others) = rounds_unresolved items q t g refl refl h' in
    let (was, off) = settle_unresolved item.future (resolved null) s.futures g refl pending in
    (was, (off, others))

-- The end of `rounds`, but for the futures.
rounds_end :
    (items : List PendingSend) (q : List (Option PendingSend)) (s : MessageSender)
    → s.loop ≡ taking
    → s.queue ≡ map some items ++ (none ∷ q)
    → ((rounds (suc (length items)) s).loop ≡ returned)
      × ((rounds (suc (length items)) s).written ≡ s.written ++ frames_of items)
      × ((rounds (suc (length items)) s).queue ≡ q)
rounds_end [] q s e k = rw (round_end q s e k) (refl, sym (append-nil s.written), refl)
rounds_end (item ∷ items) q s e k =
    let rest = map some items ++ (none ∷ q) in
    let (ends, writes, leaves) = rounds_end items q (after item rest s) refl refl in
    subst
      (λ t.
        ((rounds (suc (length items)) t).loop ≡ returned)
        × ((rounds (suc (length items)) t).written ≡ s.written ++ frames_of (item ∷ items))
        × ((rounds (suc (length items)) t).queue ≡ q))
      (sym (round_item item rest s e k))
      (ends, writes ∙ append_assoc s.written (item.payload ∷ []) (frames_of items), leaves)

await_returned : (s : MessageSender) → s.loop ≡ returned → await_task s ≡ some (ok tt)
unfolding await_task
await_returned s e = simp (await_task, e) refl

pending_apart :
    (items : List PendingSend) (futures : List Future)
    → ((g : ℕ) → get_elem? futures g ≡ some unresolved → All (λ item. item.future ≢ g) items)
    → All (λ item. get_elem? futures item.future ≢ some unresolved) items
pending_apart [] futures h = tt
pending_apart (item ∷ items) futures h = (
  λ pending. (h item.future pending).0 refl,
  pending_apart items futures (λ g pending. (h g pending).1),
)

-- If the loop waits and the queue holds some items and then the end mark, whatever comes behind,
-- then after as many rounds as there are items and one more, with a writer that does not raise: the
-- loop has returned, so that `close` goes on without an exception; the writer got the frames of
-- the items in order; and no future of an item is pending.
pub rounds_flush :
    (items : List PendingSend) (q : List (Option PendingSend)) (s : MessageSender)
    → s.loop ≡ taking
    → s.queue ≡ map some items ++ (none ∷ q)
    → (await_task (rounds (suc (length items)) s) ≡ some (ok tt))
      × ((rounds (suc (length items)) s).written ≡ s.written ++ frames_of items)
      × ((rounds (suc (length items)) s).queue ≡ q)
      × All
          (λ item. get_elem? (rounds (suc (length items)) s).futures item.future ≢ some unresolved)
          items
rounds_flush items q s e k =
    let (ends, writes, leaves) = rounds_end items q s e k in
    (
      await_returned _ ends,
      writes,
      leaves,
      pending_apart items _ (λ g h. (rounds_unresolved items q s g e k h).1),
    )
