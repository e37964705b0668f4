-- ===== src/Stdio/Pipe.antt =====
-- The flow control of `_WritePipeProtocol`: who waits for a drain, and for how long.
use mathlib.Core.Option.{none-ne-some, some-injective}
use agent_client_protocol_py.Base.{
  ◌≡◌, ◌≢◌, refl, sym, ap, ◌∙◌, ℕ, true, false, Option, none, some, arith, null, inl, inr,
  Bool-cases, ◌⊎◌, subst, [], ◌∷◌, ◌++◌, nat_eq,
}
use agent_client_protocol_py.Base.Lists.{
  get_elem?, length, get_elem?-append_inv, get_elem?-append_last,
}
use agent_client_protocol_py.Store.{unresolved, resolved, abandoned, settle}
use agent_client_protocol_py.Store.Pending.{settle_unresolved}
use agent_client_protocol_py.Store.Settled.{settle_pending, settle_other}
use agent_client_protocol_py.Stdio.{
  WritePipeProtocol, new_protocol, pause_writing, resume_writing, drain_helper, drain, waits,
  raises_cancelled, goes_on,
}

-- A task that waits in `drain` is cancelled, and with it the future that it waits for.
unfoldable pub cancel_drain : WritePipeProtocol → WritePipeProtocol
unfolding drain_helper settle
cancel_drain self = elim (drain_helper self) [
  | none ↦ self
  | some f ↦ record self { futures = settle f abandoned self.futures }
]

pub data Step (s : WritePipeProtocol) : WritePipeProtocol → Type 0 where
  pausing : Step s (pause_writing s)
  resuming : Step s (resume_writing s)
  drain_cancelled : Step s (cancel_drain s)

pub data Reach (s : WritePipeProtocol) : WritePipeProtocol → Type 0 where
  here : Reach s s
  next : {t u : WritePipeProtocol} → Reach s t → Step t u → Reach s u

-- There is a waiter exactly while the transport is paused, it is pending or cancelled, and no other
-- future is pending.
abbrev IsWaiter : WritePipeProtocol → ℕ → Type 0
IsWaiter s f = (get_elem? s.futures f ≡ some unresolved) ⊎ (get_elem? s.futures f ≡ some abandoned)

pub record IsFlowing (s : WritePipeProtocol) : Type 0 where
  pub waits : s.paused ≡ true → (f : ℕ) × (s.drain_waiter ≡ some f)
  pub free : s.paused ≡ false → s.drain_waiter ≡ none
  pub live : (f : ℕ) → s.drain_waiter ≡ some f → IsWaiter s f
  pub alone : (g : ℕ) → get_elem? s.futures g ≡ some unresolved → s.drain_waiter ≡ some g

new_protocol-IsFlowing : IsFlowing new_protocol
new_protocol-IsFlowing = record {
  waits = λ h. cc;
  free = λ h. refl;
  live = λ f h. cc;
  alone = λ g h. cc;
}

pause_writing-IsFlowing : (s : WritePipeProtocol) → IsFlowing s → IsFlowing (pause_writing s)
unfolding pause_writing
pause_writing-IsFlowing s h = go s.drain_waiter refl
  where
    go : (o : Option ℕ) → s.drain_waiter ≡ o → IsFlowing (pause_writing s)
    go (some f) e =
        rw (pause_writing, e)
          (record { waits = λ p. (f, e); free = λ p. cc; live = h.live; alone = h.alone })
    go none e =
        rw (pause_writing, e)
          (record {
            waits = λ p. (length s.futures, refl);
            free = λ p. cc;
            live = λ f p. inl (
                subst (λ g. get_elem? (s.futures ++ (unresolved ∷ [])) g ≡ some unresolved)
                  (some-injective _ _ p) (get_elem?-append_last s.futures unresolved));
            alone = λ g p. elim (get_elem?-append_inv s.futures unresolved g p) [
              | inl old ↦ absurd (none-ne-some g (sym e ∙ h.alone g old))
              | inr at ↦ ap some (sym at)
            ];
          })

resume_writing-IsFlowing : (s : WritePipeProtocol) → IsFlowing s → IsFlowing (resume_writing s)
unfolding resume_writing
resume_writing-IsFlowing s h = go s.drain_waiter refl
  where
    go : (o : Option ℕ) → s.drain_waiter ≡ o → IsFlowing (resume_writing s)
    go none e =
        rw (resume_writing, e)
          (record { waits = λ p. cc; free = λ p. e; live = h.live; alone = h.alone })
    go (some f) e =
        rw (resume_writing, e)
          (record {
            waits = λ p. cc;
            free = λ p. refl;
            live = λ g p. cc;
            alone = λ g p.
                let (old, ne) = settle_unresolved f (resolved null) s.futures g refl p in
                absurd (ne (some-injective f g (sym e ∙ h.alone g old)));
          })

settle-IsWaiter :
    (s : WritePipeProtocol) (f g : ℕ)
    → IsWaiter s g
    → IsWaiter (record s { futures = settle f abandoned s.futures }) g
unfolding settle
settle-IsWaiter s f g h =
    ground (arith, settle_pending f abandoned s.futures, settle_other f abandoned s.futures g, h)

cancel_drain-IsFlowing : (s : WritePipeProtocol) → IsFlowing s → IsFlowing (cancel_drain s)
unfolding cancel_drain
cancel_drain-IsFlowing s h = go (drain_helper s) refl
  where
    go : (o : Option ℕ) → drain_helper s ≡ o → IsFlowing (cancel_drain s)
    go none e = rw (cancel_drain, e) h
    go (some f) e =
        rw (cancel_drain, e)
          (record {
            waits = h.waits;
            free = h.free;
            live = λ g p. settle-IsWaiter s f g (h.live g p);
            alone = λ g p. h.alone g (settle_unresolved f abandoned s.futures g refl p).0;
          })

Reach-IsFlowing : {t : WritePipeProtocol} → Reach new_protocol t → IsFlowing t
Reach-IsFlowing here = new_protocol-IsFlowing
Reach-IsFlowing (next reached pausing) = pause_writing-IsFlowing _ (Reach-IsFlowing reached)
Reach-IsFlowing (next reached resuming) = resume_writing-IsFlowing _ (Reach-IsFlowing reached)
Reach-IsFlowing (next reached drain_cancelled) = cancel_drain-IsFlowing _ (Reach-IsFlowing reached)

resume_writing-free : (s : WritePipeProtocol) → (resume_writing s).drain_waiter ≡ none
unfolding resume_writing
resume_writing-free s = go s.drain_waiter refl
  where
    go : (o : Option ℕ) → s.drain_waiter ≡ o → (resume_writing s).drain_waiter ≡ none
    go none e = rw (resume_writing, e) e
    go (some f) e = rw (resume_writing, e) refl

drain-eq :
    (t : WritePipeProtocol) (f : ℕ)
    → t.paused ≡ true
    → t.drain_waiter ≡ some f
    → (get_elem? t.futures f ≡ some unresolved → drain t ≡ waits f)
      × (get_elem? t.futures f ≡ some abandoned → drain t ≡ raises_cancelled)
unfolding drain drain_helper
drain-eq t f paused at =
    (λ pending. ground (arith, paused, at, pending), λ gone. ground (arith, paused, at, gone))

drain-free : (t : WritePipeProtocol) → t.paused ≡ false → drain t ≡ goes_on
unfolding drain drain_helper
drain-free t free = ground (arith, free)

resume_writing-unpaused : (s : WritePipeProtocol) → (resume_writing s).paused ≡ false
unfolding resume_writing
resume_writing-unpaused s = ground arith

-- After any pauses, resumptions and cancellations: while the transport is paused, a drain waits for
-- a future that is pending, or raises `CancelledError` at once; while it is not paused,
-- a drain goes on. A future that is pending is the one that a drain waits for. And once
-- the transport resumes, a drain goes on and no future is pending.
pub Reach-resume_writing :
    {t : WritePipeProtocol} (g : ℕ)
    → Reach new_protocol t
    → (t.paused ≡ true
        → ((f : ℕ) × (drain t ≡ waits f) × (get_elem? t.futures f ≡ some unresolved))
          ⊎ (drain t ≡ raises_cancelled))
      × (t.paused ≡ false → drain t ≡ goes_on)
      × (get_elem? t.futures g ≡ some unresolved → drain t ≡ waits g)
      × (drain (resume_writing t) ≡ goes_on)
      × (get_elem? (resume_writing t).futures g ≢ some unresolved)
Reach-resume_writing {t} g reached =
    let flowing = Reach-IsFlowing reached in
    let after = resume_writing-IsFlowing t flowing in
    (
      λ p.
          let (f, at) = flowing.waits p in
          let (pends, raises) = drain-eq t f p at in
          elim (flowing.live f at) [
            | inl pending ↦ inl (f, pends pending, pending)
            | inr gone ↦ inr (raises gone)
          ],
      drain-free t,
      λ p. elim (Bool-cases t.paused) [
        | inl paused ↦ (drain-eq t g paused (flowing.alone g p)).0 p
        | inr free ↦ absurd (none-ne-some g (sym (flowing.free free) ∙ flowing.alone g p))
      ],
      drain-free (resume_writing t) (resume_writing-unpaused t),
      λ p. none-ne-some g (sym (resume_writing-free t) ∙ after.alone g p),
    )

waits_paused :
    (t : WritePipeProtocol) (f : ℕ)
    → drain_helper t ≡ some f
    → (t.paused ≡ true) × (t.drain_waiter ≡ some f)
unfolding drain_helper
waits_paused t f waiting = ground (arith, waiting)

-- A drain that is cancelled while the transport is paused takes the future with it that every other
-- drain waits for: until the transport resumes, each raises `CancelledError`, later pauses included.
pub cancel_drain-stays :
    (t : WritePipeProtocol) (f : ℕ)
    → drain_helper t ≡ some f
    → get_elem? t.futures f ≡ some unresolved
    → (drain_helper (cancel_drain t) ≡ some f)
      × (get_elem? (cancel_drain t).futures f ≡ some abandoned)
      × (drain (cancel_drain t) ≡ raises_cancelled)
      × (pause_writing (cancel_drain t) ≡ cancel_drain t)
unfolding pause_writing drain_helper cancel_drain
cancel_drain-stays t f waiting pending =
    let (paused, at) = waits_paused t f waiting in
    let cancels = settle_pending f abandoned t.futures pending in
    rw (cancel_drain, waiting)
      (
        ground (arith, paused, at),
        cancels,
        (drain-eq (record t { futures = settle f abandoned t.futures }) f paused at).1 cancels,
        restated paused at,
      )
  where
    restated :
        t.paused ≡ true
        → t.drain_waiter ≡ some f
        → pause_writing (record t { futures = settle f abandoned t.futures })
          ≡ record t { futures = settle f abandoned t.futures }
    restated paused at =
        rw (pause_writing, at, paused)
          (ap
            (λ o. record {
              paused = true;
              drain_waiter = o;
              futures = settle f abandoned t.futures;
            })
            at)
